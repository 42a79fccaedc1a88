-- ===== src/Util/Wildcard.antt =====
-- `wildcmp` and `wildcmpCase` of src/util.cpp: the same loop over two tests of a character. A pointer
-- into a text is the text from there on. `none` is a run out of fuel or through a null pointer.
pub mod Matching
pub mod Correct
mod Examples
use cbftp.Common.{
  ℕ, zero, suc, ◌+◌, ◌-◌, ◌*◌, Bool, true, false, ◌&&◌, ◌||◌, Option, none, some, List, [], ◌∷◌,
  if◌then◌else◌, leb, ◌==◌, length, Bytes,
}

-- '*'
abbrev pub star : ℕ
star = 42

-- '?'
abbrev pub question : ℕ
question = 63

-- What a character of the pattern accepts in `wildcmpCase`, and in `wildcmp`.
unfoldable pub same_case : ℕ → ℕ → Bool
same_case w c = w == c || w == question

unfoldable pub same : ℕ → ℕ → Bool
same w c =
    w == c
    || w == question
    || (leb 65 w && leb w 90 && w + 32 == c)
    || (leb 97 w && leb w 122 && w - 32 == c)

-- The last loop, and the value that is returned after it.
unfoldable pub only_stars : Bytes → Bool
only_stars [] = true
only_stars (w ∷ p) = if w == star then only_stars p else false

-- `mp` and `cp`, once there has been a star.
abbrev pub Back : Type 0
Back = Option (Bytes × Bytes)

abbrev pub after : Bytes → Bytes
after [] = []
after (c ∷ s) = s

module _ (test : ℕ → ℕ → Bool) where
  -- The first loop: what is left of both texts at the first star, or `none` where it returns 0.
  pub before_star : Bytes → Bytes → Back
  before_star wild [] = some (wild, [])
  before_star [] (c ∷ s) = none
  before_star (w ∷ p) (c ∷ s) =
      if w == star then some (w ∷ p, c ∷ s) else (if test w c then before_star p s else none)

  -- The second loop; the cases of an `elim` wait, so that one of the calls is made.
  pub loop : ℕ → Bytes → Bytes → Back → Option Bool
  unfolding only_stars
  loop f wild [] back = some (only_stars wild)
  loop zero wild (c ∷ s) back = none
  loop (suc f) [] (c ∷ s) back = elim back [
    | none ↦ none
    | some (mp, cp) ↦ loop f mp cp (some (mp, after cp))
  ]
  loop (suc f) (w ∷ []) (c ∷ s) back = elim (w == star) [
    | true ↦ some true
    | false ↦ elim (test w c) [
      | true ↦ loop f [] s back
      | false ↦ elim back [ none ↦ none | some (mp, cp) ↦ loop f mp cp (some (mp, after cp)) ]
    ]
  ]
  loop (suc f) (w ∷ v ∷ p) (c ∷ s) back = elim (w == star) [
    | true ↦ loop f (v ∷ p) (c ∷ s) (some (v ∷ p, s))
    | false ↦ elim (test w c) [
      | true ↦ loop f (v ∷ p) s back
      | false ↦ elim back [ none ↦ none | some (mp, cp) ↦ loop f mp cp (some (mp, after cp)) ]
    ]
  ]

  pub compare_with : Bytes → Bytes → Option Bool
  unfolding before_star loop
  compare_with wild text = elim (before_star wild text) [
    | none ↦ some false
    | some (w, s) ↦ loop ((length s + 1) * (length w + 1)) w s none
  ]

unfoldable pub wildcmp : Bytes → Bytes → Option Bool
unfolding compare_with same
wildcmp = compare_with same

unfoldable pub wildcmp_case : Bytes → Bytes → Option Bool
unfolding compare_with same_case
wildcmp_case = compare_with same_case
