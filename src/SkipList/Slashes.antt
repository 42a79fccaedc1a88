-- ===== src/SkipList/Slashes.antt =====
-- `fixedSlashCompare` of src/skiplist.cpp: a pattern and a path are compared directory by directory.
use cbftp.Common.{
  ℕ, zero, suc, ◌+◌, ◌<◌, ◌≡◌, ◌↔◌, refl, Bool, true, false, Option, none, some, List, [], ◌∷◌,
  is_true, if◌then◌else◌, ◌==◌, Bytes, arith, Option-cases, Bool-cases, inl, inr, length, Returns,
  Answers, Answers-iff,
}
use cbftp.Util.Wildcard.{same, same_case, wildcmp, wildcmp_case}
use cbftp.Util.Wildcard.Matching.{Matches}
use cbftp.Util.Wildcard.Correct.{wildcmp_decides, wildcmp_case_decides}
use cbftp.SkipList.{slash, split_slash, wild_test, fixed_slash_loop, fixed_slash_compare}

abbrev push_first : ℕ → List Bytes → List Bytes
push_first c [] = (c ∷ []) ∷ []
push_first c (s ∷ ss) = (c ∷ s) ∷ ss

-- The texts between the slashes.
unfoldable pub segments : Bytes → List Bytes
segments [] = [] ∷ []
segments (c ∷ s) = if c == slash then [] ∷ segments s else push_first c (segments s)

abbrev pub SegmentsMatch : (ℕ → ℕ → Bool) → List Bytes → List Bytes → Type 0
SegmentsMatch test [] [] = Unit {0}
SegmentsMatch test [] (e ∷ es) = ⊥
SegmentsMatch test (w ∷ ws) [] = ⊥
SegmentsMatch test (w ∷ ws) (e ∷ es) = Matches test w e × SegmentsMatch test ws es

pub segments-none : (s : Bytes) → split_slash s ≡ none → segments s ≡ s ∷ []
unfolding segments split_slash
segments-none [] h = refl
segments-none (c ∷ s) h = ground (arith, segments-none s)

segments-some :
    (s a b : Bytes)
    → split_slash s ≡ some (a, b)
    → (segments s ≡ a ∷ segments b) × (length b < length s)
unfolding segments split_slash
segments-some [] a b h = cc
segments-some (c ∷ s) a b h = elim (Bool-cases (c == slash)) [
  | inl e ↦ ground arith
  | inr e ↦ elim (Option-cases (split_slash s)) [
    | inl n ↦ ground arith
    | inr ((x, y), k) ↦ ground (arith, segments-some s x y k)
  ]
]

segments_pair : (s : Bytes) → (c : Bytes) × (cs : List Bytes) × (segments s ≡ c ∷ cs)
unfolding segments
segments_pair [] = ([], [], refl)
segments_pair (c ∷ s) = elim (Bool-cases (c == slash)) [
  | inl e ↦ ([], segments s, rw e)
  | inr e ↦ let (x, xs, h) = segments_pair s in (c ∷ x, xs, rw (e, h))
]

abbrev pub test_of : Bool → ℕ → ℕ → Bool
test_of casesensitive = if casesensitive then same_case else same

pub returned_iff : {G : Type 0} (r : Option Bool) → Answers G r → (is_true r ≡ true) ↔ G
returned_iff none h = absurd h
returned_iff (some b) h = h

wild_test_iff : (cs : Bool) (w e : Bytes) → (wild_test cs w e ≡ true) ↔ Matches (test_of cs) w e
wild_test_iff true w e = returned_iff (wildcmp_case w e) (wildcmp_case_decides w e)
wild_test_iff false w e = returned_iff (wildcmp w e) (wildcmp_decides w e)

one_segment :
    (cs : Bool) (w e : Bytes)
    → (wild_test cs w e ≡ true) ↔ SegmentsMatch (test_of cs) (w ∷ []) (e ∷ [])
one_segment cs w e = (λ h. ((wild_test_iff cs w e).0 h, tt), λ m. (wild_test_iff cs w e).1 m.0)

-- A text of one segment, and one of more.
module _ (test : ℕ → ℕ → Bool) (w w' e e' a b : Bytes) where
  one_more :
      segments w ≡ w ∷ []
      → segments e ≡ b ∷ segments e'
      → ¬ SegmentsMatch test (segments w) (segments e)
  one_more h k m = let (c, cs, q) = segments_pair e' in (rw (h, k, q) at m).1

  more_one :
      segments w ≡ a ∷ segments w'
      → segments e ≡ e ∷ []
      → ¬ SegmentsMatch test (segments w) (segments e)
  more_one h k m = let (c, cs, q) = segments_pair w' in (rw (h, q, k) at m).1

fixed_slash_loop-Answers :
    (f : ℕ) (w e : Bytes) (cs : Bool)
    → length w < f
    → Answers (SegmentsMatch (test_of cs) (segments w) (segments e)) (fixed_slash_loop f w e cs)
unfolding fixed_slash_loop
fixed_slash_loop-Answers zero w e cs h = absurd (omega arith)
fixed_slash_loop-Answers (suc f) w e cs h = elim (Option-cases (split_slash w)) [
  | inl p ↦ elim (Option-cases (split_slash e)) [
    | inl q ↦ rw (p, q, fixed_slash_loop, segments-none w p, segments-none e q) (one_segment cs w e)
    | inr ((b, e'), q) ↦
        rw (p, q, fixed_slash_loop)
          (
            λ (x : false ≡ true). cc,
            λ m. absurd (
                one_more (test_of cs) w w e e' w b (segments-none w p) (segments-some e b e' q).0
                  m),
          )
  ]
  | inr ((a, w'), p) ↦ elim (Option-cases (split_slash e)) [
    | inl q ↦
        rw (p, q, fixed_slash_loop)
          (
            λ (x : false ≡ true). cc,
            λ m. absurd (
                more_one (test_of cs) w w' e e a e (segments-some w a w' p).0 (segments-none e q)
                  m),
          )
    | inr ((b, e'), q) ↦ elim (Bool-cases (wild_test cs a b)) [
      | inl t ↦
          rw (p, q, t, fixed_slash_loop)
            (Answers-iff (fixed_slash_loop f w' e' cs)
              (rw ((segments-some w a w' p).0, (segments-some e b e' q).0)
                (λ m. ((wild_test_iff cs a b).0 t, m), λ m. m.1))
              (fixed_slash_loop-Answers f w' e' cs (omega (arith, (segments-some w a w' p).1))))
      | inr t ↦
          rw (p, q, t, fixed_slash_loop)
            (
              λ (x : false ≡ true). cc,
              λ m.
                  let n = rw ((segments-some w a w' p).0, (segments-some e b e' q).0) at m in
                  let y = (wild_test_iff cs a b).1 n.0 in cc,
            )
    ]
  ]
]

-- `fixedSlashCompare` ends without a fault on every pattern and path, and returns true exactly if they
-- have equally many parts between slashes and each part of the path matches the pattern's part at
-- that place, so that no star stands for a slash.
pub fixed_slash_compare_decides :
    (w e : Bytes) (cs : Bool)
    → Returns
        (λ b. (b ≡ true) ↔ SegmentsMatch (test_of cs) (segments w) (segments e))
        (fixed_slash_compare w e cs)
unfolding fixed_slash_compare
fixed_slash_compare_decides w e cs = fixed_slash_loop-Answers (length w + 1) w e cs (omega arith)
