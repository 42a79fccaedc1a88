-- ===== src/ScoreBoard/Sort/Order.antt =====
-- The order of the elements that the sort of src/scoreboard.cpp leaves.
use cbftp.Common.{
  ℕ, zero, suc, ◌+◌, ◌≤◌, ◌<◌, ◌≡◌, refl, ap, subst, true, false, inl, inr, List, [], ◌∷◌, ◌++◌,
  if◌then◌else◌, ◌==◌, ltb, length, Bool-cases, arith, length-append,
}
use mathlib.Core.List.{Perm, perm_middle}
use mathlib.Core.List.Perm
use cbftp.ScoreBoard.Sort.Counting.{below, below-suc, below-zero}
use cbftp.ScoreBoard.Sort.Buckets.{bucket, length-bucket}

-- The last one first.
abbrev pub reverse_onto : List ℕ → List ℕ → List ℕ
reverse_onto [] placed = placed
reverse_onto (e ∷ es) placed = reverse_onto es (e ∷ placed)

pub reverse_onto-perm : (es placed : List ℕ) → Perm (reverse_onto es placed) (es ++ placed)
reverse_onto-perm [] placed = Perm.refl placed
reverse_onto-perm (e ∷ es) placed =
    Perm.trans (reverse_onto-perm es (e ∷ placed)) (perm_middle es placed)

pub length-reverse_onto :
    (es placed : List ℕ) → length (reverse_onto es placed) ≡ length es + length placed
length-reverse_onto [] placed = omega arith
length-reverse_onto (e ∷ es) placed = omega (arith, length-reverse_onto es (e ∷ placed))

module _ (score : ℕ → ℕ) where
  -- The elements below a score, from the highest score down.
  abbrev pub by_score : ℕ → List ℕ → List ℕ
  by_score zero es = []
  by_score (suc s) es = bucket score s es ++ by_score s es

  abbrev pub AtMost : ℕ → List ℕ → Type 0
  AtMost n [] = Unit {0}
  AtMost n (e ∷ es) = (score e ≤ n) × AtMost n es

  -- No element stands before one with a higher score.
  abbrev pub Descending : List ℕ → Type 0
  Descending [] = Unit {0}
  Descending (e ∷ es) = AtMost (score e) es × Descending es

  AtMost-append : (n : ℕ) (es fs : List ℕ) → AtMost n es → AtMost n fs → AtMost n (es ++ fs)
  AtMost-append n [] fs a b = b
  AtMost-append n (e ∷ es) fs a b = (a.0, AtMost-append n es fs a.1 b)

  bucket-AtMost : (s n : ℕ) (es : List ℕ) → s ≤ n → AtMost n (bucket score s es)
  bucket-AtMost s n [] h = tt
  bucket-AtMost s n (e ∷ es) h = elim (Bool-cases (score e == s)) [
    | inl k ↦ rw k (ground (arith, h, k), bucket-AtMost s n es h)
    | inr k ↦ rw k (bucket-AtMost s n es h)
  ]

  by_score-AtMost : (s n : ℕ) (es : List ℕ) → s ≤ suc n → AtMost n (by_score s es)
  by_score-AtMost zero n es h = tt
  by_score-AtMost (suc s) n es h =
      AtMost-append n (bucket score s es) (by_score s es) (bucket-AtMost s n es (omega (arith, h)))
        (by_score-AtMost s n es (omega (arith, h)))

  bucket-Descending :
      (s : ℕ) (es fs : List ℕ) → AtMost s fs → Descending fs → Descending (bucket score s es ++ fs)
  bucket-Descending s [] fs a d = d
  bucket-Descending s (e ∷ es) fs a d = elim (Bool-cases (score e == s)) [
    | inl k ↦
        let t : s ≡ score e = ground (arith, k) in
        rw k (
          AtMost-append (score e) (bucket score s es) fs
              (bucket-AtMost s (score e) es (omega (arith, t))) (subst (λ x. AtMost x fs) t a),
          bucket-Descending s es fs a d,
        )
    | inr k ↦ rw k (bucket-Descending s es fs a d)
  ]

  pub by_score-Descending : (n : ℕ) (es : List ℕ) → Descending (by_score n es)
  by_score-Descending zero es = tt
  by_score-Descending (suc s) es =
      bucket-Descending s es (by_score s es) (by_score-AtMost s s es (omega arith))
        (by_score-Descending s es)

  -- The elements below a score, in their order.
  abbrev lower : ℕ → List ℕ → List ℕ
  lower n [] = []
  lower n (e ∷ es) = if ltb (score e) n then e ∷ lower n es else lower n es

  lower-suc : (s : ℕ) (es : List ℕ) → Perm (bucket score s es ++ lower s es) (lower (suc s) es)
  lower-suc s [] = Perm.refl []
  lower-suc s (e ∷ es) = elim (Bool-cases (score e == s)) [
    | inl k ↦
        let t : ltb (score e) (suc s) ≡ true = ground (arith, k) in
        let u : ltb (score e) s ≡ false = ground (arith, k) in
        rw (k, u, t) (Perm.cons e (lower-suc s es))
    | inr k ↦ elim (Bool-cases (ltb (score e) s)) [
      | inl u ↦
          let t : ltb (score e) (suc s) ≡ true = ground (arith, u) in
          rw (k, u, t)
            (Perm.trans (perm_middle (bucket score s es) (lower s es))
              (Perm.cons e (lower-suc s es)))
      | inr u ↦
          let t : ltb (score e) (suc s) ≡ false = ground (arith, k, u) in
          rw (k, u, t) (lower-suc s es)
    ]
  ]

  lower-zero : (es : List ℕ) → lower 0 es ≡ []
  lower-zero [] = refl
  lower-zero (e ∷ es) = let t : ltb (score e) 0 ≡ false = ground arith in rw t (lower-zero es)

  by_score-lower : (n : ℕ) (es : List ℕ) → Perm (by_score n es) (lower n es)
  by_score-lower zero es = rw (lower-zero es) (Perm.refl [])
  by_score-lower (suc s) es =
      Perm.trans (Perm.append_left (bucket score s es) (by_score-lower s es)) (lower-suc s es)

  lower-all : (n : ℕ) (es : List ℕ) → ((e : ℕ) → score e < n) → lower n es ≡ es
  lower-all n [] h = refl
  lower-all n (e ∷ es) h =
      let t : ltb (score e) n ≡ true = ground (arith, h e) in
      rw t (ap (λ l. e ∷ l) (lower-all n es h))

  pub by_score-perm : (n : ℕ) (es : List ℕ) → ((e : ℕ) → score e < n) → Perm (by_score n es) es
  by_score-perm n es h = rw (lower-all n es h) at (by_score-lower n es)

  pub length-by_score : (n : ℕ) (es : List ℕ) → length (by_score n es) ≡ below score n es
  length-by_score zero es = omega (arith, below-zero score es)
  length-by_score (suc s) es = omega (
    arith,
    length-append (bucket score s es) (by_score s es),
    length-bucket score s es,
    length-by_score s es,
    below-suc score s es,
  )
