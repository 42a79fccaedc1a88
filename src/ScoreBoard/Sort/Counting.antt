-- ===== src/ScoreBoard/Sort/Counting.antt =====
-- How many elements have a score, and the positions that the sort of src/scoreboard.cpp computes from that.
use cbftp.Common.{
  ℕ, zero, suc, ℕ_discrete, ◌∙◌, ◌+◌, ◌≤◌, ◌<◌, ◌≡◌, refl, inl, inr, List, [], ◌∷◌, if◌then◌else◌,
  ◌==◌, leb, ltb, length, Bool-cases, arith, u32, sub32, u32_mod,
}
use cbftp.ScoreBoard.Sort.{write, count_scores, positions}

module _ (score : ℕ → ℕ) where
  -- The elements with a score, with at least a score and with a lower one.
  abbrev pub occurrences : ℕ → List ℕ → ℕ
  occurrences s [] = 0
  occurrences s (e ∷ es) = (if score e == s then 1 else 0) + occurrences s es

  abbrev pub at_least : ℕ → List ℕ → ℕ
  at_least s [] = 0
  at_least s (e ∷ es) = (if leb s (score e) then 1 else 0) + at_least s es

  abbrev pub below : ℕ → List ℕ → ℕ
  below s [] = 0
  below s (e ∷ es) = (if ltb (score e) s then 1 else 0) + below s es

  pub at_least-suc : (s : ℕ) (es : List ℕ) → at_least s es ≡ occurrences s es + at_least (suc s) es
  at_least-suc s [] = refl
  at_least-suc s (e ∷ es) = ground (arith, at_least-suc s es)

  pub below-suc : (s : ℕ) (es : List ℕ) → below (suc s) es ≡ occurrences s es + below s es
  below-suc s [] = refl
  below-suc s (e ∷ es) = ground (arith, below-suc s es)

  pub below-zero : (es : List ℕ) → below 0 es ≡ 0
  below-zero [] = refl
  below-zero (e ∷ es) = ground (arith, below-zero es)

  pub at_least-le : (s : ℕ) (es : List ℕ) → at_least s es ≤ length es
  at_least-le s [] = omega arith
  at_least-le s (e ∷ es) = ground (arith, at_least-le s es)

  pub at_least-antitone : (s t : ℕ) (es : List ℕ) → s ≤ t → at_least t es ≤ at_least s es
  at_least-antitone s t [] h = omega arith
  at_least-antitone s t (e ∷ es) h = ground (arith, at_least-antitone s t es h)

  pub count_scores-occurrences :
      (s : ℕ) (es : List ℕ) (count : ℕ → ℕ)
      → count s + length es < u32_mod
      → count_scores score es count s ≡ count s + occurrences s es
  count_scores-occurrences s [] count h = omega arith
  count_scores-occurrences s (e ∷ es) count h = elim (Bool-cases (score e == s)) [
    | inl k ↦ ground (
      arith,
      k,
      count_scores-occurrences s es (write count (score e) (u32 (count (score e) + 1))),
    )
    | inr k ↦ ground (
      arith,
      k,
      count_scores-occurrences s es (write count (score e) (u32 (count (score e) + 1))),
    )
  ]

positions-before :
    (n i s pos : ℕ) (count bucketpositions : ℕ → ℕ)
    → s < i
    → positions n i pos count bucketpositions s ≡ bucketpositions s
positions-before zero i s pos count bucketpositions h = refl
positions-before (suc n) i s pos count bucketpositions h =
    ground (
      arith,
      positions-before n (i + 1) s (sub32 pos (count i)) count (write bucketpositions i pos),
    )

-- The last place for a score is the one before the elements that have a lower one.
pub positions-last :
    (n i s : ℕ) (count rank bucketpositions : ℕ → ℕ)
    → ((t : ℕ) → rank t ≡ count t + rank (t + 1))
    → ((t : ℕ) → rank t < u32_mod)
    → i ≤ s
    → s < i + n
    → positions n i (sub32 (rank i) 1) count bucketpositions s ≡ sub32 (rank s) 1
positions-last zero i s count rank bucketpositions r w h k = absurd (omega (arith, h, k))
positions-last (suc n) i s count rank bucketpositions r w h k =
    let next : sub32 (sub32 (rank i) 1) (count i) ≡ sub32 (rank (i + 1)) 1 =
      omega (arith, r i, w i, w (i + 1)) in
    elim (ℕ_discrete i s) [
      | yes e ↦
          let before =
            positions-before n (i + 1) s (sub32 (sub32 (rank i) 1) (count i)) count
              (write bucketpositions i (sub32 (rank i) 1)) (omega (arith, e)) in
          let hit : write bucketpositions i (sub32 (rank i) 1) s ≡ sub32 (rank s) 1 =
            rw e (ground arith) in
          before ∙ hit
      | no e ↦ rw next (
          positions-last n (i + 1) s count rank (write bucketpositions i (sub32 (rank i) 1)) r w
            (omega (arith, h, e)) (omega (arith, k)))
    ]
