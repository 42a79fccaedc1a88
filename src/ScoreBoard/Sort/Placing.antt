-- ===== src/ScoreBoard/Sort/Placing.antt =====
-- The loops of the sort of src/scoreboard.cpp, one after the other.
use cbftp.Common.{
  ℕ, zero, suc, ◌+◌, ◌≤◌, ◌<◌, ◌≡◌, refl, sym, ap, ◌∙◌, true, List, [], ◌∷◌, ◌++◌, ltb, length, set,
  take, drop, arith, sub32, u32_mod, Returns, Returns-map, ℕ_discrete, length-take, length-drop,
  take-append-drop,
}
use mathlib.Core.List.{Perm, append_assoc, append-nil}
use mathlib.Core.List.Perm
use cbftp.ScoreBoard.Sort.{write, count_scores, positions, place}
use cbftp.ScoreBoard.Sort.Counting.{
  occurrences, at_least, below, at_least-suc, at_least-le, below-suc, below-zero,
  count_scores-occurrences, positions-last,
}
use cbftp.ScoreBoard.Sort.Buckets.{bucket, Blocks, Blocks-place}
use cbftp.ScoreBoard.Sort.Order.{
  reverse_onto, reverse_onto-perm, by_score, by_score-perm, length-reverse_onto, length-by_score,
}

module _ (score : ℕ → ℕ) (n : ℕ) (small : (e : ℕ) → score e < n) where
  at_least-none : (es : List ℕ) → at_least score n es ≡ 0
  at_least-none [] = refl
  at_least-none (e ∷ es) = ground (arith, small e, at_least-none es)

  below-all : (es : List ℕ) → below score n es ≡ length es
  below-all [] = refl
  below-all (e ∷ es) = ground (arith, small e, below-all es)

  module _ (tail : List ℕ) where
    Blocks-start :
        (m : ℕ) (es array : List ℕ)
        → length array ≡ below score m es
        → Blocks score tail m es [] (array ++ tail)
    Blocks-start zero es [] h = refl
    Blocks-start zero es (x ∷ array) h = absurd (omega (arith, h, below-zero score es))
    Blocks-start (suc m) es array h =
        let o = occurrences score m es in
        let b = below-suc score m es in
        (
          take o array,
          drop o array ++ tail,
          ap (λ l. l ++ tail) (sym (take-append-drop o array))
              ∙ append_assoc (take o array) (drop o array) tail,
          omega (arith, h, b, length-take o array),
          Blocks-start m es (drop o array) (omega (arith, h, b, length-drop o array)),
        )

    Blocks-end :
        (m : ℕ) (placed array : List ℕ)
        → Blocks score tail m [] placed array
        → array ≡ by_score score m placed ++ tail
    Blocks-end zero placed array b = b
    Blocks-end (suc m) placed array ([], lower, q, l, b) =
        q
        ∙ (ap (λ x. bucket score m placed ++ x) (Blocks-end m placed lower b)
            ∙ sym (append_assoc (bucket score m placed) (by_score score m placed) tail))
    Blocks-end (suc m) placed array (x ∷ free, lower, q, l, b) = absurd (omega (arith, l))

    -- The places that the sort has computed, for the elements that are left.
    abbrev Ready : List ℕ → List ℕ → (ℕ → ℕ) → Type 0
    Ready left placed bucketpositions =
        (s : ℕ)
        → s < n
        → bucketpositions s
          ≡ sub32
              (at_least score (suc s) left
                + at_least score (suc s) placed
                + occurrences score s left)
              1

    Ready-place :
        (e : ℕ) (es placed : List ℕ) (bucketpositions : ℕ → ℕ)
        → length (e ∷ es) + length placed < u32_mod
        → Ready (e ∷ es) placed bucketpositions
        → Ready es
            (e ∷ placed)
            (write bucketpositions (score e) (sub32 (bucketpositions (score e)) 1))
    Ready-place e es placed bucketpositions w p s k =
        let a = at_least-le score s (e ∷ es) in
        let c = at_least-le score (suc s) placed in
        let d = at_least-suc score s (e ∷ es) in
        let old =
          at_least score (suc s) (e ∷ es)
          + at_least score (suc s) placed
          + occurrences score s (e ∷ es) in
        let now =
          at_least score (suc s) es
          + at_least score (suc s) (e ∷ placed)
          + occurrences score s es in
        let b = write bucketpositions (score e) (sub32 (bucketpositions (score e)) 1) in
        elim (ℕ_discrete s (score e)) [
          | yes t ↦
              let o : old ≡ now + 1 = ground (arith, t) in
              let v : b s ≡ sub32 (bucketpositions s) 1 = rw t (ground arith) in
              v ∙ omega (arith, p s k, o, a, c, d, w)
          | no t ↦
              let o : old ≡ now = ground (arith, t) in
              let v : b s ≡ bucketpositions s = ground (arith, t) in
              v ∙ (p s k ∙ ap (λ x. sub32 x 1) o)
        ]

    place-Blocks :
        (es placed array : List ℕ) (bucketpositions : ℕ → ℕ)
        → length es + length placed < u32_mod
        → Ready es placed bucketpositions
        → Blocks score tail n es placed array
        → Returns
            (λ r. Blocks score tail n [] (reverse_onto es placed) r.1)
            (place score es bucketpositions array)
    place-Blocks [] placed array bucketpositions w p b = b
    place-Blocks (e ∷ es) placed array bucketpositions w p b =
        let i = bucketpositions (score e) in
        let f : i
            ≡ sub32
                (at_least score (suc (score e)) (e ∷ es)
                  + at_least score (suc (score e)) placed
                  + occurrences score (score e) (e ∷ es))
                1 =
          p (score e) (small e) in
        let o : occurrences score (score e) (e ∷ es) ≡ suc (occurrences score (score e) es) =
          ground arith in
        let a = at_least-le score (score e) (e ∷ es) in
        let c = at_least-le score (suc (score e)) placed in
        let d = at_least-suc score (score e) (e ∷ es) in
        let g : i + 1
            ≡ at_least score (suc (score e)) (e ∷ es)
              + at_least score (suc (score e)) placed
              + occurrences score (score e) (e ∷ es) =
          omega (arith, f, o, a, c, d, w) in
        let r =
          Blocks-place score tail n e i es placed array (small e)
            (omega (arith, g, at_least-none (e ∷ es), at_least-none placed)) b in
        let t : ltb i (length array) ≡ true = ground (arith, r.0) in
        rw t (
          place-Blocks es (e ∷ placed) (set array i e) (write bucketpositions (score e) (sub32 i 1))
            (omega (arith, w)) (Ready-place e es placed bucketpositions w p) r.1)

  at_least-zero : (es : List ℕ) → at_least score 0 es ≡ length es
  at_least-zero [] = refl
  at_least-zero (e ∷ es) = ground (arith, at_least-zero es)

  -- The first two loops.
  Ready-positions :
      (tail shown : List ℕ) (bucketpositions : ℕ → ℕ)
      → length shown < u32_mod
      → Ready tail shown [] (
          positions n 0
            (sub32 (length shown) 1)
            (count_scores score shown (λ i. 0))
            bucketpositions)
  Ready-positions tail shown bucketpositions w s k =
      let rank = λ (t : ℕ). at_least score t shown in
      let count = count_scores score shown (λ i. 0) in
      let r : (t : ℕ) → rank t ≡ count t + rank (t + 1) = λ t.
        let one : t + 1 ≡ suc t = omega arith in
        rw one (
          omega (
            arith,
            at_least-suc score t shown,
            count_scores-occurrences score t shown (λ i. 0) (omega (arith, w)),
          )) in
      let a =
        positions-last n 0 s count rank bucketpositions r
          (λ t. omega (arith, w, at_least-le score t shown)) (omega arith) (omega (arith, k)) in
      rw (at_least-zero shown) at a
      ∙ ap (λ x. sub32 x 1) (omega (arith, at_least-suc score s shown))

  -- All loops, for the `k` elements that are shown.
  pub place-by_score :
      (k : ℕ) (shown array : List ℕ) (bucketpositions : ℕ → ℕ)
      → k ≡ length shown
      → k < u32_mod
      → k ≤ length array
      → Returns
          (λ r. r.1 ≡ by_score score n (reverse_onto shown []) ++ drop k array)
          (place score shown
            (positions n 0 (sub32 k 1) (count_scores score shown (λ i. 0)) bucketpositions)
            array)
  place-by_score k shown array bucketpositions e w h =
      let tail = drop k array in
      let b =
        Blocks-start tail n shown (take k array)
          (omega (arith, length-take k array, below-all shown, h, e)) in
      let start = positions n 0 (sub32 k 1) (count_scores score shown (λ i. 0)) bucketpositions in
      Returns-map (λ r. Blocks score tail n [] (reverse_onto shown []) r.1)
        (λ r. r.1 ≡ by_score score n (reverse_onto shown []) ++ tail)
        (place score shown start array)
        (place-Blocks tail shown [] array start (omega (arith, w, e))
          (rw e (Ready-positions tail shown bucketpositions (omega (arith, w, e))))
          (rw (take-append-drop k array) at b))
        (λ r c. Blocks-end tail n (reverse_onto shown []) r.1 c)

  pub length-order :
      (shown : List ℕ) → length (by_score score n (reverse_onto shown [])) ≡ length shown
  length-order shown = omega (
    arith,
    length-by_score score n (reverse_onto shown []),
    below-all (reverse_onto shown []),
    length-reverse_onto shown [],
  )

  pub order-perm : (shown : List ℕ) → Perm (by_score score n (reverse_onto shown [])) shown
  order-perm shown =
      Perm.trans (by_score-perm score n (reverse_onto shown []) small)
        (rw (append-nil shown) at (reverse_onto-perm shown []))
