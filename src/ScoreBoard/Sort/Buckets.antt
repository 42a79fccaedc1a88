-- ===== src/ScoreBoard/Sort/Buckets.antt =====
-- Placing the elements in src/scoreboard.cpp: the places of each score fill from the last to the first.
use cbftp.Common.{
  ℕ, zero, suc, ◌+◌, ◌-◌, ◌≤◌, ◌<◌, ◌≡◌, refl, ap, ◌∙◌, subst, true, false, List, [], ◌∷◌, ◌++◌,
  if◌then◌else◌, ◌==◌, length-append, length-take, length, set, take, arith, ℕ_discrete,
}
use cbftp.ScoreBoard.Sort.Counting.{occurrences, at_least, at_least-suc, at_least-antitone}

set-append_right : (a b : List ℕ) (k i v : ℕ) → k ≡ length a + i → set (a ++ b) k v ≡ a ++ set b i v
set-append_right [] b k i v h = let e : k ≡ i = omega (arith, h) in rw e
set-append_right (x ∷ a) b zero i v h = absurd (omega (arith, h))
set-append_right (x ∷ a) b (suc k) i v h =
    ap (λ l. x ∷ l) (set-append_right a b k i v (omega (arith, h)))

set-append_last : (a b : List ℕ) (k v : ℕ) → length a ≡ suc k → set (a ++ b) k v ≡ take k a ++ v ∷ b
set-append_last [] b k v h = absurd (omega (arith, h))
set-append_last (x ∷ []) b zero v h = refl
set-append_last (x ∷ y ∷ a) b zero v h = absurd (omega (arith, h))
set-append_last (x ∷ a) b (suc k) v h = ap (λ l. x ∷ l) (set-append_last a b k v (omega (arith, h)))

module _ (score : ℕ → ℕ) where
  -- The elements with a score.
  abbrev pub bucket : ℕ → List ℕ → List ℕ
  bucket s [] = []
  bucket s (e ∷ es) = if score e == s then e ∷ bucket s es else bucket s es

  pub length-bucket : (s : ℕ) (es : List ℕ) → length (bucket s es) ≡ occurrences score s es
  length-bucket s [] = refl
  length-bucket s (e ∷ es) = ground (arith, length-bucket s es)

module _ (score : ℕ → ℕ) (tail : List ℕ) where
  -- From the score below `n` down to 0: free places for the elements that are left, then those that are
  -- placed, the last placed one first; then the rest of the array.
  abbrev pub Blocks : ℕ → List ℕ → List ℕ → List ℕ → Type 0
  Blocks zero left placed array = array ≡ tail
  Blocks (suc s) left placed array =
      (free : List ℕ) × (lower : List ℕ) × (array ≡ free ++ (bucket score s placed ++ lower))
      × (length free ≡ occurrences score s left)
      × Blocks s left placed lower

  pub Blocks-placed :
      (n : ℕ) (e : ℕ) (left placed array : List ℕ)
      → n ≤ score e
      → Blocks n (e ∷ left) placed array
      → Blocks n left (e ∷ placed) array
  Blocks-placed zero e left placed array h b = b
  Blocks-placed (suc n) e left placed array h (free, lower, q, l, b) =
      let k : (score e == n) ≡ false = ground (arith, h) in
      let r = Blocks-placed n e left placed lower (omega (arith, h)) b in
      (free, lower, rw k q, omega (arith, rw k at l), r)

  -- The element goes to the last free place of the first block.
  place-first :
      (n e i : ℕ) (left placed free lower : List ℕ)
      → score e ≡ n
      → length free ≡ suc i
      → length free ≡ occurrences score n (e ∷ left)
      → Blocks n (e ∷ left) placed lower
      → (i < length (free ++ (bucket score n placed ++ lower)))
        × Blocks (suc n) left (e ∷ placed) (set (free ++ (bucket score n placed ++ lower)) i e)
  place-first n e i left placed free lower k f l b =
      let t : (score e == n) ≡ true = ground (arith, k) in
      let a = set-append_last free (bucket score n placed ++ lower) i e f in
      let r = Blocks-placed n e left placed lower (omega (arith, k)) b in
      (
        omega (arith, f, length-append free (bucket score n placed ++ lower)),
        (take i free, lower, rw t a, ground (arith, t, f, l, length-take i free), r),
      )

  -- It goes to a later block.
  place-later :
      (n e i j : ℕ) (left placed free lower : List ℕ)
      → (score e == n) ≡ false
      → i ≡ length free + (length (bucket score n placed) + j)
      → length free ≡ occurrences score n (e ∷ left)
      → j < length lower
      → Blocks n left (e ∷ placed) (set lower j e)
      → (i < length (free ++ (bucket score n placed ++ lower)))
        × Blocks (suc n) left (e ∷ placed) (set (free ++ (bucket score n placed ++ lower)) i e)
  place-later n e i j left placed free lower k f l w b =
      let c =
        set-append_right (bucket score n placed) lower (length (bucket score n placed) + j) j e
          refl in
      let a =
        set-append_right free (bucket score n placed ++ lower) i
          (length (bucket score n placed) + j) e f in
      (
        omega (
          arith,
          f,
          w,
          length-append free (bucket score n placed ++ lower),
          length-append (bucket score n placed) lower,
        ),
        (free, set lower j e, rw k (a ∙ ap (λ x. free ++ x) c), omega (arith, rw k at l), b),
      )

  -- One element is placed.
  pub Blocks-place :
      (n e i : ℕ) (left placed array : List ℕ)
      → score e < n
      → (let rank = λ (s : ℕ). at_least score s (e ∷ left) + at_least score s placed in
          i + 1 + rank n ≡ rank (suc (score e)) + occurrences score (score e) (e ∷ left))
      → Blocks n (e ∷ left) placed array
      → (i < length array) × Blocks n left (e ∷ placed) (set array i e)
  Blocks-place zero e i left placed array w h b = absurd (omega (arith, w))
  Blocks-place (suc n) e i left placed array w h (free, lower, q, l, b) =
      let a = at_least-suc score n (e ∷ left) in
      let c = at_least-suc score n placed in
      let f = length-bucket score n placed in
      elim (ℕ_discrete (score e) n) [
        | yes k ↦
            let v : length free ≡ suc i = omega (
              arith,
              l,
              subst
                  (λ s.
                    i + 1 + (at_least score (suc n) (e ∷ left) + at_least score (suc n) placed)
                    ≡ at_least score (suc s) (e ∷ left)
                      + at_least score (suc s) placed
                      + occurrences score s (e ∷ left))
                  k h,
            ) in
            rw q (place-first n e i left placed free lower k v l b)
        | no k ↦
            let j = i - (length free + length (bucket score n placed)) in
            let u = at_least-antitone score (suc (score e)) n (e ∷ left) (omega (arith, w, k)) in
            let v = at_least-antitone score (suc (score e)) n placed (omega (arith, w, k)) in
            let o : 1 ≤ occurrences score (score e) (e ∷ left) = ground arith in
            let y : i ≡ length free + (length (bucket score n placed) + j) =
              omega (arith, a, c, f, u, v, o, h, l) in
            let z : j + 1 + (at_least score n (e ∷ left) + at_least score n placed)
                ≡ at_least score (suc (score e)) (e ∷ left)
                  + at_least score (suc (score e)) placed
                  + occurrences score (score e) (e ∷ left) =
              omega (arith, a, c, f, y, h, l) in
            let r = Blocks-place n e j left placed lower (omega (arith, w, k)) z b in
            rw q (place-later n e i j left placed free lower (ground (arith, k)) y l r.0 r.1)
      ]
