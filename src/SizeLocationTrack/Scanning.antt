-- ===== src/SizeLocationTrack/Scanning.antt =====
-- What the loop over the counts in src/sizelocationtrack.cpp finds.
use cbftp.Common.{
  ℕ, ◌≤◌, ◌<◌, ◌≡◌, ◌≢◌, ◌⊎◌, refl, subst, sym, ◌∙◌, true, false, [], ◌∷◌, ◌==◌, ltb, arith,
  Bool-cases, inl, inr,
}
use cbftp.SizeLocationTrack.{Sizes, Scan, see, scan}
use cbftp.SizeLocationTrack.Tally.{count, Above, count-below}

-- The end of the loop on counts of sizes above all that it has seen.
pub record Scanned (m : Sizes) (a r : Scan) : Type 0 where
  pub once : r.largestcount ≡ 1
  pub largest_grows : a.largest ≤ r.largest
  pub largest_bounds : (s : ℕ) → 0 < count s m → s ≤ r.largest
  pub largest_counted : (r.largest ≡ a.largest) ⊎ (0 < count r.largest m)
  pub most_grows : a.mostcommoncount ≤ r.mostcommoncount
  pub most_bounds : (s : ℕ) → count s m ≤ r.mostcommoncount
  pub most_counted :
      ((r.mostcommon ≡ a.mostcommon) × (r.mostcommoncount ≡ a.mostcommoncount))
      ⊎ ((count r.mostcommon m ≡ r.mostcommoncount) × (a.mostcommoncount < r.mostcommoncount))
  pub first :
      (s : ℕ)
      → s < r.mostcommon
      → a.mostcommoncount < r.mostcommoncount
      → count s m < r.mostcommoncount

pub same_or_not : (s k : ℕ) → (s ≡ k) ⊎ (s ≢ k)
same_or_not s k = elim (Bool-cases (s == k)) [
  | inl e ↦ inl (ground (arith, e))
  | inr e ↦ inr (ground (arith, e))
]

count-here : (s k n : ℕ) (m : Sizes) → s ≡ k → count s ((k, n) ∷ m) ≡ n
count-here s k n m e = let f : (s == k) ≡ true = ground (arith, e) in rw f

count-past : (s k n : ℕ) (m : Sizes) → s ≢ k → count s ((k, n) ∷ m) ≡ count s m
count-past s k n m e = let f : (s == k) ≡ false = ground (arith, e) in rw f

-- The first key is new to the scan: it is the largest so far, and it may be the most common.
seen :
    (a : Scan) (size n : ℕ)
    → ((((see size n a).mostcommon ≡ size) × ((see size n a).mostcommoncount ≡ n))
        × (a.mostcommoncount < n))
      ⊎ ((((see size n a).mostcommon ≡ a.mostcommon)
            × ((see size n a).mostcommoncount ≡ a.mostcommoncount))
          × (n ≤ a.mostcommoncount))
seen a size n = elim (Bool-cases (ltb a.mostcommoncount n)) [
  | inl e ↦ inl ((rw e, rw e), ground (arith, e))
  | inr e ↦ inr ((rw e, rw e), ground (arith, e))
]

further :
    (size n : ℕ) (m : Sizes) (a r : Scan)
    → Above a.largest ((size, n) ∷ m)
    → (see size n a).largest ≡ size
    → Scanned m (see size n a) r
    → Scanned ((size, n) ∷ m) a r
further size n m a r b c w = record {
  once = w.once;
  largest_grows = omega (arith, w.largest_grows, c, b.0);
  largest_bounds = λ s p. elim (same_or_not s size) [
    | inl e ↦ omega (arith, w.largest_grows, c, e)
    | inr e ↦ w.largest_bounds s (omega (arith, count-past s size n m e, p))
  ];
  largest_counted = elim w.largest_counted [
    | inl e ↦ inr (omega (arith, count-here r.largest size n m (e ∙ c), b.1.0))
    | inr p ↦ inr (omega (arith, p, count-past r.largest size n m (above p)))
  ];
  most_grows = elim (seen a size n) [
    | inl d ↦ omega (arith, w.most_grows, d.0.1, d.1)
    | inr d ↦ omega (arith, w.most_grows, d.0.1, d.1)
  ];
  most_bounds = λ s. elim (same_or_not s size) [
    | inl e ↦ elim (seen a size n) [
      | inl d ↦ omega (arith, count-here s size n m e, w.most_grows, d.0.1)
      | inr d ↦ omega (arith, count-here s size n m e, w.most_grows, d.0.1, d.1)
    ]
    | inr e ↦ omega (arith, count-past s size n m e, w.most_bounds s)
  ];
  most_counted = elim w.most_counted [
    | inl k ↦ elim (seen a size n) [
      | inl d ↦ inr (
        count-here r.mostcommon size n m (k.0 ∙ d.0.0) ∙ sym (k.1 ∙ d.0.1),
        omega (arith, k.1, d.0.1, d.1),
      )
      | inr d ↦ inl (k.0 ∙ d.0.0, k.1 ∙ d.0.1)
    ]
    | inr k ↦
        let p : 0 < count r.mostcommon m = omega (arith, k.0, k.1) in
        inr (
          count-past r.mostcommon size n m (above p) ∙ k.0,
          elim (seen a size n) [
            | inl d ↦ omega (arith, k.1, d.0.1, d.1)
            | inr d ↦ omega (arith, k.1, d.0.1)
          ],
        )
  ];
  first = λ s p q. elim w.most_counted [
    | inl k ↦ elim (seen a size n) [
      | inl d ↦
          let e : s ≢ size = omega (arith, p, k.0, d.0.0) in
          omega (
            arith,
            count-past s size n m e,
            count-below size s m b.1.1 (omega (arith, p, k.0, d.0.0)),
            q,
          )
      | inr d ↦ absurd (omega (arith, q, k.1, d.0.1))
    ]
    | inr k ↦ elim (same_or_not s size) [
      | inl e ↦ elim (seen a size n) [
        | inl d ↦ omega (arith, count-here s size n m e, k.1, d.0.1)
        | inr d ↦ omega (arith, count-here s size n m e, k.1, d.0.1, d.1)
      ]
      | inr e ↦ omega (arith, count-past s size n m e, w.first s p k.1)
    ]
  ];
}
  where
    above : {s : ℕ} → 0 < count s m → s ≢ size
    above {s} p e = absurd (omega (arith, p, count-below size s m b.1.1 (omega (arith, e))))

pub scan-Scanned :
    (m : Sizes) (a : Scan) → Above a.largest m → a.largestcount ≡ 1 → Scanned m a (scan m a)
unfolding scan
scan-Scanned [] a b h = record {
  once = h;
  largest_grows = omega arith;
  largest_bounds = λ s p. absurd (omega arith);
  largest_counted = inl refl;
  most_grows = omega arith;
  most_bounds = λ s. omega arith;
  most_counted = inl (refl, refl);
  first = λ s p q. absurd (omega arith);
}
scan-Scanned ((size, n) ∷ m) a b h =
    let e : ltb a.largest size ≡ true = ground (arith, b.0) in
    let c : (see size n a).largest ≡ size = rw e in
    further size n m a (scan m (see size n a)) b c
      (scan-Scanned m (see size n a) (subst (λ x. Above x m) (sym c) b.1.1) (rw e))
