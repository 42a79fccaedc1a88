-- ===== src/SizeLocationTrack/Estimate.antt =====
-- The estimate of src/sizelocationtrack.cpp.
use cbftp.Common.{
  ℕ, ◌+◌, ◌≤◌, ◌<◌, ◌≡◌, ◌≢◌, ◌⊎◌, refl, false, ◌&&◌, [], ◌==◌, ltb, arith, Bool-cases, inl, inr,
  length,
}
use cbftp.SizeLocationTrack.{
  SizeLocationTrack, Sizes, Scan, scan, start, choose, tally, recalculate,
}
use cbftp.SizeLocationTrack.Tally.{count, reports, Above, count-below, tally-Above, tally-count}
use cbftp.SizeLocationTrack.Scanning.{Scanned, same_or_not, scan-Scanned}

-- What the estimate is for the sizes that sites report, where a site that reports 0 reports none: a size
-- that is reported, or 0 if there is none; the largest if no size is reported twice; otherwise the
-- smallest of those that are reported most often.
pub record IsEstimate (sites : Sizes) (e : ℕ) : Type 0 where
  pub reported :
      ((e ≡ 0) × ((s : ℕ) → 0 < s → reports s sites ≡ 0)) ⊎ ((0 < e) × (0 < reports e sites))
  pub apart : ((s : ℕ) → 0 < s → reports s sites ≤ 1) → (s : ℕ) → 0 < reports s sites → s ≤ e
  pub most :
      (often : ℕ)
      → 0 < often
      → 1 < reports often sites
      → (s : ℕ) → 0 < s
      → reports s sites ≤ reports e sites
  pub smallest :
      (often : ℕ)
      → 0 < often
      → 1 < reports often sites
      → (s : ℕ) → 0 < s
      → s < e
      → reports s sites < reports e sites

choose_lem :
    (n : ℕ) (r : Scan)
    → r.largestcount ≡ 1
    → ((choose n r ≡ r.largest) × ((r.mostcommoncount ≡ 1) ⊎ (r.mostcommon ≡ 0)))
      ⊎ ((choose n r ≡ r.mostcommon) × (r.mostcommoncount ≢ 1))
unfolding choose
choose_lem n r h = elim (same_or_not r.mostcommoncount 1) [
  | inl e ↦ inl (rw (h, e), inl e)
  | inr e ↦
      let f : (1 == r.mostcommoncount) ≡ false = ground (arith, e) in
      elim (Bool-cases (r.mostcommon == 0 && ltb (r.mostcommoncount + 1) n)) [
        | inl g ↦ inl (rw (h, f, g), inr (ground (arith, g)))
        | inr g ↦ inr (rw (h, f, g), e)
      ]
]

module _ (sites m : Sizes) (r : Scan) (a : Above 0 m) (w : Scanned m start r)
    (k : (s : ℕ) → 0 < s → count s m ≡ reports s sites) where
  above_zero : (s : ℕ) → 0 < count s m → 0 < s
  above_zero s p = elim (same_or_not s 0) [
    | inl e ↦ absurd (omega (arith, p, count-below 0 s m a (omega (arith, e))))
    | inr e ↦ omega (arith, e)
  ]

  reported_lem : (s : ℕ) → 0 < count s m → 0 < reports s sites
  reported_lem s p = omega (arith, p, k s (above_zero s p))

  largest-IsEstimate : ((r.mostcommoncount ≡ 1) ⊎ (r.mostcommon ≡ 0)) → IsEstimate sites r.largest
  largest-IsEstimate c = record {
    reported = elim w.largest_counted [
      | inl e ↦ inl (
        e,
        λ s t. elim (same_or_not (count s m) 0) [
          | inl z ↦ omega (arith, z, k s t)
          | inr z ↦ absurd (omega (arith, e, t, w.largest_bounds s (omega (arith, z))))
        ],
      )
      | inr p ↦ inr (above_zero r.largest p, reported_lem r.largest p)
    ];
    apart = λ h s p. elim (same_or_not s 0) [
      | inl e ↦ omega (arith, e)
      | inr e ↦ w.largest_bounds s (omega (arith, p, k s (omega (arith, e))))
    ];
    most = λ o p q s t. absurd (omega (arith, q, few, k o p, w.most_bounds o));
    smallest = λ o p q s t u. absurd (omega (arith, q, few, k o p, w.most_bounds o));
  }
    where
      few : r.mostcommoncount ≤ 1
      few = elim c [
        | inl e ↦ omega (arith, e)
        | inr e ↦ elim w.most_counted [
          | inl d ↦ omega (arith, d.1)
          | inr d ↦ absurd (omega (arith, e, above_zero r.mostcommon (omega (arith, d.0, d.1))))
        ]
      ]

  mostcommon-IsEstimate : r.mostcommoncount ≢ 1 → IsEstimate sites r.mostcommon
  mostcommon-IsEstimate c = elim w.most_counted [
    | inl d ↦ record {
      reported = inl (d.0, λ s t. omega (arith, d.1, k s t, w.most_bounds s));
      apart = λ h s p. elim (same_or_not s 0) [
        | inl e ↦ omega (arith, e)
        | inr e ↦ absurd (omega (arith, p, d.1, k s (omega (arith, e)), w.most_bounds s))
      ];
      most = λ o p q s t. absurd (omega (arith, q, d.1, k o p, w.most_bounds o));
      smallest = λ o p q s t u. absurd (omega (arith, q, d.1, k o p, w.most_bounds o));
    }
    | inr d ↦
        let z : 0 < r.mostcommon = above_zero r.mostcommon (omega (arith, d.0, d.1)) in
        let j = k r.mostcommon z in
        record {
          reported = inr (z, reported_lem r.mostcommon (omega (arith, d.0, d.1)));
          apart = λ h s p. absurd (omega (arith, c, h r.mostcommon z, j, d.0, d.1));
          most = λ o p q s t. omega (arith, w.most_bounds s, k s t, j, d.0);
          smallest = λ o p q s t u. omega (arith, w.first s u d.1, k s t, j, d.0);
        }
  ]

-- After a recalculation the estimate is one of the sizes above 0 that the sites report, or 0 if there is
-- none: the largest if no two sites report the same one; otherwise the smallest of those that the most
-- sites report.
pub recalculate-IsEstimate :
    (t : SizeLocationTrack) → IsEstimate t.sitesizes (recalculate t).estimatedsize
unfolding recalculate
recalculate-IsEstimate t =
    let sites = t.sitesizes in
    let m = tally sites [] in
    let r = scan m start in
    let a = tally-Above sites [] tt in
    let w = scan-Scanned m start a refl in
    let k : (s : ℕ) → 0 < s → count s m ≡ reports s sites =
      λ s p. omega (arith, tally-count sites [] s tt p) in
    elim (choose_lem (length m) r w.once) [
      | inl c ↦ rw c.0 (largest-IsEstimate sites m r a w k c.1)
      | inr c ↦ rw c.0 (mostcommon-IsEstimate sites m r a w k c.1)
    ]
