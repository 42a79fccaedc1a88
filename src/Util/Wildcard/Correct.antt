-- ===== src/Util/Wildcard/Correct.antt =====
-- The loops of `wildcmp` end and decide `Matches`.
use cbftp.Common.{
  ℕ, zero, suc, ◌+◌, ◌*◌, ◌≤◌, sym, subst, ◌<◌, ◌≡◌, ◌≢◌, ◌⊎◌, ◌↔◌, refl, inl, inr, Bool, true,
  false, Option, none, some, [], ◌∷◌, ◌==◌, ==_iff, Bool-cases, length, Bytes, Returns, Answers,
  Answers-iff, arith,
}
use cbftp.Util.Wildcard.{
  star, same, same_case, only_stars, after, before_star, loop, compare_with, wildcmp, wildcmp_case,
}
use cbftp.Util.Wildcard.Matching.{
  Matches, done, byte, skip, take, byte_inv, byte_end, star_inv, star_end, star_all, two_stars,
  star_byte,
}

module _ (test : ℕ → ℕ → Bool) where
  only_stars_iff : (p : Bytes) → (only_stars p ≡ true) ↔ Matches test p []
  unfolding only_stars
  only_stars_iff [] = (λ _. done, λ _. refl)
  only_stars_iff (w ∷ p) = elim (Bool-cases (w == star)) [
    | inl e ↦
        let w_star = (==_iff w star).0 e in
        rw e (
          λ h. skip w_star ((only_stars_iff p).0 h),
          λ m. (only_stars_iff p).1 (star_end (rw w_star at m)),
        )
    | inr e ↦ rw e (λ h. cc, λ m. absurd (byte_end (λ (w_star : w ≡ star). ground arith) m))
  ]

  not_star : (w : ℕ) → (w == star) ≡ false → w ≢ star
  not_star w e w_star = ground arith

  not_byte : {w c : ℕ} {p s : Bytes} → w ≢ star → test w c ≡ false → ¬ Matches test (w ∷ p) (c ∷ s)
  not_byte n h m = let e = (byte_inv n m).0 in cc

  -- `G` is the question asked at the first star; `k` is above the length of every pattern in play.
  module _ (G : Type 0) (k : ℕ) where
    record Inv (f : ℕ) (p s mp cp : Bytes) : Type 0 where
      now : Matches test p s → G
      later : G → Matches test (star ∷ p) s
      retry : G → Matches test (star ∷ mp) cp ⊎ Matches test p s
      again : Matches test (star ∷ mp) cp → G
      text_bound : length s ≤ length cp + 1
      pattern_bound : length mp < k
      wild_bound : length p < k
      fuel : length cp * k + length p < f

    abbrev Right : Option Bool → Type 0
    Right = Returns λ b. (b ≡ true) ↔ G

    -- The loop at an empty text.
    at_end :
        (f : ℕ) (p mp cp : Bytes)
        → (Matches test p [] → G)
        → (G → Matches test p [])
        → Right (loop test f p [] (some (mp, cp)))
    unfolding loop
    at_end f p mp cp to from =
        (λ h. to ((only_stars_iff p).0 h), λ g. (only_stars_iff p).1 (from g))

    -- A mismatch goes back to the last star.
    restart :
        (f : ℕ) (p : Bytes) (c : ℕ) (s mp cp : Bytes)
        → ((p s mp cp : Bytes) → Inv f p s mp cp → Right (loop test f p s (some (mp, cp))))
        → Inv (suc f) p (c ∷ s) mp cp
        → ¬ Matches test p (c ∷ s)
        → Right (loop test f mp cp (some (mp, after cp)))
    restart f p c s mp [] rec v n =
        at_end f mp mp [] (λ m. v.again (skip refl m))
          (λ g. star_end (elim (v.retry g) [ inl h ↦ h | inr h ↦ absurd (n h) ]))
    restart f p c s mp (d ∷ cp) rec v n = rec mp (d ∷ cp) mp cp (record {
      now = λ m. v.again (skip refl m);
      later = again;
      retry = λ g. elim (star_inv (again g)) [ inl h ↦ inr h | inr h ↦ inl h ];
      again = λ m. v.again (take refl m);
      text_bound = omega arith;
      pattern_bound = v.pattern_bound;
      wild_bound = v.pattern_bound;
      fuel = grind (arith, v.fuel, v.pattern_bound);
    })
      where
        again : G → Matches test (star ∷ mp) (d ∷ cp)
        again g = elim (v.retry g) [ inl h ↦ h | inr h ↦ absurd (n h) ]

    -- A character that is accepted moves both texts on.
    advance :
        {f : ℕ} {w c : ℕ} {p s mp cp : Bytes}
        → w ≢ star
        → test w c ≡ true
        → Inv (suc f) (w ∷ p) (c ∷ s) mp cp
        → Inv f p s mp cp
    advance {w = w} {c} {p} {s} n h v = record {
      now = λ m. v.now (byte n h m);
      later = λ g. star_byte w p c s n (v.later g);
      retry = λ g. elim (v.retry g) [ inl r ↦ inl r | inr r ↦ inr (byte_inv n r).1 ];
      again = v.again;
      text_bound = omega arith;
      pattern_bound = v.pattern_bound;
      wild_bound = omega (arith, v.wild_bound);
      fuel = omega arith;
    }

    -- A star in the pattern takes the place of the last one.
    new_star :
        {f : ℕ} {c : ℕ} {p s mp cp : Bytes}
        → Inv (suc f) (star ∷ p) (c ∷ s) mp cp
        → Inv f p (c ∷ s) p s
    new_star {c = c} {p} {s} v = record {
      now = λ m. v.now (skip refl m);
      later = later;
      retry = λ g. elim (star_inv (later g)) [ inl h ↦ inr h | inr h ↦ inl h ];
      again = λ m. v.now (take refl m);
      text_bound = omega arith;
      pattern_bound = omega (arith, v.wild_bound);
      wild_bound = omega (arith, v.wild_bound);
      fuel = grind (arith, v.fuel, v.text_bound);
    }
      where
        later : G → Matches test (star ∷ p) (c ∷ s)
        later g = two_stars p (c ∷ s) (v.later g)

    loop-Right :
        (f : ℕ) (p s mp cp : Bytes) → Inv f p s mp cp → Right (loop test f p s (some (mp, cp)))
    unfolding loop
    loop-Right f p [] mp cp v = at_end f p mp cp v.now (λ g. star_end (v.later g))
    loop-Right zero p (c ∷ s) mp cp v = absurd (omega (arith, v.fuel))
    loop-Right (suc f) [] (c ∷ s) mp cp v =
        restart f [] c s mp cp (loop-Right f) v (λ m. elim m [ ])
    loop-Right (suc f) (w ∷ []) (c ∷ s) mp cp v = elim (Bool-cases (w == star)) [
      | inl e ↦
          let w_star = (==_iff w star).0 e in
          rw (e, loop) (λ _. v.now (rw w_star (star_all (c ∷ s))), λ _. refl)
      | inr e ↦ elim (Bool-cases (test w c)) [
        | inl h ↦ rw (e, h, loop) (loop-Right f [] s mp cp (advance (not_star w e) h v))
        | inr h ↦
            rw (e, h, loop)
              (restart f (w ∷ []) c s mp cp (loop-Right f) v (not_byte (not_star w e) h))
      ]
    ]
    loop-Right (suc f) (w ∷ x ∷ p) (c ∷ s) mp cp v = elim (Bool-cases (w == star)) [
      | inl e ↦
          let w_star = (==_iff w star).0 e in
          rw (e, loop) (loop-Right f (x ∷ p) (c ∷ s) (x ∷ p) s (new_star (rw w_star at v)))
      | inr e ↦ elim (Bool-cases (test w c)) [
        | inl h ↦ rw (e, h, loop) (loop-Right f (x ∷ p) s mp cp (advance (not_star w e) h v))
        | inr h ↦
            rw (e, h, loop)
              (restart f (w ∷ x ∷ p) c s mp cp (loop-Right f) v (not_byte (not_star w e) h))
      ]
    ]

  abbrev fuel : Bytes → Bytes → ℕ
  fuel p s = (suc (length s) + 1) * (suc (length p) + 1)

  -- The second loop, begun at a star.
  loop_start :
      (p : Bytes) (c : ℕ) (s : Bytes) (f : ℕ)
      → (length s + 1) * (length p + 2) < f
      → Answers (Matches test (star ∷ p) (c ∷ s)) (loop test f (star ∷ p) (c ∷ s) none)
  unfolding loop
  loop_start [] c s zero h = absurd (omega arith)
  loop_start [] c s (suc f) h = (λ _. star_all (c ∷ s), λ _. refl)
  loop_start (v ∷ p) c s zero h = absurd (omega arith)
  loop_start (v ∷ p) c s (suc f) h =
      loop-Right (Matches test (star ∷ v ∷ p) (c ∷ s)) (length p + 2) f (v ∷ p) (c ∷ s) (v ∷ p) s
        (record {
          now = λ m. skip refl m;
          later = λ g. g;
          retry = λ g. elim (star_inv g) [ inl m ↦ inr m | inr m ↦ inl m ];
          again = λ m. take refl m;
          text_bound = omega arith;
          pattern_bound = omega arith;
          wild_bound = omega arith;
          fuel = grind arith;
        })

  compare_with-Answers : (p s : Bytes) → Answers (Matches test p s) (compare_with test p s)
  unfolding compare_with
  compare_with-Answers [] [] = only_stars_iff []
  compare_with-Answers (w ∷ p) [] = only_stars_iff (w ∷ p)
  compare_with-Answers [] (c ∷ s) = (λ h. cc, λ m. elim m [ ])
  compare_with-Answers (w ∷ p) (c ∷ s) = elim (Bool-cases (w == star)) [
    | inl e ↦
        let w_star = (==_iff w star).0 e in
        rw (e, compare_with, before_star)
          (subst
            (λ x.
              Answers (Matches test (x ∷ p) (c ∷ s)) (loop test (fuel p s) (x ∷ p) (c ∷ s) none))
            (sym w_star) (loop_start p c s (fuel p s) (grind arith)))
    | inr e ↦ elim (Bool-cases (test w c)) [
      | inl h ↦
          rw (e, h, compare_with, before_star)
            (Answers-iff (compare_with test p s)
              (λ m. byte (not_star w e) h m, λ m. (byte_inv (not_star w e) m).1)
              (compare_with-Answers p s))
      | inr h ↦
          rw (e, h, compare_with, before_star)
            (λ (k : false ≡ true). cc, λ m. absurd (not_byte (not_star w e) h m))
    ]
  ]

-- `wildcmp` ends without a fault on every pattern and text, and returns true exactly if the text matches
-- the pattern, where a star stands for any bytes, a question mark for one byte and a letter for itself
-- in either case.
pub wildcmp_decides : (p s : Bytes) → Returns (λ b. (b ≡ true) ↔ Matches same p s) (wildcmp p s)
unfolding wildcmp
wildcmp_decides p s = compare_with-Answers same p s

-- `wildcmpCase` does the same, with letters standing for themselves alone.
pub wildcmp_case_decides :
    (p s : Bytes) → Returns (λ b. (b ≡ true) ↔ Matches same_case p s) (wildcmp_case p s)
unfolding wildcmp_case
wildcmp_case_decides p s = compare_with-Answers same_case p s
