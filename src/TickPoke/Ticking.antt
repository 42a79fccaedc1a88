-- ===== src/TickPoke/Ticking.antt =====
-- A tick of src/core/tickpoke.cpp always ends, but catches up with the wrong time.
use cbftp.Common.{
  ℕ, zero, suc, ◌+◌, ◌-◌, ◌*◌, ◌%◌, ◌≤◌, ◌<◌, ◌≡◌, refl, sym, ap, subst, ◌∙◌, u32, sub32, ◌==◌, ◌⊎◌,
  true, false, inl, inr, ◌∷◌, length, ltb, leb, Bool-cases, arith, Returns, Returns-map, ℤ, pos,
  negsuc,
}
use cbftp.TickPoke.Intervals.{suc_mul}
use cbftp.TickPoke.{TickPoke, count_tick, catch_up, adjust_sleep, tick_intern, shrinks, time_diff}

-- `count` ticks were dispatched, and the time passed was counted on for each.
pub record Ticked (p q : TickPoke) (count : ℕ) : Type 0 where
  pub passed : q.timepassedms ≡ p.timepassedms + count * p.targetsleeptimems
  pub dispatches : length q.dispatched ≡ length p.dispatched + count
  pub same_interval : q.targetsleeptimems ≡ p.targetsleeptimems

abbrev CaughtUp : ℕ → TickPoke → TickPoke → Type 0
CaughtUp now p q = (count : ℕ) × Ticked p q count × (now ≤ q.timepassedms)

catch_up-CaughtUp :
    (n now : ℕ) (p : TickPoke)
    → 0 < p.targetsleeptimems
    → now ≤ p.timepassedms + n
    → Returns (CaughtUp now p) (catch_up n now p)
catch_up-CaughtUp zero now p h k =
    let e : ltb p.timepassedms now ≡ false = ground (arith, k) in
    rw e (
      0,
      record { passed = omega arith; dispatches = omega arith; same_interval = refl },
      omega (arith, k),
    )
catch_up-CaughtUp (suc n) now p h k = elim (Bool-cases (ltb p.timepassedms now)) [
  | inl e ↦ rw e (
      Returns-map (CaughtUp now (count_tick p)) (CaughtUp now p) (catch_up n now (count_tick p))
        (catch_up-CaughtUp n now (count_tick p) h (omega (arith, h, k)))
        (λ q (c, t, m). (
          suc c,
          record {
            passed = omega (arith, t.passed, suc_mul c p.targetsleeptimems);
            dispatches = omega (arith, t.dispatches);
            same_interval = t.same_interval;
          },
          m,
        )))
  | inr e ↦ rw e (
    0,
    record { passed = omega arith; dispatches = omega arith; same_interval = refl },
    ground (arith, e),
  )
]

-- Either one tick was dispatched, or as many as it takes until the time that has passed is the time of the
-- system.
pub record Ended (now : ℕ) (p q : TickPoke) : Type 0 where
  pub count : ℕ
  pub ticked : Ticked p q count
  pub at_least_one : 1 ≤ count
  pub one_or_all : (count ≡ 1) ⊎ (now ≤ q.timepassedms)

one_tick :
    (now : ℕ) (p q : TickPoke)
    → q.timepassedms ≡ p.timepassedms + p.targetsleeptimems
    → q.dispatched ≡ p.targetsleeptimems ∷ p.dispatched
    → q.targetsleeptimems ≡ p.targetsleeptimems
    → Ended now p q
one_tick now p q a b c = record {
  count = 1;
  ticked = record {
    passed = omega (arith, a);
    dispatches = ap length b ∙ omega arith;
    same_interval = c;
  };
  at_least_one = omega arith;
  one_or_all = inl refl;
}

-- The state in which the sleep is adjusted.
abbrev seen : ℤ → TickPoke → TickPoke
seen d p = record (count_tick p) { lasttimediffms = d }

caught_up : (now : ℕ) (d : ℤ) (p q : TickPoke) → CaughtUp now (seen d p) q → Ended now p q
caught_up now d p q (c, t, m) = record {
  count = suc c;
  ticked = record {
    passed = omega (arith, t.passed, suc_mul c p.targetsleeptimems);
    dispatches = omega (arith, t.dispatches);
    same_interval = t.same_interval;
  };
  at_least_one = omega arith;
  one_or_all = inr m;
}

catches_up :
    (now : ℕ) (d : ℤ) (p : TickPoke)
    → 0 < p.targetsleeptimems
    → Returns (CaughtUp now (seen d p)) (catch_up (now - (seen d p).timepassedms) now (seen d p))
catches_up now d p h =
    catch_up-CaughtUp (now - (seen d p).timepassedms) now (seen d p) h (omega arith)

adjust_sleep-Ended :
    (now : ℕ) (e d : ℤ) (p : TickPoke)
    → 0 < p.targetsleeptimems
    → Returns (Ended now p) (adjust_sleep e now (seen d p))
adjust_sleep-Ended now (pos zero) d p h = one_tick now p (seen d p) refl refl refl
adjust_sleep-Ended now (negsuc e) d p h =
    one_tick now p (record (seen d p) { actualsleeptimeusecs = u32 (p.actualsleeptimeusecs + 25) })
      refl refl refl
adjust_sleep-Ended now (pos (suc e)) d p h = elim (Bool-cases (p.actualsleeptimeusecs == 25)) [
  | inl t ↦ rw t (
      Returns-map (CaughtUp now (seen d p)) (Ended now p)
        (catch_up (now - (seen d p).timepassedms) now (seen d p)) (catches_up now d p h)
        (caught_up now d p))
  | inr t ↦ rw t (
      one_tick now p (record (seen d p) { actualsleeptimeusecs = sub32 p.actualsleeptimeusecs 25 })
        refl refl refl)
]

-- With a granularity that is not 0, `tickIntern` ends; it dispatches one tick, or as many as it takes until the
-- time that has passed is the time of the system, and counts the time on by the interval of each.
pub tick_intern-Ended :
    (now : ℕ) (p : TickPoke) → 0 < p.targetsleeptimems → Returns (Ended now p) (tick_intern now p)
unfolding tick_intern
tick_intern-Ended now p h =
    let diff = time_diff now (p.basetimems + (p.timepassedms + p.targetsleeptimems)) in
    elim (Bool-cases (leb 200 (p.timepassedms % 200 + p.targetsleeptimems))) [
      | inr t ↦ rw t (one_tick now p (count_tick p) refl refl refl)
      | inl t ↦ elim (Bool-cases (shrinks p.lasttimediffms diff)) [
        | inl s ↦ rw (t, s) (one_tick now p (seen diff p) refl refl refl)
        | inr s ↦ rw (t, s) (adjust_sleep-Ended now diff diff p h)
      ]
    ]

time_diff-late : (a b : ℕ) → b < a → (d : ℕ) × (time_diff a b ≡ pos (suc d))
time_diff-late a b h =
    let t : leb b a ≡ true = ground (arith, h) in
    let e : a - b ≡ suc (a - b - 1) = omega (arith, h) in (a - b - 1, rw t (ap pos e))

abbrev AllTicks : ℕ → TickPoke → TickPoke → Type 0
AllTicks now p q =
    (count : ℕ) × (length q.dispatched ≡ length p.dispatched + count)
    × (now ≤ p.timepassedms + count * p.targetsleeptimems)

all_ticks :
    (now e : ℕ) (d : ℤ) (p : TickPoke)
    → 0 < p.targetsleeptimems
    → (p.actualsleeptimeusecs == 25) ≡ true
    → Returns (AllTicks now p) (adjust_sleep (pos (suc e)) now (seen d p))
all_ticks now e d p h m = rw m (
    Returns-map (CaughtUp now (seen d p)) (AllTicks now p)
      (catch_up (now - (seen d p).timepassedms) now (seen d p)) (catches_up now d p h)
      (λ q (c, t, k). (
        suc c,
        omega (arith, t.dispatches),
        omega (arith, k, t.passed, suc_mul c p.targetsleeptimems),
      )))

-- Where the sleep is at its minimum, the adjustment is due, the ticks are late and do not catch up by
-- themselves, `tickIntern` dispatches ticks until the time that has passed since the start is not the real
-- time since the start, but the time of the system.
pub tick_intern_overruns :
    (now : ℕ) (p : TickPoke)
    → 0 < p.targetsleeptimems
    → leb 200 (p.timepassedms % 200 + p.targetsleeptimems) ≡ true
    → p.actualsleeptimeusecs ≡ 25
    → p.basetimems + (p.timepassedms + p.targetsleeptimems) < now
    → shrinks p.lasttimediffms
        (time_diff now (p.basetimems + (p.timepassedms + p.targetsleeptimems)))
      ≡ false
    → Returns
        (λ q.
          (count : ℕ) × (length q.dispatched ≡ length p.dispatched + count)
          × (now ≤ p.timepassedms + count * p.targetsleeptimems))
        (tick_intern now p)
unfolding tick_intern
tick_intern_overruns now p h t a late s =
    let diff = time_diff now (p.basetimems + (p.timepassedms + p.targetsleeptimems)) in
    let (d, e) = time_diff-late now (p.basetimems + (p.timepassedms + p.targetsleeptimems)) late in
    rw (t, s)
      (subst (λ x. Returns (AllTicks now p) (adjust_sleep x now (seen diff p))) (sym e)
        (all_ticks now d diff p h (ground (arith, a))))
