-- ===== src/HourlyAllTracking/Sums/Calls.antt =====
-- Every method of src/hourlyalltracking.cpp keeps the sum that of the hours.
use cbftp.Common.{
  ℕ, zero, suc, ◌+◌, ◌-◌, ◌*◌, ◌/◌, ◌%◌, ◌≤◌, ◌<◌, ◌≡◌, refl, ap, Option, some, List, [], ◌∷◌,
  length, replicate, arith, u64_mod, u32, u64, true, false, leb, Bool-cases, inl, inr, Returns,
  if◌then◌else◌, length-take, take,
}
use cbftp.HourlyAllTracking.{
  HourlyAllTracking, add, tick_minute, check_rotate, reset_hours, reset, set_all, set_hours,
  sum_from,
}
use cbftp.HourlyAllTracking.Sums.{
  sum, AllBelow, IsConsistent, age, at_time, rotate_while_lem, AllBelow-take,
}

pub age-day :
    (k : ℕ) (hours : List ℕ)
    → length hours ≡ 24
    → AllBelow u64_mod hours
    → (length (age k hours) ≡ 24) × AllBelow u64_mod (age k hours)
age-day zero hours h a = (h, a)
age-day (suc k) hours h a =
    age-day k (0 ∷ take 23 hours) (omega (arith, length-take 23 hours))
      (omega arith, AllBelow-take u64_mod 23 hours a)

at_time-IsConsistent :
    (k : ℕ) (hours : List ℕ) (all minutes : ℕ)
    → length hours ≡ 24
    → AllBelow u64_mod hours
    → IsConsistent (at_time (age k hours) all (minutes % 60))
at_time-IsConsistent k hours all minutes h a = record {
  day = (age-day k hours h a).0;
  words = (age-day k hours h a).1;
  summed = refl;
  hour = omega arith;
}

zeros : AllBelow u64_mod (replicate 24 0)
zeros = omega arith

-- What `checkRotate` makes of a day of counts.
pub check_rotate_early :
    (hours : List ℕ) (all minutes : ℕ)
    → length hours ≡ 24
    → AllBelow u64_mod hours
    → minutes < 1440
    → check_rotate (at_time hours all minutes)
      ≡ some (at_time (age (minutes / 60) hours) all (minutes % 60))
unfolding check_rotate
check_rotate_early hours all minutes h a m =
    let e : leb (24 * 60) minutes ≡ false = ground arith in
    rw e (rotate_while_lem 24 hours all minutes h a (omega arith))

pub check_rotate_late :
    (hours : List ℕ) (all minutes : ℕ)
    → 1440 ≤ minutes
    → check_rotate (at_time hours all minutes) ≡ some (at_time (replicate 24 0) all 0)
unfolding check_rotate
check_rotate_late hours all minutes m =
    let e : leb (24 * 60) minutes ≡ true = ground arith in
    rw e (rotate_while_lem 24 (replicate 24 0) all 0 refl zeros (omega arith))

check_rotate-IsConsistent :
    (hours : List ℕ) (all minutes : ℕ)
    → length hours ≡ 24
    → AllBelow u64_mod hours
    → Returns IsConsistent (check_rotate (at_time hours all minutes))
check_rotate-IsConsistent hours all minutes h a = elim (Bool-cases (leb 1440 minutes)) [
  | inl e ↦
      rw (check_rotate_late hours all minutes (ground arith))
        (at_time-IsConsistent 0 (replicate 24 0) all 0 refl zeros)
  | inr e ↦
      rw (check_rotate_early hours all minutes h a (ground arith))
        (at_time-IsConsistent (minutes / 60) hours all minutes h a)
]

pub sum_from_lem : (acc : ℕ) (hs : List ℕ) → acc < u64_mod → sum_from acc hs ≡ u64 (acc + sum hs)
unfolding sum_from
sum_from_lem acc [] h = omega arith
sum_from_lem acc (x ∷ xs) h = omega (arith, sum_from_lem (u64 (acc + x)) xs (omega arith))

-- A consistent object is given by its hours, its total and its minutes.
pub consistent_form :
    (s : HourlyAllTracking) → IsConsistent s → s ≡ at_time s.hours s.all s.minutessincelastrotation
consistent_form s v = ap (λ l. record s { last24hours = l }) v.summed

add-IsConsistent :
    (value : ℕ) (hours : List ℕ) (all minutes : ℕ)
    → length hours ≡ 24
    → AllBelow u64_mod hours
    → minutes < 60
    → Returns IsConsistent (add value (at_time hours all minutes))
unfolding add
add-IsConsistent value [] all minutes h a m = absurd (omega arith)
add-IsConsistent value (x ∷ xs) all minutes h a m = record {
  day = h;
  words = (omega arith, a.1);
  summed = omega arith;
  hour = m;
}

-- A call of a method that changes the object; `setHours` is given a day of 64-bit counts.
pub data Call : Type 0 where
  adds : ℕ → Call
  ticks : Call
  sets_all : ℕ → Call
  resets : Call
  resets_hours : Call
  sets_hours : (hours : List ℕ) → length hours ≡ 24 → AllBelow u64_mod hours → ℕ → ℕ → Call

unfoldable pub step : Call → HourlyAllTracking → Option HourlyAllTracking
unfolding add tick_minute set_all reset reset_hours set_hours
step (adds value) s = add value s
step ticks s = tick_minute s
step (sets_all count) s = some (set_all count s)
step resets s = some (reset s)
step resets_hours s = some (reset_hours s)
step (sets_hours hours h a timestamp currtime) s = set_hours hours timestamp currtime s

set_hours-IsConsistent :
    (hours : List ℕ) (timestamp currtime all : ℕ)
    → length hours ≡ 24
    → AllBelow u64_mod hours
    → Returns IsConsistent (
        if leb currtime timestamp
        then some (at_time hours all 0)
        else check_rotate (at_time hours all ((currtime - timestamp) / 60)))
set_hours-IsConsistent hours timestamp currtime all h a =
    elim (Bool-cases (leb currtime timestamp)) [
      | inl e ↦ rw e (at_time-IsConsistent 0 hours all 0 h a)
      | inr e ↦ rw e (check_rotate-IsConsistent hours all ((currtime - timestamp) / 60) h a)
    ]

-- Every method runs through on a consistent object and leaves it consistent: 24 counts of 64 bits,
-- less than an hour since the last rotation, and a sum of the last 24 hours that is the sum of the
-- counts modulo 2^64. `setHours` is given 24 counts of 64 bits.
pub step-IsConsistent :
    (c : Call) (s : HourlyAllTracking) → IsConsistent s → Returns IsConsistent (step c s)
unfolding step
step-IsConsistent (adds value) s v =
    rw (consistent_form s v)
      (add-IsConsistent value s.hours s.all s.minutessincelastrotation v.day v.words v.hour)
step-IsConsistent ticks s v =
    let m : u32 (s.minutessincelastrotation + 1) ≡ s.minutessincelastrotation + 1 =
      omega (arith, v.hour) in
    rw (v.summed, m)
      (check_rotate-IsConsistent s.hours s.all (s.minutessincelastrotation + 1) v.day v.words)
step-IsConsistent (sets_all count) s v = record {
  day = v.day;
  words = v.words;
  summed = v.summed;
  hour = v.hour;
}
step-IsConsistent resets s v = at_time-IsConsistent 0 (replicate 24 0) 0 0 refl zeros
step-IsConsistent resets_hours s v = at_time-IsConsistent 0 (replicate 24 0) s.all 0 refl zeros
step-IsConsistent (sets_hours hours h a timestamp currtime) s v =
    let e : sum_from 0 hours ≡ u64 (sum hours) =
      omega (arith, sum_from_lem 0 hours (omega arith)) in
    rw e (set_hours-IsConsistent hours timestamp currtime s.all h a)
