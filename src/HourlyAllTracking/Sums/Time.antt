-- ===== src/HourlyAllTracking/Sums/Time.antt =====
-- Time passing in src/hourlyalltracking.cpp: minute by minute, or at once when counts are restored.
use cbftp.Common.{
  ℕ, zero, suc, ◌+◌, ◌-◌, ◌/◌, ◌%◌, ◌<◌, ◌≡◌, ap, ◌∙◌, Option, some, List, length, arith, u64_mod,
  u32, u64, true, false, leb, Bool-cases, ◌⊎◌, inl, inr, ◌>>=◌, if◌then◌else◌,
}
use cbftp.HourlyAllTracking.{HourlyAllTracking, tick_minute, check_rotate, set_hours, sum_from}
use cbftp.HourlyAllTracking.Sums.{sum, AllBelow, IsConsistent, age, at_time}
use cbftp.HourlyAllTracking.Sums.Calls.{age-day, check_rotate_early, consistent_form, sum_from_lem}

-- `n` calls of `tickMinute`.
pub ticks : ℕ → HourlyAllTracking → Option HourlyAllTracking
ticks zero s = some s
ticks (suc n) s = tick_minute s >>= ticks n

tick_minute_lem :
    (hours : List ℕ) (all minutes : ℕ)
    → length hours ≡ 24
    → AllBelow u64_mod hours
    → minutes < 60
    → tick_minute (at_time hours all minutes)
      ≡ some (at_time (age ((minutes + 1) / 60) hours) all ((minutes + 1) % 60))
unfolding tick_minute
tick_minute_lem hours all minutes h a m =
    let e : u32 (minutes + 1) ≡ minutes + 1 = omega arith in
    rw e (check_rotate_early hours all (minutes + 1) h a (omega arith))

age_step :
    (n minutes : ℕ) (hours : List ℕ)
    → minutes < 60
    → age (((minutes + 1) % 60 + n) / 60) (age ((minutes + 1) / 60) hours)
      ≡ age ((minutes + suc n) / 60) hours
age_step n minutes hours m = elim (Bool-cases (leb 59 minutes)) [
  | inl e ↦
      let k : (minutes + 1) / 60 ≡ 1 = ground arith in
      let j : (minutes + suc n) / 60 ≡ suc (((minutes + 1) % 60 + n) / 60) = ground arith in
      rw (k, j)
  | inr e ↦
      let k : (minutes + 1) / 60 ≡ 0 = ground arith in
      let j : (minutes + suc n) / 60 ≡ ((minutes + 1) % 60 + n) / 60 = ground arith in rw (k, j)
]

ticks_lem :
    (n : ℕ) (hours : List ℕ) (all minutes : ℕ)
    → length hours ≡ 24
    → AllBelow u64_mod hours
    → minutes < 60
    → ticks n (at_time hours all minutes)
      ≡ some (at_time (age ((minutes + n) / 60) hours) all ((minutes + n) % 60))
unfolding ticks
ticks_lem zero hours all minutes h a m =
    let k : (minutes + 0) / 60 ≡ 0 = omega arith in
    let r : (minutes + 0) % 60 ≡ minutes = omega arith in rw (k, r)
ticks_lem (suc n) hours all minutes h a m =
    let d = age-day ((minutes + 1) / 60) hours h a in
    let r : (minutes + suc n) % 60 ≡ ((minutes + 1) % 60 + n) % 60 = omega arith in
    rw (tick_minute_lem hours all minutes h a m, ← age_step n minutes hours m, r)
      (ticks_lem n (age ((minutes + 1) / 60) hours) all ((minutes + 1) % 60) d.0 d.1 (omega arith))

-- After any number of minutes a consistent object has moved its counts on by as many hours as have
-- been completed, with a count of 0 for each new one, and keeps the rest of the minutes, its total, and
-- the sum of what is left.
pub ticks-age :
    (n : ℕ) (s : HourlyAllTracking)
    → IsConsistent s
    → ticks n s
      ≡ some (record {
        hours = age ((s.minutessincelastrotation + n) / 60) s.hours;
        last24hours = u64 (sum (age ((s.minutessincelastrotation + n) / 60) s.hours));
        all = s.all;
        minutessincelastrotation = (s.minutessincelastrotation + n) % 60;
      })
ticks-age n s v =
    ap (ticks n) (consistent_form s v)
    ∙ ticks_lem n s.hours s.all s.minutessincelastrotation v.day v.words v.hour

-- Restoring a day of counts that was saved at a timestamp gives what the object would have become had
-- it had those counts and run since then, if that is less than a day ago or not in the past.
pub set_hours-ticks :
    (hours : List ℕ) (timestamp currtime : ℕ) (s : HourlyAllTracking)
    → length hours ≡ 24
    → AllBelow u64_mod hours
    → (currtime - timestamp) / 60 < 1440
    → set_hours hours timestamp currtime s
      ≡ ticks ((currtime - timestamp) / 60) (record {
        hours = hours;
        last24hours = u64 (sum hours);
        all = s.all;
        minutessincelastrotation = 0;
      })
unfolding set_hours
set_hours-ticks hours timestamp currtime s h a d =
    let e : sum_from 0 hours ≡ u64 (sum hours) =
      omega (arith, sum_from_lem 0 hours (omega arith)) in
    rw (e, ticks_lem ((currtime - timestamp) / 60) hours s.all 0 h a (omega arith))
      (restored (Bool-cases (leb currtime timestamp)))
  where
    minutes : ℕ
    minutes = (currtime - timestamp) / 60

    restored :
        (leb currtime timestamp ≡ true) ⊎ (leb currtime timestamp ≡ false)
        → (if leb currtime timestamp
            then some (at_time hours s.all 0)
            else check_rotate (at_time hours s.all minutes))
          ≡ some (at_time (age ((0 + minutes) / 60) hours) s.all ((0 + minutes) % 60))
    restored (inl e) =
        let k : (0 + minutes) / 60 ≡ 0 = ground arith in
        let r : (0 + minutes) % 60 ≡ 0 = ground arith in rw (e, k, r)
    restored (inr e) =
        let k : (0 + minutes) / 60 ≡ minutes / 60 = omega arith in
        let r : (0 + minutes) % 60 ≡ minutes % 60 = omega arith in
        rw (e, k, r) (check_rotate_early hours s.all minutes h a d)
