-- ===== src/HourlyAllTracking/Examples.antt =====
-- Runs of src/hourlyalltracking.cpp on a concrete day.
use cbftp.Common.{ℕ, ◌≡◌, refl, List, ◌∷◌, arith, replicate, u64_mod, u64, Returns}
use cbftp.HourlyAllTracking.{HourlyAllTracking, set_hours}
use cbftp.HourlyAllTracking.Sums.{sum, AllBelow, IsConsistent}
use cbftp.HourlyAllTracking.Sums.Calls.{Call, step, step-IsConsistent}
use cbftp.HourlyAllTracking.Sums.Time.{ticks, set_hours-ticks}

abbrev day : List ℕ
day = 500 ∷ 70 ∷ replicate 22 3

abbrev counted : HourlyAllTracking
counted = record { hours = day; last24hours = 636; all = 1000; minutessincelastrotation = 59 }

day-words : AllBelow u64_mod day
day-words = ground arith

counted-IsConsistent : IsConsistent counted
counted-IsConsistent = record { day = refl; words = day-words; hour = omega arith; summed = refl }

step-IsConsistent_example : Returns IsConsistent (step Call.ticks counted)
step-IsConsistent_example = step-IsConsistent Call.ticks counted counted-IsConsistent

set_hours-ticks_example :
    set_hours day 6000 10000 counted
    ≡ ticks 66 (record {
      hours = day;
      last24hours = u64 (sum day);
      all = 1000;
      minutessincelastrotation = 0;
    })
set_hours-ticks_example = set_hours-ticks day 6000 10000 counted refl day-words (omega arith)
