-- ===== src/TickPoke/Examples.antt =====
-- Runs of src/core/tickpoke.cpp and src/core/tickpoketarget.cpp.
use cbftp.Common.{ℕ, ◌+◌, ◌*◌, ◌≤◌, ◌<◌, ◌≡◌, refl, true, [], length, codes, arith, Returns, pos}
use cbftp.TickPoke.{TickPoke, TickPokeTarget, tick_intern}
use cbftp.TickPoke.Intervals.{ticks, ticks-interval}
use cbftp.TickPoke.Ticking.{Ended, tick_intern-Ended, tick_intern_overruns}

-- A target that is called every 250 milliseconds.
abbrev quarter : TickPokeTarget
quarter = record { pokee = 1; interval = 250; currentval = 0; message = 7; desc = codes "Engine" }

ticks-interval_example :
    ((ticks 12 50 quarter).0 * 250 + (ticks 12 50 quarter).1.currentval ≡ 0 + 12 * 50)
    × ((ticks 12 50 quarter).1.currentval < 250)
ticks-interval_example = ticks-interval 12 50 quarter (omega arith) (omega arith)

-- Started at 9000 milliseconds, with the least sleep, and a second late at 11000.
abbrev late : TickPoke
late = record {
  targets = [];
  forever = true;
  targetsleeptimems = 50;
  actualsleeptimeusecs = 25;
  basetimems = 9000;
  lasttimediffms = pos 0;
  timepassedms = 950;
  dispatched = [];
}

tick_intern-Ended_example : Returns (Ended 11000 late) (tick_intern 11000 late)
tick_intern-Ended_example = tick_intern-Ended 11000 late (omega arith)

tick_intern_overruns_example :
    Returns
      (λ q. (count : ℕ) × (length q.dispatched ≡ 0 + count) × (11000 ≤ 950 + count * 50))
      (tick_intern 11000 late)
tick_intern_overruns_example =
    tick_intern_overruns 11000 late (omega arith) refl refl (omega arith) refl
