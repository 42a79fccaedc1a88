-- ===== src/TickPoke.antt =====
-- src/core/tickpoke.{h,cpp} and src/core/tickpoketarget.{h,cpp}: repeated calls at intervals. The time of the
-- system, `epochMs`, is an argument; the calls of dispatchTick are kept as a list of their intervals, the
-- newest first. An interval or a value of a target is not negative. What is left out is the thread and its
-- lock.
pub mod Intervals
pub mod Ticking
mod Examples
use cbftp.Common.{
  ℕ, zero, suc, ◌+◌, ◌-◌, ◌*◌, ◌%◌, ◌==◌, Bool, true, false, ◌&&◌, ◌||◌, Option, none, some, List,
  [], ◌∷◌, ◌++◌, if◌then◌else◌, ltb, leb, Bytes, ℤ, pos, negsuc, u32, sub32,
}

pub record TickPokeTarget : Type 0 where
  pub pokee : ℕ
  pub interval : ℕ
  pub currentval : ℕ
  pub message : ℕ
  pub desc : Bytes

-- `TickPokeTarget::tick`.
abbrev pub tick_target : ℕ → TickPokeTarget → Bool × TickPokeTarget
tick_target msecs t =
    if leb t.interval (t.currentval + msecs)
    then (true, record t { currentval = t.currentval + msecs - t.interval })
    else (false, record t { currentval = t.currentval + msecs })

pub record TickPoke : Type 0 where
  pub targets : List TickPokeTarget
  pub forever : Bool
  pub targetsleeptimems : ℕ
  pub actualsleeptimeusecs : ℕ
  pub basetimems : ℕ
  pub lasttimediffms : ℤ
  pub timepassedms : ℕ
  pub dispatched : List ℕ

unfoldable pub new : TickPoke
new = record {
  targets = [];
  forever = true;
  targetsleeptimems = 50;
  actualsleeptimeusecs = 50000;
  basetimems = 0;
  lasttimediffms = pos 0;
  timepassedms = 0;
  dispatched = [];
}

-- The first loop of `tick`: the calls to make, as receivers with their messages, and the targets.
abbrev pub tick_targets : ℕ → List TickPokeTarget → List (ℕ × ℕ) × List TickPokeTarget
tick_targets interval [] = ([], [])
tick_targets interval (t ∷ ts) =
    let r = tick_target interval t in
    let rest = tick_targets interval ts in
    ((if r.0 then (t.pokee, t.message) ∷ rest.0 else rest.0), r.1 ∷ rest.1)

unfoldable pub tick : ℕ → TickPoke → List (ℕ × ℕ) × TickPoke
tick interval p =
    if p.forever
    then (let r = tick_targets interval p.targets in (r.0, record p { targets = r.1 }))
    else ([], p)

unfoldable pub start_poke : ℕ → Bytes → ℕ → ℕ → TickPoke → TickPoke
start_poke pokee desc interval message p = record p {
  targets =
      p.targets
      ++ (record {
        pokee = pokee;
        interval = interval;
        currentval = 0;
        message = message;
        desc = desc;
      }
          ∷ []);
}

abbrev pub is_target : ℕ → ℕ → TickPokeTarget → Bool
is_target pokee message t = (t.pokee == pokee) && (t.message == message)

abbrev pub erase_target : ℕ → ℕ → List TickPokeTarget → List TickPokeTarget
erase_target pokee message [] = []
erase_target pokee message (t ∷ ts) =
    if is_target pokee message t then ts else t ∷ erase_target pokee message ts

unfoldable pub stop_poke : ℕ → ℕ → TickPoke → TickPoke
stop_poke pokee message p = record p { targets = erase_target pokee message p.targets }

-- `breakLoop`, `setGranularity` and what `tickerLoop` does first.
abbrev pub break_loop : TickPoke → TickPoke
break_loop p = record p { forever = false }

abbrev pub set_granularity : ℕ → TickPoke → TickPoke
set_granularity interval p = record p {
  targetsleeptimems = interval;
  actualsleeptimeusecs = u32 (interval * 1000);
}

abbrev pub start_loop : ℕ → TickPoke → TickPoke
start_loop now p = record p { basetimems = now }

-- `tickIntern` without an adjustment.
abbrev pub count_tick : TickPoke → TickPoke
count_tick p = record p {
  timepassedms = p.timepassedms + p.targetsleeptimems;
  dispatched = p.targetsleeptimems ∷ p.dispatched;
}

-- The difference of two times.
abbrev pub time_diff : ℕ → ℕ → ℤ
time_diff a b = if leb b a then pos (a - b) else negsuc (b - a - 1)

-- The skew shrinks already.
abbrev pub shrinks : ℤ → ℤ → Bool
shrinks (pos a) (pos b) = ltb 0 b && ltb b a
shrinks (negsuc a) (negsuc b) = ltb b a
shrinks _ _ = false

-- The loop of `tickIntern`, whose condition compares the time passed with the time of the system.
abbrev pub catch_up : ℕ → ℕ → TickPoke → Option TickPoke
catch_up zero now p = if ltb p.timepassedms now then none else some p
catch_up (suc n) now p =
    let rest = catch_up n now (count_tick p) in if ltb p.timepassedms now then rest else some p

abbrev pub adjust_sleep : ℤ → ℕ → TickPoke → Option TickPoke
adjust_sleep (pos zero) now p = some p
adjust_sleep (pos (suc d)) now p =
    if p.actualsleeptimeusecs == 25
    then catch_up (now - p.timepassedms) now p
    else some (record p { actualsleeptimeusecs = sub32 p.actualsleeptimeusecs 25 })
adjust_sleep (negsuc d) now p =
    some (record p { actualsleeptimeusecs = u32 (p.actualsleeptimeusecs + 25) })

abbrev pub adjust : ℕ → TickPoke → Option TickPoke
adjust now p =
    let diff = time_diff now (p.basetimems + p.timepassedms) in
    let seen = record p { lasttimediffms = diff } in
    if shrinks p.lasttimediffms diff then some seen else adjust_sleep diff now seen

unfoldable pub tick_intern : ℕ → TickPoke → Option TickPoke
tick_intern now p =
    if leb 200 (p.timepassedms % 200 + p.targetsleeptimems)
    then adjust now (count_tick p)
    else some (count_tick p)
