-- ===== src/TickPoke/Intervals.antt =====
-- How often src/core/tickpoketarget.cpp says that it is time.
use cbftp.Common.{
  ℕ, zero, suc, ◌+◌, ◌-◌, ◌*◌, ◌≤◌, ◌<◌, ◌≡◌, inl, inr, if◌then◌else◌, leb, Bool-cases, arith,
}
use cbftp.TickPoke.{TickPokeTarget, tick_target}

pub suc_mul : (a b : ℕ) → suc a * b ≡ b + a * b
suc_mul a b = grind arith

-- Ticks in a row, and how many of them it was time for.
abbrev pub ticks : ℕ → ℕ → TickPokeTarget → ℕ × TickPokeTarget
ticks zero msecs t = (0, t)
ticks (suc n) msecs t =
    let r = tick_target msecs t in
    let rest = ticks n msecs r.1 in ((if r.0 then suc rest.0 else rest.0), rest.1)

-- After ticks that are no longer than a target's interval, it was time once for each interval that has passed:
-- the intervals and what is left, which is less than one, are the time of the ticks and what was left before.
pub ticks-interval :
    (n msecs : ℕ) (t : TickPokeTarget)
    → msecs ≤ t.interval
    → t.currentval < t.interval
    → (let r = ticks n msecs t in
        (r.0 * t.interval + r.1.currentval ≡ t.currentval + n * msecs)
        × (r.1.currentval < t.interval))
ticks-interval zero msecs t h k = (omega arith, k)
ticks-interval (suc n) msecs t h k = elim (Bool-cases (leb t.interval (t.currentval + msecs))) [
  | inl e ↦
      let r =
        ticks-interval n msecs (record t { currentval = t.currentval + msecs - t.interval }) h
          (ground (arith, e, h, k)) in
      let m =
        suc_mul (ticks n msecs (record t { currentval = t.currentval + msecs - t.interval })).0
          t.interval in
      let w = suc_mul n msecs in
      let g : t.interval ≤ t.currentval + msecs = ground (arith, e) in
      rw e (omega (arith, r.0, m, w, g), r.1)
  | inr e ↦
      let r =
        ticks-interval n msecs (record t { currentval = t.currentval + msecs }) h
          (ground (arith, e)) in
      let w = suc_mul n msecs in rw e (omega (arith, r.0, w), r.1)
]
