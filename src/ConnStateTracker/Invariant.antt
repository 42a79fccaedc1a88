-- ===== src/ConnStateTracker/Invariant.antt =====
-- What holds of a ConnStateTracker after any history of calls.
use cbftp.Common.{
  ℕ, ◌≡◌, true, false, none, some, List, [], ◌∷◌, is_set, arith, inl, inr, Option-cases,
}
use cbftp.ConnStateTracker.{ConnStateTracker, new}
use cbftp.ConnStateTracker.Operations.{Call, step, run}

-- A running file transfer holds the lock and has a monitor; without the lock there is neither a
-- monitor nor an owner; a released command is an active one.
pub record IsConsistent (s : ConnStateTracker) : Type 0 where
  pub locked : s.transfer ≡ true → s.transferlocked ≡ true
  pub monitored : s.transfer ≡ true → is_set s.tm ≡ true
  pub no_monitor : s.transferlocked ≡ false → s.tm ≡ none
  pub no_owner : s.transferlocked ≡ false → s.co ≡ none
  pub released_active : s.delayedcommand.released ≡ true → s.delayedcommand.active ≡ true

pub new-IsConsistent : (junk : ConnStateTracker) (logic : ℕ) → IsConsistent (new junk logic)
unfolding new
new-IsConsistent junk logic = ground arith

pub step-IsConsistent :
    (c : Call) (s : ConnStateTracker) {t : ConnStateTracker}
    → IsConsistent s
    → step c s ≡ some t
    → IsConsistent t
unfolding step
step-IsConsistent (Call.checks) s v h = ground arith
step-IsConsistent _ s v h = ground arith

run-IsConsistent :
    (cs : List Call) (s : ConnStateTracker) {t : ConnStateTracker}
    → IsConsistent s
    → run cs s ≡ some t
    → IsConsistent t
unfolding run
run-IsConsistent [] s v h = ground arith
run-IsConsistent (c ∷ cs) s v h = elim (Option-cases (step c s)) [
  | inl e ↦ ground arith
  | inr (u, e) ↦ run-IsConsistent cs u (step-IsConsistent c s v e) (ground arith)
]

-- Whatever calls a new object has taken without an abort, a running file transfer holds the lock and
-- has a monitor, an object that is not locked for a transfer has neither monitor nor command owner,
-- and a released delayed command is active.
pub run-new-IsConsistent :
    (junk : ConnStateTracker) (logic : ℕ) (cs : List Call) {t : ConnStateTracker}
    → run cs (new junk logic) ≡ some t
    → IsConsistent t
run-new-IsConsistent junk logic cs h =
    run-IsConsistent cs (new junk logic) (new-IsConsistent junk logic) h
