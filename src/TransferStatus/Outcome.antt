-- ===== src/TransferStatus/Outcome.antt =====
-- How a transfer ends: the state as a machine of its own, and what an abort settles.
use cbftp.Common.{
  ◌≡◌, refl, Bool, true, false, ◌||◌, some, List, [], ◌∷◌, arith, Option-cases, inl, inr, ◌∙◌, ap,
}
use cbftp.TransferStatus.{
  TransferStatus, TransferStatusState, successful, failed, dupe, aborted, timeout,
}
use cbftp.TransferStatus.Operations.{Call, step, run}

-- A failure, a timeout or a dupe takes the place of any state but an abort.
abbrev unless_aborted : TransferStatusState → TransferStatusState → TransferStatusState
unless_aborted aborted new = aborted
unless_aborted _ new = new

abbrev pub next_state : Call → TransferStatusState → TransferStatusState
next_state Call.finishes st = successful
next_state Call.fails st = unless_aborted st failed
next_state Call.times_out st = unless_aborted st timeout
next_state Call.dupes st = unless_aborted st dupe
next_state Call.aborts st = aborted
next_state _ st = st

abbrev pub final_state : List Call → TransferStatusState → TransferStatusState
final_state [] st = st
final_state (c ∷ cs) st = final_state cs (next_state c st)

step-state :
    (c : Call) (s : TransferStatus) {t : TransferStatus}
    → step c s ≡ some t
    → t.state ≡ next_state c s.state
unfolding step
step-state Call.finishes s h = ground arith
step-state _ s h = ground arith

-- The state that a history of calls leads to depends on the state before and on the calls alone, and
-- is the one that the machine `next_state` reaches: success and an abort replace every state, a failure,
-- a timeout or a dupe every state but an abort, and all other calls keep it.
pub run-state :
    (cs : List Call) (s : TransferStatus) {t : TransferStatus}
    → run cs s ≡ some t
    → t.state ≡ final_state cs s.state
unfolding run
run-state [] s h = ground arith
run-state (c ∷ cs) s {t} h = elim (Option-cases (step c s)) [
  | inl e ↦ ground arith
  | inr (u, e) ↦ run-state cs u {t = t} (ground arith) ∙ ap (final_state cs) (step-state c s e)
]

abbrev pub is_finish : Call → Bool
is_finish Call.finishes = true
is_finish _ = false

abbrev pub any_finish : List Call → Bool
any_finish [] = false
any_finish (c ∷ cs) = is_finish c || any_finish cs

next_state-aborted : (c : Call) → is_finish c ≡ false → next_state c aborted ≡ aborted
next_state-aborted Call.finishes h = ground arith
next_state-aborted _ h = refl

final_state-aborted : (cs : List Call) → any_finish cs ≡ false → final_state cs aborted ≡ aborted
final_state-aborted [] h = refl
final_state-aborted (c ∷ cs) h =
    ap (final_state cs) (next_state-aborted c (ground arith))
    ∙ final_state-aborted cs (ground arith)

-- An aborted transfer stays aborted under every history of calls that runs through and does not
-- report success.
pub run-aborted :
    (cs : List Call) (s : TransferStatus) {t : TransferStatus}
    → s.state ≡ aborted
    → any_finish cs ≡ false
    → run cs s ≡ some t
    → t.state ≡ aborted
run-aborted cs s a f h = run-state cs s h ∙ (ap (final_state cs) a ∙ final_state-aborted cs f)
