-- ===== src/ConnStateTracker/Phases.antt =====
-- The object as a machine of six phases: which calls each phase accepts, and where they lead.
use cbftp.Common.{◌≡◌, Bool, true, false, ◌&&◌, ◌||◌, not, some, is_set, arith}
use cbftp.ConnStateTracker.{ConnStateTracker}
use cbftp.ConnStateTracker.Operations.{Call, step}
use cbftp.ConnStateTracker.Invariant.{IsConsistent}

-- A file transfer is not there, locked for or under way; a listing may run beside it.
pub data Phase : Type 0 where
  idle locked transferring : Phase
  listing locked_listing transferring_listing : Phase

-- By `listtransfer`, `transferlocked` and `transfer`.
abbrev phase_of : Bool → Bool → Bool → Phase
phase_of false false t = Phase.idle
phase_of false true false = Phase.locked
phase_of false true true = Phase.transferring
phase_of true false t = Phase.listing
phase_of true true false = Phase.locked_listing
phase_of true true true = Phase.transferring_listing

abbrev pub phase : ConnStateTracker → Phase
phase s = phase_of s.listtransfer s.transferlocked s.transfer

abbrev lock_phase : Phase → Phase
lock_phase Phase.idle = Phase.locked
lock_phase Phase.listing = Phase.locked_listing
lock_phase p = p

abbrev transfer_phase : Phase → Phase
transfer_phase Phase.locked = Phase.transferring
transfer_phase Phase.locked_listing = Phase.transferring_listing
transfer_phase p = p

abbrev end_file : Phase → Phase
end_file Phase.locked = Phase.idle
end_file Phase.transferring = Phase.idle
end_file Phase.locked_listing = Phase.listing
end_file Phase.transferring_listing = Phase.listing
end_file p = p

-- A listing ends first.
abbrev end_any : Phase → Phase
end_any Phase.idle = Phase.idle
end_any Phase.locked = Phase.idle
end_any Phase.transferring = Phase.idle
end_any Phase.listing = Phase.idle
end_any Phase.locked_listing = Phase.locked
end_any Phase.transferring_listing = Phase.transferring

abbrev pub next : Call → Phase → Phase
next (Call.sets_list tm e) p = Phase.listing
next (Call.locks tm fl co download) p = lock_phase p
next (Call.sets_transfer file fxp e sslclient) p = transfer_phase p
next Call.finishes_transfer p = end_any p
next Call.finishes_file p = end_file p
next _ p = p

abbrev is_idle : Phase → Bool
is_idle Phase.idle = true
is_idle _ = false

abbrev is_free : Phase → Bool
is_free Phase.idle = true
is_free Phase.listing = true
is_free _ = false

abbrev is_waiting : Phase → Bool
is_waiting Phase.locked = true
is_waiting Phase.locked_listing = true
is_waiting _ = false

-- By the phase, whether a request is open, and whether there is a transfer monitor.
abbrev pub accepts : Call → Phase → Bool → Bool → Bool
accepts Call.disconnects p r m = is_idle p && not r
accepts Call.uses p r m = is_free p
accepts (Call.sets_transfer file fxp e sslclient) p r m = is_waiting p && (not fxp || not r) && m
accepts (Call.sets_list tm e) p r m = is_idle p
accepts (Call.locks tm fl co download) p r m = is_free p && (download || not r)
accepts (Call.sets_request q) p r m = not r
accepts _ p r m = true

-- In a consistent state a call runs through its assertions exactly if `accepts` says so of the phase,
-- of whether a request is open and of whether there is a monitor: a disconnect wants the idle phase
-- and no request, a use no file transfer, a listing the idle phase, a lock no file transfer and, for an
-- upload, no request, a transfer the lock, a monitor and, for FXP, no request, a request none open, and
-- no other call fails.
pub step-accepts :
    (c : Call) (s : ConnStateTracker)
    → IsConsistent s
    → is_set (step c s) ≡ accepts c (phase s) (is_set s.request) (is_set s.tm)
unfolding step
step-accepts Call.checks s v = ground arith
step-accepts _ s v = ground arith

-- In a consistent state a call that runs through leads to the phase that `next` gives: every call but
-- the starts and ends of listings, locks and transfers keeps the phase.
pub phase-step :
    (c : Call) (s : ConnStateTracker) {t : ConnStateTracker}
    → IsConsistent s
    → step c s ≡ some t
    → phase t ≡ next c (phase s)
unfolding step
phase-step Call.checks s v h = ground arith
phase-step _ s v h = ground arith
