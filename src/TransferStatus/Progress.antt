-- ===== src/TransferStatus/Progress.antt =====
-- The sizes and the progress that are shown.
use cbftp.Common.{
  ℕ, ◌+◌, ◌%◌, ◌≤◌, ◌<◌, ◌≡◌, ◌↔◌, ◌⊎◌, none, some, List, [], ◌∷◌, arith, u64_mod, Option-cases,
  inl, inr, Returns,
}
use cbftp.TransferStatus.{Transfer, TransferStatus, new}
use cbftp.TransferStatus.Operations.{
  Call, set_target_size, interpolate_add_size, set_time_spent, step, run,
}

new-progress :
    (t : Transfer) (size speed : ℕ) {s : TransferStatus}
    → new t size speed ≡ some s
    → s.progress ≤ 100
unfolding new
new-progress t size speed h = ground arith

step-progress :
    (c : Call) (s : TransferStatus) {t : TransferStatus}
    → s.progress ≤ 100
    → step c s ≡ some t
    → t.progress ≤ 100
unfolding step
step-progress Call.finishes s p h = ground arith
step-progress _ s p h = ground arith

run-progress :
    (cs : List Call) (s : TransferStatus) {t : TransferStatus}
    → s.progress ≤ 100
    → run cs s ≡ some t
    → t.progress ≤ 100
unfolding run
run-progress [] s p h = ground arith
run-progress (c ∷ cs) s {t} p h = elim (Option-cases (step c s)) [
  | inl e ↦ ground arith
  | inr (u, e) ↦ run-progress cs u {t = t} (step-progress c s p e) (ground arith)
]

-- The progress of a new transfer is never above 100, whatever calls follow.
pub run-new-progress :
    (t : Transfer) (size speed : ℕ) (cs : List Call) {s u : TransferStatus}
    → new t size speed ≡ some s
    → run cs s ≡ some u
    → u.progress ≤ 100
run-new-progress t size speed cs {s} h k = run-progress cs s (new-progress t size speed h) k

-- With a source size above 0 a new target size is taken without a fault: it is then the known size,
-- the apparent size has reached it and has not shrunk, and the source's size is what it was or the new
-- size, whichever is larger.
pub set_target_size_grows :
    (n : ℕ) (s : TransferStatus)
    → 0 < s.sourcesize
    → Returns
        (λ t.
          (s.interpolatedtargetsize ≤ t.interpolatedtargetsize)
          × (s.sourcesize ≤ t.sourcesize)
          × (n ≤ t.interpolatedtargetsize)
          × (n ≤ t.sourcesize)
          × (t.knowntargetsize ≡ n))
        (set_target_size n s)
unfolding set_target_size
set_target_size_grows n s h = ground arith

-- With a source size above 0, and as long as the apparent size and the increment do not wrap around
-- at 64 bits, an interpolation runs through: the apparent size does not shrink, grows by at most the
-- increment, and ends above the source's size only if it was above it or if the fill size was behind
-- the apparent size.
pub interpolate_add_size_bounds :
    (n : ℕ) (s : TransferStatus)
    → 0 < s.sourcesize
    → s.interpolatedtargetsize + n < u64_mod
    → Returns
        (λ t.
          (s.interpolatedtargetsize ≤ t.interpolatedtargetsize)
          × (t.interpolatedtargetsize ≤ s.interpolatedtargetsize + n)
          × ((t.interpolatedtargetsize ≤ s.sourcesize)
              ⊎ (s.sourcesize < s.interpolatedtargetsize)
              ⊎ (s.interpolationfilltargetsize < s.interpolatedtargetsize)))
        (interpolate_add_size n s)
unfolding interpolate_add_size
interpolate_add_size_bounds n s h k = ground arith

-- `setTimeSpent` divides by zero exactly if the apparent size is below the source's size and the
-- speed is a multiple of 2^22, such as 0.
pub set_time_spent_faults :
    (n : ℕ) (s : TransferStatus)
    → (set_time_spent n s ≡ none)
      ↔ ((s.interpolatedtargetsize < s.sourcesize) × (s.speed % 4194304 ≡ 0))
unfolding set_time_spent
set_time_spent_faults n s = ground arith
