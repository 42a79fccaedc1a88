-- ===== src/TransferStatus/Examples.antt =====
-- Runs of src/transferstatus.cpp on concrete transfers.
use cbftp.Common.{
  ◌≡◌, ◌≤◌, ◌<◌, ◌⊎◌, refl, true, false, none, some, List, [], ◌∷◌, arith, pos, Returns,
}
use cbftp.TransferStatus.{Transfer, TransferStatus, TransferStatusType, new, in_progress, aborted}
use cbftp.TransferStatus.Operations.{Call, step, run, interpolate_add_size}
use cbftp.TransferStatus.Progress.{run-new-progress, interpolate_add_size_bounds}
use cbftp.TransferStatus.Outcome.{run-state, run-aborted, final_state}

abbrev fxp_transfer : Transfer
fxp_transfer = record {
  type = TransferStatusType.fxp;
  transferid = 1;
  source = "A";
  target = "B";
  jobname = "job";
  file = "file.r00";
  timestamp = "12:00:00";
  sourcepath = "/a";
  targetpath = "/b";
  fls = some 1;
  fld = some 2;
  srcslot = pos 0;
  dstslot = pos 1;
  ssl = true;
  defaultactive = true;
}

abbrev started : TransferStatus
started = record {
  transfer = fxp_transfer;
  sourcesize = 1000;
  knowntargetsize = 0;
  interpolatedtargetsize = 0;
  interpolationfilltargetsize = 0;
  speed = 1024;
  state = in_progress;
  timespent = 0;
  timeremaining = pos 0;
  progress = 0;
  awaited = false;
  callback = none;
  passiveaddr = "-";
  cipher = "-";
  sslsessionreused = false;
  loglines = [];
}

starts : new fxp_transfer 1000 0 ≡ some started
unfolding new
starts = refl

abbrev halfway_calls : List Call
halfway_calls = Call.targets 400 ∷ Call.interpolates 100 ∷ Call.aborts ∷ Call.fails ∷ []

abbrev halfway : TransferStatus
halfway = record started {
  knowntargetsize = 400;
  interpolatedtargetsize = 500;
  interpolationfilltargetsize = 500;
  progress = 50;
  state = aborted;
}

halfway_runs : run halfway_calls started ≡ some halfway
unfolding run step
halfway_runs = refl

run-new-progress_example : halfway.progress ≤ 100
run-new-progress_example = run-new-progress fxp_transfer 1000 0 halfway_calls starts halfway_runs

interpolate_add_size_bounds_example :
    Returns
      (λ (t : TransferStatus).
        (500 ≤ t.interpolatedtargetsize)
        × (t.interpolatedtargetsize ≤ 800)
        × ((t.interpolatedtargetsize ≤ 1000) ⊎ (1000 < 500) ⊎ (500 < 500)))
      (interpolate_add_size 300 halfway)
interpolate_add_size_bounds_example =
    interpolate_add_size_bounds 300 halfway (omega arith) (omega arith)

run-state_example : halfway.state ≡ final_state halfway_calls in_progress
run-state_example = run-state halfway_calls started halfway_runs

abbrev late_calls : List Call
late_calls = Call.times_out ∷ Call.dupes ∷ Call.spends 9 ∷ []

late_runs : run late_calls halfway ≡ some (record halfway { timespent = 9 })
unfolding run step
late_runs = refl

run-aborted_example : halfway.state ≡ aborted
run-aborted_example =
    run-aborted late_calls halfway {t = record halfway { timespent = 9 }} refl refl late_runs
