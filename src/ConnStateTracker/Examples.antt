-- ===== src/ConnStateTracker/Examples.antt =====
-- Runs of src/connstatetracker.cpp on concrete histories.
use cbftp.Common.{◌≡◌, refl, true, false, none, some, List, [], ◌∷◌, is_set, arith}
use cbftp.DelayedCommand
use cbftp.ConnStateTracker.{ConnStateTracker, TransferType, new, delayed_command, set_disconnected}
use cbftp.ConnStateTracker.Operations.{Call, passive_end, step, run, set_list, finish_transfer}
use cbftp.ConnStateTracker.Invariant.{IsConsistent, run-new-IsConsistent}
use cbftp.ConnStateTracker.Phases.{Phase, phase, step-accepts, phase-step}
use cbftp.ConnStateTracker.Commands.{pass_all, delayed_command-released}

-- Memory before the constructor runs.
abbrev junk : ConnStateTracker
junk = record {
  time = 7;
  idletime = 7;
  lastcheckedcount = 7;
  lastchecked = some 7;
  delayedcommand = DelayedCommand.new 7;
  transfer = true;
  initialized = true;
  tm = some 7;
  fl = some 7;
  file = "?";
  type = TransferType.upload;
  passive = false;
  ssl = false;
  sslclient = false;
  ipv6 = false;
  aborted = true;
  transferlocked = true;
  loggedin = true;
  fxp = true;
  listtransfer = true;
  listpassive = true;
  listssl = true;
  listipv6 = true;
  listinitialized = true;
  quitting = true;
  handling = true;
  listhost = "?";
  listport = 7;
  listtm = none;
  co = some 7;
  host = "?";
  port = 7;
  recursivelogic = none;
  request = none;
  refreshtoken = true;
  lastrefreshpath = "?";
}

abbrev fresh : ConnStateTracker
fresh = new junk 1

abbrev download_calls : List Call
download_calls =
    Call.logs_in
    ∷ Call.locks (some 3) (some 4) none true
    ∷ Call.sets_transfer "file.r00" false (passive_end false true) false
    ∷ Call.initializes
    ∷ []

-- A download that has begun.
abbrev downloading : ConnStateTracker
downloading = record fresh {
  loggedin = true;
  tm = some 3;
  fl = some 4;
  aborted = false;
  transferlocked = true;
  type = TransferType.download;
  transfer = true;
  initialized = true;
  file = "file.r00";
  passive = true;
  port = 0;
  ssl = true;
}

download_runs : run download_calls fresh ≡ some downloading
unfolding run step new
download_runs = refl

run-new-IsConsistent_example : IsConsistent downloading
run-new-IsConsistent_example = run-new-IsConsistent junk 1 download_calls download_runs

step-accepts_example :
    is_set (step (Call.sets_list none (passive_end false true)) downloading) ≡ false
unfolding new
step-accepts_example =
    step-accepts (Call.sets_list none (passive_end false true)) downloading
      run-new-IsConsistent_example

phase-step_example : phase (finish_transfer downloading) ≡ Phase.idle
unfolding new step
phase-step_example =
    phase-step Call.finishes_transfer downloading {t = finish_transfer downloading}
      run-new-IsConsistent_example refl

delayed_command-released_example :
    (pass_all
      (40 ∷ 50 ∷ 30 ∷ [])
      (delayed_command "reconnect" 100 false none fresh)).delayedcommand.released
    ≡ true
unfolding new
delayed_command-released_example =
    delayed_command-released "reconnect" 100 false none 40 (50 ∷ 30 ∷ []) fresh (omega arith)
      (omega arith)

abbrev listing : ConnStateTracker
listing = record fresh {
  listtransfer = true;
  listinitialized = false;
  listtm = some 9;
  listpassive = true;
  listhost = "";
  listport = 0;
  listssl = true;
  listipv6 = false;
}

listing_starts : set_list (some 9) (passive_end false true) fresh ≡ some listing
unfolding set_list new
listing_starts = refl

persisting_fresh : ConnStateTracker
unfolding new
persisting_fresh = delayed_command "reconnect" 100 true none fresh

disconnects : (t : ConnStateTracker) × (set_disconnected persisting_fresh ≡ some t)
unfolding set_disconnected persisting_fresh new delayed_command
disconnects = (persisting_fresh, refl)
