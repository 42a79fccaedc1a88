-- ===== src/TransferStatus/Operations.antt =====
-- The methods of src/transferstatus.cpp that change the object, and all of them as one step.
use cbftp.Common.{
  ℕ, ◌+◌, ◌-◌, Bool, true, false, String, Pointer, Option, some, List, [], ◌∷◌, ◌++◌, if◌then◌else◌,
  ltb, leb, ◌==◌, assert, u64, pos, negsuc, ◌>>=◌,
}
use cbftp.TransferStatus.{
  TransferStatus, TransferStatusState, in_progress, successful, failed, dupe, aborted, timeout,
  time_for, update_progress,
}

abbrev pub is_aborted : TransferStatusState → Bool
is_aborted aborted = true
is_aborted _ = false

abbrev pub is_open : TransferStatusState → Bool
is_open in_progress = true
is_open aborted = true
is_open _ = false

pub set_finished : TransferStatus → TransferStatus
set_finished s = record s {
  state = successful;
  progress = 100;
  interpolatedtargetsize = s.knowntargetsize;
  timeremaining = pos 0;
}

pub set_failed : TransferStatus → TransferStatus
set_failed s = if is_aborted s.state then record s { timeremaining = pos 0 } else record s {
  state = failed;
  knowntargetsize = 0;
  interpolatedtargetsize = 0;
  progress = 0;
  speed = 0;
  timeremaining = pos 0;
}

pub set_timeout : TransferStatus → TransferStatus
set_timeout s =
    if is_aborted s.state
    then record s { timeremaining = pos 0 }
    else record s { state = timeout; timeremaining = pos 0 }

pub set_dupe : TransferStatus → TransferStatus
set_dupe s = if is_aborted s.state then record s { timeremaining = pos 0 } else record s {
  state = dupe;
  knowntargetsize = 0;
  interpolatedtargetsize = 0;
  progress = 0;
  speed = 0;
  timeremaining = pos 0;
}

pub set_aborted : TransferStatus → TransferStatus
set_aborted s = record s { state = aborted }

pub set_awaited : Bool → TransferStatus → TransferStatus
set_awaited awaited s = record s { awaited = awaited }

pub set_callback : Pointer → TransferStatus → TransferStatus
set_callback callback s = record s { callback = callback }

-- The end of `setTargetSize`.
end_fill : TransferStatus → TransferStatus
end_fill s = record s { interpolationfilltargetsize = s.knowntargetsize }

unfoldable pub set_target_size : ℕ → TransferStatus → Option TransferStatus
unfolding update_progress end_fill
set_target_size targetsize s =
    let known = record s {
      knowntargetsize = targetsize;
      sourcesize = if ltb s.sourcesize targetsize then targetsize else s.sourcesize;
    } in
    if ltb s.interpolatedtargetsize targetsize
    then (update_progress (record known { interpolatedtargetsize = targetsize }) >>= λ t.
        some (end_fill t))
    else some (end_fill known)

unfoldable pub interpolate_add_size : ℕ → TransferStatus → Option TransferStatus
unfolding update_progress
interpolate_add_size add s =
    let fill = u64 (s.interpolationfilltargetsize + add) in
    let size = u64 (s.interpolatedtargetsize + add) in
    if ltb s.interpolationfilltargetsize s.interpolatedtargetsize
    then (if ltb s.interpolatedtargetsize fill
        then update_progress
            (record s { interpolationfilltargetsize = fill; interpolatedtargetsize = fill })
        else some (record s { interpolationfilltargetsize = fill }))
    else (if leb size s.sourcesize
        then update_progress
            (record s { interpolatedtargetsize = size; interpolationfilltargetsize = size })
        else some s)

pub set_speed : ℕ → TransferStatus → TransferStatus
set_speed speed s = record s { speed = if speed == 0 then 10 else speed }

unfoldable pub set_time_spent : ℕ → TransferStatus → Option TransferStatus
unfolding time_for
set_time_spent timespent s =
    if ltb s.interpolatedtargetsize s.sourcesize
    then (time_for (s.sourcesize - s.interpolatedtargetsize) s.speed >>= λ remaining.
        some (record s { timespent = timespent; timeremaining = remaining }))
    else some (record s { timespent = timespent; timeremaining = negsuc 0 })

pub set_passive_address : String → TransferStatus → TransferStatus
set_passive_address passiveaddr s = record s { passiveaddr = passiveaddr }

pub set_cipher : String → TransferStatus → TransferStatus
set_cipher cipher s = record s { cipher = cipher }

pub set_ssl_session_reused : Bool → TransferStatus → TransferStatus
set_ssl_session_reused reused s = record s { sslsessionreused = reused }

pub set_source_size : ℕ → TransferStatus → TransferStatus
set_source_size size s = record s { sourcesize = size }

pub add_log_line : String → TransferStatus → Option TransferStatus
add_log_line line s =
    assert (is_open s.state) (some (record s { loglines = s.loglines ++ line ∷ [] }))

pub data Call : Type 0 where
  finishes fails times_out dupes aborts : Call
  awaits : Bool → Call
  calls_back : Pointer → Call
  targets : ℕ → Call
  interpolates : ℕ → Call
  speeds : ℕ → Call
  spends : ℕ → Call
  addresses : String → Call
  ciphers : String → Call
  reuses : Bool → Call
  sources : ℕ → Call
  logs : String → Call

unfoldable pub step : Call → TransferStatus → Option TransferStatus
unfolding set_finished set_failed set_timeout set_dupe set_aborted set_awaited set_callback
    set_target_size interpolate_add_size set_speed set_time_spent set_passive_address set_cipher
    set_ssl_session_reused set_source_size add_log_line
step Call.finishes s = some (set_finished s)
step Call.fails s = some (set_failed s)
step Call.times_out s = some (set_timeout s)
step Call.dupes s = some (set_dupe s)
step Call.aborts s = some (set_aborted s)
step (Call.awaits a) s = some (set_awaited a s)
step (Call.calls_back c) s = some (set_callback c s)
step (Call.targets n) s = set_target_size n s
step (Call.interpolates n) s = interpolate_add_size n s
step (Call.speeds n) s = some (set_speed n s)
step (Call.spends n) s = set_time_spent n s
step (Call.addresses a) s = some (set_passive_address a s)
step (Call.ciphers c) s = some (set_cipher c s)
step (Call.reuses r) s = some (set_ssl_session_reused r s)
step (Call.sources n) s = some (set_source_size n s)
step (Call.logs line) s = add_log_line line s

unfoldable pub run : List Call → TransferStatus → Option TransferStatus
run [] s = some s
run (c ∷ cs) s = step c s >>= run cs
