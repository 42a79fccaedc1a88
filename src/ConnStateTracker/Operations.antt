-- ===== src/ConnStateTracker/Operations.antt =====
-- The rest of src/connstatetracker.cpp: file transfers, listings, locks and the queries about them,
-- and every state-changing method as one step.
use cbftp.Common.{
  ℕ, Bool, true, false, ◌&&◌, ◌||◌, not, String, Pointer, Option, none, some, List, [], ◌∷◌,
  if◌then◌else◌, is_set, assert, ◌>>=◌,
}
use cbftp.SiteLogicRequest.{SiteLogicRequest}
use cbftp.ConnStateTracker.{
  ConnStateTracker, TransferType, delayed_command, time_passed, check, set_last_checked,
  reset_last_checked, purge_site_race, set_disconnected, use_connection, reset_idle_time,
}

-- The arguments of the private `setTransfer` and `setList`.
pub record Endpoint : Type 0 where
  pub ipv6 : Bool
  pub passive : Bool
  pub host : String
  pub port : ℕ
  pub ssl : Bool

-- What the overloads without an address pass on, and those with one.
abbrev pub passive_end : Bool → Bool → Endpoint
passive_end ipv6 ssl = record { ipv6 = ipv6; passive = true; host = ""; port = 0; ssl = ssl }

abbrev pub active_end : Bool → String → ℕ → Bool → Endpoint
active_end ipv6 host port ssl = record {
  ipv6 = ipv6;
  passive = false;
  host = host;
  port = port;
  ssl = ssl;
}

pub set_transfer : String → Bool → Endpoint → Bool → ConnStateTracker → Option ConnStateTracker
set_transfer file fxp e sslclient s = assert s.transferlocked (
    assert (not s.transfer) (
      assert (not fxp || not (is_set s.request)) (
        assert (is_set s.tm) (
          some (record s {
            transfer = true;
            initialized = false;
            file = file;
            fxp = fxp;
            passive = e.passive;
            host = e.host;
            port = e.port;
            ssl = e.ssl;
            sslclient = sslclient;
            ipv6 = e.ipv6;
          })))))

unfoldable pub set_list : Pointer → Endpoint → ConnStateTracker → Option ConnStateTracker
unfolding use_connection
set_list tm e s =
    assert (not s.transferlocked)
      (assert (not s.listtransfer) (assert (not s.transfer) (use_connection s >>= start)))
  where
    start : ConnStateTracker → Option ConnStateTracker
    start t = some (record t {
      listtransfer = true;
      listinitialized = false;
      listtm = tm;
      listpassive = e.passive;
      listhost = e.host;
      listport = e.port;
      listssl = e.ssl;
      listipv6 = e.ipv6;
    })

pub finish_file_transfer : ConnStateTracker → ConnStateTracker
finish_file_transfer s = record s { transfer = false; transferlocked = false; tm = none; co = none }

unfoldable pub finish_transfer : ConnStateTracker → ConnStateTracker
unfolding finish_file_transfer
finish_transfer s =
    if s.listtransfer
    then record s { listtransfer = false; listtm = none }
    else finish_file_transfer s

pub abort_transfer : ConnStateTracker → ConnStateTracker
abort_transfer s = record s { aborted = true }

pub lock_for_transfer :
    Pointer → Pointer → Pointer → Bool → ConnStateTracker → Option ConnStateTracker
unfolding use_connection
lock_for_transfer tm fl co download s = assert (not s.transferlocked) (
    assert (not s.transfer)
      (assert (download || not (is_set s.request)) (use_connection s >>= start)))
  where
    start : ConnStateTracker → Option ConnStateTracker
    start t = some (record t {
      tm = tm;
      fl = fl;
      co = co;
      aborted = false;
      transferlocked = true;
      type = if download then TransferType.download else TransferType.upload;
    })

pub set_request : SiteLogicRequest → ConnStateTracker → Option ConnStateTracker
set_request r s = assert (not (is_set s.request)) (some (record s { request = some r }))

pub finish_request : ConnStateTracker → ConnStateTracker
finish_request s = record s { request = none }

pub set_logged_in : ConnStateTracker → ConnStateTracker
set_logged_in s = record s { loggedin = true }

pub initialize_transfer : ConnStateTracker → ConnStateTracker
initialize_transfer s =
    if s.listtransfer then record s { listinitialized = true } else record s { initialized = true }

pub set_quitting : ConnStateTracker → ConnStateTracker
set_quitting s = record s { quitting = true }

pub set_refresh_token : ConnStateTracker → ConnStateTracker
set_refresh_token s = record s { refreshtoken = true }

pub use_refresh_token_for : String → ConnStateTracker → ConnStateTracker
use_refresh_token_for path s = record s { refreshtoken = false; lastrefreshpath = path }

pub set_handling_connection : Bool → ConnStateTracker → ConnStateTracker
set_handling_connection h s = record s { handling = h }

-- The locks.
pub is_list_or_transfer_locked : ConnStateTracker → Bool
is_list_or_transfer_locked s = s.listtransfer || s.transferlocked

unfoldable pub is_locked : ConnStateTracker → Bool
unfolding is_list_or_transfer_locked
is_locked s = is_list_or_transfer_locked s || is_set s.request || s.quitting

pub is_hard_locked : ConnStateTracker → Bool
is_hard_locked s = s.transferlocked || is_set s.request || s.quitting

pub has_transfer : ConnStateTracker → Bool
has_transfer s = s.listtransfer || s.transfer

unfoldable pub transfer_initialized : ConnStateTracker → Bool
transfer_initialized s = if s.listtransfer then s.listinitialized else (s.transfer && s.initialized)

unfoldable pub get_transfer_monitor : ConnStateTracker → Pointer
get_transfer_monitor s =
    if s.listtransfer then s.listtm else (if s.transferlocked then s.tm else none)

-- What the getters `getTransferType`, `getTransferPassive`, `getTransferFXP`, `getTransferHost`,
-- `getTransferPort`, `getTransferSSL`, `getTransferIPv6` and `getTransferSSLClient` say, together.
pub record TransferView : Type 0 where
  pub type : TransferType
  pub passive : Bool
  pub fxp : Bool
  pub host : String
  pub port : ℕ
  pub ssl : Bool
  pub ipv6 : Bool
  pub sslclient : Bool

unfoldable pub transfer_view : ConnStateTracker → TransferView
transfer_view s = record {
  type = if s.listtransfer then TransferType.list else s.type;
  passive = if s.listtransfer then s.listpassive else s.passive;
  fxp = if s.listtransfer then false else s.fxp;
  host = if s.listtransfer then s.listhost else s.host;
  port = if s.listtransfer then s.listport else s.port;
  ssl = if s.listtransfer then s.listssl else s.ssl;
  ipv6 = if s.listtransfer then s.listipv6 else s.ipv6;
  sslclient = if s.listtransfer then false else s.sslclient;
}

-- A call of a state-changing method, with its arguments.
pub data Call : Type 0 where
  delays : String → ℕ → Bool → Pointer → Call
  passes : ℕ → Call
  checks : Call
  sets_last_checked : Pointer → Call
  resets_last_checked : Call
  purges : (ℕ → Bool) → Pointer → Call
  disconnects : Call
  uses : Call
  resets_idle : Call
  sets_transfer : String → Bool → Endpoint → Bool → Call
  sets_list : Pointer → Endpoint → Call
  finishes_transfer : Call
  finishes_file : Call
  aborts : Call
  locks : Pointer → Pointer → Pointer → Bool → Call
  sets_request : SiteLogicRequest → Call
  finishes_request : Call
  logs_in : Call
  initializes : Call
  quits : Call
  sets_token : Call
  uses_token : String → Call
  handles : Bool → Call

unfoldable pub step : Call → ConnStateTracker → Option ConnStateTracker
unfolding delayed_command time_passed check set_last_checked reset_last_checked purge_site_race
    set_disconnected use_connection reset_idle_time set_transfer set_list finish_transfer
    finish_file_transfer abort_transfer lock_for_transfer set_request finish_request set_logged_in
    initialize_transfer set_quitting set_refresh_token use_refresh_token_for set_handling_connection
step (delays command delay persisting co) s = some (delayed_command command delay persisting co s)
step (passes ms) s = some (time_passed ms s)
step checks s = some (check s)
step (sets_last_checked sr) s = some (set_last_checked sr s)
step resets_last_checked s = some (reset_last_checked s)
step (purges alive sr) s = some (purge_site_race alive sr s)
step disconnects s = set_disconnected s
step uses s = use_connection s
step resets_idle s = some (reset_idle_time s)
step (sets_transfer file fxp e sslclient) s = set_transfer file fxp e sslclient s
step (sets_list tm e) s = set_list tm e s
step finishes_transfer s = some (finish_transfer s)
step finishes_file s = some (finish_file_transfer s)
step aborts s = some (abort_transfer s)
step (locks tm fl co download) s = lock_for_transfer tm fl co download s
step (sets_request r) s = set_request r s
step finishes_request s = some (finish_request s)
step logs_in s = some (set_logged_in s)
step initializes s = some (initialize_transfer s)
step quits s = some (set_quitting s)
step sets_token s = some (set_refresh_token s)
step (uses_token path) s = some (use_refresh_token_for path s)
step (handles h) s = some (set_handling_connection h s)

-- A history of calls, up to the first failed assertion.
unfoldable pub run : List Call → ConnStateTracker → Option ConnStateTracker
run [] s = some s
run (c ∷ cs) s = step c s >>= run cs
