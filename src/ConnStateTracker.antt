-- ===== src/ConnStateTracker.antt =====
-- src/connstatetracker.h and src/connstatetracker.cpp: what one FTP connection of a site is doing.
-- A method that changes the object returns the new one; a failed `assert` is `none`. Pointers are
-- identities, null is `none`. `idletime`, `lastcheckedcount` and the ports are `int`s that stay small
-- and carry no wrap-around; `time` is an unsigned 64-bit count of milliseconds.
pub mod Operations
pub mod Phases
pub mod Invariant
pub mod Commands
mod Examples
use cbftp.Common.{
  ℕ, ◌+◌, Bool, true, false, ◌&&◌, ◌||◌, String, Pointer, Option, none, some, if◌then◌else◌, ltb,
  is_set, same_pointer, assert, u64, not,
}
use cbftp.DelayedCommand
use cbftp.DelayedCommand.{DelayedCommand}
use cbftp.SiteLogicRequest.{SiteLogicRequest}

pub data TransferType : Type 0 where
  download upload list : TransferType

pub record ConnStateTracker : Type 0 where
  pub time : ℕ
  pub idletime : ℕ
  pub lastcheckedcount : ℕ
  pub lastchecked : Pointer
  pub delayedcommand : DelayedCommand
  pub transfer : Bool
  pub initialized : Bool
  pub tm : Pointer
  pub fl : Pointer
  pub file : String
  pub type : TransferType
  pub passive : Bool
  pub ssl : Bool
  pub sslclient : Bool
  pub ipv6 : Bool
  pub aborted : Bool
  pub transferlocked : Bool
  pub loggedin : Bool
  pub fxp : Bool
  pub listtransfer : Bool
  pub listpassive : Bool
  pub listssl : Bool
  pub listipv6 : Bool
  pub listinitialized : Bool
  pub quitting : Bool
  pub handling : Bool
  pub listhost : String
  pub listport : ℕ
  pub listtm : Pointer
  pub co : Pointer
  pub host : String
  pub port : ℕ
  pub recursivelogic : Pointer
  pub request : Option SiteLogicRequest
  pub refreshtoken : Bool
  pub lastrefreshpath : String

-- The constructor. What it does not initialise it leaves as it finds it, in `junk`; `logic` is the
-- recursive command logic that it allocates.
unfoldable pub new : ConnStateTracker → ℕ → ConnStateTracker
unfolding DelayedCommand.new
new junk logic = record junk {
  time = 0;
  idletime = 0;
  lastcheckedcount = 0;
  lastchecked = none;
  delayedcommand = DelayedCommand.new junk.delayedcommand.triggertime;
  transfer = false;
  initialized = false;
  tm = none;
  fl = none;
  file = "";
  aborted = false;
  transferlocked = false;
  loggedin = false;
  fxp = false;
  listtransfer = false;
  listinitialized = false;
  quitting = false;
  handling = false;
  listhost = "";
  co = none;
  host = "";
  recursivelogic = some logic;
  request = none;
  refreshtoken = false;
  lastrefreshpath = "";
}

pub delayed_command : String → ℕ → Bool → Pointer → ConnStateTracker → ConnStateTracker
unfolding DelayedCommand.set
delayed_command command delay persisting co s = record s {
  delayedcommand = DelayedCommand.set command (u64 (s.time + delay)) co persisting;
}

pub time_passed : ℕ → ConnStateTracker → ConnStateTracker
unfolding DelayedCommand.current_time
time_passed ms s =
    let now = u64 (s.time + ms) in
    record s {
      time = now;
      idletime = s.idletime + ms;
      delayedcommand =
          if s.delayedcommand.active
          then DelayedCommand.current_time now s.delayedcommand
          else s.delayedcommand;
    }

pub check : ConnStateTracker → ConnStateTracker
check s = record s { lastcheckedcount = s.lastcheckedcount + 1 }

pub set_last_checked : Pointer → ConnStateTracker → ConnStateTracker
set_last_checked sr s =
    if same_pointer s.lastchecked sr then s else record s { lastchecked = sr; lastcheckedcount = 0 }

pub reset_last_checked : ConnStateTracker → ConnStateTracker
reset_last_checked s = record s { lastchecked = none; lastcheckedcount = 0 }

-- `alive` says which command owners still exist.
pub purge_site_race : (ℕ → Bool) → Pointer → ConnStateTracker → ConnStateTracker
unfolding DelayedCommand.set DelayedCommand.get_command_owner
purge_site_race alive sr s =
    let t =
      if same_pointer s.lastchecked sr
      then record s { lastchecked = none; lastcheckedcount = 0 }
      else s in
    if t.delayedcommand.active
      && same_pointer (DelayedCommand.get_command_owner alive t.delayedcommand) sr
    then record t { delayedcommand = DelayedCommand.set "handle" 0 none false }
    else t

pub set_disconnected : ConnStateTracker → Option ConnStateTracker
unfolding DelayedCommand.weak_reset
set_disconnected s = assert (not s.transferlocked) (
    assert (not s.listtransfer) (
      assert (not s.transfer) (
        assert (not (is_set s.request)) (
          some (record s {
            loggedin = false;
            quitting = false;
            delayedcommand = DelayedCommand.weak_reset s.delayedcommand;
            idletime = 0;
          })))))

-- `use`, which antt reserves.
pub use_connection : ConnStateTracker → Option ConnStateTracker
unfolding DelayedCommand.reset
use_connection s =
    assert (not s.transferlocked)
      (some (record s { delayedcommand = DelayedCommand.reset s.delayedcommand; idletime = 0 }))

pub reset_idle_time : ConnStateTracker → ConnStateTracker
unfolding DelayedCommand.reset
reset_idle_time s = record s {
  delayedcommand = DelayedCommand.reset s.delayedcommand;
  idletime = 0;
}
