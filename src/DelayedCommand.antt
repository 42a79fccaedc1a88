-- ===== src/DelayedCommand.antt =====
-- src/delayedcommand.h and src/delayedcommand.cpp: a command that a connection runs when a point in
-- time is reached. The owner is a weak pointer: `alive` says which objects still exist.
use cbftp.Common.{ℕ, Bool, true, false, ◌&&◌, not, String, Pointer, none, some, if◌then◌else◌, leb}

pub record DelayedCommand : Type 0 where
  pub command : String
  pub triggertime : ℕ
  pub co : Pointer
  pub active : Bool
  pub released : Bool
  pub persisting : Bool

-- The constructor leaves `triggertime` as it finds it.
unfoldable pub new : ℕ → DelayedCommand
new junk = record {
  command = "";
  triggertime = junk;
  co = none;
  active = false;
  released = false;
  persisting = false;
}

unfoldable pub set : String → ℕ → Pointer → Bool → DelayedCommand
set command triggertime co persisting = record {
  command = command;
  triggertime = triggertime;
  co = co;
  active = true;
  released = false;
  persisting = persisting;
}

unfoldable pub current_time : ℕ → DelayedCommand → DelayedCommand
current_time time d =
    if d.active && (not d.released && leb d.triggertime time)
    then record d { released = true }
    else d

unfoldable pub reset : DelayedCommand → DelayedCommand
reset d = record d { active = false; released = false }

unfoldable pub weak_reset : DelayedCommand → DelayedCommand
unfolding reset
weak_reset d = if not d.persisting then reset d else d

-- `weak_ptr::lock`: an owner that is gone reads as null.
unfoldable pub lock : (ℕ → Bool) → Pointer → Pointer
lock alive none = none
lock alive (some o) = if alive o then some o else none

unfoldable pub get_command_owner : (ℕ → Bool) → DelayedCommand → Pointer
unfolding lock
get_command_owner alive d = lock alive d.co
