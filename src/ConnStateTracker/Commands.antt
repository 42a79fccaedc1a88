-- ===== src/ConnStateTracker/Commands.antt =====
-- Delayed commands over time, listings over a held file transfer, and disconnects.
use cbftp.Common.{
  ℕ, ◌+◌, ◌<◌, ◌≤◌, ◌≡◌, Bool, true, false, ◌&&◌, ◌||◌, String, Pointer, some, List, [], ◌∷◌, leb,
  arith, u64_mod,
}
use cbftp.ConnStateTracker.{ConnStateTracker, time_passed, delayed_command, set_disconnected}
use cbftp.ConnStateTracker.Operations.{
  Endpoint, set_list, finish_transfer, transfer_view, get_transfer_monitor, is_locked,
  transfer_initialized,
}
use cbftp.ConnStateTracker.{TransferType}

-- The clock reports one interval after another.
abbrev pub pass_all : List ℕ → ConnStateTracker → ConnStateTracker
pass_all [] s = s
pass_all (ms ∷ rest) s = pass_all rest (time_passed ms s)

abbrev pub total : List ℕ → ℕ
total [] = 0
total (ms ∷ rest) = ms + total rest

-- One interval, on a command that is pending or due.
time_passed-released :
    (ms : ℕ) (s : ConnStateTracker)
    → s.time + ms < u64_mod
    → s.delayedcommand.active ≡ true
    → ((time_passed ms s).time ≡ s.time + ms)
      × ((time_passed ms s).delayedcommand.active ≡ true)
      × ((time_passed ms s).delayedcommand.triggertime ≡ s.delayedcommand.triggertime)
      × ((time_passed ms s).delayedcommand.released
          ≡ (s.delayedcommand.released || leb s.delayedcommand.triggertime (s.time + ms)))
unfolding time_passed
time_passed-released ms s h a = ground arith

abbrev any_time : List ℕ → Bool
any_time [] = false
any_time (ms ∷ rest) = true

-- A command that is due has passed its time.
pass_all-released :
    (ts : List ℕ) (s : ConnStateTracker)
    → s.time + total ts < u64_mod
    → s.delayedcommand.active ≡ true
    → (s.delayedcommand.released ≡ true → s.delayedcommand.triggertime ≤ s.time)
    → (pass_all ts s).delayedcommand.released ≡ (
        s.delayedcommand.released
        || (any_time ts && leb s.delayedcommand.triggertime (s.time + total ts)))
pass_all-released [] s h a r = ground arith
pass_all-released (ms ∷ rest) s h a r =
    let now = time_passed-released ms s (omega arith) a in
    ground (arith, now, pass_all-released rest (time_passed ms s))

-- After `delayedCommand` with a delay, once the clock has reported at least one interval, the command
-- is released exactly if the intervals add up to the delay at least, as long as neither the trigger
-- time nor the clock wraps around at 64 bits.
pub delayed_command-released :
    (command : String) (delay : ℕ) (persisting : Bool) (co : Pointer) (ms : ℕ) (ts : List ℕ)
    (s : ConnStateTracker)
    → s.time + delay < u64_mod
    → s.time + total (ms ∷ ts) < u64_mod
    → (pass_all (ms ∷ ts) (delayed_command command delay persisting co s)).delayedcommand.released
      ≡ leb delay (total (ms ∷ ts))
unfolding delayed_command
delayed_command-released command delay persisting co ms ts s h k =
    ground (arith, pass_all-released (ms ∷ ts) (delayed_command command delay persisting co s))

-- A listing hides a file transfer's data and gives them back: while it lasts the getters answer for
-- the listing, and once it is finished all of them, the monitor and the locks are as before.
pub set_list-finish_transfer :
    (tm : Pointer) (e : Endpoint) (s : ConnStateTracker) {t : ConnStateTracker}
    → set_list tm e s ≡ some t
    → (transfer_view t ≡ record {
      type = TransferType.list;
      passive = e.passive;
      fxp = false;
      host = e.host;
      port = e.port;
      ssl = e.ssl;
      ipv6 = e.ipv6;
      sslclient = false;
    })
      × (get_transfer_monitor t ≡ tm)
      × (transfer_initialized t ≡ false)
      × (is_locked t ≡ true)
      × (transfer_view (finish_transfer t) ≡ transfer_view s)
      × (get_transfer_monitor (finish_transfer t) ≡ get_transfer_monitor s)
      × (is_locked (finish_transfer t) ≡ is_locked s)
unfolding set_list finish_transfer transfer_view get_transfer_monitor is_locked transfer_initialized
set_list-finish_transfer tm e s h = ground arith

-- A disconnect that runs through leaves an object that is not locked, not logged in and idle since
-- now, and keeps a delayed command active exactly if it was active and is a persisting one.
pub set_disconnected_effect :
    (s : ConnStateTracker) {t : ConnStateTracker}
    → set_disconnected s ≡ some t
    → (is_locked t ≡ false)
      × (t.loggedin ≡ false)
      × (t.idletime ≡ 0)
      × (t.delayedcommand.active ≡ (s.delayedcommand.active && s.delayedcommand.persisting))
      × (t.delayedcommand.command ≡ s.delayedcommand.command)
unfolding set_disconnected is_locked
set_disconnected_effect s h = ground arith
