-- ===== src/Watchdog.antt =====
-- include/topicWatchdog.hpp and src/topicWatchdog.cpp. A timer has one wait at most: setting or
-- cancelling it ends the wait that it had, whose handler then does nothing.
pub mod Silence
pub mod Reports
use mqtt_sentry.Base.{
  ℕ, ◌+◌, ◌%◌, ◌^◌, String, Bool, true, false, Option, none, some, ℤ, ltb, if◌then◌else◌,
}
use mqtt_sentry.Settings.{Logic}

pub data WatchdogEvents : Type 0 where
  online offline : WatchdogEvents

-- `timer` is the time in seconds for which the pending wait was set.
pub record TopicWatchdog : Type 0 where
  pub hmi_id : String
  pub timeouts : ℕ
  pub timer : Option ℤ

-- The constructor.
unfoldable pub create : String → TopicWatchdog
create hmi_id = record { hmi_id = hmi_id; timeouts = 0; timer = none }

unfoldable pub start_timer : Logic → TopicWatchdog → TopicWatchdog
start_timer logic w = record w { timer = some logic.timeout }

unfoldable pub stop : TopicWatchdog → TopicWatchdog
stop w = record w { timer = none }

-- `callback` acts on a state `S` of the owner.
module _ {S : Type 0} (callback : WatchdogEvents → S → S) where
  -- if (_timeouts) { _callback(Online); _timeouts = 0; }
  report_online : ℕ → S → S
  report_online timeouts s = if ltb 0 timeouts then callback online s else s

  unfoldable pub pet : Logic → TopicWatchdog × S → TopicWatchdog × S
  unfolding report_online start_timer
  pet logic (w, s) =
      (start_timer logic (record w { timeouts = 0; timer = none }), report_online w.timeouts s)

  unfoldable pub on_timeout : Logic → Bool → TopicWatchdog × S → TopicWatchdog × S
  unfolding start_timer
  on_timeout logic false (w, s) = (start_timer logic w, s)
  on_timeout logic true (w, s) =
      let counted = record w { timeouts = (w.timeouts + 1) % 2 ^ 32 } in
      if ltb w.timeouts logic.timeout_limit
      then (start_timer logic counted, callback offline s)
      else (counted, s)

  -- The handler of a wait that has ended and that pet() or stop() has come before: cancelling the
  -- timer does not reach it any more, so it runs beside the wait that the timer has now.
  unfoldable pub run_overtaken : Logic → Bool → TopicWatchdog × S → TopicWatchdog × S
  run_overtaken logic connected ws = on_timeout logic connected ws

  -- The wait ends by itself, and its handler runs before any other; `run_overtaken` has the others.
  expire_wait : Option ℤ → Logic → Bool → TopicWatchdog × S → TopicWatchdog × S
  unfolding on_timeout
  expire_wait none logic connected (w, s) = (w, s)
  expire_wait (some _) logic connected (w, s) =
      on_timeout logic connected (record w { timer = none }, s)

  unfoldable pub expire : Logic → Bool → TopicWatchdog × S → TopicWatchdog × S
  unfolding expire_wait
  expire logic connected (w, s) = expire_wait w.timer logic connected (w, s)
