-- ===== src/App/Worker.antt =====
-- The thread that sends the alerts, and the end of the program: _workerLoop and stop of
-- src/application.cpp.
use mqtt_sentry.Base.{
  ℕ, zero, suc, Bool, false, ◌&&◌, Option, none, some, ◌==◌, string_eq, if◌then◌else◌,
}
use mqtt_sentry.Types.{AlertEvents, fine}
use mqtt_sentry.Types.ThreadSafeQueue.{Queue}
use mqtt_sentry.Types.ThreadSafeQueue
use mqtt_sentry.Settings.{ConfigManager}
use mqtt_sentry.Tg.{TgService, Api}
use mqtt_sentry.Tg
use mqtt_sentry.Mqtt.{MqttService}
use mqtt_sentry.Mqtt
use mqtt_sentry.App.{Application}

-- Where the worker stands: before the test of the loop, waiting for an alert, or at its end.
pub data Worker : Type 0 where
  looping waiting ended : Worker

-- AlertEvents{}, which ends the worker.
abbrev pub sentinel : AlertEvents
sentinel = record { state = fine; machine_id = ""; message = ""; timestamp = "" }

-- alert.machine_id.empty() && alert.message.empty()
unfoldable pub is_sentinel : AlertEvents → Bool
is_sentinel alert = alert.machine_id == "" && alert.message == ""

module _ ⦃api : Api⦄ (cm : ConfigManager) where
  -- The round after `pop` has returned, or while it waits.
  unfoldable pub process :
      Option (AlertEvents × Queue AlertEvents) → Application → Application × Worker
  unfolding is_sentinel
  process none app = (app, waiting)
  process (some (alert, rest)) app =
      let popped = record app { alert_queue = rest } in
      if is_sentinel alert
      then (popped, ended)
      else (record popped { tg = Tg.send_alert cm alert popped.tg }, looping)

  unfoldable pub worker_round : Application → Application × Worker
  unfolding process
  worker_round app =
      if app.running then process (ThreadSafeQueue.pop app.alert_queue) app else (app, ended)

  -- Rounds until the worker waits or ends; at most so many.
  unfoldable pub worker_loop : ℕ → Application → Application × Worker
  worker_loop zero app = (app, looping)
  worker_loop (suc rounds) app =
      let (app', worker) = worker_round app in
      elim worker [
        | looping ↦ worker_loop rounds app'
        | waiting ↦ (app', waiting)
        | ended ↦ (app', ended)
      ]

-- stop(): the first call ends the other services and wakes the worker.
unfoldable pub stop : Application → MqttService → Application × MqttService
stop app m =
    if app.running
    then (
      record app {
        running = false;
        tg = Tg.stop app.tg;
        alert_queue = ThreadSafeQueue.push sentinel app.alert_queue;
      },
      Mqtt.stop m,
    )
    else (app, m)
