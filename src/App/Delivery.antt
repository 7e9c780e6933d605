-- ===== src/App/Delivery.antt =====
-- What the worker of src/application.cpp sends, and how it ends.
use mqtt_sentry.Base.{
  ℕ, zero, suc, ◌<◌, ◌≡◌, refl, true, false, List, [], ◌∷◌, arith, All, length, ◌∙◌,
}
use mqtt_sentry.Types.{AlertEvents}
use mqtt_sentry.Types.ThreadSafeQueue.{pop, push}
use mqtt_sentry.Settings.{ConfigManager}
use mqtt_sentry.Tg.{TgService, Api, send_alert, send_each, alert_text}
use mqtt_sentry.Tg
use mqtt_sentry.App.{Application}
use mqtt_sentry.Mqtt.{MqttService}
use mqtt_sentry.App.Worker.{
  Worker, looping, waiting, ended, is_sentinel, process, worker_round, worker_loop, stop,
}

module _ ⦃api : Api⦄ (cm : ConfigManager) where
  -- Sending a list of alerts.
  unfoldable pub send_alerts : List AlertEvents → TgService → TgService
  send_alerts [] tg = tg
  send_alerts (a ∷ rest) tg = send_alerts rest (send_alert cm a tg)

  round_sends :
      (app : Application) (x : AlertEvents) (rest : List AlertEvents)
      → app.running ≡ true
      → app.alert_queue.items ≡ x ∷ rest
      → is_sentinel x ≡ false
      → worker_round cm app ≡ (
        record app { alert_queue = record { items = rest }; tg = send_alert cm x app.tg },
        looping,
      )
  unfolding worker_round process pop
  round_sends app x rest r q n = ground arith

  round_waits :
      (app : Application)
      → app.running ≡ true
      → app.alert_queue.items ≡ []
      → worker_round cm app ≡ (record app { alert_queue = record { items = [] } }, waiting)
  unfolding worker_round process pop
  round_waits app r q = ground arith

  -- A round of the loop whose result is known.
  loop-round :
      (rounds : ℕ) (app app' : Application) (w : Worker)
      → worker_round cm app ≡ (app', w)
      → worker_loop cm (suc rounds) app ≡ (elim w [
        | looping ↦ worker_loop cm rounds app'
        | waiting ↦ (app', waiting)
        | ended ↦ (app', ended)
      ])
  unfolding worker_loop
  loop-round rounds app app' w e = ground (arith, e)

  -- With alerts other than the sentinel in the queue and the program running, the worker sends all
  -- of them in order and then waits, within one round more than there are alerts.
  pub worker_sends :
      (alerts : List AlertEvents) (rounds : ℕ) (app : Application)
      → app.running ≡ true
      → app.alert_queue.items ≡ alerts
      → All (λ a. is_sentinel a ≡ false) alerts
      → length alerts < rounds
      → worker_loop cm rounds app ≡ (
        record app { alert_queue = record { items = [] }; tg = send_alerts alerts app.tg },
        waiting,
      )
  unfolding worker_loop send_alerts
  worker_sends alerts zero app r q a h = absurd (omega arith)
  worker_sends [] (suc rounds) app r q a h = loop-round rounds app _ waiting (round_waits app r q)
  worker_sends (x ∷ rest) (suc rounds) app r q a h =
      loop-round rounds app _ looping (round_sends app x rest r q a.0)
      ∙ worker_sends rest rounds _ r refl a.1 (omega arith)

  -- With an empty queue and the program running, stop() ends a worker that waits and one that is
  -- about to test its loop; neither sends anything more.
  pub stop_ends_worker :
      (app : Application) (m : MqttService)
      → app.running ≡ true
      → app.alert_queue.items ≡ []
      → let stopped = (stop app m).0 in
        let woken = process cm (pop stopped.alert_queue) stopped in
        let looped = worker_round cm stopped in
        (woken.1 ≡ ended)
        × (looped.1 ≡ ended)
        × (woken.0.tg.sent ≡ app.tg.sent)
        × (looped.0.tg.sent ≡ app.tg.sent)
  unfolding stop process worker_round pop push is_sentinel Tg.stop
  stop_ends_worker app m r q = ground arith
