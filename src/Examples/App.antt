-- ===== src/Examples/App.antt =====
-- The theorems on src/application.cpp at concrete inputs.
use mqtt_sentry.Base.{
  if◌then◌else◌, string_eq, ◌≡◌, refl, false, none, some, List, [], ◌∷◌, ◌++◌, arith, lookup,
}
use mqtt_sentry.Types.{AlertEvents, offline, online}
use mqtt_sentry.Types.ThreadSafeMap.{get}
use mqtt_sentry.App.Alerts.{
  Remembers, NoRepeat, of_machine, on_alerts, changes, latest, on_alerts-queue, on_alerts-NoRepeat,
}
use mqtt_sentry.App.{callbacks, is_news, on_machine_in}
use mqtt_sentry.App.Silence.{offline_alert, offline_told_once}
use mqtt_sentry.Watchdog.Silence.{expire_times}
use mqtt_sentry.Mqtt.Subscribe.{watchdog_callback}
use mqtt_sentry.App.Pump.{on_machine_states, pump_history, on_machine_states-queue}
use mqtt_sentry.App.Eco.{eco_alerts, on_machine_in-queue}
use mqtt_sentry.App.Delivery.{send_alerts, worker_sends}
use mqtt_sentry.App.Worker.{is_sentinel, worker_loop, waiting}
use mqtt_sentry.Examples.Toy.{toy_api}
use mqtt_sentry.Examples.Data.{
  utc, cm, app, alert, state_message, in_message, in_history, out_history, eco_app, watchdog,
}

abbrev alerts : List AlertEvents
alerts = alert "A" offline ∷ alert "B" offline ∷ alert "A" offline ∷ alert "A" online ∷ []

app-Remembers : Remembers [] app
unfolding get lookup latest
app-Remembers = record { at = λ id. refl }

on_alerts-queue_example : (on_alerts alerts app).alert_queue.items ≡ [] ++ changes [] alerts
on_alerts-queue_example = on_alerts-queue alerts [] app app-Remembers

on_alerts-NoRepeat_example : NoRepeat none (of_machine "A" (on_alerts alerts app).alert_queue.items)
on_alerts-NoRepeat_example = on_alerts-NoRepeat alerts app "A" refl refl

no_entry : get "A" app.ms_map ≡ none
unfolding get lookup
no_entry = refl

on_machine_states-queue_example :
    (on_machine_states cm "A"
      (state_message 0 ∷ state_message 1 ∷ state_message 0 ∷ [])
      app).alert_queue.items
    ≡ [] ++ pump_history cm "A" none (state_message 0 ∷ state_message 1 ∷ state_message 0 ∷ [])
on_machine_states-queue_example =
    on_machine_states-queue cm "A" (state_message 0 ∷ state_message 1 ∷ state_message 0 ∷ []) none
      app no_entry

known_in : get "A" eco_app.m_in ≡ some in_history
unfolding get lookup
known_in = refl

known_out : get "A" eco_app.m_out ≡ some out_history
unfolding get lookup
known_out = refl

on_machine_in-queue_example :
    (on_machine_in cm "A" (record in_message { in_pres_nf = false }) eco_app).alert_queue.items
    ≡ []
      ++ eco_alerts cm "A"
          (record in_message { in_pres_nf = false })
          (some in_history)
          (some out_history)
on_machine_in-queue_example =
    on_machine_in-queue cm "A" (record in_message { in_pres_nf = false }) (some in_history)
      (some out_history) eco_app known_in known_out

worker_sends_example :
    worker_loop cm 3
      (record app { alert_queue = record { items = alert "A" offline ∷ alert "B" online ∷ [] } })
    ≡ (
      record app { tg = send_alerts cm (alert "A" offline ∷ alert "B" online ∷ []) app.tg },
      waiting,
    )
unfolding is_sentinel
worker_sends_example =
    worker_sends cm (alert "A" offline ∷ alert "B" online ∷ []) 3
      (record app { alert_queue = record { items = alert "A" offline ∷ alert "B" online ∷ [] } })
      refl refl (ground arith, (ground arith, tt)) (omega arith)

offline_told_once_example :
    (expire_times
      (watchdog_callback cm (callbacks cm) "A")
      cm.logic
      5
      (record watchdog { timeouts = 0 }, app)).1.alert_queue.items
    ≡ []
      ++ (if is_news (get (offline_alert cm "A").machine_id app.alert_map) (offline_alert cm "A")
          then offline_alert cm "A" ∷ []
          else [])
offline_told_once_example =
    offline_told_once cm "A" 5 (record watchdog { timeouts = 0 }) app (omega arith) (omega arith)
      (omega arith) refl refl
