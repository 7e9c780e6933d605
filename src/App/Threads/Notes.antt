-- ===== src/App/Threads/Notes.antt =====
-- The histories of the inputs and of the outputs that src/application.cpp keeps hold exactly the
-- machines that have sent such a message.
use mqtt_sentry.Base.{
  ap, ◌∙◌, ◌==◌, if◌then◌else◌, true, string_eq, String, ◌≡◌, refl, Option, none, some, List, [],
  ◌∷◌, arith, string_eq,
}
use mqtt_sentry.Utils.{TimeZone}
use mqtt_sentry.Types.{AlertEvents, History, update}
use mqtt_sentry.Types.ThreadSafeQueue.{pop}
use mqtt_sentry.Types.ThreadSafeMap.{get, contains, contains-set}
use mqtt_sentry.Types.Messages.{MachineState, MachineOut, MachineInNotFilter}
use mqtt_sentry.Settings.{ConfigManager}
use mqtt_sentry.Mapper.{map_state, map_light, map_in, map_in_filter, map_out, map_alarm}
use mqtt_sentry.Tg.{Api}
use mqtt_sentry.Mqtt.{MqttService}
use mqtt_sentry.App.{
  Application, on_alert, on_machine_state, on_machine_in, on_machine_in_filter, on_machine_out,
  on_machine_light, on_machine_alarm, on_connection, on_disconnection,
}
use mqtt_sentry.App.Worker.{process, stop}
use mqtt_sentry.App.Metrics.{sink_each-gs}
use mqtt_sentry.App.Threads.{
  Callback, alerted, state_came, in_came, in_filter_came, out_came, light_came, alarm_came,
  connected, disconnected, call,
}
use mqtt_sentry.App.Threads.Measured.{has_in, has_out}

-- The application keeps a history of exactly the machines that have sent such a message.
abbrev pub Notes : List Callback → Application → Type 0
Notes heard app =
    ((k : String) → contains k app.m_in ≡ has_in k heard)
    × ((k : String) → contains k app.m_out ≡ has_out k heard)

pub Notes-same :
    (heard : List Callback) (a b : Application)
    → b.m_in ≡ a.m_in
    → b.m_out ≡ a.m_out
    → Notes heard a
    → Notes heard b
Notes-same heard a b i o n = ((λ k. rw i (n.0 k)), λ k. rw o (n.1 k))

module _ ⦃z : TimeZone⦄ ⦃api : Api⦄ where
  in-maps :
      (cm : ConfigManager) (id : String) (m_in : MachineInNotFilter)
      (in_h : Option (History MachineInNotFilter)) (out : Option (History MachineOut))
      (app : Application) (k : String)
      → get id app.m_in ≡ in_h
      → get id app.m_out ≡ out
      → (contains k (on_machine_in cm id m_in app).m_in
          ≡ (if id == k then true else contains k app.m_in))
        × ((on_machine_in cm id m_in app).m_out ≡ app.m_out)
  unfolding on_machine_in map_in
  in-maps cm id m_in none out app k e f = rw e (contains-set id k _ app.m_in, refl)
  in-maps cm id m_in (some in_h) none app k e f = rw (e, f) (contains-set id k _ app.m_in, refl)
  in-maps cm id m_in (some in_h) (some out) app k e f =
      rw (e, f, sink_each-gs)
        (ground (arith, contains-set id k (update m_in in_h) app.m_in), ground arith)

  out-maps :
      (cm : ConfigManager) (id : String) (m_out : MachineOut) (out : Option (History MachineOut))
      (in_h : Option (History MachineInNotFilter)) (app : Application) (k : String)
      → get id app.m_out ≡ out
      → get id app.m_in ≡ in_h
      → (contains k (on_machine_out cm id m_out app).m_out
          ≡ (if id == k then true else contains k app.m_out))
        × ((on_machine_out cm id m_out app).m_in ≡ app.m_in)
  unfolding on_machine_out map_out
  out-maps cm id m_out none in_h app k e f = rw e (contains-set id k _ app.m_out, refl)
  out-maps cm id m_out (some out) none app k e f = rw (e, f) (contains-set id k _ app.m_out, refl)
  out-maps cm id m_out (some out) (some in_h) app k e f =
      rw (e, f, sink_each-gs) (contains-set id k _ app.m_out, refl)

  state-maps :
      (cm : ConfigManager) (id : String) (prev : Option MachineState) (ms : MachineState)
      (app : Application)
      → get id app.ms_map ≡ prev
      → ((on_machine_state cm id ms app).m_in ≡ app.m_in)
        × ((on_machine_state cm id ms app).m_out ≡ app.m_out)
  unfolding on_machine_state map_state
  state-maps cm id none ms app e = rw (e, sink_each-gs) (refl, refl)
  state-maps cm id (some prev) ms app e = rw (e, sink_each-gs) (ground arith, ground arith)

  on_alert-maps :
      (a : AlertEvents) (app : Application)
      → ((on_alert a app).m_in ≡ app.m_in) × ((on_alert a app).m_out ≡ app.m_out)
  unfolding on_alert
  on_alert-maps a app = (ground arith, ground arith)

  pub call-Notes :
      (cm : ConfigManager) (heard : List Callback) (c : Callback) (app : Application)
      → Notes heard app
      → Notes (c ∷ heard) (call cm c app)
  unfolding call
  call-Notes cm heard (alerted a) app n =
      let same = on_alert-maps a app in Notes-same heard app (on_alert a app) same.0 same.1 n
  call-Notes cm heard (state_came id ms) app n =
      let same = state-maps cm id _ ms app refl in
      Notes-same heard app (on_machine_state cm id ms app) same.0 same.1 n
  call-Notes cm heard (in_came id m_in) app n = (
    (λ k.
        (in-maps cm id m_in _ _ app k refl refl).0 ∙ ap (λ b. if id == k then true else b) (n.0 k)),
    λ k. rw (in-maps cm id m_in _ _ app k refl refl).1 (n.1 k),
  )
  call-Notes cm heard (in_filter_came id m_in) app n =
      unfold on_machine_in_filter map_in_filter in rw sink_each-gs (n)
  call-Notes cm heard (out_came id m_out) app n = (
    (λ k. rw (out-maps cm id m_out _ _ app k refl refl).1 (n.0 k)),
    λ k.
        (out-maps cm id m_out _ _ app k refl refl).0
        ∙ ap (λ b. if id == k then true else b) (n.1 k),
  )
  call-Notes cm heard (light_came id l) app n =
      unfold on_machine_light map_light in rw sink_each-gs (n)
  call-Notes cm heard (alarm_came id ma) app n =
      unfold on_machine_alarm map_alarm in rw sink_each-gs (n)
  call-Notes cm heard connected app n =
      unfold on_connection in
      Notes-same heard app (on_connection cm app) (ground arith) (ground arith) n
  call-Notes cm heard disconnected app n =
      unfold on_disconnection in
      Notes-same heard app (on_disconnection cm app) (ground arith) (ground arith) n

  pub process-maps :
      (cm : ConfigManager) (items : List AlertEvents) (app : Application)
      → app.alert_queue.items ≡ items
      → let after = (process cm (pop app.alert_queue) app).0 in
        (after.m_in ≡ app.m_in) × (after.m_out ≡ app.m_out)
  unfolding process pop
  process-maps cm [] app q = rw q (refl, refl)
  process-maps cm (a ∷ rest) app q = rw q (ground arith, ground arith)

  pub stop-maps :
      (app : Application) (m : MqttService)
      → ((stop app m).0.m_in ≡ app.m_in) × ((stop app m).0.m_out ≡ app.m_out)
  unfolding stop
  stop-maps app m = (ground arith, ground arith)
