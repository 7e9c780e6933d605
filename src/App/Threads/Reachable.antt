-- ===== src/App/Threads/Reachable.antt =====
-- Whether Telegram can be reached, among the steps of the threads of src/application.cpp.
use mqtt_sentry.Base.{
  Bool, true, false, ◌≡◌, refl, ap, ◌∙◌, List, [], ◌∷◌, arith, string_eq, nat_eq,
}
use mqtt_sentry.Utils.{TimeZone}
use mqtt_sentry.Types.{AlertEvents}
use mqtt_sentry.Types.ThreadSafeQueue.{pop}
use mqtt_sentry.Settings.{ConfigManager}
use mqtt_sentry.Tg.{
  Api, returned, dns_error, system_error, api_error, poll_round, send, send_alert, stop as tg_stop,
}
use mqtt_sentry.Mapper.{map_light, map_in_filter, map_alarm}
use mqtt_sentry.App.{
  Application, on_alert, on_machine_in_filter, on_machine_light, on_machine_alarm, on_connection,
  on_disconnection,
}
use mqtt_sentry.App.Worker.{process, stop}
use mqtt_sentry.App.Metrics.{sink_each-gs}
use mqtt_sentry.App.Threads.Order.{in-tg, state-tg, out-queue}
use mqtt_sentry.App.Threads.{
  Callback, alerted, state_came, in_came, in_filter_came, out_came, light_came, alarm_came,
  connected, disconnected, Event, called, polled, configured, graphite_done, stopped, tested, took,
  System, call, handle, handle_all,
}

-- What the rounds of polling say: the last one that has returned, or failed to find the host.
abbrev pub reachable : Bool → List Event → Bool
reachable before [] = before
reachable before (polled returned ∷ rest) = reachable true rest
reachable before (polled dns_error ∷ rest) = reachable false rest
reachable before (_ ∷ rest) = reachable before rest

module _ ⦃z : TimeZone⦄ ⦃api : Api⦄ where
  call-reachable :
      (cm : ConfigManager) (c : Callback) (app : Application)
      → (call cm c app).tg.is_connection ≡ app.tg.is_connection
  unfolding call
  call-reachable cm (alerted a) app = unfold on_alert in ground arith
  call-reachable cm (state_came id ms) app = rw (state-tg cm id _ ms app refl).0 refl
  call-reachable cm (in_came id m_in) app = rw (in-tg cm id m_in _ _ app refl refl).0 refl
  call-reachable cm (in_filter_came id m_in) app =
      unfold on_machine_in_filter map_in_filter in rw sink_each-gs refl
  call-reachable cm (out_came id m_out) app = rw (out-queue cm id m_out _ _ app refl refl).1 refl
  call-reachable cm (light_came id l) app =
      unfold on_machine_light map_light in rw sink_each-gs refl
  call-reachable cm (alarm_came id ma) app =
      unfold on_machine_alarm map_alarm in rw sink_each-gs refl
  call-reachable cm connected app = unfold on_connection send in ground arith
  call-reachable cm disconnected app = unfold on_disconnection send in ground arith

  process-reachable :
      (cm : ConfigManager) (items : List AlertEvents) (app : Application)
      → app.alert_queue.items ≡ items
      → (process cm (pop app.alert_queue) app).0.tg.is_connection ≡ app.tg.is_connection
  unfolding process pop send_alert
  process-reachable cm [] app q = rw q refl
  process-reachable cm (a ∷ rest) app q = rw q (ground arith)

  pub handle_all-reachable :
      (es : List Event) (s : System)
      → (handle_all es s).app.tg.is_connection ≡ reachable s.app.tg.is_connection es
  unfolding handle poll_round
  handle_all-reachable [] s = refl
  handle_all-reachable (called c ∷ es) s =
      handle_all-reachable es (handle (called c) s)
      ∙ ap (λ b. reachable b es) (call-reachable s.cm c s.app)
  handle_all-reachable (polled returned ∷ es) s =
      handle_all-reachable es (handle (polled returned) s)
  handle_all-reachable (polled dns_error ∷ es) s =
      handle_all-reachable es (handle (polled dns_error) s)
  handle_all-reachable (polled system_error ∷ es) s =
      handle_all-reachable es (handle (polled system_error) s)
  handle_all-reachable (polled api_error ∷ es) s =
      handle_all-reachable es (handle (polled api_error) s)
  handle_all-reachable (configured cm ∷ es) s = handle_all-reachable es (handle (configured cm) s)
  handle_all-reachable (graphite_done e ∷ es) s =
      handle_all-reachable es (handle (graphite_done e) s)
  handle_all-reachable (stopped ∷ es) s =
      handle_all-reachable es (handle stopped s)
      ∙ ap (λ b. reachable b es) (unfold stop tg_stop in ground arith)
  handle_all-reachable (tested ∷ es) s = handle_all-reachable es (handle tested s)
  handle_all-reachable (took ∷ es) s =
      handle_all-reachable es (handle took s)
      ∙ ap (λ b. reachable b es) (process-reachable s.cm _ s.app refl)
