-- ===== src/App/Threads/Order.antt =====
-- The alerts pass through the queue of src/application.cpp in order, and none is lost or doubled.
use mathlib.Core.List.{append_assoc, append-nil}
use mqtt_sentry.Base.{
  Bool-cases, inl, inr, ◌==◌, ◌&&◌, ap, ◌∙◌, ℕ, String, ◌≡◌, refl, sym, Option, none, some, List,
  [], ◌∷◌, ◌++◌, nat_eq, string_eq, arith,
}
use mqtt_sentry.Utils.{TimeZone}
use mqtt_sentry.Types.{AlertEvents, History}
use mqtt_sentry.Types.ThreadSafeQueue.{pop, push}
use mqtt_sentry.Types.ThreadSafeMap.{get}
use mqtt_sentry.Types.Messages.{MachineOut, MachineInNotFilter, MachineState}
use mqtt_sentry.Settings.{ConfigManager}
use mqtt_sentry.Tg.{
  Api, poll_round, returned, dns_error, system_error, api_error, send_alert, send,
  create as tg_create, stop as tg_stop,
}
use mqtt_sentry.Mapper.{map_state, map_light, map_in, map_in_filter, map_out, map_alarm}
use mqtt_sentry.App.{
  Application, on_alert, on_machine_state, on_machine_in, on_machine_in_filter, on_machine_out,
  on_machine_light, on_machine_alarm, on_connection, on_disconnection,
}
use mqtt_sentry.App.Worker.{process, stop, is_sentinel}
use mqtt_sentry.App.Metrics.{sink_each-gs}
use mqtt_sentry.App.Pump.{on_machine_state-queue}
use mqtt_sentry.App.Eco.{on_machine_in-queue}
use mqtt_sentry.App.Threads.{
  Callback, alerted, state_came, in_came, in_filter_came, out_came, light_came, alarm_came,
  connected, disconnected, Event, called, polled, configured, graphite_done, stopped, tested, took,
  System, call, handle, raised_by, raised, taken, first, told, begin, Reach, started, next,
}
use mqtt_sentry.App.Threads.Notifications.{
  notification, posted, messages, send_each-posted, alert_text-notification,
}

module _ ⦃z : TimeZone⦄ ⦃api : Api⦄ where
  pub out-queue :
      (cm : ConfigManager) (id : String) (m_out : MachineOut) (out : Option (History MachineOut))
      (in_h : Option (History MachineInNotFilter)) (app : Application)
      → get id app.m_out ≡ out
      → get id app.m_in ≡ in_h
      → ((on_machine_out cm id m_out app).alert_queue.items ≡ app.alert_queue.items)
        × ((on_machine_out cm id m_out app).tg ≡ app.tg)
        × ((on_machine_out cm id m_out app).running ≡ app.running)
  unfolding on_machine_out map_out
  out-queue cm id m_out none in_h app e f = rw e (refl, refl, refl)
  out-queue cm id m_out (some out) none app e f = rw (e, f) (refl, refl, refl)
  out-queue cm id m_out (some out) (some in_h) app e f = rw (e, f, sink_each-gs) (refl, refl, refl)

  pub call-queue :
      (cm : ConfigManager) (c : Callback) (app : Application)
      → (call cm c app).alert_queue.items ≡ app.alert_queue.items ++ raised_by cm c app
  unfolding call
  call-queue cm (alerted a) app =
      unfold on_alert push in ground (arith, append-nil app.alert_queue.items)
  call-queue cm (state_came id ms) app = on_machine_state-queue cm id _ ms app refl
  call-queue cm (in_came id m_in) app = on_machine_in-queue cm id m_in _ _ app refl refl
  call-queue cm (in_filter_came id m_in) app =
      unfold on_machine_in_filter map_in_filter in rw (sink_each-gs, append-nil)
  call-queue cm (out_came id m_out) app = rw append-nil (out-queue cm id m_out _ _ app refl refl).0
  call-queue cm (light_came id l) app =
      unfold on_machine_light map_light in rw (sink_each-gs, append-nil)
  call-queue cm (alarm_came id ma) app =
      unfold on_machine_alarm map_alarm in rw (sink_each-gs, append-nil)
  call-queue cm connected app =
      unfold on_connection in ground (arith, append-nil app.alert_queue.items)
  call-queue cm disconnected app =
      unfold on_disconnection in ground (arith, append-nil app.alert_queue.items)

  pub in-tg :
      (cm : ConfigManager) (id : String) (m_in : MachineInNotFilter)
      (in_h : Option (History MachineInNotFilter)) (out : Option (History MachineOut))
      (app : Application)
      → get id app.m_in ≡ in_h
      → get id app.m_out ≡ out
      → ((on_machine_in cm id m_in app).tg ≡ app.tg)
        × ((on_machine_in cm id m_in app).running ≡ app.running)
  unfolding on_machine_in map_in
  in-tg cm id m_in none out app e f = rw e (refl, refl)
  in-tg cm id m_in (some in_h) none app e f = rw (e, f) (refl, refl)
  in-tg cm id m_in (some in_h) (some out) app e f = rw (e, f, sink_each-gs) (ground arith)

  pub state-tg :
      (cm : ConfigManager) (id : String) (prev : Option MachineState) (ms : MachineState)
      (app : Application)
      → get id app.ms_map ≡ prev
      → ((on_machine_state cm id ms app).tg ≡ app.tg)
        × ((on_machine_state cm id ms app).running ≡ app.running)
  unfolding on_machine_state map_state
  state-tg cm id none ms app e = rw (e, sink_each-gs) (refl, refl)
  state-tg cm id (some prev) ms app e = rw (e, sink_each-gs) (ground arith)

  call-sent :
      (s : System) (c : Callback) → (call s.cm c s.app).tg.sent ≡ s.app.tg.sent ++ told (called c) s
  unfolding call
  call-sent s (alerted a) = unfold on_alert in ground (arith, append-nil s.app.tg.sent)
  call-sent s (state_came id ms) = rw ((state-tg s.cm id _ ms s.app refl).0, append-nil)
  call-sent s (in_came id m_in) = rw ((in-tg s.cm id m_in _ _ s.app refl refl).0, append-nil)
  call-sent s (in_filter_came id m_in) =
      unfold on_machine_in_filter map_in_filter in rw (sink_each-gs, append-nil)
  call-sent s (out_came id m_out) = rw ((out-queue s.cm id m_out _ _ s.app refl refl).1, append-nil)
  call-sent s (light_came id l) = unfold on_machine_light map_light in rw (sink_each-gs, append-nil)
  call-sent s (alarm_came id ma) =
      unfold on_machine_alarm map_alarm in rw (sink_each-gs, append-nil)
  call-sent s connected =
      unfold on_connection send in
      ground (
        arith,
        append-nil s.app.tg.sent,
        send_each-posted "📶  Mqtt Брокер вийшов на зв'язок" s.cm.tg.users,
      )
  call-sent s disconnected =
      unfold on_disconnection send in
      ground (
        arith,
        append-nil s.app.tg.sent,
        send_each-posted "🚫 Mqtt Брокер не на зв'язку" s.cm.tg.users,
      )

  pub call-running :
      (cm : ConfigManager) (c : Callback) (app : Application)
      → (call cm c app).running ≡ app.running
  unfolding call
  call-running cm (alerted a) app = unfold on_alert in ground arith
  call-running cm (state_came id ms) app = (state-tg cm id _ ms app refl).1
  call-running cm (in_came id m_in) app = (in-tg cm id m_in _ _ app refl refl).1
  call-running cm (in_filter_came id m_in) app =
      unfold on_machine_in_filter map_in_filter in rw sink_each-gs
  call-running cm (out_came id m_out) app = (out-queue cm id m_out _ _ app refl refl).2
  call-running cm (light_came id l) app = unfold on_machine_light map_light in rw sink_each-gs
  call-running cm (alarm_came id ma) app = unfold on_machine_alarm map_alarm in rw sink_each-gs
  call-running cm connected app = unfold on_connection in ground arith
  call-running cm disconnected app = unfold on_disconnection in ground arith

  process-step :
      (cm : ConfigManager) (items : List AlertEvents) (app : Application)
      → app.alert_queue.items ≡ items
      → let after = (process cm (pop app.alert_queue) app).0 in
        (items ≡ first items ++ after.alert_queue.items)
        × (after.tg.sent ≡ app.tg.sent ++ messages cm (first items))
  unfolding process pop send_alert is_sentinel
  process-step cm [] app q = rw q (ground (arith, append-nil app.tg.sent))
  process-step cm (a ∷ rest) app q =
      rw (q, alert_text-notification, send_each-posted)
        (elim (Bool-cases (a.machine_id == "" && a.message == "")) [
          | inl empty ↦ rw empty (refl, sym (append-nil app.tg.sent))
          | inr full ↦ rw full (
            refl,
            ap (λ l. app.tg.sent ++ l) (sym (append-nil (posted (notification a) cm.tg.users))),
          )
        ])

  handle-queue :
      (e : Event) (s : System)
      → s.app.alert_queue.items ++ raised e s ≡ taken e s ++ (handle e s).app.alert_queue.items
  unfolding handle
  handle-queue (called c) s = sym (call-queue s.cm c s.app)
  handle-queue (polled p) s = append-nil s.app.alert_queue.items
  handle-queue (configured cm) s = append-nil s.app.alert_queue.items
  handle-queue (graphite_done e) s = append-nil s.app.alert_queue.items
  handle-queue stopped s = unfold stop push in ground (arith, append-nil s.app.alert_queue.items)
  handle-queue tested s = append-nil s.app.alert_queue.items
  handle-queue took s = rw append-nil (process-step s.cm _ s.app refl).0

  handle-sent : (e : Event) (s : System) → (handle e s).app.tg.sent ≡ s.app.tg.sent ++ told e s
  unfolding handle
  handle-sent (called c) s = call-sent s c
  handle-sent (polled returned) s = unfold poll_round in sym (append-nil s.app.tg.sent)
  handle-sent (polled dns_error) s = unfold poll_round in sym (append-nil s.app.tg.sent)
  handle-sent (polled system_error) s = unfold poll_round in sym (append-nil s.app.tg.sent)
  handle-sent (polled api_error) s = unfold poll_round in sym (append-nil s.app.tg.sent)
  handle-sent (configured cm) s = sym (append-nil s.app.tg.sent)
  handle-sent (graphite_done e) s = sym (append-nil s.app.tg.sent)
  handle-sent stopped s = unfold stop tg_stop in ground (arith, append-nil s.app.tg.sent)
  handle-sent tested s = sym (append-nil s.app.tg.sent)
  handle-sent took s = (process-step s.cm _ s.app refl).1

  -- Whatever the order in which the threads take their steps, and whatever the configurations on
  -- the way, the alerts taken and those that still stand in the queue are the alerts raised, in
  -- their order; and what Telegram has accepted is, for each alert taken, its notification - the
  -- machine, the sign and the message, the date unless it is sent at once - to the users in their
  -- order, up to the first one for whom Telegram refuses it, and for each change of the connection
  -- to the broker while Telegram can be reached its notice, to the users in the same way.
  pub Reach-queue :
      (rs ts : List AlertEvents) (os : List (ℕ × String)) (s : System)
      → Reach rs ts os s
      → (rs ≡ ts ++ s.app.alert_queue.items) × (s.app.tg.sent ≡ os)
  unfolding begin tg_create
  Reach-queue rs ts os s (started cm exit e) = rw e (refl, refl)
  Reach-queue rs ts os s (next {ts = ts'} {s = s'} e r enabled _ _ _ _ f g h k) =
      let ih = Reach-queue _ _ _ _ r in
      let passed : (ts' ++ s'.app.alert_queue.items) ++ raised e s'
          ≡ (ts' ++ taken e s') ++ (handle e s').app.alert_queue.items =
        append_assoc ts' s'.app.alert_queue.items (raised e s')
        ∙ ap (λ items. ts' ++ items) (handle-queue e s')
        ∙ sym (append_assoc ts' (taken e s') (handle e s').app.alert_queue.items) in
      (rw (f, g, k, ih.0) passed, rw (h, k, handle-sent, ih.1))
