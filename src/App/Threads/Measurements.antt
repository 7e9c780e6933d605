-- ===== src/App/Threads/Measurements.antt =====
-- The measurements that src/application.cpp takes out of the messages, on their way through the
-- mapper and the queue of the Graphite service to its socket.
use mathlib.Core.List.{append_assoc, append-nil}
use mqtt_sentry.Base.{
  lookup, string_eq, Bool, ℕ, String, Bool, ◌≡◌, refl, sym, Option, none, some, List, [], ◌∷◌, ◌++◌,
  ◌<>◌, arith, string_eq,
}
use mqtt_sentry.Utils.{TimeZone}
use mqtt_sentry.Types.{AlertEvents, Metric, History}
use mqtt_sentry.Types.ThreadSafeQueue.{pop}
use mqtt_sentry.Types.ThreadSafeMap.{get, contains, contains-get}
use mqtt_sentry.Types.Messages.{MachineState, MachineOut, MachineInNotFilter}
use mqtt_sentry.Settings.{resolve_path, ConfigManager}
use mqtt_sentry.Mapper.{sink_each, map_state, map_light, map_in, map_in_filter, map_out, map_alarm}
use mqtt_sentry.Graphite.{GraphiteService, push}
use mqtt_sentry.Graphite.Loop.{Log, Reach, created, next, pushed, handle as graphite_handle}
use mqtt_sentry.Graphite.Stream.{log_text, unwritten, lines, Reach-unwritten}
use mqtt_sentry.Tg.{Api}
use mqtt_sentry.Mqtt.{MqttService}
use mqtt_sentry.App.{
  Application, push_metric, on_alert, on_machine_state, on_machine_in, on_machine_in_filter,
  on_machine_out, on_machine_light, on_machine_alarm, on_connection, on_disconnection,
}
use mqtt_sentry.App.Worker.{process, stop}
use mqtt_sentry.App.Metrics.{sink_each-gs}
use mqtt_sentry.App.Threads.{
  Callback, alerted, state_came, in_came, in_filter_came, out_came, light_came, alarm_came,
  connected, disconnected, Event, called, polled, configured, graphite_done, stopped, tested, took,
  System, call, handle, begin, AllEnabled, handle_all,
}
use mqtt_sentry.App.Threads.Measured.{batch, measured_by, measured_all}
use mqtt_sentry.App.Threads.Notes.{Notes, Notes-same, call-Notes, process-maps, stop-maps}

unfoldable pub pushes : List Metric → GraphiteService → GraphiteService
pushes [] g = g
pushes (m ∷ ms) g = pushes ms (push m g)

sink_each-pushes :
    (path : String) (ts : ℕ) (values : List (String × ℕ)) (g : GraphiteService)
    → sink_each push path ts values g ≡ pushes (batch path ts values) g
unfolding sink_each pushes batch
sink_each-pushes path ts [] g = refl
sink_each-pushes path ts ((name, value) ∷ rest) g = sink_each-pushes path ts rest _

pub sink_each-batch :
    (path : String) (ts : ℕ) (values : List (String × ℕ)) (app : Application)
    → (sink_each push_metric path ts values app).gs ≡ pushes (batch path ts values) app.gs
sink_each-batch path ts values app = rw sink_each-gs (sink_each-pushes path ts values app.gs)

module _ ⦃z : TimeZone⦄ ⦃api : Api⦄ (cm : ConfigManager) (heard : List Callback) where
  in-gs :
      (id : String) (m_in : MachineInNotFilter) (in_h : Option (History MachineInNotFilter))
      (out : Option (History MachineOut)) (app : Application)
      → Notes heard app
      → get id app.m_in ≡ in_h
      → get id app.m_out ≡ out
      → (on_machine_in cm id m_in app).gs ≡ pushes (measured_by cm heard (in_came id m_in)) app.gs
  unfolding on_machine_in map_in pushes resolve_path
  in-gs id m_in none out app n e f = rw (← n.0 id, contains-get id app.m_in, e) refl
  in-gs id m_in (some in_h) none app n e f =
      rw (← n.0 id, contains-get id app.m_in, e, ← n.1 id, contains-get id app.m_out, f) refl
  in-gs id m_in (some in_h) (some out) app n e f =
      rw
        (
          ← n.0 id,
          contains-get id app.m_in,
          e,
          ← n.1 id,
          contains-get id app.m_out,
          f,
          sink_each-batch,
        )
        (ground arith)

  out-gs :
      (id : String) (m_out : MachineOut) (out : Option (History MachineOut))
      (in_h : Option (History MachineInNotFilter)) (app : Application)
      → Notes heard app
      → get id app.m_out ≡ out
      → get id app.m_in ≡ in_h
      → (on_machine_out cm id m_out app).gs
        ≡ pushes (measured_by cm heard (out_came id m_out)) app.gs
  unfolding on_machine_out map_out pushes resolve_path
  out-gs id m_out none in_h app n e f = rw (← n.1 id, contains-get id app.m_out, e) refl
  out-gs id m_out (some out) none app n e f =
      rw (← n.1 id, contains-get id app.m_out, e, ← n.0 id, contains-get id app.m_in, f) refl
  out-gs id m_out (some out) (some in_h) app n e f =
      rw
        (
          ← n.1 id,
          contains-get id app.m_out,
          e,
          ← n.0 id,
          contains-get id app.m_in,
          f,
          sink_each-batch,
        )
        refl

  state-gs :
      (id : String) (prev : Option MachineState) (ms : MachineState) (app : Application)
      → get id app.ms_map ≡ prev
      → (on_machine_state cm id ms app).gs ≡ pushes (measured_by cm heard (state_came id ms)) app.gs
  unfolding on_machine_state map_state resolve_path
  state-gs id none ms app e = rw (e, sink_each-batch) refl
  state-gs id (some prev) ms app e = rw (e, sink_each-batch) (ground arith)

  call-gs :
      (c : Callback) (app : Application)
      → Notes heard app
      → (call cm c app).gs ≡ pushes (measured_by cm heard c) app.gs
  unfolding call pushes resolve_path
  call-gs (alerted a) app n = unfold on_alert in ground arith
  call-gs (state_came id ms) app n = state-gs id _ ms app refl
  call-gs (in_came id m_in) app n = in-gs id m_in _ _ app n refl refl
  call-gs (in_filter_came id m_in) app n =
      unfold on_machine_in_filter map_in_filter in sink_each-batch _ _ _ app
  call-gs (out_came id m_out) app n = out-gs id m_out _ _ app n refl refl
  call-gs (light_came id l) app n = unfold on_machine_light map_light in sink_each-batch _ _ _ _
  call-gs (alarm_came id ma) app n = unfold on_machine_alarm map_alarm in sink_each-batch _ _ _ app
  call-gs connected app n = unfold on_connection in ground arith
  call-gs disconnected app n = unfold on_disconnection in ground arith

-- The metrics of a message are pushes one after the other.
pushes-Reach :
    (ps ms : List Metric) (log : Log) (g : GraphiteService)
    → Reach ms log g
    → Reach (ms ++ ps) log (pushes ps g)
unfolding pushes graphite_handle
pushes-Reach [] ms log g r = rw append-nil r
pushes-Reach (m ∷ ps) ms log g r = rw (← append_assoc ms (m ∷ []) ps) (
    pushes-Reach ps (ms ++ m ∷ []) log (push m g)
      (next (pushed m) r tt _ _ _ refl (sym (append-nil log)) refl))

-- The Graphite service of the system is in a state that its own event loop reaches.
abbrev IsFed : List Metric → System → Type 0
IsFed ms s = Reach ms s.log s.app.gs

module _ ⦃z : TimeZone⦄ ⦃api : Api⦄ where
  process-gs :
      (cm : ConfigManager) (items : List AlertEvents) (app : Application)
      → app.alert_queue.items ≡ items
      → (process cm (pop app.alert_queue) app).0.gs ≡ app.gs
  unfolding process pop
  process-gs cm [] app q = rw q refl
  process-gs cm (a ∷ rest) app q = rw q (ground arith)

  stop-gs : (app : Application) (m : MqttService) → (stop app m).0.gs ≡ app.gs
  unfolding stop
  stop-gs app m = ground arith

  handle_all-IsFed :
      (es : List Event) (cm : ConfigManager) (heard : List Callback) (ms : List Metric) (s : System)
      → s.cm ≡ cm
      → Notes heard s.app
      → AllEnabled es s
      → IsFed ms s
      → IsFed (ms ++ measured_all cm heard es) (handle_all es s)
  unfolding handle
  handle_all-IsFed [] cm heard ms s e n a r = rw append-nil r
  handle_all-IsFed (called c ∷ es) cm heard ms s e n a r =
      rw (← append_assoc ms (measured_by cm heard c) (measured_all cm (c ∷ heard) es)) (
        handle_all-IsFed es cm (c ∷ heard) _ (handle (called c) s) e
          (call-Notes s.cm heard c s.app n) a.1
          (rw (← e, call-gs s.cm heard c s.app n) (pushes-Reach _ ms s.log s.app.gs r)))
  handle_all-IsFed (polled p ∷ es) cm heard ms s e n a r =
      handle_all-IsFed es cm heard ms (handle (polled p) s) e n a.1 r
  handle_all-IsFed (configured cm' ∷ es) cm heard ms s e n a r =
      handle_all-IsFed es cm' heard ms (handle (configured cm') s) refl n a.1 r
  handle_all-IsFed (graphite_done g ∷ es) cm heard ms s e n a r =
      handle_all-IsFed es cm heard ms (handle (graphite_done g) s) e n a.1
        (next g r a.0.0 _ _ _ (rw (a.0.1, append-nil) refl) refl refl)
  handle_all-IsFed (stopped ∷ es) cm heard ms s e n a r =
      let same = stop-maps s.app s.mqtt in
      handle_all-IsFed es cm heard ms (handle stopped s) e
        (Notes-same heard s.app (stop s.app s.mqtt).0 same.0 same.1 n) a.1 (rw stop-gs r)
  handle_all-IsFed (tested ∷ es) cm heard ms s e n a r =
      handle_all-IsFed es cm heard ms (handle tested s) e n a.1 r
  handle_all-IsFed (took ∷ es) cm heard ms s e n a r =
      let same = process-maps s.cm _ s.app refl in
      handle_all-IsFed es cm heard ms (handle took s) e
        (Notes-same heard s.app (process s.cm (pop s.app.alert_queue) s.app).0 same.0 same.1 n) a.1
        (rw (process-gs s.cm _ s.app refl) r)

  -- From the start, in whatever order the threads take their steps: the writes to Graphite that
  -- have ended, the write under way and the lines of the queue are together the lines of the
  -- measurements in the messages, in the order in which the messages came. A message on the inputs
  -- or on the outputs counts only if its machine has sent an earlier one on each.
  pub handle_all-written :
      (es : List Event) (cm : ConfigManager) (exit : Bool)
      → AllEnabled es (begin cm exit)
      → let s = handle_all es (begin cm exit) in
        log_text s.log <> unwritten s.app.gs ≡ lines (measured_all cm [] es)
  unfolding begin contains lookup
  handle_all-written es cm exit a = Reach-unwritten (
      handle_all-IsFed es cm [] [] (begin cm exit) refl (((λ k. refl), λ k. refl)) a (created refl))
