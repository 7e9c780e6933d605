-- ===== src/App/Program/Simulation.antt =====
-- The program of src/application.cpp does what its threads do, with the calls that the events of
-- src/mqttService.cpp mean.
use mqtt_sentry.Base.{
  true, ◌≡◌, refl, ap, sym, ◌∙◌, Bool, List, [], ◌∷◌, ◌++◌, ◌<>◌, arith, String, Outcome, ok, throw,
  undefined,
}
use mqtt_sentry.Json.{JsonLib}
use mqtt_sentry.Utils.{TimeZone}
use mqtt_sentry.Settings.{ConfigManager}
use mqtt_sentry.Tg.{Api, create as tg_create}
use mqtt_sentry.Graphite.Stream.{log_text, unwritten, lines}
use mqtt_sentry.Mqtt.{MqttService, create}
use mqtt_sentry.Mqtt.System as Mqtt
use mqtt_sentry.App.{Application}
use mqtt_sentry.App.Worker.{stop}
use mqtt_sentry.App.Messages.{event_calls, calls}
use mqtt_sentry.App.Messages.Calls.{handle-calls}
use mqtt_sentry.App.Threads as Threads
use mqtt_sentry.App.Threads.{
  called, polled, configured, graphite_done, stopped, tested, took, Callback,
}
use mqtt_sentry.App.Threads.Stopping.{taken_all}
use mqtt_sentry.App.Threads.Reachable.{reachable, handle_all-reachable}
use mqtt_sentry.App.Threads.Runs.{raised_all, told_all, handle_all-queue}
use mqtt_sentry.App.Threads.Measured.{measured_all}
use mqtt_sentry.App.Threads.Measurements.{handle_all-written}
use mqtt_sentry.App.Program.{
  Program, Step, of_mqtt, of_thread, threads, begin, called_each, handle, IsEnabled, AllEnabled,
  run, expand, expand_all,
}

-- A system without its MQTT service, of which the other threads see nothing.
abbrev blind : Threads.System → Threads.System
blind s = record s { mqtt = create }

module _ ⦃z : TimeZone⦄ ⦃api : Api⦄ where
  stop-blind : (app : Application) (m n : MqttService) → (stop app m).0 ≡ (stop app n).0
  unfolding stop
  stop-blind app m n = ground arith

  handle-blind :
      (e : Threads.Event) (s : Threads.System)
      → blind (Threads.handle e s) ≡ blind (Threads.handle e (blind s))
  unfolding Threads.handle
  handle-blind (called c) s = refl
  handle-blind (polled p) s = refl
  handle-blind (configured cm) s = refl
  handle-blind (graphite_done e) s = refl
  handle-blind stopped s =
      ap (λ app. record (blind s) { app = app }) (stop-blind s.app s.mqtt create)
  handle-blind tested s = refl
  handle-blind took s = refl

  IsEnabled-blind :
      (e : Threads.Event) (s : Threads.System)
      → Threads.IsEnabled e s ≡ Threads.IsEnabled e (blind s)
  IsEnabled-blind (called c) s = refl
  IsEnabled-blind (polled p) s = refl
  IsEnabled-blind (configured cm) s = refl
  IsEnabled-blind (graphite_done e) s = refl
  IsEnabled-blind stopped s = refl
  IsEnabled-blind tested s = refl
  IsEnabled-blind took s = refl

  handle_all-append :
      (ds es : List Threads.Event) (s : Threads.System)
      → Threads.handle_all (ds ++ es) s ≡ Threads.handle_all es (Threads.handle_all ds s)
  handle_all-append [] es s = refl
  handle_all-append (d ∷ ds) es s = handle_all-append ds es (Threads.handle d s)

  AllEnabled-append :
      (ds es : List Threads.Event) (s : Threads.System)
      → Threads.AllEnabled ds s
      → Threads.AllEnabled es (Threads.handle_all ds s)
      → Threads.AllEnabled (ds ++ es) s
  AllEnabled-append [] es s a b = b
  AllEnabled-append (d ∷ ds) es s a b = (a.0, AllEnabled-append ds es (Threads.handle d s) a.1 b)

  called_each-all :
      (cs : List Callback) (s : Threads.System)
      → Threads.handle_all (called_each cs) s ≡ record s { app = calls s.cm cs s.app }
  unfolding Threads.handle
  called_each-all [] s = refl
  called_each-all (c ∷ cs) s = called_each-all cs (Threads.handle (called c) s)

  called_each-AllEnabled :
      (cs : List Callback) (s : Threads.System) → Threads.AllEnabled (called_each cs) s
  called_each-AllEnabled [] s = tt
  called_each-AllEnabled (c ∷ cs) s = (tt, called_each-AllEnabled cs (Threads.handle (called c) s))

module _ ⦃J : JsonLib⦄ ⦃z : TimeZone⦄ ⦃api : Api⦄ where
  expand-AllEnabled :
      (e : Step) (p : Program) (s : Threads.System)
      → blind s ≡ blind (threads p)
      → IsEnabled e p
      → Threads.AllEnabled (expand e p) s
  expand-AllEnabled (of_mqtt e) p s h i = called_each-AllEnabled (event_calls p.cm e p.service) s
  expand-AllEnabled (of_thread e) p s h i =
      (rw (IsEnabled-blind e s, h, ← IsEnabled-blind e (threads p)) i, tt)

  expand-blind :
      (e : Step) (p : Program) (s : Threads.System)
      → blind s ≡ blind (threads p)
      → blind (Threads.handle_all (expand e p) s) ≡ blind (threads (handle e p))
  unfolding handle
  expand-blind (of_mqtt e) p s h =
      let cs = event_calls p.cm e p.service in
      ap blind (called_each-all cs s)
      ∙ ap (λ (t : Threads.System). record t { app = calls t.cm cs t.app }) h
      ∙ ap (λ (app : Application). record (blind (threads p)) { app = app })
          (sym (handle-calls p.cm e p.service))
  expand-blind (of_thread e) p s h =
      handle-blind e s ∙ ap (λ t. blind (Threads.handle e t)) h ∙ sym (handle-blind e (threads p))

  simulation :
      (es : List Step) (p : Program) (s : Threads.System)
      → blind s ≡ blind (threads p)
      → AllEnabled es p
      → Threads.AllEnabled (expand_all es p) s
        × (blind (Threads.handle_all (expand_all es p) s) ≡ blind (threads (run es p)))
  simulation [] p s h a = (tt, h)
  simulation (e ∷ es) p s h a =
      let ih =
        simulation es (handle e p) (Threads.handle_all (expand e p) s) (expand-blind e p s h) a.1 in
      (
        AllEnabled-append (expand e p) (expand_all es (handle e p)) s
            (expand-AllEnabled e p s h a.0) ih.0,
        ap blind (handle_all-append (expand e p) (expand_all es (handle e p)) s) ∙ ih.1,
      )

  first_receive-user :
      (r : MqttService × Outcome (List String)) (app : Application)
      → (Mqtt.first_receive r app).user ≡ app
  unfolding Mqtt.first_receive
  first_receive-user (m, ok topics) app = refl
  first_receive-user (m, throw e) app = refl
  first_receive-user (m, undefined) app = refl

  begin-blind :
      (cm : ConfigManager) (exit : Bool)
      → blind (Threads.begin cm exit) ≡ blind (threads (begin cm exit))
  unfolding Mqtt.begin Threads.begin
  begin-blind cm exit =
      ap (λ (app : Application). record (blind (Threads.begin cm exit)) { app = app })
        (sym (first_receive-user _ (Threads.begin cm exit).app))

  -- From the start, in whatever order the program takes its possible steps - events of the MQTT
  -- service, handlers of the Graphite service, steps of the worker, rounds of polling, changes of
  -- the configuration, stop() - it behaves as the calls that the MQTT events mean: the writes to
  -- Graphite that have ended, the write under way and the lines of its queue are the lines of the
  -- measurements; the alerts raised are those that the worker has taken and those that still wait,
  -- in order; Telegram has accepted exactly the notifications of the alerts taken and the notices
  -- of the broker, each to the users up to the first one for whom Telegram refuses it; and the
  -- program takes Telegram for reachable exactly if the last round of polling that returned or did
  -- not find the host has returned.
  pub run-outputs :
      (es : List Step) (cm : ConfigManager) (exit : Bool)
      → AllEnabled es (begin cm exit)
      → let p = run es (begin cm exit) in
        let steps = expand_all es (begin cm exit) in
        let start = Threads.begin cm exit in
        (log_text p.log <> unwritten p.service.user.gs ≡ lines (measured_all cm [] steps))
        × (raised_all steps start ≡ taken_all steps start ++ p.service.user.alert_queue.items)
        × (p.service.user.tg.sent ≡ told_all steps start)
        × (p.service.user.tg.is_connection ≡ reachable true steps)
  unfolding Threads.begin tg_create
  run-outputs es cm exit a =
      let steps = expand_all es (begin cm exit) in
      let start = Threads.begin cm exit in
      let (enabled, same) = simulation es (begin cm exit) start (begin-blind cm exit) a in
      let (passed, sent) = handle_all-queue steps cm exit enabled in
      (
        ap (λ s. log_text s.log <> unwritten s.app.gs) (sym same)
            ∙ handle_all-written steps cm exit enabled,
        passed ∙ ap (λ s. taken_all steps start ++ s.app.alert_queue.items) same,
        ap (λ s. s.app.tg.sent) (sym same) ∙ sent,
        ap (λ s. s.app.tg.is_connection) (sym same) ∙ handle_all-reachable steps start,
      )
