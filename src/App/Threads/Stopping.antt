-- ===== src/App/Threads/Stopping.antt =====
-- The end of the worker of src/application.cpp after stop(), among the steps of the other threads.
use mathlib.Core.List.{append-nil}
use mqtt_sentry.Base.{
  length-append, ℕ, ◌≤◌, ◌+◌, String, Bool, true, false, ◌≡◌, ◌≢◌, refl, sym, ◌∙◌, List, [], ◌∷◌,
  ◌++◌, if◌then◌else◌, arith, length,
}
use mqtt_sentry.Utils.{TimeZone}
use mqtt_sentry.Types.{AlertEvents}
use mqtt_sentry.Types.ThreadSafeQueue.{pop, push}
use mqtt_sentry.Settings.{ConfigManager}
use mqtt_sentry.Tg.{Api}
use mqtt_sentry.Mqtt.{MqttService}
use mqtt_sentry.App.{Application}
use mqtt_sentry.App.Worker.{Worker, looping, waiting, ended, process, stop, sentinel}
use mqtt_sentry.App.Threads.Order.{call-queue, call-running}
use mqtt_sentry.App.Threads.{
  Event, called, polled, configured, graphite_done, stopped, tested, took, System, handle,
  IsEnabled, AllEnabled, handle_all, taken, first, after_test, begin, Reach, started, next,
}

-- The steps that the worker has left at most once the program has stopped.
abbrev pub rank : Worker → ℕ
rank waiting = 2
rank looping = 1
rank ended = 0

-- The alerts that it takes at most.
abbrev pub spare : Worker → ℕ
spare waiting = 1
spare _ = 0

abbrev pub is_own : Event → ℕ
is_own tested = 1
is_own took = 1
is_own _ = 0

abbrev pub own_steps : List Event → ℕ
own_steps [] = 0
own_steps (e ∷ rest) = is_own e + own_steps rest

-- The step that the worker takes from its place.
abbrev pub own_step : Worker → Event
own_step looping = tested
own_step _ = took

-- The alerts that the worker took.
module _ ⦃z : TimeZone⦄ ⦃api : Api⦄ where
  abbrev pub taken_all : List Event → System → List AlertEvents
  taken_all [] s = []
  taken_all (e ∷ rest) s = taken e s ++ taken_all rest (handle e s)

-- A stopped program whose worker waits has something in its queue.
abbrev pub IsAwake : System → Type 0
IsAwake s = s.app.running ≡ false → s.worker ≡ waiting → s.app.alert_queue.items ≢ []

grown-not_nil : (items more : List AlertEvents) → items ≢ [] → items ++ more ≢ []
grown-not_nil [] more n e = n refl
grown-not_nil (a ∷ items) more n e = ground arith

not_waiting : (running : Bool) → running ≡ false → after_test running ≢ waiting
not_waiting running r w = ground arith

low-not_waiting : (w : Worker) → rank w ≤ 1 → w ≢ waiting
low-not_waiting waiting h e = omega arith
low-not_waiting looping h e = ground arith
low-not_waiting ended h e = ground arith

length-first : (items : List AlertEvents) → length (first items) + 0 ≤ 1
length-first [] = ground arith
length-first (a ∷ items) = ground arith

stop-queue :
    (app : Application) (m : MqttService)
    → (stop app m).0.alert_queue.items
      ≡ app.alert_queue.items ++ (if app.running then sentinel ∷ [] else [])
unfolding stop push
stop-queue app m = ground (arith, append-nil app.alert_queue.items)

stopped-not_nil :
    (items : List AlertEvents) (running : Bool)
    → (running ≡ false → items ≢ [])
    → items ++ (if running then sentinel ∷ [] else []) ≢ []
stopped-not_nil [] true n = λ e. ground arith
stopped-not_nil [] false n = absurd (n refl refl)
stopped-not_nil (a ∷ items) running n = λ e. ground arith

module _ ⦃z : TimeZone⦄ ⦃api : Api⦄ where
  process-place :
      (cm : ConfigManager) (items : List AlertEvents) (app : Application)
      → app.alert_queue.items ≡ items
      → items ≢ []
      → let (after, place) = process cm (pop app.alert_queue) app in
        (rank place ≤ 1) × (spare place ≡ 0) × (after.running ≡ app.running)
  unfolding process pop
  process-place cm [] app q n = absurd (n refl)
  process-place cm (a ∷ rest) app q n = rw q (ground arith)

  handle-running :
      (e : Event) (s : System)
      → IsEnabled e s
      → s.app.running ≡ false
      → (handle e s).app.running ≡ false
  unfolding handle
  handle-running (called c) s i r = call-running s.cm c s.app ∙ r
  handle-running (polled p) s i r = r
  handle-running (configured cm) s i r = r
  handle-running (graphite_done e) s i r = r
  handle-running stopped s i r = unfold stop in ground arith
  handle-running tested s i r = r
  handle-running took s i r = (process-place s.cm _ s.app refl i.1).2 ∙ r

  handle-IsAwake : (e : Event) (s : System) → IsEnabled e s → IsAwake s → IsAwake (handle e s)
  unfolding handle
  handle-IsAwake (called c) s i a r w =
      rw (call-queue s.cm c s.app) (grown-not_nil _ _ (a (sym (call-running s.cm c s.app) ∙ r) w))
  handle-IsAwake (polled p) s i a r w = a r w
  handle-IsAwake (configured cm) s i a r w = a r w
  handle-IsAwake (graphite_done e) s i a r w = a r w
  handle-IsAwake stopped s i a r w = rw stop-queue (stopped-not_nil _ s.app.running (λ no. a no w))
  handle-IsAwake tested s i a r w = absurd (not_waiting s.app.running r w)
  handle-IsAwake took s i a r w =
      absurd (low-not_waiting _ (process-place s.cm _ s.app refl i.1).0 w)

  moves :
      (w : Worker) (s : System)
      → s.worker ≡ w
      → w ≢ ended
      → s.app.running ≡ false
      → IsAwake s
      → IsEnabled (own_step w) s
  moves looping s e n r a = e
  moves waiting s e n r a = (e, a r e)
  moves ended s e n r a = absurd (n refl)

  Reach-IsAwake :
      (rs ts : List AlertEvents) (os : List (ℕ × String)) (s : System)
      → Reach rs ts os s
      → IsAwake s
  unfolding begin
  Reach-IsAwake rs ts os s (started cm exit e) = rw e (λ n v q. absurd (ground arith))
  Reach-IsAwake rs ts os s (next e r enabled _ _ _ _ f g h k) =
      rw k (handle-IsAwake e _ enabled (Reach-IsAwake _ _ _ _ r))

  -- After stop() the worker is never stuck: as long as it has not ended, the step that it takes
  -- from its place is possible, whatever the other threads have done.
  pub Reach-moves :
      (rs ts : List AlertEvents) (os : List (ℕ × String)) (s : System)
      → Reach rs ts os s
      → s.app.running ≡ false
      → s.worker ≢ ended
      → IsEnabled (own_step s.worker) s
  Reach-moves rs ts os s r n w = moves s.worker s refl w n (Reach-IsAwake rs ts os s r)

  handle-rank :
      (e : Event) (s : System)
      → IsEnabled e s
      → s.app.running ≡ false
      → (rank (handle e s).worker + is_own e ≤ rank s.worker)
        × (length (taken e s) + spare (handle e s).worker ≤ spare s.worker)
  unfolding handle
  handle-rank (called c) s i n = (ground arith, ground arith)
  handle-rank (polled p) s i n = (ground arith, ground arith)
  handle-rank (configured cm) s i n = (ground arith, ground arith)
  handle-rank (graphite_done e) s i n = (ground arith, ground arith)
  handle-rank stopped s i n = (ground arith, ground arith)
  handle-rank tested s i n = rw (i, n) (ground arith)
  handle-rank took s i n =
      let place = process-place s.cm _ s.app refl i.1 in
      rw (i.0, place.1) (omega arith, length-first s.app.alert_queue.items)

  -- Once the program has stopped, the worker takes at most two more steps, one if it is at the
  -- test of its loop, whatever the other threads do, and at most one more alert.
  pub stopped-bounds :
      (es : List Event) (s : System)
      → s.app.running ≡ false
      → AllEnabled es s
      → (rank (handle_all es s).worker + own_steps es ≤ rank s.worker)
        × (length (taken_all es s) ≤ spare s.worker)
  stopped-bounds [] s n a = (ground arith, ground arith)
  stopped-bounds (e ∷ es) s n a =
      let now = handle-rank e s a.0 n in
      let later = stopped-bounds es (handle e s) (handle-running e s a.0 n) a.1 in
      (omega arith, rw length-append (omega arith))
