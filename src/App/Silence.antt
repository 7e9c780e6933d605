-- ===== src/App/Silence.antt =====
-- A silent machine, from its watchdog in src/topicWatchdog.cpp to the queue of the worker in
-- src/application.cpp.
use Prim.Native.Nat.{min}
use mqtt_sentry.Base.{
  refl, ℕ, zero, suc, ◌+◌, ◌-◌, ◌<◌, ◌^◌, String, ◌≡◌, some, List, [], ◌∷◌, ◌++◌, arith, string_eq,
  eq_iff, if◌then◌else◌,
}
use mathlib.Core.List.{append-nil}
use mqtt_sentry.Utils.{TimeZone}
use mqtt_sentry.Types.{AlertEvents, state_beq_iff}
use mqtt_sentry.Types.ThreadSafeQueue.{push}
use mqtt_sentry.Types.ThreadSafeMap.{get, get-set}
use mqtt_sentry.Settings.{ConfigManager}
use mqtt_sentry.Tg.{Api}
use mqtt_sentry.Watchdog.{TopicWatchdog, offline, pet}
use mqtt_sentry.Mqtt.Topics.{waiting}
use mqtt_sentry.Watchdog.Silence.{iterate, expire_times, expire_times_lem}
use mqtt_sentry.Mqtt.Subscribe.{watchdog_alert, watchdog_callback}
use mqtt_sentry.Json.{JsonLib}
use mqtt_sentry.Mqtt.{MqttService}
use mqtt_sentry.Mqtt.Receive.{find_watchdog, receive, session_expired}
use mqtt_sentry.Mqtt.Receive.Resubscribe.{session_expired-IsNew}
use mqtt_sentry.App.{Application, is_news, on_alert, callbacks}

-- The alert is the last one of its machine.
record IsLast (a : AlertEvents) (items : List AlertEvents) (app : Application) : Type 0 where
  pub last : get a.machine_id app.alert_map ≡ some a
  pub queue : app.alert_queue.items ≡ items

on_alert-first :
    (a : AlertEvents) (app : Application)
    → IsLast a
        (app.alert_queue.items
          ++ (if is_news (get a.machine_id app.alert_map) a then a ∷ [] else []))
        (on_alert a app)
unfolding on_alert push
on_alert-first a app = ground (
  arith,
  get-set a.machine_id a.machine_id a app.alert_map,
  eq_iff a.machine_id a.machine_id,
  append-nil app.alert_queue.items,
)

on_alert-next :
    (a : AlertEvents) (items : List AlertEvents) (app : Application)
    → IsLast a items app
    → IsLast a items (on_alert a app)
unfolding on_alert is_news
on_alert-next a items app v = ground (
  arith,
  get-set a.machine_id a.machine_id a app.alert_map,
  eq_iff a.machine_id a.machine_id,
  state_beq_iff a.state a.state,
)

iterate-on_alert :
    (k : ℕ) (a : AlertEvents) (app : Application)
    → IsLast a
        (app.alert_queue.items
          ++ (if is_news (get a.machine_id app.alert_map) a then a ∷ [] else []))
        (iterate (suc k) (on_alert a) app)
unfolding iterate
iterate-on_alert zero a app = on_alert-first a app
iterate-on_alert (suc k) a app = on_alert-next a _ _ (iterate-on_alert k a app)

-- The last alert of the machine has the same state.
record IsKnown (a : AlertEvents) (items : List AlertEvents) (app : Application) : Type 0 where
  pub last : AlertEvents
  pub known : get a.machine_id app.alert_map ≡ some last
  pub same : last.state ≡ a.state
  pub queue : app.alert_queue.items ≡ items

on_alert-IsKnown :
    (a : AlertEvents) (items : List AlertEvents) (app : Application)
    → IsKnown a items app
    → IsKnown a items (on_alert a app)
unfolding on_alert is_news
on_alert-IsKnown a items app v = record {
  last = a;
  known =
      ground (
        arith,
        get-set a.machine_id a.machine_id a app.alert_map,
        eq_iff a.machine_id a.machine_id,
      );
  same = refl;
  queue = ground (arith, v.known, v.same, v.queue, state_beq_iff v.last.state a.state);
}

iterate-IsKnown :
    (k : ℕ) (a : AlertEvents) (items : List AlertEvents) (app : Application)
    → IsKnown a items app
    → IsKnown a items (iterate k (on_alert a) app)
unfolding iterate
iterate-IsKnown zero a items app v = v
iterate-IsKnown (suc k) a items app v = on_alert-IsKnown a items _ (iterate-IsKnown k a items app v)

module _ ⦃z : TimeZone⦄ ⦃api : Api⦄ (cm : ConfigManager) (id : String) where
  abbrev pub offline_alert : AlertEvents
  offline_alert = watchdog_alert cm id offline

  -- However many timeouts of a machine pass at a watchdog that has just been set, with a limit of
  -- at least one and below 2^32 - 1, the queue of the worker grows by at most one alert that it is
  -- offline, and by none if that was the last alert of the machine.
  pub offline_told_once :
      (n : ℕ) (w : TopicWatchdog) (app : Application)
      → 0 < n
      → 0 < cm.logic.timeout_limit
      → cm.logic.timeout_limit + 1 < 2 ^ 32
      → w.timeouts ≡ 0
      → w.timer ≡ some cm.logic.timeout
      → (expire_times
          (watchdog_callback cm (callbacks cm) id)
          cm.logic
          n
          (w, app)).1.alert_queue.items
        ≡ app.alert_queue.items
          ++ (if is_news (get offline_alert.machine_id app.alert_map) offline_alert
              then offline_alert ∷ []
              else [])
  unfolding watchdog_callback callbacks
  offline_told_once n w app some_time p h t r =
      let reports = min n cm.logic.timeout_limit in
      let some_report : reports ≡ suc (reports - 1) = ground arith in
      rw (expire_times_lem (watchdog_callback cm (callbacks cm) id) cm.logic n w app h t r)
        (rw some_report (iterate-on_alert (reports - 1) offline_alert app).queue)

module _ ⦃J : JsonLib⦄ ⦃z : TimeZone⦄ ⦃api : Api⦄ (cm : ConfigManager) (id : String) where
  -- With a limit below 2^32 - 1, a machine whose last alert is that it is offline, and that has a
  -- watchdog after the handler of an expired session has run: when it comes back the application
  -- is not told, and however many timeouts then pass, the queue of the worker stays as it is.
  pub resubscribed_untold :
      (n : ℕ) (full_topic payload : String) (w : TopicWatchdog) (last : AlertEvents)
      (m : MqttService) (app : Application)
      → cm.logic.timeout_limit + 1 < 2 ^ 32
      → find_watchdog id
          (receive cm (callbacks cm) session_expired full_topic payload (m, app)).0.watchdogs
        ≡ some w
      → get (offline_alert cm id).machine_id app.alert_map ≡ some last
      → last.state ≡ (offline_alert cm id).state
      → let callback = watchdog_callback cm (callbacks cm) id in
        let (_, app', _) = receive cm (callbacks cm) session_expired full_topic payload (m, app) in
        let back = pet callback cm.logic (w, app') in
        (back.1 ≡ app)
        × ((expire_times callback cm.logic n back).1.alert_queue.items ≡ app.alert_queue.items)
  unfolding pet watchdog_callback callbacks
  resubscribed_untold n full_topic payload w last m app h f l e =
      let callback = watchdog_callback cm (callbacks cm) id in
      let known : IsKnown (offline_alert cm id) app.alert_queue.items app = record {
        last = last;
        known = l;
        same = e;
        queue = refl;
      } in
      let (new, untold) = session_expired-IsNew cm (callbacks cm) full_topic payload id w m app f in
      rw (new, untold)
        (
          refl,
          rw (expire_times_lem callback cm.logic n (waiting cm id) app h refl refl)
              (iterate-IsKnown (min n cm.logic.timeout_limit) (offline_alert cm id) _ app
                known).queue,
        )
