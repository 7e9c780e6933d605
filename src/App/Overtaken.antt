-- ===== src/App/Overtaken.antt =====
-- A message of a machine that comes when the wait of its watchdog in src/topicWatchdog.cpp has just
-- ended, to the queue of the worker in src/application.cpp.
use mqtt_sentry.Base.{
  ◌<◌, String, ◌≡◌, refl, Bool-cases, inl, inr, true, false, not, Option, none, some, [], ◌∷◌, ◌++◌,
  arith, string_eq, eq_iff, if◌then◌else◌, ltb,
}
use mqtt_sentry.Utils.{TimeZone}
use mathlib.Core.List.{append_assoc, append-nil}
use mqtt_sentry.Types as Alert
use mqtt_sentry.Types.{AlertEvents, state_beq_iff}
use mqtt_sentry.Types.ThreadSafeQueue.{push}
use mqtt_sentry.Types.ThreadSafeMap.{get}
use mqtt_sentry.Settings.{ConfigManager, Logic}
use mqtt_sentry.Tg.{Api}
use mqtt_sentry.Watchdog.{
  TopicWatchdog, WatchdogEvents, online, offline, pet, on_timeout, run_overtaken,
}
use mqtt_sentry.Mqtt.Subscribe.{watchdog_alert, watchdog_callback}
use mqtt_sentry.App.Alerts.{on_alert-map}
use mqtt_sentry.App.{Application, is_news, on_alert, callbacks}

on_alert-news :
    (a : AlertEvents) (app : Application)
    → is_news (get a.machine_id app.alert_map) a ≡ true
    → (on_alert a app).alert_queue.items ≡ app.alert_queue.items ++ a ∷ []
unfolding on_alert push
on_alert-news a app news = rw news refl

is_news-back :
    (back off : AlertEvents) (last : Option AlertEvents)
    → back.state ≡ Alert.online
    → off.state ≡ Alert.offline
    → is_news last off ≡ false
    → is_news last back ≡ true
unfolding is_news
is_news-back back off none b o old = refl
is_news-back back off (some last) b o old =
    ground (arith, state_beq_iff last.state off.state, state_beq_iff last.state back.state)

-- The machine was offline, which is no news; then it is back, and offline again.
on_alert-twice :
    (back off : AlertEvents) (app : Application)
    → back.machine_id ≡ off.machine_id
    → back.state ≡ Alert.online
    → off.state ≡ Alert.offline
    → is_news (get off.machine_id app.alert_map) off ≡ false
    → (on_alert off (on_alert back app)).alert_queue.items
      ≡ app.alert_queue.items ++ back ∷ [] ++ off ∷ []
unfolding is_news
on_alert-twice back off app same b o old =
    let news : is_news (get back.machine_id app.alert_map) back ≡ true =
      is_news-back back off _ b o (rw same old) in
    let again : is_news (get off.machine_id (on_alert back app).alert_map) off ≡ true = ground (
      arith,
      on_alert-map back app off.machine_id,
      same,
      b,
      o,
      eq_iff off.machine_id off.machine_id,
    ) in
    rw (on_alert-news off (on_alert back app) again, on_alert-news back app news, append_assoc) refl

pet-overtaken :
    {S : Type 0} (callback : WatchdogEvents → S → S) (logic : Logic) (w : TopicWatchdog) (s : S)
    → 0 < logic.timeout_limit
    → run_overtaken callback logic true (pet callback logic (w, s)) ≡ (
      record w { timeouts = 1; timer = some logic.timeout },
      callback offline (if ltb 0 w.timeouts then callback online s else s),
    )
unfolding run_overtaken pet on_timeout
pet-overtaken callback logic w s p =
    let below : ltb 0 logic.timeout_limit ≡ true = ground arith in rw below refl

module _ ⦃z : TimeZone⦄ ⦃api : Api⦄ (cm : ConfigManager) (id : String) where
  -- With a limit of at least one and the broker there: if the last alert of a machine is that it
  -- is offline exactly while its watchdog has counted a timeout, and a message of the machine
  -- comes between the end of the wait and its handler, then the queue of the worker gets the alert
  -- that the machine is back, if it was offline, and after it the alert that it is offline; the
  -- watchdog has counted one timeout, although the message has just come.
  pub overtaken_false_alarm :
      (w : TopicWatchdog) (app : Application)
      → 0 < cm.logic.timeout_limit
      → is_news
          (get (watchdog_alert cm id offline).machine_id app.alert_map)
          (watchdog_alert cm id offline)
        ≡ not (ltb 0 w.timeouts)
      → let callback = watchdog_callback cm (callbacks cm) id in
        let (w', app') = run_overtaken callback cm.logic true (pet callback cm.logic (w, app)) in
        (w'.timeouts ≡ 1)
        × (app'.alert_queue.items
            ≡ app.alert_queue.items
              ++ (if ltb 0 w.timeouts then watchdog_alert cm id online ∷ [] else [])
              ++ watchdog_alert cm id offline ∷ [])
  unfolding run_overtaken pet watchdog_callback callbacks
  overtaken_false_alarm w app p h =
      let back = watchdog_alert cm id online in
      let off = watchdog_alert cm id offline in
      rw (pet-overtaken (watchdog_callback cm (callbacks cm) id) cm.logic w app p)
        (elim (Bool-cases (ltb 0 w.timeouts)) [
          | inl some_counted ↦
              rw some_counted
                (refl, on_alert-twice back off app refl refl refl (rw some_counted at h))
          | inr none_counted ↦
              rw none_counted (refl, rw append-nil (on_alert-news off app (rw none_counted at h)))
        ])
