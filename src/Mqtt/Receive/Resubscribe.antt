-- ===== src/Mqtt/Receive/Resubscribe.antt =====
-- A session that has expired, in the handler of _recieveLoop in src/mqttService.cpp: what the new
-- subscription makes of the watchdogs.
use mqtt_sentry.Base.{
  String, ◌≡◌, ◌∙◌, ap, refl, sym, some, List, [], ◌∷◌, ◌==◌, string_eq, Outcome, ok, throw,
  undefined, All, All-append, Bool-cases, inl, inr,
}
use mqtt_sentry.Json.{JsonLib}
use mqtt_sentry.Settings.{ConfigManager}
use mqtt_sentry.Watchdog.{TopicWatchdog, create, start_timer}
use mqtt_sentry.Mqtt.{MqttService, Callbacks}
use mqtt_sentry.Mqtt.Subscribe.{topic_hmi_id, make_watchdogs, subscribe_to_topics}
use mqtt_sentry.Mqtt.Topics.{waiting}
use mqtt_sentry.Mqtt.Receive.{find_watchdog, receive, session_expired, resubscribed}
use mqtt_sentry.Mqtt.Receive.Loop.{find-hmi_id}

-- The watchdog has just been set, and has counted no timeout.
abbrev pub IsNew : ConfigManager → TopicWatchdog → Type 0
IsNew cm w = w ≡ waiting cm w.hmi_id

make_watchdogs-case :
    (cm : ConfigManager) (t : String) (ts : List String) (made : List TopicWatchdog)
    (o : Outcome String)
    → topic_hmi_id t ≡ o
    → All (IsNew cm) made
    → ((more : List TopicWatchdog)
        → All (IsNew cm) more
        → All (IsNew cm) (make_watchdogs cm ts more).0)
    → All (IsNew cm) (make_watchdogs cm (t ∷ ts) made).0
unfolding make_watchdogs create start_timer
make_watchdogs-case cm t ts made (ok id) e a ih =
    rw (make_watchdogs, e) (ih _ (All-append (IsNew cm) made (waiting cm id ∷ []) a (refl, tt)))
make_watchdogs-case cm t ts made (throw ex) e a ih = rw (make_watchdogs, e) a
make_watchdogs-case cm t ts made undefined e a ih = rw (make_watchdogs, e) a

make_watchdogs-IsNew :
    (cm : ConfigManager) (topics : List String) (made : List TopicWatchdog)
    → All (IsNew cm) made
    → All (IsNew cm) (make_watchdogs cm topics made).0
unfolding make_watchdogs
make_watchdogs-IsNew cm [] made a = a
make_watchdogs-IsNew cm (t ∷ ts) made a =
    make_watchdogs-case cm t ts made (topic_hmi_id t) refl a (make_watchdogs-IsNew cm ts)

find-IsNew :
    (cm : ConfigManager) (id : String) (ws : List TopicWatchdog) (w : TopicWatchdog)
    → All (IsNew cm) ws
    → find_watchdog id ws ≡ some w
    → IsNew cm w
unfolding find_watchdog
find-IsNew cm id [] w a f = cc
find-IsNew cm id (x ∷ ws) w a f = elim (Bool-cases (x.hmi_id == id)) [
  | inl same ↦ (let g = rw same at f in cc)
  | inr other ↦ find-IsNew cm id ws w a.1 (rw other at f)
]

module _ ⦃J : JsonLib⦄ {S : Type 0} (cm : ConfigManager) (callbacks : Callbacks S) where
  resubscribed-keeps :
      (topics : Outcome (List String)) (m : MqttService) (s : S)
      → ((resubscribed cm callbacks (m, topics) s).0 ≡ m)
        × ((resubscribed cm callbacks (m, topics) s).1 ≡ s)
  unfolding resubscribed
  resubscribed-keeps (ok topics) m s = (refl, refl)
  resubscribed-keeps (throw e) m s = (refl, refl)
  resubscribed-keeps undefined m s = (refl, refl)

  -- After the handler of an expired session a watchdog of a machine is a new one, and the
  -- application has not been told anything.
  pub session_expired-IsNew :
      (full_topic payload id : String) (w : TopicWatchdog) (m : MqttService) (s : S)
      → find_watchdog id
          (receive cm callbacks session_expired full_topic payload (m, s)).0.watchdogs
        ≡ some w
      → (w ≡ waiting cm id)
        × ((receive cm callbacks session_expired full_topic payload (m, s)).1 ≡ s)
  unfolding receive subscribe_to_topics
  session_expired-IsNew full_topic payload id w m s f =
      let (m', topics) = subscribe_to_topics cm m in
      let kept = resubscribed-keeps topics m' s in
      let there : find_watchdog id m'.watchdogs ≡ some w =
        ap (λ (m : MqttService). find_watchdog id m.watchdogs) (sym kept.0) ∙ f in
      let fresh =
        find-IsNew cm id m'.watchdogs w (make_watchdogs-IsNew cm cm.mqtt.topic [] tt) there in
      (fresh ∙ ap (waiting cm) (find-hmi_id id m'.watchdogs w there), kept.1)
