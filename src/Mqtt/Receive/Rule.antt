-- ===== src/Mqtt/Receive/Rule.antt =====
-- What the handler of _recieveLoop in src/mqttService.cpp can do to the service.
use mqtt_sentry.Base.{
  String, ◌≡◌, refl, Option, none, some, List, [], ◌∷◌, ◌==◌, string_eq, Outcome, ok, throw,
  undefined, get_elem?, if_rule, Exception,
}
use mqtt_sentry.Json.{JsonLib}
use mqtt_sentry.Settings.{ConfigManager}
use mqtt_sentry.Utils.{split}
use mqtt_sentry.Watchdog.{TopicWatchdog, pet}
use mqtt_sentry.Mqtt.{MqttService, Callbacks}
use mqtt_sentry.Mqtt.Subscribe.{subscribe_to_topics, watchdog_callback}
use mqtt_sentry.Mqtt.Receive.{
  Next, ReceiveError, success, operation_aborted, session_expired, other_error, find_watchdog,
  put_watchdog, dispatch, route, on_message, receive, pet_watchdog, resubscribed,
}

module _ ⦃J : JsonLib⦄ {S : Type 0} (cm : ConfigManager) (callbacks : Callbacks S)
    (P : MqttService → Type 0) (m : MqttService) (s : S) (same : P m)
    (petted : (id : String) (w : TopicWatchdog)
      → find_watchdog id m.watchdogs ≡ some w
      → P (record m {
        watchdogs =
            put_watchdog id
              (pet (watchdog_callback cm callbacks w.hmi_id) cm.logic (w, s)).0
              m.watchdogs;
      })) where
  dispatch-rule :
      (id theme payload : String) (w : TopicWatchdog)
      → find_watchdog id m.watchdogs ≡ some w
      → P (dispatch cm callbacks id theme payload w (m, s)).0
  unfolding dispatch pet_watchdog
  dispatch-rule id theme payload w f =
      let Q = λ (r : MqttService × S × Next). P r.0 in
      if_rule Q (theme == "state") (petted id w f) (
        if_rule Q (theme == "time_light_ECO") same (
          if_rule Q (theme == "in_not_fil") same (
            if_rule Q (theme == "in_filter") same
              (if_rule Q (theme == "out") same (if_rule Q (theme == "alarm_kod") same same)))))

  route-rule :
      (id theme payload : String) (found : Option TopicWatchdog)
      → find_watchdog id m.watchdogs ≡ found
      → P (route cm callbacks id theme payload found (m, s)).0
  unfolding route
  route-rule id theme payload none f = same
  route-rule id theme payload (some w) f = dispatch-rule id theme payload w f

  on_message-rule :
      (full_topic payload : String) → P (on_message cm callbacks full_topic payload (m, s)).0
  unfolding on_message
  on_message-rule full_topic payload = go (split "/" full_topic)
    where
      go :
          (topics : List String)
          → P
              (elim (get_elem? topics 1) as (λ o. MqttService × S × Next) [
                | none ↦ (m, s, Next.escaped Exception.out_of_range)
                | some id ↦ elim (get_elem? topics 2) [
                  | none ↦ (m, s, Next.escaped Exception.out_of_range)
                  | some theme ↦
                      route cm callbacks id theme payload (find_watchdog id m.watchdogs) (m, s)
                ]
              ]).0
      go [] = same
      go (x ∷ []) = same
      go (x ∷ id ∷ []) = same
      go (x ∷ id ∷ theme ∷ rest) = route-rule id theme payload _ refl

  resubscribed-rule :
      (topics : Outcome (List String)) (m' : MqttService)
      → P m'
      → P (resubscribed cm callbacks (m', topics) s).0
  unfolding resubscribed
  resubscribed-rule (ok topics) m' p = p
  resubscribed-rule (throw e) m' p = p
  resubscribed-rule undefined m' p = p

  -- The handler leaves the service as it was, or resets the watchdog that it has found, or
  -- subscribes again.
  pub receive-rule :
      (ec : ReceiveError) (full_topic payload : String)
      → P (subscribe_to_topics cm m).0
      → P (receive cm callbacks ec full_topic payload (m, s)).0
  unfolding receive
  receive-rule success full_topic payload p = on_message-rule full_topic payload
  receive-rule operation_aborted full_topic payload p = same
  receive-rule session_expired full_topic payload p = resubscribed-rule _ _ p
  receive-rule other_error full_topic payload p = same
