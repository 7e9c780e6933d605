-- ===== src/Mqtt/Receive.antt =====
-- The handler of _recieveLoop in src/mqttService.cpp.
pub mod Loop
pub mod Alarm
pub mod Rule
pub mod State
pub mod Resubscribe
use mqtt_sentry.Base.{
  String, not, Option, none, some, List, [], ◌∷◌, ◌==◌, nat_eq, string_eq, if◌then◌else◌, ◌<>◌,
  to_string, Exception, out_of_range, Outcome, ok, throw, undefined, ◌>>=◌, get_elem?, contains,
  lookup,
}
use mqtt_sentry.Json.{JsonLib}
use mqtt_sentry.Types.{fine, error}
use mqtt_sentry.Types.Messages.{
  MachineAlarmKod, machine_state_from_json, light_from_json, in_not_filter_from_json,
  in_filter_from_json, out_from_json, alarm_from_json,
}
use mqtt_sentry.Settings.{ConfigManager, resolve_hmi_name}
use mqtt_sentry.Utils.{split}
use mqtt_sentry.Watchdog.{TopicWatchdog, pet}
use mqtt_sentry.Mqtt.{MqttService, Callbacks}
use mqtt_sentry.Mqtt.Subscribe.{watchdog_callback, subscribe_to_topics}

-- The error code that the client hands to the handler.
pub data ReceiveError : Type 0 where
  success operation_aborted session_expired other_error : ReceiveError

-- What the handler leaves behind: a new receive, a wait of ten seconds before one, nothing, an
-- exception that leaves the handler, or undefined behaviour.
pub data Next : Type 0 where
  receive_again retry_in_10s finished crashed : Next
  escaped : Exception → Next

-- The loop that looks for the watchdog of a machine.
unfoldable pub find_watchdog : String → List TopicWatchdog → Option TopicWatchdog
find_watchdog id [] = none
find_watchdog id (w ∷ ws) = if w.hmi_id == id then some w else find_watchdog id ws

-- The watchdog that was found is shared: a change of it is one of the list.
unfoldable pub put_watchdog : String → TopicWatchdog → List TopicWatchdog → List TopicWatchdog
put_watchdog id new [] = []
put_watchdog id new (w ∷ ws) = if w.hmi_id == id then new ∷ ws else w ∷ put_watchdog id new ws

module _ {S : Type 0} (cm : ConfigManager) (callbacks : Callbacks S) where
  -- try { T message = parse(payload); callback(message); } catch (const std::exception&) { log }
  unfoldable pub deliver : {A : Type 0} → (A → S → S) → Outcome A → S → S × Next
  deliver callback (ok message) s = (callback message s, receive_again)
  deliver callback (throw e) s = (s, receive_again)
  deliver callback undefined s = (s, crashed)

  -- The handler of std::out_of_range.
  unknown_code : String → MachineAlarmKod → S → S
  unknown_code id mk s =
      callbacks.on_alert
        (record {
          state = error;
          machine_id = resolve_hmi_name cm id;
          message = "Unknown error with code " <> to_string mk.alarm_kod;
          timestamp = mk.ts;
        })
        s

  -- The alert of a code that is not disabled.
  unfoldable pub code_alert : String → MachineAlarmKod → S → S
  unfolding unknown_code
  code_alert id mk s = elim (lookup mk.alarm_kod cm.logic.code) [
    | some des ↦
        callbacks.on_alert
          (record {
            state = if mk.alarm_kod == 0 then fine else error;
            machine_id = resolve_hmi_name cm id;
            message = des;
            timestamp = mk.ts;
          })
          s
    | none ↦ unknown_code id mk s
  ]

  unfoldable pub deliver_alarm : String → Outcome MachineAlarmKod → S → S × Next
  unfolding code_alert
  deliver_alarm id (ok mk) s =
      let s' = callbacks.on_malarm id mk s in
      (
        (if not (contains mk.alarm_kod cm.logic.disabled_codes) then code_alert id mk s' else s'),
        receive_again,
      )
  deliver_alarm id (throw out_of_range) s =
      (unknown_code id (record { alarm_kod = 0; ts = "unknown" }) s, receive_again)
  deliver_alarm id (throw e) s = (s, receive_again)
  deliver_alarm id undefined s = (s, crashed)

  -- watchdog->pet()
  unfoldable pub pet_watchdog : String → TopicWatchdog → MqttService × S → MqttService × S
  pet_watchdog id watchdog (m, s) =
      let (watchdog', s') =
        pet (watchdog_callback cm callbacks watchdog.hmi_id) cm.logic (watchdog, s) in
      (record m { watchdogs = put_watchdog id watchdog' m.watchdogs }, s')

module _ ⦃J : JsonLib⦄ {S : Type 0} (cm : ConfigManager) (callbacks : Callbacks S) where
  in_state : MqttService × S → (S → S × Next) → MqttService × S × Next
  in_state (m, s) handler = let (s', next) = handler s in (m, s', next)

  -- The branches on the theme.
  unfoldable pub dispatch :
      String → String → String → TopicWatchdog → MqttService × S → MqttService × S × Next
  unfolding in_state deliver deliver_alarm pet_watchdog
  dispatch id theme payload watchdog ms =
      if theme == "state"
      then in_state (pet_watchdog cm callbacks id watchdog ms) (
          deliver cm callbacks (callbacks.on_ms id)
            (do j ← J.parse payload; machine_state_from_json j))
      else if theme == "time_light_ECO"
      then in_state ms (
          deliver cm callbacks (callbacks.on_mlight id) (do j ← J.parse payload; light_from_json j))
      else if theme == "in_not_fil"
      then in_state ms (
          deliver cm callbacks (callbacks.on_min id)
            (do j ← J.parse payload; in_not_filter_from_json j))
      else if theme == "in_filter"
      then in_state ms (
          deliver cm callbacks (callbacks.on_minf id)
            (do j ← J.parse payload; in_filter_from_json j))
      else if theme == "out"
      then in_state ms
          (deliver cm callbacks (callbacks.on_mout id) (do j ← J.parse payload; out_from_json j))
      else if theme == "alarm_kod"
      then in_state ms (deliver_alarm cm callbacks id (do j ← J.parse payload; alarm_from_json j))
      else in_state ms (λ s. (s, receive_again))

  -- The search for the watchdog; a message of an unregistered machine is dropped.
  unfoldable pub route :
      String → String → String → Option TopicWatchdog → MqttService × S → MqttService × S × Next
  unfolding dispatch
  route id theme payload none (m, s) = (m, s, receive_again)
  route id theme payload (some watchdog) ms = dispatch id theme payload watchdog ms

  -- topics.at(1) and topics.at(2) throw on a topic of fewer segments.
  unfoldable pub on_message : String → String → MqttService × S → MqttService × S × Next
  unfolding route find_watchdog
  on_message full_topic payload (m, s) =
      let topics = split "/" full_topic in
      elim (get_elem? topics 1) [
        | none ↦ (m, s, escaped out_of_range)
        | some id ↦ elim (get_elem? topics 2) [
          | none ↦ (m, s, escaped out_of_range)
          | some theme ↦ route id theme payload (find_watchdog id m.watchdogs) (m, s)
        ]
      ]

  -- An exception of _subscribeToTopics leaves the handler before the timer is set.
  unfoldable pub resubscribed : MqttService × Outcome (List String) → S → MqttService × S × Next
  resubscribed (m, ok topics) s = (m, s, retry_in_10s)
  resubscribed (m, throw e) s = (m, s, escaped e)
  resubscribed (m, undefined) s = (m, s, crashed)

  unfoldable pub receive : ReceiveError → String → String → MqttService × S → MqttService × S × Next
  unfolding on_message resubscribed
  receive success full_topic payload ms = on_message full_topic payload ms
  receive operation_aborted full_topic payload (m, s) = (m, s, finished)
  receive session_expired full_topic payload (m, s) = resubscribed (subscribe_to_topics cm m) s
  receive other_error full_topic payload (m, s) = (m, s, retry_in_10s)
