-- ===== src/Mqtt/Receive/State.antt =====
-- A message with the state of a machine in the handler of _recieveLoop in src/mqttService.cpp.
use mqtt_sentry.Base.{
  String, ◌≡◌, ap, ◌∙◌, get_elem?, out_of_range, none, some, List, ◌∷◌, ok, ◌>>=◌,
}
use mqtt_sentry.Json.{JsonLib}
use mqtt_sentry.Settings.{ConfigManager}
use mqtt_sentry.Types.Messages.{MachineState, machine_state_from_json}
use mqtt_sentry.Utils.{split}
use mqtt_sentry.Watchdog.{TopicWatchdog, pet}
use mqtt_sentry.Mqtt.{MqttService, Callbacks}
use mqtt_sentry.Mqtt.Subscribe.{watchdog_callback}
use mqtt_sentry.Mqtt.Receive.{
  Next, receive_again, find_watchdog, put_watchdog, dispatch, route, escaped, on_message,
}

module _ ⦃J : JsonLib⦄ {S : Type 0} (cm : ConfigManager) (callbacks : Callbacks S) where
  on_message-dispatch :
      (full_topic payload first id theme : String) (rest : List String) (w : TopicWatchdog)
      (m : MqttService) (s : S)
      → split "/" full_topic ≡ first ∷ id ∷ theme ∷ rest
      → find_watchdog id m.watchdogs ≡ some w
      → on_message cm callbacks full_topic payload (m, s)
        ≡ dispatch cm callbacks id theme payload w (m, s)
  unfolding on_message route
  on_message-dispatch full_topic payload first id theme rest w m s t f =
      ap handled t ∙ ap (λ found. route cm callbacks id theme payload found (m, s)) f
    where
      handled : List String → MqttService × S × Next
      handled topics = elim (get_elem? topics 1) [
        | none ↦ (m, s, escaped out_of_range)
        | some id ↦ elim (get_elem? topics 2) [
          | none ↦ (m, s, escaped out_of_range)
          | some theme ↦ route cm callbacks id theme payload (find_watchdog id m.watchdogs) (m, s)
        ]
      ]

  -- The watchdog is reset, and the message handed on.
  pub on_message_state :
      (full_topic payload first id : String) (rest : List String) (w : TopicWatchdog)
      (ms : MachineState) (m : MqttService) (s : S)
      → split "/" full_topic ≡ first ∷ id ∷ "state" ∷ rest
      → find_watchdog id m.watchdogs ≡ some w
      → (do j ← J.parse payload; machine_state_from_json j) ≡ ok ms
      → on_message cm callbacks full_topic payload (m, s) ≡ (
          let (w', s') = pet (watchdog_callback cm callbacks w.hmi_id) cm.logic (w, s) in
          (
            record m { watchdogs = put_watchdog id w' m.watchdogs },
            callbacks.on_ms id ms s',
            receive_again,
          ))
  unfolding dispatch
  on_message_state full_topic payload first id rest w ms m s t f p =
      rw (on_message-dispatch full_topic payload first id "state" rest w m s t f, p)
