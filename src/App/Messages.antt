-- ===== src/App/Messages.antt =====
-- What the MQTT service of src/mqttService.cpp tells the application of src/application.cpp: each
-- event of its event loop means calls of the callbacks.
pub mod Calls
use mqtt_sentry.Base.{
  ◌>>=◌, String, Bool, false, ◌&&◌, none, some, List, [], ◌∷◌, ◌++◌, ◌==◌, nat_eq, string_eq, ltb,
  if◌then◌else◌, Outcome, ok, throw, out_of_range, get_elem?, contains, ◌<>◌, to_string,
}
use mqtt_sentry.Json.{JsonLib}
use mqtt_sentry.Types as Alert
use mqtt_sentry.Types.Messages.{
  MachineAlarmKod, machine_state_from_json, light_from_json, in_not_filter_from_json,
  in_filter_from_json, out_from_json, alarm_from_json,
}
use mqtt_sentry.Settings.{ConfigManager, resolve_hmi_name}
use mqtt_sentry.Utils.{TimeZone, split}
use mqtt_sentry.Tg.{Api}
use mqtt_sentry.Watchdog.{TopicWatchdog, online, offline}
use mqtt_sentry.Mqtt.Subscribe.{watchdog_alert}
use mqtt_sentry.Mqtt.Ping.{differ}
use mqtt_sentry.Mqtt.Ping.Connection.{published, response_timer}
use mqtt_sentry.Mqtt.Receive.{find_watchdog, success}
use mqtt_sentry.Mqtt.Receive.Alarm.{alarm_alert}
use mqtt_sentry.Mqtt.System.{Event, received, timed_out, pinged, System, handle}
use mqtt_sentry.App.{Application, callbacks}
use mqtt_sentry.App.Threads.{
  Callback, alerted, state_came, in_came, in_filter_came, out_came, light_came, alarm_came,
  connected, disconnected, call,
}

-- A message that can be read is handed on, and one that cannot is not.
abbrev pub read_as : {A : Type 0} → (A → Callback) → Outcome A → List Callback
read_as came (ok message) = came message ∷ []
read_as came _ = []

-- A code that is not disabled raises an alert besides its metrics.
abbrev pub alarm_calls : ConfigManager → String → Outcome MachineAlarmKod → List Callback
alarm_calls cm id (ok mk) =
    alarm_came id mk
    ∷ (if contains mk.alarm_kod cm.logic.disabled_codes
        then []
        else alerted (alarm_alert cm id mk) ∷ [])
alarm_calls cm id (throw out_of_range) =
    alerted (record {
      state = Alert.error;
      machine_id = resolve_hmi_name cm id;
      message = "Unknown error with code " <> to_string 0;
      timestamp = "unknown";
    })
    ∷ []
alarm_calls cm id _ = []

-- A machine that was silent is back.
abbrev pub back_calls : ConfigManager → TopicWatchdog → List Callback
back_calls cm w = if ltb 0 w.timeouts then alerted (watchdog_alert cm w.hmi_id online) ∷ [] else []

-- A machine is silent, and the broker can be reached.
abbrev pub silent_calls : ConfigManager → Bool → TopicWatchdog → List Callback
silent_calls cm reachable w = elim w.timer [
  | none ↦ []
  | some _ ↦
      if reachable && ltb w.timeouts cm.logic.timeout_limit
      then alerted (watchdog_alert cm w.hmi_id offline) ∷ []
      else []
]

module _ ⦃J : JsonLib⦄ (cm : ConfigManager) where
  abbrev pub theme_calls : String → String → String → TopicWatchdog → List Callback
  theme_calls id theme payload w =
      if theme == "state"
      then back_calls cm w
        ++ read_as (state_came id) (do j ← J.parse payload; machine_state_from_json j)
      else if theme == "time_light_ECO"
      then read_as (light_came id) (do j ← J.parse payload; light_from_json j)
      else if theme == "in_not_fil"
      then read_as (in_came id) (do j ← J.parse payload; in_not_filter_from_json j)
      else if theme == "in_filter"
      then read_as (in_filter_came id) (do j ← J.parse payload; in_filter_from_json j)
      else if theme == "out"
      then read_as (out_came id) (do j ← J.parse payload; out_from_json j)
      else if theme == "alarm_kod"
      then alarm_calls cm id (do j ← J.parse payload; alarm_from_json j)
      else []

  -- The message of a machine that has a watchdog.
  abbrev pub message_calls : List String → String → List TopicWatchdog → List Callback
  message_calls (first ∷ id ∷ theme ∷ rest) payload ws = elim (find_watchdog id ws) [
    | none ↦ []
    | some w ↦ theme_calls id theme payload w
  ]
  message_calls _ payload ws = []

  -- A change of the connection to the broker.
  abbrev pub broker_calls : Bool → Bool → List Callback
  broker_calls old new =
      if differ new old then (if new then connected ∷ [] else disconnected ∷ []) else []

  module _ {S : Type 0} where
    abbrev pub event_calls : Event → System S → List Callback
    event_calls (received success full_topic payload) s =
        message_calls (split "/" full_topic) payload s.mqtt.watchdogs
    event_calls (timed_out i) s = elim (get_elem? s.mqtt.watchdogs i) [
      | none ↦ []
      | some w ↦ silent_calls cm s.mqtt.is_connected w
    ]
    event_calls (pinged (published reached)) s = broker_calls s.mqtt.is_connected reached
    event_calls (pinged (response_timer how)) s =
        if s.mqtt.is_waiting_for_response then broker_calls s.mqtt.is_connected false else []
    event_calls _ s = []

module _ ⦃z : TimeZone⦄ ⦃api : Api⦄ where
  abbrev pub calls : ConfigManager → List Callback → Application → Application
  calls cm [] app = app
  calls cm (c ∷ cs) app = calls cm cs (call cm c app)

module _ ⦃J : JsonLib⦄ ⦃z : TimeZone⦄ ⦃api : Api⦄ (cm : ConfigManager) where
  abbrev pub all_calls : List Event → System Application → List Callback
  all_calls [] s = []
  all_calls (e ∷ es) s = event_calls cm e s ++ all_calls es (handle cm (callbacks cm) e s)
