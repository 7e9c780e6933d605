-- ===== src/Mqtt/Subscribe.antt =====
-- _subscribeToTopics of src/mqttService.cpp: a watchdog for each topic.
use mqtt_sentry.Base.{
  String, List, [], ◌∷◌, ◌++◌, Outcome, ok, throw, undefined, out_of_range, or_throw, get_elem?,
}
use mqtt_sentry.Types.{AlertEvents}
use mqtt_sentry.Types as Alert
use mqtt_sentry.Settings.{ConfigManager, resolve_hmi_name}
use mqtt_sentry.Utils.{split}
use mqtt_sentry.Watchdog.{TopicWatchdog, WatchdogEvents, online, offline, create, start_timer}
use mqtt_sentry.Mqtt.{MqttService, Callbacks}
use mqtt_sentry.Mqtt.Ping.{ping_loop}

-- The alert that the callback of a watchdog hands to the application.
unfoldable pub watchdog_alert : ConfigManager → String → WatchdogEvents → AlertEvents
watchdog_alert cm hmi_id online = record {
  state = Alert.online;
  machine_id = resolve_hmi_name cm hmi_id;
  message = "<b>Зв'язок:</b> знову на зв'язку";
  timestamp = "NOW";
}
watchdog_alert cm hmi_id offline = record {
  state = Alert.offline;
  machine_id = resolve_hmi_name cm hmi_id;
  message = "<b>Зв'язок:</b> не на зв'язку";
  timestamp = "NOW";
}

-- The callback of the watchdog of a machine.
unfoldable pub watchdog_callback :
    {S : Type 0} → ConfigManager → Callbacks S → String → WatchdogEvents → S → S
unfolding watchdog_alert
watchdog_callback cm callbacks hmi_id event s =
    callbacks.on_alert (watchdog_alert cm hmi_id event) s

-- split(t, '/').at(1)
unfoldable pub topic_hmi_id : String → Outcome String
topic_hmi_id t = or_throw (get_elem? (split "/" t) 1) out_of_range

-- The loop over the topics; an exception leaves the watchdogs that were made before it.
unfoldable pub make_watchdogs :
    ConfigManager → List String → List TopicWatchdog → List TopicWatchdog × Outcome (List String)
make_watchdogs cm [] made = (made, ok [])
make_watchdogs cm (t ∷ ts) made = elim (topic_hmi_id t) [
  | ok hmi_id ↦
      let (all, topics) =
        make_watchdogs cm ts (made ++ start_timer cm.logic (create hmi_id) ∷ []) in
      (all, (elim topics [ ok rest ↦ ok (t ∷ rest) | throw e ↦ throw e | undefined ↦ undefined ]))
  | throw e ↦ (made, throw e)
  | undefined ↦ (made, undefined)
]

-- The service, and the topics that the client subscribes to. The old watchdogs are stopped.
unfoldable pub subscribe_to_topics :
    ConfigManager → MqttService → MqttService × Outcome (List String)
unfolding make_watchdogs topic_hmi_id
subscribe_to_topics cm m =
    let (watchdogs, topics) = make_watchdogs cm cm.mqtt.topic [] in
    (record m { watchdogs = watchdogs }, topics)

-- start(), up to the first receive, and the topics it has subscribed to. An exception is caught, and
-- then neither the ping loop nor the receive loop runs.
unfoldable pub start : ConfigManager → MqttService → MqttService × Outcome (List String)
start cm m =
    let (subscribed, topics) = subscribe_to_topics cm m in
    ((elim topics [ ok _ ↦ ping_loop subscribed | _ ↦ subscribed ]), topics)
