-- ===== src/Mqtt/Topics.antt =====
-- The watchdogs that _subscribeToTopics of src/mqttService.cpp makes.
use mathlib.Core.List.{append_assoc, append-nil}
use mqtt_sentry.Base.{String, ◌≡◌, ap, true, some, List, [], ◌∷◌, ◌++◌, map, Outcome, ok}
use mqtt_sentry.Settings.{ConfigManager}
use mqtt_sentry.Watchdog.{TopicWatchdog, create, start_timer}
use mqtt_sentry.Mqtt.{MqttService}
use mqtt_sentry.Mqtt.Ping.{ping_loop}
use mqtt_sentry.Mqtt.Subscribe.{topic_hmi_id, make_watchdogs, subscribe_to_topics, start}

-- A watchdog that waits for its machine and has counted no timeout.
abbrev pub waiting : ConfigManager → String → TopicWatchdog
waiting cm id = record { hmi_id = id; timeouts = 0; timer = some cm.logic.timeout }

make_watchdogs-each :
    (cm : ConfigManager) (topics ids : List String) (made : List TopicWatchdog)
    → map topic_hmi_id topics ≡ map ok ids
    → make_watchdogs cm topics made ≡ (made ++ map (waiting cm) ids, ok topics)
unfolding make_watchdogs create start_timer
make_watchdogs-each cm [] [] made e = rw append-nil
make_watchdogs-each cm [] (id ∷ ids) made e = cc
make_watchdogs-each cm (t ∷ ts) [] made e = cc
make_watchdogs-each cm (t ∷ ts) (id ∷ ids) made e =
    let head : topic_hmi_id t ≡ ok id = cc in
    let tail : map topic_hmi_id ts ≡ map ok ids = cc in
    rw (
      make_watchdogs,
      head,
      make_watchdogs-each cm ts ids (made ++ waiting cm id ∷ []) tail,
      append_assoc,
    )

pub subscribe-each :
    (cm : ConfigManager) (ids : List String) (m : MqttService)
    → map topic_hmi_id cm.mqtt.topic ≡ map ok ids
    → subscribe_to_topics cm m ≡ (record m { watchdogs = map (waiting cm) ids }, ok cm.mqtt.topic)
unfolding subscribe_to_topics
subscribe-each cm ids m e =
    let made = make_watchdogs-each cm cm.mqtt.topic ids [] e in
    ap (λ (r : List TopicWatchdog × Outcome (List String)). (record m { watchdogs = r.0 }, r.1))
      made

-- Where every topic of the configuration has a second segment, start() leaves one watchdog for
-- each topic, in order, with that segment as the ID of its machine, set and with no timeout
-- counted; it sets the ping timer and subscribes to all topics.
pub start-each_topic :
    (cm : ConfigManager) (ids : List String) (m : MqttService)
    → map topic_hmi_id cm.mqtt.topic ≡ map ok ids
    → start cm m
      ≡ (record m { watchdogs = map (waiting cm) ids; ping_timer = true }, ok cm.mqtt.topic)
unfolding start ping_loop
start-each_topic cm ids m e =
    ap
      (λ (r : MqttService × Outcome (List String)).
        ((elim r.1 [ ok _ ↦ ping_loop r.0 | _ ↦ r.0 ]), r.1))
      (subscribe-each cm ids m e)
