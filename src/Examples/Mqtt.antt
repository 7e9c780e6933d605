-- ===== src/Examples/Mqtt.antt =====
-- The theorems on src/mqttService.cpp at concrete inputs.
use mqtt_sentry.Base.{map, ◌≡◌, refl, true, some, List, [], ◌∷◌, ok}
use mqtt_sentry.Utils.{split}
use mqtt_sentry.Mqtt.{Callbacks, create}
use mqtt_sentry.Mqtt.Subscribe.{topic_hmi_id}
use mqtt_sentry.Mqtt.Receive.{dispatch, find_watchdog}
use mqtt_sentry.Mqtt.Receive.Loop.{dispatch-watchdogs}
use mqtt_sentry.Mqtt.Ping.{ping_loop, expired}
use mqtt_sentry.Mqtt.Ping.Connection.{
  PingEvent, ping_timer, response_timer, published, handle, run, recorder, Alternates,
  run-Alternates, IsLive, Reach, started, next, Reach-IsLive,
}
use mqtt_sentry.App.{Application, callbacks}
use mqtt_sentry.Examples.Toy.{toy_api}
use mqtt_sentry.Examples.Data.{utc, json_lib, cm, app, service, watchdog}

abbrev pub handlers : Callbacks Application
handlers = callbacks cm

-- The ping is not answered, and the next one is.
abbrev events : List PingEvent
events = ping_timer expired ∷ response_timer expired ∷ ping_timer expired ∷ published true ∷ []

run-Alternates_example :
    Alternates
      (run recorder events (ping_loop create, [])).0.is_connected
      (run recorder events (ping_loop create, [])).1
run-Alternates_example = run-Alternates events

one_ping : Reach recorder [] (handle recorder (ping_timer expired) (ping_loop create, []))
unfolding ping_loop create
one_ping = next (ping_timer expired) (started refl) refl refl

Reach-IsLive_example : IsLive (handle recorder (ping_timer expired) (ping_loop create, [])).0
Reach-IsLive_example = Reach-IsLive one_ping

pub found_a : find_watchdog "A" service.watchdogs ≡ some watchdog
unfolding find_watchdog
found_a = refl

dispatch-watchdogs_example :
    find_watchdog "A" (dispatch cm handlers "A" "state" "" watchdog (service, app)).0.watchdogs
    ≡ some (record { hmi_id = "A"; timeouts = 0; timer = some cm.logic.timeout })
dispatch-watchdogs_example =
    dispatch-watchdogs cm handlers "A" "A" "state" "" watchdog service app found_a

pub topic_ids : map topic_hmi_id cm.mqtt.topic ≡ map ok ("A" ∷ [])
unfolding topic_hmi_id split
topic_ids = refl
