-- ===== src/Examples/System.antt =====
-- The theorems on src/mqttService.cpp on the event loop, and on what it tells the application, at
-- concrete inputs.
use mqtt_sentry.Base.{
  ◌≡◌, ◌≢◌, ◌++◌, true, not, ltb, refl, none, some, [], ◌∷◌, List, arith, ok, lookup, get_elem?,
  ◌>>=◌, string_eq,
}
use mqtt_sentry.Json.{JsonLib}
use mqtt_sentry.Utils.{split}
use mqtt_sentry.Settings.{resolve_hmi_name}
use mqtt_sentry.Types.ThreadSafeMap.{get}
use mqtt_sentry.Types.Messages.{machine_state_from_json}
use mqtt_sentry.Mqtt.Receive.{
  success, session_expired, resubscribed, find_watchdog, receive, on_message, receive_again,
}
use mqtt_sentry.Mqtt.Ping.{ping_loop}
use mqtt_sentry.Mqtt.Subscribe.{
  watchdog_alert, start, subscribe_to_topics, make_watchdogs, topic_hmi_id, watchdog_callback,
}
use mqtt_sentry.Mqtt.Topics.{waiting}
use mqtt_sentry.Watchdog.{pet, run_overtaken, online, offline, create, start_timer}
use mqtt_sentry.Watchdog.Silence.{expire_times}
use mqtt_sentry.Mqtt.System.{
  Event, received, timed_out, System, AllEnabled, run, begin, handle, armed, idle, in_start, in_run,
}
use mqtt_sentry.Mqtt.System.Alive.{IsAlive, heard, run-IsAlive_from_start, short_topic_deafens}
use mqtt_sentry.Mqtt.System.Watchdogs.{Watch, run-Watch_from_start}
use mqtt_sentry.App.{Application, is_news, get_machine_state, callbacks}
use mqtt_sentry.App.State.{state_message_shown}
use mqtt_sentry.App.Messages.{calls, all_calls}
use mqtt_sentry.App.Messages.Calls.{run-calls}
use mqtt_sentry.App.Overtaken.{overtaken_false_alarm}
use mqtt_sentry.App.Silence.{resubscribed_untold, offline_alert}
use mqtt_sentry.Examples.Toy.{json_of, toy_api}
use mqtt_sentry.Examples.Data.{utc, json_lib, cm, app, service, watchdog, state_message}
use mqtt_sentry.Examples.Mqtt.{handlers, topic_ids, found_a}

-- A machine is silent, and then sends something.
abbrev events : List Event
events = timed_out 0 ∷ received success "NordFrost/A/out" "" ∷ []

three_segments : get_elem? (split "/" "NordFrost/A/out") 2 ≢ none
unfolding split
three_segments e = ground arith

events_enabled : AllEnabled cm handlers events (begin cm app)
unfolding begin handle start ping_loop subscribe_to_topics make_watchdogs topic_hmi_id split
events_enabled = ((refl, tt), ((refl, refl), tt))

run-IsAlive_from_start_example : IsAlive (run cm handlers events (begin cm app))
run-IsAlive_from_start_example =
    run-IsAlive_from_start cm handlers ("A" ∷ []) topic_ids events app events_enabled
      (tt, (three_segments, tt))

run-Watch_from_start_example :
    Watch cm.logic ("A" ∷ []) (run cm handlers events (begin cm app)).mqtt.watchdogs
run-Watch_from_start_example =
    run-Watch_from_start cm handlers (omega arith) ("A" ∷ []) topic_ids events app

abbrev listening : System Application
listening = record { mqtt = service; user = app; receiving = armed; runner = in_start }

two_segments : get_elem? (split "/" "NordFrost/A") 2 ≡ none
unfolding split
two_segments = refl

still_enabled :
    AllEnabled cm handlers (received success "NordFrost/A" "" ∷ timed_out 0 ∷ []) listening
unfolding handle receive on_message split
still_enabled = ((refl, refl), ((refl, tt), tt))

short_topic_deafens_example :
    let deaf = handle cm handlers (received success "NordFrost/A" "") listening in
    (deaf.runner ≡ in_run)
    × ((run cm handlers (timed_out 0 ∷ []) deaf).receiving ≡ idle)
    × (heard (timed_out 0 ∷ []) ≡ 0)
short_topic_deafens_example =
    short_topic_deafens cm handlers "NordFrost/A" "" (timed_out 0 ∷ []) listening refl two_segments
      still_enabled

-- The alert that machine A is offline was the last one.
abbrev offline_app : Application
offline_app = record app {
  alert_map = record { entries = ((offline_alert cm "A").machine_id, offline_alert cm "A") ∷ [] };
}

known_offline :
    get (offline_alert cm "A").machine_id offline_app.alert_map ≡ some (offline_alert cm "A")
unfolding get lookup watchdog_alert resolve_hmi_name
known_offline = refl

new_watchdog :
    find_watchdog "A"
      (receive cm (callbacks cm) session_expired "" "" (service, offline_app)).0.watchdogs
    ≡ some (waiting cm "A")
unfolding receive resubscribed subscribe_to_topics make_watchdogs topic_hmi_id split find_watchdog
    create start_timer
new_watchdog = refl

resubscribed_untold_example :
    let callback = watchdog_callback cm (callbacks cm) "A" in
    let (_, app', _) = receive cm (callbacks cm) session_expired "" "" (service, offline_app) in
    let back = pet callback cm.logic (waiting cm "A", app') in
    (back.1 ≡ offline_app) × ((expire_times callback cm.logic 4 back).1.alert_queue.items ≡ [])
resubscribed_untold_example =
    resubscribed_untold cm "A" 4 "" "" (waiting cm "A") (offline_alert cm "A") service offline_app
      (omega arith) new_watchdog known_offline refl

offline_again :
    is_news
      (get (watchdog_alert cm "A" offline).machine_id offline_app.alert_map)
      (watchdog_alert cm "A" offline)
    ≡ not (ltb 0 watchdog.timeouts)
unfolding get lookup watchdog_alert resolve_hmi_name is_news
offline_again = refl

overtaken_false_alarm_example :
    let callback = watchdog_callback cm (callbacks cm) "A" in
    let (w, app) =
      run_overtaken callback cm.logic true (pet callback cm.logic (watchdog, offline_app)) in
    (w.timeouts ≡ 1)
    × (app.alert_queue.items
        ≡ [] ++ (watchdog_alert cm "A" online ∷ []) ++ watchdog_alert cm "A" offline ∷ [])
overtaken_false_alarm_example =
    overtaken_false_alarm cm "A" watchdog offline_app (omega arith) offline_again

-- The library for a document with the state 1.
abbrev state_json : JsonLib
state_json =
    json_of
      (json_lib.object (("step_pos", json_lib.of_uint 1) ∷ ("ts", json_lib.of_string "NOW") ∷ []))

a_state : split "/" "NordFrost/A/state" ≡ "NordFrost" ∷ "A" ∷ "state" ∷ []
unfolding split
a_state = refl

state_parsed :
    (do j ← state_json.parse "{…}"; machine_state_from_json ⦃J = state_json⦄ j)
    ≡ ok (state_message 1)
unfolding machine_state_from_json lookup
state_parsed = refl

state_message_shown_example :
    let (_, app', next) =
      on_message ⦃J = state_json⦄ cm (callbacks cm) "NordFrost/A/state" "{…}" (service, app) in
    (get_machine_state app' "A" ≡ state_message 1) × (next ≡ receive_again)
state_message_shown_example =
    state_message_shown ⦃J = state_json⦄ cm "NordFrost/A/state" "{…}" "NordFrost" "A" "A" []
      watchdog (state_message 1) service app a_state found_a state_parsed

-- A state of machine A, and then its silence.
abbrev talk : List Event
talk = received success "NordFrost/A/state" "{…}" ∷ timed_out 0 ∷ []

run-calls_example :
    (run ⦃J = state_json⦄ cm (callbacks cm) talk listening).user
    ≡ calls cm (all_calls ⦃J = state_json⦄ cm talk listening) app
run-calls_example = run-calls ⦃J = state_json⦄ cm talk listening
