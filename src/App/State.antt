-- ===== src/App/State.antt =====
-- A state that a machine sends, from the message of src/mqttService.cpp to what the Telegram service
-- shows of the machine by the provider that src/application.cpp gives it.
use mqtt_sentry.Base.{
  String, ◌≡◌, refl, true, false, Option, none, some, List, ◌∷◌, arith, ◌==◌, string_eq,
  if◌then◌else◌, ok, Bool, ◌>>=◌, ap, sym, ◌∙◌,
}
use mqtt_sentry.Json.{JsonLib}
use mqtt_sentry.Utils.{TimeZone, split}
use mqtt_sentry.Types.ThreadSafeMap.{get, get-set}
use mqtt_sentry.Types.Messages.{MachineState, machine_state_from_json}
use mqtt_sentry.Settings.{ConfigManager}
use mqtt_sentry.Mapper.{map_state}
use mqtt_sentry.Tg.{Api}
use mqtt_sentry.Watchdog.{TopicWatchdog, pet}
use mqtt_sentry.Mqtt.{MqttService}
use mqtt_sentry.Mqtt.Subscribe.{watchdog_callback}
use mqtt_sentry.Mqtt.Receive.State.{on_message_state}
use mqtt_sentry.Mqtt.Receive.{receive_again, find_watchdog, on_message}
use mqtt_sentry.App.{
  Application, get_machine_state, no_state, on_machine_state, on_alert, callbacks,
}
use mqtt_sentry.App.Metrics.{sink_each-gs}

state_or : Option MachineState → MachineState
state_or none = no_state
state_or (some ms) = ms

state_or-if :
    (b : Bool) (ms : MachineState) (o : Option MachineState)
    → state_or (if b then some ms else o) ≡ (if b then ms else state_or o)
unfolding state_or
state_or-if true ms o = refl
state_or-if false ms o = refl

get_machine_state-get :
    (app : Application) (k : String) (o : Option MachineState)
    → get k app.ms_map ≡ o
    → get_machine_state app k ≡ state_or o
unfolding get_machine_state state_or
get_machine_state-get app k none e = rw (e, get_machine_state)
get_machine_state-get app k (some ms) e = rw (e, get_machine_state)

module _ ⦃z : TimeZone⦄ (cm : ConfigManager) (id : String) where
  state-map :
      (k : String) (prev : Option MachineState) (ms : MachineState) (app : Application)
      → get id app.ms_map ≡ prev
      → get k (on_machine_state cm id ms app).ms_map
        ≡ (if id == k then some ms else get k app.ms_map)
  unfolding on_machine_state map_state
  state-map k none ms app e = rw (e, sink_each-gs, get-set id k ms app.ms_map)
  state-map k (some prev) ms app e =
      rw (e, sink_each-gs) (ground (arith, get-set id k ms app.ms_map))

  shown :
      (k : String) (ms : MachineState) (app app' : Application)
      → app'.ms_map ≡ app.ms_map
      → get_machine_state (on_machine_state cm id ms app') k
        ≡ (if id == k then ms else get_machine_state app k)
  shown k ms app app' e =
      let known = state-map k _ ms app' refl ∙ ap (λ m. if id == k then some ms else get k m) e in
      get_machine_state-get (on_machine_state cm id ms app') k _ known
      ∙ state_or-if (id == k) ms _
      ∙ ap (λ t. if id == k then ms else t) (sym (get_machine_state-get app k _ refl))

  module _ ⦃api : Api⦄ where
    -- The watchdog tells the application at most that the machine is back.
    pet-ms_map :
        (w : TopicWatchdog) (app : Application)
        → (pet (watchdog_callback cm (callbacks cm) w.hmi_id) cm.logic (w, app)).1.ms_map
          ≡ app.ms_map
    unfolding pet watchdog_callback callbacks on_alert
    pet-ms_map w app = ground arith

module _ ⦃J : JsonLib⦄ ⦃z : TimeZone⦄ ⦃api : Api⦄ (cm : ConfigManager) where
  -- A message with the state of a machine that has a watchdog, if its payload can be parsed, is
  -- what the provider for the Telegram service gives for the machine from then on; the states of
  -- the other machines stay as they are, and the next message is received.
  pub state_message_shown :
      (full_topic payload first id k : String) (rest : List String) (w : TopicWatchdog)
      (ms : MachineState) (m : MqttService) (app : Application)
      → split "/" full_topic ≡ first ∷ id ∷ "state" ∷ rest
      → find_watchdog id m.watchdogs ≡ some w
      → (do j ← J.parse payload; machine_state_from_json j) ≡ ok ms
      → let (_, app', next) = on_message cm (callbacks cm) full_topic payload (m, app) in
        (get_machine_state app' k ≡ (if id == k then ms else get_machine_state app k))
        × (next ≡ receive_again)
  unfolding callbacks
  state_message_shown full_topic payload first id k rest w ms m app t f p =
      let (_, app') = pet (watchdog_callback cm (callbacks cm) w.hmi_id) cm.logic (w, app) in
      rw (on_message_state cm (callbacks cm) full_topic payload first id rest w ms m app t f p)
        (shown cm id k ms app app' (pet-ms_map cm id w app), refl)
