-- ===== src/App/Pump.antt =====
-- The alerts on the pump: setOnMachineState of src/application.cpp.
use mathlib.Core.List.{append_assoc, append-nil}
use mqtt_sentry.Base.{
  ℕ, ◌≤◌, String, ◌≡◌, refl, Bool, true, false, not, Option, none, some, List, [], ◌∷◌, ◌++◌, arith,
  ◌==◌, nat_eq, string_eq, eq_iff, ◌&&◌, ◌||◌, if◌then◌else◌, All,
}
use mqtt_sentry.Utils.{TimeZone}
use mqtt_sentry.Types.{AlertEvents, AlertState, pump_on, pump_off}
use mqtt_sentry.Types.ThreadSafeQueue.{push}
use mqtt_sentry.Types.ThreadSafeMap.{get, get-set}
use mqtt_sentry.Types.Messages.{MachineState}
use mqtt_sentry.Settings.{ConfigManager, resolve_hmi_name}
use mqtt_sentry.Mapper.{map_state}
use mqtt_sentry.App.{Application, on_machine_state}
use mqtt_sentry.App.Alerts.{NoRepeat}
use mqtt_sentry.App.Metrics.{sink_each-gs}

-- The winter mode is on in the states 1 and 2, and off in 0.
abbrev pub is_winter : ℕ → Bool
is_winter state = state == 1 || state == 2

abbrev pub pump_alert_of : ConfigManager → String → AlertState → String → MachineState → AlertEvents
pump_alert_of cm id state message ms = record {
  state = state;
  machine_id = resolve_hmi_name cm id;
  message = message;
  timestamp = ms.ts;
}

-- The alerts for the next state after a known one.
abbrev pub pump_alerts :
    ConfigManager → String → Option MachineState → MachineState → List AlertEvents
pump_alerts cm id none ms = []
pump_alerts cm id (some prev) ms =
    if prev.state == 0 && is_winter ms.state
    then pump_alert_of cm id pump_on "Увімкнено зимовий режим" ms ∷ []
    else if ms.state == 0 && is_winter prev.state
    then pump_alert_of cm id pump_off "Вимкнено зимовий режим" ms ∷ []
    else []

-- The alerts for a sequence of states.
unfoldable pub pump_history :
    ConfigManager → String → Option MachineState → List MachineState → List AlertEvents
pump_history cm id prev [] = []
pump_history cm id prev (ms ∷ rest) = pump_alerts cm id prev ms ++ pump_history cm id (some ms) rest

module _ ⦃z : TimeZone⦄ (cm : ConfigManager) (id : String) where
  unfoldable pub on_machine_states : List MachineState → Application → Application
  on_machine_states [] app = app
  on_machine_states (ms ∷ rest) app = on_machine_states rest (on_machine_state cm id ms app)

  pub on_machine_state-queue :
      (prev : Option MachineState) (ms : MachineState) (app : Application)
      → get id app.ms_map ≡ prev
      → (on_machine_state cm id ms app).alert_queue.items
        ≡ app.alert_queue.items ++ pump_alerts cm id prev ms
  unfolding on_machine_state map_state push
  on_machine_state-queue none ms app e = rw (e, sink_each-gs, append-nil)
  on_machine_state-queue (some prev) ms app e =
      rw (e, sink_each-gs) (ground (arith, append-nil app.alert_queue.items))

  on_machine_state-map :
      (prev : Option MachineState) (ms : MachineState) (app : Application)
      → get id app.ms_map ≡ prev
      → get id (on_machine_state cm id ms app).ms_map ≡ some ms
  unfolding on_machine_state map_state
  on_machine_state-map none ms app e =
      rw (e, sink_each-gs, get-set id id ms app.ms_map) (ground (arith, eq_iff id id))
  on_machine_state-map (some prev) ms app e =
      rw (e, sink_each-gs) (ground (arith, get-set id id ms app.ms_map, eq_iff id id))

  -- A sequence of states of a machine, after the state that is known of it if there is one,
  -- extends the queue by exactly one alert for each change between idle and winter mode, in order.
  pub on_machine_states-queue :
      (states : List MachineState) (prev : Option MachineState) (app : Application)
      → get id app.ms_map ≡ prev
      → (on_machine_states states app).alert_queue.items
        ≡ app.alert_queue.items ++ pump_history cm id prev states
  unfolding on_machine_states pump_history
  on_machine_states-queue [] prev app e = rw append-nil
  on_machine_states-queue (ms ∷ rest) prev app e = rw (
    on_machine_states-queue rest (some ms) (on_machine_state cm id ms app)
        (on_machine_state-map prev ms app e),
    on_machine_state-queue prev ms app e,
    append_assoc,
  )

abbrev pub mode : Bool → AlertState
mode winter = if winter then pump_on else pump_off

idle-not-winter : (state : ℕ) → state ≤ 2 → (state == 0) ≡ not (is_winter state)
idle-not-winter state h = ground arith

-- From one mode to the next.
alternate :
    (winter next : Bool) (on off : AlertEvents) (later : List AlertEvents)
    → on.state ≡ pump_on
    → off.state ≡ pump_off
    → NoRepeat (some (mode next)) later
    → NoRepeat (some (mode winter)) (
        (if not winter && next then on ∷ [] else if not next && winter then off ∷ [] else [])
        ++ later)
alternate true true on off later e f h = h
alternate true false on off later e f h = (ground arith, rw f h)
alternate false true on off later e f h = (ground arith, rw e h)
alternate false false on off later e f h = h

-- While a machine is in the states 0, 1 and 2 only, the alerts on its pump alternate: a change to
-- winter mode is told after one to idle, and the other way round.
pub pump_history-NoRepeat :
    (cm : ConfigManager) (id : String) (prev : MachineState) (states : List MachineState)
    → prev.state ≤ 2
    → All (λ ms. ms.state ≤ 2) states
    → NoRepeat (some (mode (is_winter prev.state))) (pump_history cm id (some prev) states)
unfolding pump_history
pump_history-NoRepeat cm id prev [] h a = tt
pump_history-NoRepeat cm id prev (ms ∷ rest) h a =
    rw (idle-not-winter prev.state h, idle-not-winter ms.state a.0)
      (alternate (is_winter prev.state) (is_winter ms.state) _ _ _ refl refl
        (pump_history-NoRepeat cm id ms rest a.0 a.1))
