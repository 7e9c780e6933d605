-- ===== src/App.antt =====
-- include/application.hpp and src/application.cpp: what the application keeps, and the callbacks
-- that it gives to the MQTT service and to the Telegram service.
pub mod Worker
pub mod Alerts
pub mod Metrics
pub mod Pump
pub mod Eco
pub mod Delivery
pub mod Silence
pub mod Overtaken
pub mod Threads
pub mod State
pub mod Messages
pub mod Program
pub mod Data
use mqtt_sentry.Base.{
  String, Bool, true, Option, none, some, ◌==◌, nat_eq, string_eq, ◌&&◌, ◌||◌, not, if◌then◌else◌,
  ◌<>◌,
}
use mqtt_sentry.Utils.{TimeZone}
use mqtt_sentry.Types.{
  AlertEvents, AlertState, pump_on, pump_off, eco_malfunction, state_eq, History, update, Metric,
}
use mqtt_sentry.Types.ThreadSafeQueue
use mqtt_sentry.Types.ThreadSafeMap
use mqtt_sentry.Types.Messages.{
  MachineState, MachineTimeLightEco, MachineInNotFilter, MachineInFilter, MachineOut,
  MachineAlarmKod,
}
use mqtt_sentry.Settings.{ConfigManager, resolve_hmi_name}
use mqtt_sentry.Mapper.{map_state, map_light, map_in, map_in_filter, map_out, map_alarm}
use mqtt_sentry.Graphite
use mqtt_sentry.Tg.{Api}
use mqtt_sentry.Tg
use mqtt_sentry.Mqtt.{Callbacks}
pub use Data.{Application, no_state, no_light, zero_in, zero_out}

unfoldable pub get_machine_state : Application → String → MachineState
get_machine_state app id = elim (ThreadSafeMap.get id app.ms_map) [ some ms ↦ ms | none ↦ no_state ]

unfoldable pub get_machine_light : Application → String → MachineTimeLightEco
get_machine_light app id = elim (ThreadSafeMap.get id app.light_map) [
  | some l ↦ l
  | none ↦ no_light
]

-- The lambda that hands metrics to the Graphite service.
abbrev pub push_metric : Metric → Application → Application
push_metric m app = record app { gs = Graphite.push m app.gs }

push_alert : AlertEvents → Application → Application
push_alert alert app = record app { alert_queue = ThreadSafeQueue.push alert app.alert_queue }

-- prev == std::nullopt || prev->state != alert.state
unfoldable pub is_news : Option AlertEvents → AlertEvents → Bool
is_news none alert = true
is_news (some prev) alert = not (prev.state == alert.state)

unfoldable pub on_alert : AlertEvents → Application → Application
unfolding push_alert is_news
on_alert alert app =
    let queued =
      if is_news (ThreadSafeMap.get alert.machine_id app.alert_map) alert
      then push_alert alert app
      else app in
    record queued { alert_map = ThreadSafeMap.set alert.machine_id alert queued.alert_map }

module _ (cm : ConfigManager) where
  pump_alert : AlertState → String → String → MachineState → AlertEvents
  pump_alert state message id ms = record {
    state = state;
    machine_id = resolve_hmi_name cm id;
    message = message;
    timestamp = ms.ts;
  }

  -- The alert on a change of the pump.
  pump_change : String → Option MachineState → MachineState → Application → Application
  unfolding pump_alert push_alert
  pump_change id none ms app = app
  pump_change id (some prev) ms app =
      if prev.state == 0 && (ms.state == 1 || ms.state == 2)
      then push_alert (pump_alert pump_on "Увімкнено зимовий режим" id ms) app
      else if ms.state == 0 && (prev.state == 1 || prev.state == 2)
      then push_alert (pump_alert pump_off "Вимкнено зимовий режим" id ms) app
      else app

  eco_alert : String → History MachineInNotFilter → History MachineOut → AlertEvents
  eco_alert id in_h out = record {
    state = eco_malfunction;
    machine_id = resolve_hmi_name cm id;
    message = "Підозра на некоректну роботу eco " <> (if out.current.out_eco1 then "1" else "2");
    timestamp = in_h.current.ts;
  }

  -- An eco unit works, worked at the last message, and the pressure has gone.
  unfoldable pub eco_suspected : History MachineInNotFilter → History MachineOut → Bool
  eco_suspected in_h out =
      (out.current.out_eco1 || out.current.out_eco2)
      && (out.previous.out_eco1 || out.previous.out_eco2)
      && (not in_h.current.in_pres_nf && in_h.previous.in_pres_nf)

  module _ ⦃z : TimeZone⦄ where
    unfoldable pub on_machine_state : String → MachineState → Application → Application
    unfolding pump_change
    on_machine_state id ms app =
        let alerted = pump_change id (ThreadSafeMap.get id app.ms_map) ms app in
        map_state cm push_metric id ms
          (record alerted { ms_map = ThreadSafeMap.set id ms alerted.ms_map })

    check_eco :
        String
        → MachineInNotFilter
        → History MachineInNotFilter
        → Option (History MachineOut)
        → Application
        → Application
    unfolding eco_suspected eco_alert push_alert
    check_eco id m_in in_h none app = app
    check_eco id m_in in_h (some out) app =
        map_in cm push_metric id m_in
          (if eco_suspected in_h out then push_alert (eco_alert id in_h out) app else app)

    note_in :
        String
        → MachineInNotFilter
        → Option (History MachineInNotFilter)
        → Application
        → Application
    unfolding check_eco
    note_in id m_in none app = record app {
      m_in = ThreadSafeMap.set id (record { current = m_in; previous = zero_in }) app.m_in;
    }
    note_in id m_in (some in_h) app =
        check_eco id m_in (update m_in in_h) (ThreadSafeMap.get id app.m_out)
          (record app { m_in = ThreadSafeMap.set id (update m_in in_h) app.m_in })

    unfoldable pub on_machine_in : String → MachineInNotFilter → Application → Application
    unfolding note_in
    on_machine_in id m_in app = note_in id m_in (ThreadSafeMap.get id app.m_in) app

    unfoldable pub on_machine_in_filter : String → MachineInFilter → Application → Application
    on_machine_in_filter id m_in app = map_in_filter cm push_metric id m_in app

    map_known_out :
        String → MachineOut → Option (History MachineInNotFilter) → Application → Application
    map_known_out id m_out none app = app
    map_known_out id m_out (some in_h) app = map_out cm push_metric id m_out app

    note_out : String → MachineOut → Option (History MachineOut) → Application → Application
    unfolding map_known_out
    note_out id m_out none app = record app {
      m_out = ThreadSafeMap.set id (record { current = m_out; previous = zero_out }) app.m_out;
    }
    note_out id m_out (some out) app =
        map_known_out id m_out (ThreadSafeMap.get id app.m_in)
          (record app { m_out = ThreadSafeMap.set id (update m_out out) app.m_out })

    unfoldable pub on_machine_out : String → MachineOut → Application → Application
    unfolding note_out
    on_machine_out id m_out app = note_out id m_out (ThreadSafeMap.get id app.m_out) app

    unfoldable pub on_machine_light : String → MachineTimeLightEco → Application → Application
    on_machine_light id l app =
        map_light cm push_metric id l
          (record app { light_map = ThreadSafeMap.set id l app.light_map })

    unfoldable pub on_machine_alarm : String → MachineAlarmKod → Application → Application
    on_machine_alarm id ma app = map_alarm cm push_metric id ma app

  module _ ⦃api : Api⦄ where
    -- The broker is gone, or back: the users are told if Telegram can be reached.
    notify : String → Application → Application
    notify message app =
        if app.tg.is_connection then record app { tg = Tg.send cm message app.tg } else app

    unfoldable pub on_disconnection : Application → Application
    unfolding notify
    on_disconnection = notify "🚫 Mqtt Брокер не на зв'язку"

    unfoldable pub on_connection : Application → Application
    unfolding notify
    on_connection = notify "📶  Mqtt Брокер вийшов на зв'язок"

  module _ ⦃z : TimeZone⦄ ⦃api : Api⦄ where
    unfoldable pub callbacks : Callbacks Application
    callbacks = record {
      on_alert = on_alert;
      on_ms = on_machine_state;
      on_min = on_machine_in;
      on_minf = on_machine_in_filter;
      on_mout = on_machine_out;
      on_mlight = on_machine_light;
      on_malarm = on_machine_alarm;
      on_connection = on_connection;
      on_disconnection = on_disconnection;
    }
