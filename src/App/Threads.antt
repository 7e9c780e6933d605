-- ===== src/App/Threads.antt =====
-- The threads of src/application.cpp: the callbacks on the thread of the event loop, the worker, the
-- polling thread of Telegram, and stop(). They meet at the queue and at the Telegram service. A
-- callback, a handler of the Graphite service, a round of polling, and what the worker does with
-- one alert are one step each.
pub mod Notifications
pub mod Order
pub mod Stopping
pub mod Measured
pub mod Notes
pub mod Measurements
pub mod Runs
pub mod Reachable
use mqtt_sentry.Base.{
  ℕ, String, Bool, true, ◌≡◌, ◌≢◌, List, [], ◌∷◌, ◌++◌, if◌then◌else◌, nat_eq, string_eq,
}
use mqtt_sentry.Utils.{TimeZone}
use mqtt_sentry.Types.{AlertEvents}
use mqtt_sentry.Types.ThreadSafeQueue.{pop}
use mqtt_sentry.Types.ThreadSafeMap.{get}
use mqtt_sentry.Types.Messages.{
  MachineState, MachineTimeLightEco, MachineInNotFilter, MachineInFilter, MachineOut,
  MachineAlarmKod,
}
use mqtt_sentry.Settings.{ConfigManager}
use mqtt_sentry.Tg.{Api, Poll, poll_round}
use mqtt_sentry.Tg
use mqtt_sentry.Graphite
use mqtt_sentry.Graphite.Loop.{
  Log, logged, metrics, IsPending, Event as GraphiteEvent, handle as graphite_handle,
}
use mqtt_sentry.Mqtt.{MqttService}
use mqtt_sentry.Mqtt
use mqtt_sentry.App.{
  Application, is_news, on_alert, on_machine_state, on_machine_in, on_machine_in_filter,
  on_machine_out, on_machine_light, on_machine_alarm, on_connection, on_disconnection,
}
use mqtt_sentry.App.Worker.{Worker, looping, waiting, ended, sentinel, process, stop}
use mqtt_sentry.App.Pump.{pump_alerts}
use mqtt_sentry.App.Eco.{eco_alerts}
use mqtt_sentry.App.Threads.Notifications.{messages, notice}

-- A call of one of the callbacks that the application sets.
pub data Callback : Type 0 where
  alerted : AlertEvents → Callback
  state_came : String → MachineState → Callback
  in_came : String → MachineInNotFilter → Callback
  in_filter_came : String → MachineInFilter → Callback
  out_came : String → MachineOut → Callback
  light_came : String → MachineTimeLightEco → Callback
  alarm_came : String → MachineAlarmKod → Callback
  connected disconnected : Callback

pub data Event : Type 0 where
  called : Callback → Event
  polled : Poll → Event
  configured : ConfigManager → Event
  graphite_done : GraphiteEvent → Event
  stopped tested took : Event

-- The configuration, the application, the MQTT service, the place of the worker, and the writes to
-- Graphite that have ended.
pub record System : Type 0 where
  pub cm : ConfigManager
  pub app : Application
  pub mqtt : MqttService
  pub worker : Worker
  pub log : Log

-- The constructor, and run() when it has started the worker.
unfoldable pub begin : ConfigManager → Bool → System
begin cm exit = record {
  cm = cm;
  app = record {
    alert_queue = record { items = [] };
    alert_map = record { entries = [] };
    ms_map = record { entries = [] };
    light_map = record { entries = [] };
    m_in = record { entries = [] };
    m_out = record { entries = [] };
    tg = Tg.create exit;
    gs = Graphite.create;
    running = true;
  };
  mqtt = Mqtt.create;
  worker = looping;
  log = [];
}

-- while (_running)
abbrev pub after_test : Bool → Worker
after_test running = if running then waiting else ended

module _ ⦃z : TimeZone⦄ ⦃api : Api⦄ where
  unfoldable pub call : ConfigManager → Callback → Application → Application
  call cm (alerted a) app = on_alert a app
  call cm (state_came id ms) app = on_machine_state cm id ms app
  call cm (in_came id m_in) app = on_machine_in cm id m_in app
  call cm (in_filter_came id m_in) app = on_machine_in_filter cm id m_in app
  call cm (out_came id m_out) app = on_machine_out cm id m_out app
  call cm (light_came id l) app = on_machine_light cm id l app
  call cm (alarm_came id ma) app = on_machine_alarm cm id ma app
  call cm connected app = on_connection cm app
  call cm disconnected app = on_disconnection cm app

  unfoldable pub handle : Event → System → System
  unfolding call
  handle (called c) s = record s { app = call s.cm c s.app }
  handle (polled p) s = record s { app = record s.app { tg = poll_round p s.app.tg } }
  handle (configured cm) s = record s { cm = cm }
  handle (graphite_done e) s = record s {
    app = record s.app { gs = graphite_handle e s.app.gs };
    log = s.log ++ logged e s.app.gs;
  }
  handle stopped s = let (app, mqtt) = stop s.app s.mqtt in record s { app = app; mqtt = mqtt }
  handle tested s = record s { worker = after_test s.app.running }
  handle took s =
      let (app, worker) = process s.cm (pop s.app.alert_queue) s.app in
      record s { app = app; worker = worker }

-- The worker moves from its place, and `pop` returns when there is an alert. A handler of the
-- Graphite service runs when its operation is under way; metrics come from the callbacks alone.
abbrev pub IsEnabled : Event → System → Type 0
IsEnabled tested s = s.worker ≡ looping
IsEnabled took s = (s.worker ≡ waiting) × (s.app.alert_queue.items ≢ [])
IsEnabled (graphite_done e) s = IsPending e s.app.gs × (metrics e ≡ [])
IsEnabled _ s = Unit {0}

-- What a callback should raise: an alert that is news, a change of the pump, a suspicion.
abbrev pub raised_by : ConfigManager → Callback → Application → List AlertEvents
raised_by cm (alerted a) app = if is_news (get a.machine_id app.alert_map) a then a ∷ [] else []
raised_by cm (state_came id ms) app = pump_alerts cm id (get id app.ms_map) ms
raised_by cm (in_came id m_in) app = eco_alerts cm id m_in (get id app.m_in) (get id app.m_out)
raised_by cm _ app = []

-- The alerts that enter the queue in an event, with the sentinel of the first stop().
abbrev pub raised : Event → System → List AlertEvents
raised (called c) s = raised_by s.cm c s.app
raised stopped s = if s.app.running then sentinel ∷ [] else []
raised _ s = []

abbrev pub first : List AlertEvents → List AlertEvents
first [] = []
first (a ∷ rest) = a ∷ []

-- The alert that the worker takes in an event.
abbrev pub taken : Event → System → List AlertEvents
taken took s = first s.app.alert_queue.items
taken _ s = []

module _ ⦃api : Api⦄ where
  -- What the users are told in an event.
  abbrev pub told : Event → System → List (ℕ × String)
  told (called connected) s = notice s.cm s.app.tg.is_connection "📶  Mqtt Брокер вийшов на зв'язок"
  told (called disconnected) s = notice s.cm s.app.tg.is_connection "🚫 Mqtt Брокер не на зв'язку"
  told took s = messages s.cm (first s.app.alert_queue.items)
  told _ s = []

-- The events on the way from one system to another.
module _ ⦃z : TimeZone⦄ ⦃api : Api⦄ where
  abbrev pub AllEnabled : List Event → System → Type 0
  AllEnabled [] s = Unit {0}
  AllEnabled (e ∷ rest) s = IsEnabled e s × AllEnabled rest (handle e s)

  abbrev pub handle_all : List Event → System → System
  handle_all [] s = s
  handle_all (e ∷ rest) s = handle_all rest (handle e s)

module _ ⦃z : TimeZone⦄ ⦃api : Api⦄ where
  -- The systems that the threads reach in any order of their steps, with the alerts raised and taken
  -- and the messages sent on the way.
  pub data Reach : List AlertEvents → List AlertEvents → List (ℕ × String) → System → Type 0 where
    started : {s : System} (cm : ConfigManager) (exit : Bool) → s ≡ begin cm exit → Reach [] [] [] s
    next :
        {rs ts : List AlertEvents} {os : List (ℕ × String)} {s : System} (e : Event)
        → Reach rs ts os s
        → IsEnabled e s
        → (rs' ts' : List AlertEvents) (os' : List (ℕ × String)) (s' : System)
        → rs' ≡ rs ++ raised e s
        → ts' ≡ ts ++ taken e s
        → os' ≡ os ++ told e s
        → s' ≡ handle e s
        → Reach rs' ts' os' s'
