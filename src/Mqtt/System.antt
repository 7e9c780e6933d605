-- ===== src/Mqtt/System.antt =====
-- The MQTT service of src/mqttService.cpp on the event loop: start(), and then the handlers of the
-- receive loop with its retry timer, of the ping loop, and of the timers of the watchdogs, one at a
-- time. The configuration stays as it is.
pub mod Alive
pub mod Watchdogs
use mqtt_sentry.Base.{
  ℕ, zero, suc, String, ◌≡◌, Bool, true, false, Option, none, some, List, [], ◌∷◌, ◌++◌, Exception,
  Outcome, ok, throw, undefined, get_elem?,
}
use mqtt_sentry.Json.{JsonLib}
use mqtt_sentry.Settings.{ConfigManager}
use mqtt_sentry.Watchdog.{TopicWatchdog, expire}
use mqtt_sentry.Mqtt.{MqttService, Callbacks, create}
use mqtt_sentry.Mqtt.Subscribe.{start, watchdog_callback}
use mqtt_sentry.Mqtt.Ping.Connection.{PingEvent, IsPending}
use mqtt_sentry.Mqtt.Ping.Connection as Ping
use mqtt_sentry.Mqtt.Receive.{
  ReceiveError, Next, receive_again, retry_in_10s, finished, crashed, escaped, receive,
}

-- The receive loop: a receive is under way, the retry timer is set, or neither.
pub data Receiving : Type 0 where
  armed retrying idle : Receiving

-- Who runs the event loop: start(), whose `try` an exception ends, then Application::run, which an
-- exception leaves; `broken` after undefined behaviour.
pub data Runner : Type 0 where
  in_start in_run left broken : Runner

pub record System (S : Type 0) : Type 0 where
  pub mqtt : MqttService
  pub user : S
  pub receiving : Receiving
  pub runner : Runner

pub data Event : Type 0 where
  received : ReceiveError → String → String → Event
  retried : Bool → Event
  timed_out : ℕ → Event
  pinged : PingEvent → Event

-- An exception leaves a handler.
abbrev pub escape : Runner → Runner
escape in_start = in_run
escape in_run = left
escape r = r

module _ {S : Type 0} where
  -- What follows from the end of the handler of a receive.
  unfoldable pub follow : Next → System S → System S
  follow receive_again s = record s { receiving = armed }
  follow retry_in_10s s = record s { receiving = retrying }
  follow finished s = record s { receiving = idle }
  follow crashed s = record s { receiving = idle; runner = broken }
  follow (escaped e) s = record s { receiving = idle; runner = escape s.runner }

module _ {S : Type 0} (cm : ConfigManager) (callbacks : Callbacks S) where
  -- The wait of the watchdog at a place of the list ends.
  unfoldable pub expire_at : ℕ → Bool → List TopicWatchdog × S → List TopicWatchdog × S
  expire_at i connected ([], s) = ([], s)
  expire_at zero connected (w ∷ ws, s) =
      let (w', s') = expire (watchdog_callback cm callbacks w.hmi_id) cm.logic connected (w, s) in
      (w' ∷ ws, s')
  expire_at (suc i) connected (w ∷ ws, s) =
      let (ws', s') = expire_at i connected (ws, s) in (w ∷ ws', s')

module _ ⦃J : JsonLib⦄ {S : Type 0} (cm : ConfigManager) (callbacks : Callbacks S) where
  unfoldable pub handle : Event → System S → System S
  unfolding follow expire_at
  handle (received ec full_topic payload) s =
      let (m, user, next) = receive cm callbacks ec full_topic payload (s.mqtt, s.user) in
      follow next (record s { mqtt = m; user = user })
  handle (retried true) s = record s { receiving = armed }
  handle (retried false) s = record s { receiving = idle }
  handle (timed_out i) s =
      let (ws, user) = expire_at cm callbacks i s.mqtt.is_connected (s.mqtt.watchdogs, s.user) in
      record s { mqtt = record s.mqtt { watchdogs = ws }; user = user }
  handle (pinged e) s =
      let (m, user) = Ping.handle callbacks e (s.mqtt, s.user) in record s { mqtt = m; user = user }

-- Something runs the event loop.
abbrev pub is_running : Runner → Bool
is_running in_start = true
is_running in_run = true
is_running _ = false

module _ {S : Type 0} where
  abbrev pub IsPossible : Event → System S → Type 0
  IsPossible (received ec full_topic payload) s = s.receiving ≡ armed
  IsPossible (retried _) s = s.receiving ≡ retrying
  IsPossible (timed_out i) s = Unit
  IsPossible (pinged e) s = IsPending e s.mqtt

  -- What the event loop can run.
  abbrev pub IsEnabled : Event → System S → Type 0
  IsEnabled e s = (is_running s.runner ≡ true) × IsPossible e s

  -- start() has set the receive loop, unless an exception has ended it.
  unfoldable pub first_receive : MqttService × Outcome (List String) → S → System S
  first_receive (m, ok topics) user = record {
    mqtt = m;
    user = user;
    receiving = armed;
    runner = in_start;
  }
  first_receive (m, throw e) user = record {
    mqtt = m;
    user = user;
    receiving = idle;
    runner = in_run;
  }
  first_receive (m, undefined) user = record {
    mqtt = m;
    user = user;
    receiving = idle;
    runner = broken;
  }

  unfoldable pub begin : ConfigManager → S → System S
  unfolding first_receive
  begin cm user = first_receive (start cm create) user

module _ ⦃J : JsonLib⦄ {S : Type 0} (cm : ConfigManager) (callbacks : Callbacks S) where
  abbrev pub AllEnabled : List Event → System S → Type 0
  AllEnabled [] s = Unit
  AllEnabled (e ∷ es) s = IsEnabled e s × AllEnabled es (handle cm callbacks e s)

  abbrev pub run : List Event → System S → System S
  run [] s = s
  run (e ∷ es) s = run es (handle cm callbacks e s)
