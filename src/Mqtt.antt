-- ===== src/Mqtt.antt =====
-- include/mqttService.hpp and src/mqttService.cpp: the state of the service, and its callbacks.
pub mod Receive
pub mod Subscribe
pub mod Topics
pub mod Ping
pub mod System
use mqtt_sentry.Base.{ℕ, String, Bool, true, false, List, []}
use mqtt_sentry.Types.{AlertEvents}
use mqtt_sentry.Types.Messages.{
  MachineState, MachineTimeLightEco, MachineInNotFilter, MachineInFilter, MachineOut,
  MachineAlarmKod,
}
use mqtt_sentry.Watchdog.{TopicWatchdog}

-- `ping_timer` and `response_timer` say whether the timer has a pending wait, and `publishes` how
-- many pings the client has not answered yet.
pub record MqttService : Type 0 where
  pub watchdogs : List TopicWatchdog
  pub is_connected : Bool
  pub is_waiting_for_response : Bool
  pub ping_timer : Bool
  pub response_timer : Bool
  pub publishes : ℕ

-- The constructor.
unfoldable pub create : MqttService
create = record {
  watchdogs = [];
  is_connected = true;
  is_waiting_for_response = false;
  ping_timer = false;
  response_timer = false;
  publishes = 0;
}

-- stop(); the disconnection of the client is left out.
unfoldable pub stop : MqttService → MqttService
stop m = record m { watchdogs = [] }

-- The callbacks that the application sets; they act on its state `S`.
pub record Callbacks (S : Type 0) : Type 0 where
  pub on_alert : AlertEvents → S → S
  pub on_ms : String → MachineState → S → S
  pub on_min : String → MachineInNotFilter → S → S
  pub on_minf : String → MachineInFilter → S → S
  pub on_mout : String → MachineOut → S → S
  pub on_mlight : String → MachineTimeLightEco → S → S
  pub on_malarm : String → MachineAlarmKod → S → S
  pub on_connection : S → S
  pub on_disconnection : S → S
