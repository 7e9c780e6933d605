-- ===== src/Examples/Data.antt =====
-- A configuration, an application and messages of two machines.
use mqtt_sentry.Base.{ℕ, String, true, false, none, some, [], ◌∷◌, pos}
use mqtt_sentry.Utils.{TimeZone}
use mqtt_sentry.Types.{AlertEvents, AlertState, History, Metric}
use mqtt_sentry.Types.Messages.{MachineState, MachineInNotFilter, MachineOut, MachineAlarmKod}
use mqtt_sentry.Settings.{ConfigManager, Logic, default_tg, default_mqtt, default_logic}
use mqtt_sentry.Graphite as GraphiteModule
use mqtt_sentry.Tg.{TgService}
use mqtt_sentry.Mqtt.{MqttService}
use mqtt_sentry.Watchdog.{TopicWatchdog}
use mqtt_sentry.App.{Application}
use mqtt_sentry.Json.{JsonLib}
use mqtt_sentry.Examples.Toy.{json_of, null}

instance abbrev pub utc : TimeZone
utc = record { mktime = λ tm. tm.tm_sec; unrepresentable = λ text. 0 }

abbrev pub logic : Logic
logic = record default_logic {
  machines = ("A", "Cooler") ∷ [];
  code = (0, "FINE") ∷ (7, "Hot") ∷ [];
}

-- Telegram refuses messages to user 13.
abbrev pub cm : ConfigManager
cm = record {
  loaded = true;
  tg = record default_tg { users = 7 ∷ 13 ∷ 8 ∷ []; admins = 7 ∷ [] };
  mqtt = record default_mqtt { topic = "NordFrost/A/#" ∷ [] };
  logic = logic;
  graphite = record { dns = "localhost"; port = 2003 };
  file = none;
  writes = [];
}

abbrev pub quiet_cm : ConfigManager
quiet_cm = record cm { tg = record cm.tg { users = 7 ∷ 8 ∷ [] } }

-- The library, with no document of its own.
instance abbrev pub json_lib : JsonLib
json_lib = json_of null

abbrev pub tg : TgService
tg = record { exit = false; is_connection = true; sent = [] }

abbrev pub app : Application
app = record {
  alert_queue = record { items = [] };
  alert_map = record { entries = [] };
  ms_map = record { entries = [] };
  light_map = record { entries = [] };
  m_in = record { entries = [] };
  m_out = record { entries = [] };
  tg = tg;
  gs = GraphiteModule.create;
  running = true;
}

abbrev pub alert : String → AlertState → AlertEvents
alert machine_id state = record {
  state = state;
  machine_id = machine_id;
  message = "…";
  timestamp = "NOW";
}

abbrev pub watchdog : TopicWatchdog
watchdog = record { hmi_id = "A"; timeouts = 2; timer = some (pos 60) }

abbrev pub service : MqttService
service = record {
  watchdogs = watchdog ∷ record watchdog { hmi_id = "B" } ∷ [];
  is_connected = true;
  is_waiting_for_response = false;
  ping_timer = true;
  response_timer = false;
  publishes = 0;
}

abbrev pub state_message : ℕ → MachineState
state_message state = record { state = state; ts = "NOW" }

abbrev pub in_message : MachineInNotFilter
in_message = record {
  in_holod = false;
  in_holod_ver = false;
  in_night = false;
  in_pres_nf = true;
  in_svitlo = false;
  ts = "NOW";
}

abbrev pub out_message : MachineOut
out_message = record {
  out_eco1 = true;
  out_eco2 = false;
  out_rb_blok = false;
  out_air = false;
  out_alarm_sig = false;
  out_osn_klap_nf = false;
  ts = "NOW";
}

abbrev pub in_history : History MachineInNotFilter
in_history = record { current = in_message; previous = in_message }

abbrev pub out_history : History MachineOut
out_history = record { current = out_message; previous = out_message }

-- An eco unit works, and the pressure is there.
abbrev pub eco_app : Application
eco_app = record app {
  m_in = record { entries = ("A", in_history) ∷ [] };
  m_out = record { entries = ("A", out_history) ∷ [] };
}

abbrev pub alarm : MachineAlarmKod
alarm = record { alarm_kod = 7; ts = "NOW" }

abbrev pub metric : Metric
metric = record { path = "m.A.state"; value = 1; ts = pos 5 }
