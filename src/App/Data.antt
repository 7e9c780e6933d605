-- ===== src/App/Data.antt =====
-- What the application of include/application.hpp keeps, and its values for what is not known.
use mqtt_sentry.Base.{String, Bool, false, nat_eq, string_eq}
use mqtt_sentry.Types.{AlertEvents, state_eq, History}
use mqtt_sentry.Types.ThreadSafeQueue.{Queue}
use mqtt_sentry.Types.ThreadSafeMap.{Map}
use mqtt_sentry.Types.Messages.{MachineState, MachineTimeLightEco, MachineInNotFilter, MachineOut}
use mqtt_sentry.Graphite.{GraphiteService}
use mqtt_sentry.Tg.{TgService}

-- The configuration and the MQTT service stand beside it.
pub record Application : Type 0 where
  pub alert_queue : Queue AlertEvents
  pub alert_map : Map String AlertEvents
  pub ms_map : Map String MachineState
  pub light_map : Map String MachineTimeLightEco
  pub m_in : Map String (History MachineInNotFilter)
  pub m_out : Map String (History MachineOut)
  pub tg : TgService
  pub gs : GraphiteService
  pub running : Bool

-- The values that the providers of the Telegram service fill in where there are none.
abbrev pub no_state : MachineState
no_state = record { state = 0; ts = "Немає даних" }

abbrev pub no_light : MachineTimeLightEco
no_light = record { time_on_eco = 0; time_on_light = 0; ts = "Немає даних" }

-- The aggregates that `{message, 0}` starts a history with.
abbrev pub zero_in : MachineInNotFilter
zero_in = record {
  in_holod = false;
  in_holod_ver = false;
  in_night = false;
  in_pres_nf = false;
  in_svitlo = false;
  ts = "";
}

abbrev pub zero_out : MachineOut
zero_out = record {
  out_eco1 = false;
  out_eco2 = false;
  out_rb_blok = false;
  out_air = false;
  out_alarm_sig = false;
  out_osn_klap_nf = false;
  ts = "";
}
