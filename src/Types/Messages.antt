-- ===== src/Types/Messages.antt =====
-- The messages of the machines in include/types.hpp, and their `from_json`.
use mqtt_sentry.Base.{ℕ, String, Bool, Outcome, ok, ◌>>=◌, nonzero}
use mqtt_sentry.Json.{JsonLib}

pub record MachineState : Type 0 where
  pub state : ℕ
  pub ts : String

pub record MachineTimeLightEco : Type 0 where
  pub time_on_eco : ℕ
  pub time_on_light : ℕ
  pub ts : String

-- MachineIn
pub record MachineInNotFilter : Type 0 where
  pub in_holod : Bool
  pub in_holod_ver : Bool
  pub in_night : Bool
  pub in_pres_nf : Bool
  pub in_svitlo : Bool
  pub ts : String

pub record MachineInFilter : Type 0 where
  pub in_holod : Bool
  pub in_holod_ver : Bool
  pub in_night : Bool
  pub in_pres_nf : Bool
  pub in_svitlo : Bool
  pub ts : String

pub record MachineOut : Type 0 where
  pub out_eco1 : Bool
  pub out_eco2 : Bool
  pub out_rb_blok : Bool
  pub out_air : Bool
  pub out_alarm_sig : Bool
  pub out_osn_klap_nf : Bool
  pub ts : String

pub record MachineAlarmKod : Type 0 where
  pub alarm_kod : ℕ
  pub ts : String

module _ ⦃J : JsonLib⦄ where
  -- j.at(key)[0]
  first_at : J.Json → String → Outcome J.Json
  first_at j key = do v ← J.at j key; J.item v 0

  -- int buff = j.at(key)[0], as a bool
  flag_at : J.Json → String → Outcome Bool
  unfolding first_at
  flag_at j key = do v ← first_at j key; n ← J.get_int v; ok (nonzero n)

  -- j.at("ts")
  ts_of : J.Json → Outcome String
  ts_of j = do v ← J.at j "ts"; J.get_string v

  unfoldable pub machine_state_from_json : J.Json → Outcome MachineState
  unfolding first_at ts_of
  machine_state_from_json j = do
    v ← first_at j "step_pos"
    state ← J.get_uint 16 v
    ts ← ts_of j
    ok (record { state = state; ts = ts })

  unfoldable pub light_from_json : J.Json → Outcome MachineTimeLightEco
  unfolding first_at ts_of
  light_from_json j = do
    ts ← ts_of j
    d ← J.at j "d"
    eco ← first_at d "time_on_ECO"
    time_on_eco ← J.get_uint 32 eco
    d' ← J.at j "d"
    light ← first_at d' "time_on_light"
    time_on_light ← J.get_uint 32 light
    ok (record { time_on_eco = time_on_eco; time_on_light = time_on_light; ts = ts })

  unfoldable pub in_not_filter_from_json : J.Json → Outcome MachineInNotFilter
  unfolding flag_at ts_of
  in_not_filter_from_json j = do
    in_holod ← flag_at j "in_holod_nf"
    in_holod_ver ← flag_at j "in_holod_ver_nf"
    in_night ← flag_at j "in_night_nf"
    in_pres_nf ← flag_at j "in_pres_nf_NF"
    in_svitlo ← flag_at j "in_svitlo_nf"
    ts ← ts_of j
    ok (record {
      in_holod = in_holod;
      in_holod_ver = in_holod_ver;
      in_night = in_night;
      in_pres_nf = in_pres_nf;
      in_svitlo = in_svitlo;
      ts = ts;
    })

  unfoldable pub in_filter_from_json : J.Json → Outcome MachineInFilter
  unfolding flag_at ts_of
  in_filter_from_json j = do
    d ← J.field j "d"
    in_holod ← flag_at d "in_holod_f"
    in_holod_ver ← flag_at d "in_holod_ver_f"
    in_night ← flag_at d "in_night_f"
    in_pres_nf ← flag_at d "in_pres_f_NF"
    in_svitlo ← flag_at d "in_svitlo_f"
    ts ← ts_of j
    ok (record {
      in_holod = in_holod;
      in_holod_ver = in_holod_ver;
      in_night = in_night;
      in_pres_nf = in_pres_nf;
      in_svitlo = in_svitlo;
      ts = ts;
    })

  unfoldable pub out_from_json : J.Json → Outcome MachineOut
  unfolding flag_at ts_of
  out_from_json j = do
    out_eco1 ← flag_at j "out_ECO1"
    out_eco2 ← flag_at j "out_ECO2"
    out_rb_blok ← flag_at j "out_RB_blok"
    out_air ← flag_at j "out_air"
    out_alarm_sig ← flag_at j "out_alarm_sig"
    out_osn_klap_nf ← flag_at j "out_osn_klap_NF"
    ts ← ts_of j
    ok (record {
      out_eco1 = out_eco1;
      out_eco2 = out_eco2;
      out_rb_blok = out_rb_blok;
      out_air = out_air;
      out_alarm_sig = out_alarm_sig;
      out_osn_klap_nf = out_osn_klap_nf;
      ts = ts;
    })

  unfoldable pub alarm_from_json : J.Json → Outcome MachineAlarmKod
  unfolding first_at ts_of
  alarm_from_json j = do
    ts ← ts_of j
    v ← first_at j "alarm_kod"
    kod ← J.get_uint 16 v
    ok (record { alarm_kod = kod; ts = ts })
