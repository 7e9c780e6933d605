-- ===== src/Mapper.antt =====
-- include/mapper.hpp and src/mapper.cpp: the metrics of each message, handed one by one to a sink
-- that acts on a state `S`.
use mqtt_sentry.Base.{ℕ, ◌%◌, ◌^◌, String, Bool, true, false, List, [], ◌∷◌, ◌<>◌, to_i64}
use mqtt_sentry.Utils.{TimeZone, string_to_unix}
use mqtt_sentry.Types.{Metric}
use mqtt_sentry.Types.Messages.{
  MachineState, MachineTimeLightEco, MachineInNotFilter, MachineInFilter, MachineOut,
  MachineAlarmKod,
}
use mqtt_sentry.Settings.{ConfigManager, resolve_path}

abbrev pub of_bool : Bool → ℕ
of_bool true = 1
of_bool false = 0

-- metric.path = path + name; metric.value = value; sink(metric); for each name and value. The
-- value is converted to 32 bits.
unfoldable pub sink_each {ℓ} :
    {S : Type ℓ} → (Metric → S → S) → String → ℕ → List (String × ℕ) → S → S
sink_each sink path ts [] s = s
sink_each sink path ts ((name, value) ∷ rest) s =
    sink_each sink path ts rest
      (sink (record { path = path <> name; value = value % 2 ^ 32; ts = to_i64 ts }) s)

module _ ⦃z : TimeZone⦄ {S : Type 0} (cm : ConfigManager) (sink : Metric → S → S)
    (id : String) where
  unfoldable pub map_state : MachineState → S → S
  map_state to_map =
      sink_each sink (resolve_path cm id <> ".state.") (string_to_unix to_map.ts)
        (("step_pos", to_map.state) ∷ [])

  unfoldable pub map_light : MachineTimeLightEco → S → S
  map_light to_map =
      sink_each sink (resolve_path cm id <> ".time_light_ECO.") (string_to_unix to_map.ts)
        (("time_on_ECO", to_map.time_on_eco) ∷ ("time_on_light", to_map.time_on_light) ∷ [])

  unfoldable pub map_in : MachineInNotFilter → S → S
  map_in to_map = sink_each sink (resolve_path cm id <> ".in_not_fil.") (string_to_unix to_map.ts) (
      ("in_holod_nf", of_bool to_map.in_holod)
      ∷ ("in_holod_ver_nf", of_bool to_map.in_holod_ver)
      ∷ ("in_night_nf", of_bool to_map.in_night)
      ∷ ("in_pres_nf_NF", of_bool to_map.in_pres_nf)
      ∷ ("in_svitlo_nf", of_bool to_map.in_svitlo)
      ∷ [])

  unfoldable pub map_in_filter : MachineInFilter → S → S
  map_in_filter to_map =
      sink_each sink (resolve_path cm id <> ".in_filter.") (string_to_unix to_map.ts) (
        ("in_holod_f", of_bool to_map.in_holod)
        ∷ ("in_holod_ver_f", of_bool to_map.in_holod_ver)
        ∷ ("in_night_f", of_bool to_map.in_night)
        ∷ ("in_pres_f_NF", of_bool to_map.in_pres_nf)
        ∷ ("in_svitlo_f", of_bool to_map.in_svitlo)
        ∷ [])

  unfoldable pub map_out : MachineOut → S → S
  map_out to_map = sink_each sink (resolve_path cm id <> ".out.") (string_to_unix to_map.ts) (
      ("out_ECO1", of_bool to_map.out_eco1)
      ∷ ("out_ECO2", of_bool to_map.out_eco2)
      ∷ ("out_RB_blok", of_bool to_map.out_rb_blok)
      ∷ ("out_air", of_bool to_map.out_air)
      ∷ ("out_alarm_sig", of_bool to_map.out_alarm_sig)
      ∷ ("out_osn_klap_NF", of_bool to_map.out_osn_klap_nf)
      ∷ [])

  unfoldable pub map_alarm : MachineAlarmKod → S → S
  map_alarm to_map =
      sink_each sink (resolve_path cm id <> ".alarm_kod.") (string_to_unix to_map.ts)
        (("alarm_kod", to_map.alarm_kod) ∷ [])
