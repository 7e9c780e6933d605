-- ===== src/App/Threads/Measured.antt =====
-- The measurements in the messages of src/mqttService.cpp that src/application.cpp should hand to
-- Graphite.
use mqtt_sentry.Base.{
  lookup, none, some, Bool, true, false, ◌==◌, ℕ, String, ◌&&◌, List, [], ◌∷◌, ◌++◌, ◌<>◌, ◌%◌, ◌^◌,
  to_i64, if◌then◌else◌, string_eq,
}
use mqtt_sentry.Utils.{TimeZone, string_to_unix}
use mqtt_sentry.Types.{Metric}
use mqtt_sentry.Settings.{ConfigManager}
use mqtt_sentry.Mapper.{of_bool}
use mqtt_sentry.App.Threads.{
  Callback, state_came, in_came, in_filter_came, out_came, light_came, alarm_came, Event, called,
  configured,
}

-- The metrics of one message: its values under the machine's path, with its time.
unfoldable pub batch : String → ℕ → List (String × ℕ) → List Metric
batch path ts [] = []
batch path ts ((name, value) ∷ rest) =
    record { path = path <> name; value = value % 2 ^ 32; ts = to_i64 ts } ∷ batch path ts rest

-- A machine goes by its pseudonym, and by its ID if it has none.
abbrev pub name_of : ConfigManager → String → String
name_of cm id = elim (lookup id cm.logic.machines) [ none ↦ id | some name ↦ name ]

-- Whether there was a message of the machine on the inputs, and one on the outputs.
abbrev pub has_in : String → List Callback → Bool
has_in k [] = false
has_in k (in_came id m ∷ rest) = if id == k then true else has_in k rest
has_in k (_ ∷ rest) = has_in k rest

abbrev pub has_out : String → List Callback → Bool
has_out k [] = false
has_out k (out_came id m ∷ rest) = if id == k then true else has_out k rest
has_out k (_ ∷ rest) = has_out k rest

module _ ⦃z : TimeZone⦄ where
  -- The metrics that Graphite should get for a call, after those that were heard before. Those of
  -- the inputs and of the outputs are taken once there has been a message on each.
  abbrev pub measured_by : ConfigManager → List Callback → Callback → List Metric
  measured_by cm heard (state_came id ms) =
      batch (name_of cm id <> ".state.") (string_to_unix ms.ts) (("step_pos", ms.state) ∷ [])
  measured_by cm heard (in_came id m) =
      if has_in id heard && has_out id heard
      then batch (name_of cm id <> ".in_not_fil.") (string_to_unix m.ts) (
          ("in_holod_nf", of_bool m.in_holod)
          ∷ ("in_holod_ver_nf", of_bool m.in_holod_ver)
          ∷ ("in_night_nf", of_bool m.in_night)
          ∷ ("in_pres_nf_NF", of_bool m.in_pres_nf)
          ∷ ("in_svitlo_nf", of_bool m.in_svitlo)
          ∷ [])
      else []
  measured_by cm heard (in_filter_came id m) =
      batch (name_of cm id <> ".in_filter.") (string_to_unix m.ts) (
        ("in_holod_f", of_bool m.in_holod)
        ∷ ("in_holod_ver_f", of_bool m.in_holod_ver)
        ∷ ("in_night_f", of_bool m.in_night)
        ∷ ("in_pres_f_NF", of_bool m.in_pres_nf)
        ∷ ("in_svitlo_f", of_bool m.in_svitlo)
        ∷ [])
  measured_by cm heard (out_came id m) =
      if has_out id heard && has_in id heard
      then batch (name_of cm id <> ".out.") (string_to_unix m.ts) (
          ("out_ECO1", of_bool m.out_eco1)
          ∷ ("out_ECO2", of_bool m.out_eco2)
          ∷ ("out_RB_blok", of_bool m.out_rb_blok)
          ∷ ("out_air", of_bool m.out_air)
          ∷ ("out_alarm_sig", of_bool m.out_alarm_sig)
          ∷ ("out_osn_klap_NF", of_bool m.out_osn_klap_nf)
          ∷ [])
      else []
  measured_by cm heard (light_came id l) =
      batch (name_of cm id <> ".time_light_ECO.") (string_to_unix l.ts)
        (("time_on_ECO", l.time_on_eco) ∷ ("time_on_light", l.time_on_light) ∷ [])
  measured_by cm heard (alarm_came id a) =
      batch (name_of cm id <> ".alarm_kod.") (string_to_unix a.ts) (("alarm_kod", a.alarm_kod) ∷ [])
  measured_by cm heard _ = []

  -- The metrics for all events, with the configuration and after the calls before them.
  abbrev pub measured_all : ConfigManager → List Callback → List Event → List Metric
  measured_all cm heard [] = []
  measured_all cm heard (called c ∷ rest) =
      measured_by cm heard c ++ measured_all cm (c ∷ heard) rest
  measured_all cm heard (configured cm' ∷ rest) = measured_all cm' heard rest
  measured_all cm heard (_ ∷ rest) = measured_all cm heard rest
