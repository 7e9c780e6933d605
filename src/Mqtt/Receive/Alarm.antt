-- ===== src/Mqtt/Receive/Alarm.antt =====
-- The alarm codes: which of them raise an alert, before and after addEx and remEx.
use mqtt_sentry.Base.{
  ℕ, String, ◌≡◌, Bool, true, false, not, Option, none, some, [], ◌∷◌, ◌++◌, arith, ◌==◌, nat_eq,
  if◌then◌else◌, ◌<>◌, to_string, ok, contains, keep, lookup,
}
use mqtt_sentry.Json.{JsonLib}
use mqtt_sentry.Types.{AlertEvents, fine, error}
use mqtt_sentry.Types.Messages.{MachineAlarmKod}
use mqtt_sentry.Settings.{ConfigManager, resolve_hmi_name}
use mqtt_sentry.Settings.Manager.{add_ex, rem_ex, update_logic_config}
use mqtt_sentry.Settings.Writes.{write-config}
use mqtt_sentry.Settings.Users.{contains-append, contains-keep}
use mqtt_sentry.Mqtt.{Callbacks}
use mqtt_sentry.Mqtt.Receive.{receive_again, deliver_alarm}

-- What a user should be told of a code: its text, and that all is well only for the known code 0.
abbrev pub code_message : ℕ → Option String → String
code_message kod (some des) = des
code_message kod none = "Unknown error with code " <> to_string kod

abbrev pub is_fine : ℕ → Option String → Bool
is_fine kod (some des) = kod == 0
is_fine kod none = false

abbrev pub alarm_alert : ConfigManager → String → MachineAlarmKod → AlertEvents
alarm_alert cm id mk = record {
  state = if is_fine mk.alarm_kod (lookup mk.alarm_kod cm.logic.code) then fine else error;
  machine_id = resolve_hmi_name cm id;
  message = code_message mk.alarm_kod (lookup mk.alarm_kod cm.logic.code);
  timestamp = mk.ts;
}

module _ ⦃J : JsonLib⦄ {S : Type 0} (callbacks : Callbacks S) (id : String) (mk : MachineAlarmKod)
    (s : S) where
  -- After addEx of a code, whether it could be saved or not, a message with the code goes to the
  -- metrics and raises no alert.
  pub add_ex_mutes :
      (cm : ConfigManager)
      → deliver_alarm (add_ex mk.alarm_kod cm).0 callbacks id (ok mk) s
        ≡ (callbacks.on_malarm id mk s, receive_again)
  unfolding deliver_alarm add_ex update_logic_config
  add_ex_mutes cm =
      let updated = record cm {
        logic = record cm.logic { disabled_codes = cm.logic.disabled_codes ++ mk.alarm_kod ∷ [] };
      } in
      let muted : contains mk.alarm_kod (add_ex mk.alarm_kod cm).0.logic.disabled_codes ≡ true =
        ground (
          arith,
          write-config updated,
          contains-append mk.alarm_kod mk.alarm_kod cm.logic.disabled_codes,
        ) in
      rw muted

  -- After remEx of a code, whether it could be saved or not, a message with the code goes to the
  -- metrics and raises one alert, with the text of the code or the notice that it is unknown.
  pub rem_ex_unmutes :
      (cm : ConfigManager)
      → deliver_alarm (rem_ex mk.alarm_kod cm).0 callbacks id (ok mk) s
        ≡ (callbacks.on_alert (alarm_alert cm id mk) (callbacks.on_malarm id mk s), receive_again)
  unfolding deliver_alarm rem_ex update_logic_config resolve_hmi_name
  rem_ex_unmutes cm =
      let updated = record cm {
        logic = record cm.logic {
          disabled_codes = keep (λ each. not (each == mk.alarm_kod)) cm.logic.disabled_codes;
        };
      } in
      ground (
        arith,
        write-config updated,
        contains-keep mk.alarm_kod mk.alarm_kod cm.logic.disabled_codes,
      )
