-- ===== src/Admin/Commands.antt =====
-- The commands /start, /admin and /stateof of registerCommands in src/adminController.cpp.
pub mod Sending
use mqtt_sentry.Base.{
  ℕ, String, not, none, some, List, [], ◌∷◌, nat_eq, string_eq, if◌then◌else◌, ◌<>◌, vs16,
  to_string, lookup,
}
use mqtt_sentry.Tg.{Api}
use mqtt_sentry.Utils.{split, format_time}
use mqtt_sentry.Types.Messages.{MachineState, MachineTimeLightEco}
use mqtt_sentry.Settings.{ConfigManager, user_exist, resolve_hmi_name}
use mqtt_sentry.Admin.{is_admin, show_admin_pannel}
use mqtt_sentry.Admin.Effects.{
  Act, ◌>>=◌, done, send_message, send_keyboard, catch_all, search_button,
}

-- What /stateof tells of a machine.
unfoldable pub state_text : ConfigManager → String → MachineState → MachineTimeLightEco → String
state_text cm mid ms ml =
    resolve_hmi_name cm mid
    <> ":\n"
    <> (elim (lookup ms.state cm.logic.poses) [
      | some name ↦ "step_pos: " <> to_string ms.state <> " " <> name <> "\nts: " <> ms.ts
      | none ↦ "step_pos: " <> to_string ms.state <> "\n ts: " <> ms.ts
    ])
    <> "\n───────────────────"
    <> "\ntime_on_eco: "
    <> format_time ml.time_on_eco
    <> "\ntime_on_light: "
    <> format_time ml.time_on_light
    <> "\nts: "
    <> ml.ts

module _ ⦃api : Api⦄ where
  -- try { body } catch (const std::exception& e) { log }
  log_exception : Act Unit → Act Unit
  log_exception body = catch_all body (done tt)

  -- for (auto admin: admins) sendMessage(admin, text)
  tell_admins : List ℕ → String → Act Unit
  tell_admins [] text = done tt
  tell_admins (admin ∷ rest) text = do _ ← send_message admin text; tell_admins rest text

  unfoldable pub on_start : ℕ → Act Unit
  unfolding log_exception tell_admins
  on_start id s =
      log_exception
        (if not (user_exist id s.cm)
          then (do
            _ ← send_message id "k"
            tell_admins s.cm.tg.admins
                ("New User Candidate: <code><b>" <> to_string id <> "</b></code>\n"))
          else send_message id "Не кнопкодав")
        s

  unfoldable pub on_admin_command : ℕ → Act Unit
  unfolding log_exception is_admin
  on_admin_command id s =
      log_exception
        (if is_admin id s.cm then show_admin_pannel id else send_message id "Недостатньо прав") s

  -- The providers give what the application knows of a machine.
  module _ (get_machine_state : String → MachineState)
      (get_machine_light : String → MachineTimeLightEco) where
    -- switch (text_to.size())
    state_reply : ℕ → ConfigManager → List String → Act Unit
    unfolding state_text
    state_reply uid cm (_ ∷ []) =
        send_keyboard uid "Натисніть на цю кнопку для швидкого пошуку"
          ((search_button "Стан робота" "stateof " ∷ []) ∷ [])
    state_reply uid cm (_ ∷ mid ∷ []) =
        send_message uid (state_text cm mid (get_machine_state mid) (get_machine_light mid))
    state_reply uid cm _ =
        send_message uid ("⚠" <> vs16 <> " Використання: <code>/stateof MACHINE_ID</code>")

    unfoldable pub on_stateof : ℕ → String → Act Unit
    unfolding log_exception state_reply
    on_stateof uid text s =
        log_exception
          (if not (user_exist uid s.cm)
            then send_message uid "Користувач незареєстрований, спробуй /start"
            else state_reply uid s.cm (split " " text))
          s
