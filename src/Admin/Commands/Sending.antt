-- ===== src/Admin/Commands/Sending.antt =====
-- The commands of src/adminController.cpp only send messages.
use mqtt_sentry.Base.{
  ℕ, String, not, List, [], ◌∷◌, ◌++◌, Bool, true, false, if_rule, if◌then◌else◌, ◌<>◌, to_string,
}
use mqtt_sentry.Tg.{Api}
use mqtt_sentry.Types.Messages.{MachineState, MachineTimeLightEco}
use mqtt_sentry.Settings.{ConfigManager, user_exist}
use mqtt_sentry.Utils.{split}
use mqtt_sentry.Admin.{is_admin, show_admin_pannel}
use mqtt_sentry.Admin.Effects.{
  AdminController, Output, Act, ◌>>=◌, done, message, call_api, send_message,
}
use mqtt_sentry.Admin.Keeps.{Keeps, bind-Keeps, handled-Keeps}
use mqtt_sentry.Admin.Commands.{
  log_exception, tell_admins, on_start, on_admin_command, state_reply, on_stateof,
}

module _ ⦃api : Api⦄ (P : AdminController → Type 0)
    (sending : (s : AdminController) (sent : List Output)
      → P s
      → P (record s { sent = sent })) where
  pub call-Keeps : (accepted : Bool) (output : Output) → Keeps P (call_api accepted output)
  call-Keeps true output s p = sending s (s.sent ++ output ∷ []) p
  call-Keeps false output s p = p

  send-Keeps : (chat : ℕ) (text : String) → Keeps P (send_message chat text)
  send-Keeps chat text = call-Keeps (api.accepts chat text) (message chat text [])

  log-Keeps : (body : Act Unit) → Keeps P body → Keeps P (log_exception body)
  unfolding log_exception
  log-Keeps body b s p = handled-Keeps P (done tt) (body s) (λ s p. p) (b s p)

  admins-Keeps : (admins : List ℕ) (text : String) → Keeps P (tell_admins admins text)
  unfolding tell_admins
  admins-Keeps [] text = λ s p. p
  admins-Keeps (admin ∷ rest) text =
      bind-Keeps P (send_message admin text) (λ _. tell_admins rest text) (send-Keeps admin text)
        (λ _. admins-Keeps rest text)

  pub on_start-Keeps : (id : ℕ) → Keeps P (on_start id)
  unfolding on_start
  on_start-Keeps id s p =
      let text = "New User Candidate: <code><b>" <> to_string id <> "</b></code>\n" in
      let greet : Act Unit = send_message id "k" >>= (λ _. tell_admins s.cm.tg.admins text) in
      let refuse : Act Unit = send_message id "Не кнопкодав" in
      log-Keeps (if not (user_exist id s.cm) then greet else refuse)
        (if_rule (Keeps P) (not (user_exist id s.cm)) {x = greet} {y = refuse}
          (bind-Keeps P (send_message id "k") (λ _. tell_admins s.cm.tg.admins text)
            (send-Keeps id "k") (λ _. admins-Keeps s.cm.tg.admins text))
          (send-Keeps id "Не кнопкодав"))
        s p

  pub on_admin_command-Keeps : (id : ℕ) → Keeps P (on_admin_command id)
  unfolding on_admin_command show_admin_pannel
  on_admin_command-Keeps id s p =
      let refuse : Act Unit = send_message id "Недостатньо прав" in
      log-Keeps (if is_admin id s.cm then show_admin_pannel id else refuse)
        (if_rule (Keeps P) (is_admin id s.cm) {x = show_admin_pannel id} {y = refuse}
          (call-Keeps _ _) (send-Keeps id "Недостатньо прав"))
        s p

  module _ (get_machine_state : String → MachineState)
      (get_machine_light : String → MachineTimeLightEco) where
    reply-Keeps :
        (uid : ℕ) (cm : ConfigManager) (words : List String)
        → Keeps P (state_reply get_machine_state get_machine_light uid cm words)
    unfolding state_reply
    reply-Keeps uid cm [] = call-Keeps _ _
    reply-Keeps uid cm (_ ∷ []) = call-Keeps _ _
    reply-Keeps uid cm (_ ∷ mid ∷ []) = call-Keeps _ _
    reply-Keeps uid cm (_ ∷ mid ∷ _ ∷ _) = call-Keeps _ _

    pub on_stateof-Keeps :
        (uid : ℕ) (text : String)
        → Keeps P (on_stateof get_machine_state get_machine_light uid text)
    unfolding on_stateof
    on_stateof-Keeps uid text s p =
        let refuse : Act Unit = send_message uid "Користувач незареєстрований, спробуй /start" in
        let reply = state_reply get_machine_state get_machine_light uid s.cm (split " " text) in
        log-Keeps (if not (user_exist uid s.cm) then refuse else reply)
          (if_rule (Keeps P) (not (user_exist uid s.cm)) {x = refuse} {y = reply} (send-Keeps uid _)
            (reply-Keeps uid s.cm (split " " text)))
          s p
