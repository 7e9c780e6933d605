-- ===== src/Admin/Updates.antt =====
-- Everything that users send to the bot of src/adminController.cpp, one update after the other.
use mqtt_sentry.Base.{
  ℕ, String, ◌≡◌, ◌≢◌, refl, ◌∙◌, Option, false, List, [], ◌∷◌, All, arith, lookup, lookup-insert,
  lookup-erase, nat_eq, nat_beq_iff,
}
use mqtt_sentry.Json.{JsonLib}
use mqtt_sentry.Tg.{Api}
use mqtt_sentry.Types.Messages.{MachineState, MachineTimeLightEco}
use mqtt_sentry.Settings.{ConfigManager}
use mqtt_sentry.Admin.{is_admin, too_small, on_any_message}
use mqtt_sentry.Admin.Effects.{AdminController, PendingAction, Act}
use mqtt_sentry.Admin.Queries.{on_callback_query}
use mqtt_sentry.Admin.Commands.{on_start, on_admin_command, on_stateof}
use mqtt_sentry.Admin.Search.{on_inline_query}
use mqtt_sentry.Admin.Keeps.{Keeps, IsStable}
use mqtt_sentry.Admin.Keeps.Messages.{on_any_message-Keeps}
use mqtt_sentry.Admin.Presses.{on_callback_query-After}
use mqtt_sentry.Admin.Commands.Sending.{on_start-Keeps, on_admin_command-Keeps, on_stateof-Keeps}
use mqtt_sentry.Admin.Search.Sending.{on_inline_query-Keeps}

-- An update, with the user that it is from.
pub data Update : Type 0 where
  wrote : (from chat : ℕ) (text : String) → Update
  pressed : (from chat message_id : ℕ) (query data_text : String) → Update
  start_command admin_command : ℕ → Update
  stateof_command : ℕ → String → Update
  searched : (from : ℕ) (query text : String) → Update

abbrev pub sender : Update → ℕ
sender (wrote from chat text) = from
sender (pressed from chat message_id query data_text) = from
sender (start_command from) = from
sender (admin_command from) = from
sender (stateof_command from text) = from
sender (searched from query text) = from

module _ ⦃J : JsonLib⦄ ⦃api : Api⦄ (get_machine_state : String → MachineState)
    (get_machine_light : String → MachineTimeLightEco) where
  unfoldable pub handle : Update → Act Unit
  handle (wrote from chat text) = on_any_message from chat text
  handle (pressed from chat message_id query data_text) =
      on_callback_query from chat message_id query data_text
  handle (start_command from) = on_start from
  handle (admin_command from) = on_admin_command from
  handle (stateof_command from text) = on_stateof get_machine_state get_machine_light from text
  handle (searched from query text) = on_inline_query from query text

  unfoldable pub handle_all : List Update → AdminController → AdminController
  handle_all [] s = s
  handle_all (u ∷ us) s = handle_all us (handle u s).0

  handle-Keeps :
      (u : Update) (P : AdminController → Type 0) → IsStable (sender u) P → Keeps P (handle u)
  unfolding handle
  handle-Keeps (wrote from chat text) P stable = on_any_message-Keeps from P stable chat text
  handle-Keeps (pressed from chat message_id query data_text) P stable =
      on_callback_query-After from chat message_id P
        (record { sending = stable.sending; putting = stable.putting }) query data_text
  handle-Keeps (start_command from) P stable = on_start-Keeps P stable.sending from
  handle-Keeps (admin_command from) P stable = on_admin_command-Keeps P stable.sending from
  handle-Keeps (stateof_command from text) P stable =
      on_stateof-Keeps P stable.sending get_machine_state get_machine_light from text
  handle-Keeps (searched from query text) P stable =
      on_inline_query-Keeps P stable.sending from query text

  all-Keeps :
      (us : List Update) (P : AdminController → Type 0) (s : AdminController)
      → All (λ u. IsStable (sender u) P) us
      → P s
      → P (handle_all us s)
  unfolding handle_all
  all-Keeps [] P s a p = p
  all-Keeps (u ∷ us) P s a p = all-Keeps us P (handle u s).0 a.1 (handle-Keeps u P a.0 s p)

  same_timeout-IsStable : (from : ℕ) → IsStable from (λ s. too_small s.cm.logic.timeout ≡ false)
  same_timeout-IsStable from = record {
    sending = λ s sent p. p;
    putting = λ s a p. p;
    ending = λ s p. p;
    changing = λ s cm allowed p. allowed.timeout p;
  }

  All-stable :
      (us : List Update)
      → All (λ u. IsStable (sender u) (λ s. too_small s.cm.logic.timeout ≡ false)) us
  All-stable [] = tt
  All-stable (u ∷ us) = (same_timeout-IsStable (sender u), All-stable us)

  -- Nothing that users send to the bot, whatever happens on the way, makes a timeout of at least 5
  -- seconds smaller than that.
  pub handle_all-timeout :
      (us : List Update) (s : AdminController)
      → too_small s.cm.logic.timeout ≡ false
      → too_small (handle_all us s).cm.logic.timeout ≡ false
  handle_all-timeout us s h =
      all-Keeps us (λ s. too_small s.cm.logic.timeout ≡ false) s (All-stable us) h

  others-IsStable :
      (from other : ℕ) (awaited : Option PendingAction)
      → other ≢ from
      → IsStable from (λ s. lookup other s.awaiting_input ≡ awaited)
  others-IsStable from other awaited ne = record {
    sending = λ s sent p. p;
    putting = λ s a p.
        ground (arith, lookup-insert from other a s.awaiting_input, nat_beq_iff from other);
    ending =
        λ s p. ground (arith, lookup-erase from other s.awaiting_input, nat_beq_iff from other);
    changing = λ s cm allowed p. p;
  }

  others_stable :
      (us : List Update) (other : ℕ) (awaited : Option PendingAction)
      → All (λ u. other ≢ sender u) us
      → All (λ u. IsStable (sender u) (λ s. lookup other s.awaiting_input ≡ awaited)) us
  others_stable [] other awaited ne = tt
  others_stable (u ∷ us) other awaited ne =
      (others-IsStable (sender u) other awaited ne.0, others_stable us other awaited ne.1)

  -- Whatever other users send to the bot, the dialogue of a user stays where it is.
  pub handle_all-others :
      (us : List Update) (other : ℕ) (s : AdminController)
      → All (λ u. other ≢ sender u) us
      → lookup other (handle_all us s).awaiting_input ≡ lookup other s.awaiting_input
  handle_all-others us other s ne =
      let awaited = lookup other s.awaiting_input in
      all-Keeps us (λ s. lookup other s.awaiting_input ≡ awaited) s
        (others_stable us other awaited ne) refl

  -- The configuration and the dialogues are as they were.
  abbrev Unchanged : AdminController → AdminController → Type 0
  Unchanged before s = (s.cm ≡ before.cm) × (s.awaiting_input ≡ before.awaiting_input)

  stranger-Unchanged :
      (u : Update) (s : AdminController)
      → is_admin (sender u) s.cm ≡ false
      → Unchanged s (handle u s).0
  unfolding handle on_any_message on_callback_query
  stranger-Unchanged (wrote from chat text) s h = simp h (refl, refl)
  stranger-Unchanged (pressed from chat message_id query data_text) s h = simp h (refl, refl)
  stranger-Unchanged (start_command from) s h =
      on_start-Keeps (Unchanged s) (λ s sent p. p) from s (refl, refl)
  stranger-Unchanged (admin_command from) s h =
      on_admin_command-Keeps (Unchanged s) (λ s sent p. p) from s (refl, refl)
  stranger-Unchanged (stateof_command from text) s h =
      on_stateof-Keeps (Unchanged s) (λ s sent p. p) get_machine_state get_machine_light from text s
        (refl, refl)
  stranger-Unchanged (searched from query text) s h =
      on_inline_query-Keeps (Unchanged s) (λ s sent p. p) from query text s (refl, refl)

  strangers-config :
      (cm : ConfigManager) (us : List Update) (s : AdminController)
      → s.cm ≡ cm
      → All (λ u. is_admin (sender u) cm ≡ false) us
      → Unchanged s (handle_all us s)
  unfolding handle_all
  strangers-config cm [] s e a = (refl, refl)
  strangers-config cm (u ∷ us) s e a =
      let now = stranger-Unchanged u s (rw e a.0) in
      let later = strangers-config cm us (handle u s).0 (now.0 ∙ e) a.1 in
      (later.0 ∙ now.0, later.1 ∙ now.1)

  -- Users who are no administrators change neither the configuration nor any dialogue, whatever
  -- they send to the bot.
  pub strangers_change_nothing :
      (us : List Update) (s : AdminController)
      → All (λ u. is_admin (sender u) s.cm ≡ false) us
      → ((handle_all us s).cm ≡ s.cm) × ((handle_all us s).awaiting_input ≡ s.awaiting_input)
  strangers_change_nothing us s a = strangers-config s.cm us s refl a
