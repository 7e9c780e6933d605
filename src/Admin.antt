-- ===== src/Admin.antt =====
-- include/adminController.hpp and src/adminController.cpp: the administrators' dialogues.
pub mod Effects
pub mod Texts
pub mod Queries
pub mod Presses
pub mod Commands
pub mod Search
pub mod Keeps
pub mod Config
pub mod Dialogue
pub mod Updates
pub mod Newcomer
use mqtt_sentry.Base.{
  ℕ, String, Bool, true, false, not, ◌||◌, Option, none, some, [], ◌∷◌, ◌==◌, nat_eq, string_eq,
  if◌then◌else◌, ◌<>◌, Exception, runtime_error, Outcome, ok, throw, undefined, ℤ, pos, negsuc, ltb,
  contains, lookup, insert, erase, vs16,
}
use mqtt_sentry.Json.{JsonLib}
use mqtt_sentry.Tg.{Api}
use mqtt_sentry.Utils.Scan.{stoul, stoull, stoll}
use mqtt_sentry.Settings.{ConfigManager, Logic}
use mqtt_sentry.Settings.Manager.{
  update_logic_config, add_user, remove_user, add_machine, remove_machine, add_error, rem_error,
  add_ex, rem_ex,
}
use Effects.{
  AdminController, PendingAction, Act, ◌>>=◌, done, send_message, send_keyboard, Keyboard,
  callback_button, on_config, on_config_outcome, value, put_action, end_action, catch_all,
}

-- _isAdmin
unfoldable pub is_admin : ℕ → ConfigManager → Bool
is_admin user_id cm = contains user_id cm.tg.admins

-- val < 5
abbrev pub too_small : ℤ → Bool
too_small (pos n) = ltb n 5
too_small (negsuc n) = true

abbrev pub is_cancel : String → Bool
is_cancel text = text == "Відміна" || text == "/cancel"

abbrev pub admin_keyboard : Keyboard
admin_keyboard =
    (callback_button ("⚠" <> vs16 <> " Помилки") "admin_errors" ∷ [])
    ∷ (callback_button ("⏲" <> vs16 <> " Таймаути") "admin_timeouts" ∷ [])
    ∷ (callback_button "🤖 Роботи" "admin_machines" ∷ [])
    ∷ (callback_button "👤 Користувачі" "admin_users" ∷ [])
    ∷ (callback_button "🚀 Перезавантажити" "admin_restart" ∷ [])
    ∷ []

abbrev pub admin_text : String
admin_text = "🛠 <b>Адмін-панель керування</b>\nОберіть потрібну дію:"

abbrev pub incorrect : String
incorrect = "⚠" <> vs16 <> " Помилка: введіть коректне додатне число."

module _ ⦃api : Api⦄ where
  -- _showAdminPannel
  unfoldable pub show_admin_pannel : ℕ → Act Unit
  show_admin_pannel id = send_keyboard id admin_text admin_keyboard

module _ ⦃J : JsonLib⦄ ⦃api : Api⦄ where
  -- try { success = change(number); } catch (const std::exception& e) { sendMessage(complaint); }
  try_number : ℕ → String → (ℕ → ConfigManager → ConfigManager × Bool) → Outcome ℕ → Act Bool
  try_number chat complaint change (ok n) = on_config (change n)
  try_number chat complaint change (throw e) = do _ ← send_message chat complaint; done false
  try_number chat complaint change undefined = value undefined

  set_timeout : ℤ → Act Bool
  set_timeout val =
      if too_small val
      then value (throw runtime_error)
      else on_config (λ cm. update_logic_config (record cm.logic { timeout = val }) cm)

  set_timeout_limit : ℕ → ConfigManager → ConfigManager × Bool
  set_timeout_limit val cm = update_logic_config (record cm.logic { timeout_limit = val }) cm

  -- A first step of two: the text is kept, and the second one is asked for.
  next_step : ℕ → ℕ → String → String → String → Act Bool
  next_step from chat key text question = do
    _ ← put_action from (record { key = key; param = text })
    _ ← send_message chat question
    done false

  -- The branches on the key; the result is `success`.
  unfoldable pub apply : ℕ → ℕ → PendingAction → String → Act Bool
  unfolding try_number set_timeout set_timeout_limit next_step
  apply from chat it text =
      if it.key == "logic.timeout"
      then (do val ← value (stoll text); set_timeout val)
      else if it.key == "logic.timeout_limit"
      then (do val ← value (stoul text); on_config (set_timeout_limit val))
      else if it.key == "tg.users.add"
      then try_number chat "❌ Помилка: ID має бути числом." add_user (stoull text)
      else if it.key == "tg.users.rem"
      then (do val ← value (stoull text); on_config (remove_user val))
      else if it.key == "machines.add.id"
      then next_step from chat "machines.add.pseudo" text "📝 Введіть <b>Підпис машини</b>:"
      else if it.key == "machines.add.pseudo"
      then on_config_outcome (add_machine it.param text)
      else if it.key == "machines.rem"
      then on_config_outcome (remove_machine text)
      else if it.key == "errors.add.code"
      then next_step from chat "errors.add.des" text "📝 Введіть <b>Опис помилки</b>:"
      else if it.key == "errors.add.des"
      then try_number chat "❌ Помилка: код має бути числом." (λ code. add_error code text)
          (stoul it.param)
      else if it.key == "errors.rem"
      then try_number chat "❌ Помилка: код має бути числом." rem_error (stoul text)
      else if it.key == "ex.add"
      then try_number chat "❌ Помилка: код має бути числом." add_ex (stoul text)
      else if it.key == "ex.rem"
      then try_number chat "❌ Помилка: код має бути числом." rem_ex (stoul text)
      else done false

  -- if (success) { … }
  finish : ℕ → ℕ → String → Bool → Act Unit
  unfolding show_admin_pannel
  finish from chat key false = done tt
  finish from chat key true = do
    _ ← send_message chat ("✅ Значення <b>" <> key <> "</b> успішно оновлено!")
    _ ← end_action from
    show_admin_pannel chat

  cancel : ℕ → ℕ → Act Unit
  cancel from chat = do _ ← end_action from; send_message chat "❌ Редагування скасовано."

  edit : ℕ → ℕ → String → PendingAction → Act Unit
  unfolding apply finish
  edit from chat text it =
      catch_all (do success ← apply from chat it text; finish from chat it.key success)
        (send_message chat incorrect)

  -- The message of an administrator whose input is awaited.
  answer : ℕ → ℕ → String → PendingAction → Act Unit
  unfolding cancel edit
  answer from chat text it = if is_cancel text then cancel from chat else edit from chat text it

  -- Of a message when no input is awaited, the code has a `todo`.
  answer_awaited : ℕ → ℕ → String → Option PendingAction → Act Unit
  unfolding answer
  answer_awaited from chat text none = done tt
  answer_awaited from chat text (some it) = answer from chat text it

  -- _onAnyMessage
  unfoldable pub on_any_message : ℕ → ℕ → String → Act Unit
  unfolding is_admin answer_awaited
  on_any_message from chat text s =
      if not (is_admin from s.cm)
      then done tt s
      else answer_awaited from chat text (lookup from s.awaiting_input) s
