-- ===== src/Admin/Queries.antt =====
-- The callback queries, that is the buttons, of src/adminController.cpp: onCallbackQuery in
-- registerCommands, and the panels that it shows.
use mqtt_sentry.Base.{
  ℕ, String, true, not, Option, none, some, [], ◌∷◌, ◌==◌, nat_eq, string_eq, if◌then◌else◌, ◌<>◌,
  vs16, to_string, int_to_string, ok, lookup, insert,
}
use mqtt_sentry.Tg.{Api}
use mqtt_sentry.Settings.{ConfigManager}
use mqtt_sentry.Admin.Texts.{users_text, machines_text, errors_text, ex_text}
use mqtt_sentry.Admin.{is_admin, admin_keyboard, admin_text}
use mqtt_sentry.Admin.Effects.{
  PendingAction, Act, ◌>>=◌, done, value, Keyboard, callback_button, search_button, raised_sigint,
  call_api, send_message, edit_message_text, answer_callback_query,
}

-- The button of each panel that leads back.
abbrev back : Keyboard
back = (callback_button "Назад" "admin" ∷ []) ∷ []

abbrev timeouts_keyboard : Keyboard
timeouts_keyboard =
    (callback_button "Змінити час таймаута" "admin_timeouts_change" ∷ [])
    ∷ (callback_button "Змінити кількість таймаутів з оповіщенням" "admin_timeouts_limit_change"
        ∷ [])
    ∷ back

abbrev timeouts_text : ConfigManager → String
timeouts_text cm =
    "⏲"
    <> vs16
    <> " <b>Поточні налаштування таймаутів: </b>\n Час таймаута: "
    <> int_to_string cm.logic.timeout
    <> "(c)\n Кількість таймаутів з оповіщенням: "
    <> to_string cm.logic.timeout_limit

abbrev users_keyboard : Keyboard
users_keyboard =
    (callback_button "Переглянути" "admin_users_peek" ∷ [])
    ∷ (callback_button "Додати" "admin_users_add" ∷ [])
    ∷ (callback_button "Видалити" "admin_users_rem" ∷ [])
    ∷ back

abbrev machines_keyboard : Keyboard
machines_keyboard =
    (callback_button "Переглянути" "admin_machines_peek" ∷ [])
    ∷ (callback_button "Додати" "admin_machines_add" ∷ [])
    ∷ (callback_button "Видалити" "admin_machines_rem" ∷ [])
    ∷ (search_button "Стан робота" "stateof " ∷ [])
    ∷ back

abbrev errors_keyboard : Keyboard
errors_keyboard =
    (callback_button "Переглянути список помилок" "admin_errors_peek" ∷ [])
    ∷ (callback_button "Додати помилку" "admin_errors_add"
        ∷ callback_button "Прибрати помилку" "admin_errors_rem"
        ∷ [])
    ∷ (callback_button "Переглянути список винятків" "admin_ex_peek" ∷ [])
    ∷ (callback_button "Додати виняток" "admin_ex_add"
        ∷ callback_button "Прибрати виняток" "admin_ex_rem"
        ∷ [])
    ∷ back

abbrev pub param_of : Option PendingAction → String
param_of none = ""
param_of (some it) = it.param

-- _awaitingInput[from].key = key
unfoldable pub put_key : ℕ → String → Act Unit
put_key from key s = (
  record s {
    awaiting_input =
        insert from (record { key = key; param = param_of (lookup from s.awaiting_input) })
          s.awaiting_input;
  },
  ok tt,
)

module _ ⦃api : Api⦄ (from chat message_id : ℕ) where
  unfoldable pub await_input : String → String → Act Unit
  unfolding put_key
  await_input key question = do _ ← put_key from key; send_message chat question

  -- The branches on the data of the button.
  unfoldable pub press : String → Act Unit
  unfolding await_input users_text machines_text errors_text ex_text
  press data_text s =
      if data_text == "admin"
      then edit_message_text chat message_id admin_text admin_keyboard s
      else if data_text == "admin_timeouts"
      then edit_message_text chat message_id (timeouts_text s.cm) timeouts_keyboard s
      else if data_text == "admin_timeouts_change"
      then await_input "logic.timeout" "📝 Введіть нове значення <b>часу таймаута</b> (сек):" s
      else if data_text == "admin_timeouts_limit_change"
      then await_input "logic.timeout_limit"
          "📝 Введіть нову <b>кількість таймаутів</b> для сповіщення:" s
      else if data_text == "admin_users"
      then edit_message_text chat message_id "👤 Користувачі" users_keyboard s
      else if data_text == "admin_users_peek"
      then send_message from (users_text s.cm.tg.users) s
      else if data_text == "admin_users_add"
      then await_input "tg.users.add" "📝 Введіть <b>id нового користувача</b>:" s
      else if data_text == "admin_users_rem"
      then await_input "tg.users.rem" "📝 Введіть <b>id користувача</b>, якого треба прибрати:" s
      else if data_text == "admin_machines"
      then edit_message_text chat message_id "🤖 Роботи" machines_keyboard s
      else if data_text == "admin_machines_peek"
      then (value (machines_text s.cm.logic.machines s.cm.mqtt.topic) >>= send_message chat) s
      else if data_text == "admin_machines_state"
      then await_input "machines.state" "📝 Введіть <b>ID машини</b>, яку потрібно оглянути:" s
      else if data_text == "admin_machines_add"
      then await_input "machines.add.id" "📝 Введіть <b>ID машини</b>, яку потрібно додати:" s
      else if data_text == "admin_machines_rem"
      then await_input "machines.rem" "📝 Введіть <b>ID машини</b>, яку потрібно видалити:" s
      else if data_text == "admin_errors"
      then edit_message_text chat message_id ("⚠" <> vs16 <> " Помилки") errors_keyboard s
      else if data_text == "admin_errors_peek"
      then send_message chat (errors_text s.cm.logic.code) s
      else if data_text == "admin_errors_add"
      then await_input "errors.add.code" "📝 Введіть <b>Код помилки</b>, яку потрібно додати:" s
      else if data_text == "admin_errors_rem"
      then await_input "errors.rem" "📝 Введіть <b>Код помилки</b>, яку потрібно видалити:" s
      else if data_text == "admin_ex_peek"
      then send_message chat (ex_text s.cm.logic.code s.cm.logic.disabled_codes) s
      else if data_text == "admin_ex_add"
      then await_input "ex.add" "📝 Введіть <b>Код винятка</b>, який потрібно додати:" s
      else if data_text == "admin_ex_rem"
      then await_input "ex.rem" "📝 Введіть <b>Код винятка</b>, який потрібно видалити:" s
      else if data_text == "admin_restart"
      then (send_message chat "🚀 Система перезапускається. Почекайте ~15 секунд..."
            >>= (λ _. call_api true raised_sigint))
          s
      else done tt s

  unfoldable pub on_callback_query : String → String → Act Unit
  unfolding press is_admin
  on_callback_query query data_text s =
      if not (is_admin from s.cm)
      then done tt s
      else (press data_text >>= (λ _. answer_callback_query query)) s
