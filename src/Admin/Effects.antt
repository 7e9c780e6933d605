-- ===== src/Admin/Effects.antt =====
-- What a handler of the administrators' bot does: it changes the controller, the configuration and
-- the chats, and ends with a value or an exception, after which the changes stay.
use mqtt_sentry.Base.{
  ℕ, String, Bool, List, [], ◌∷◌, ◌++◌, if◌then◌else◌, runtime_error, Outcome, ok, throw, undefined,
  Assoc, insert, erase, nat_eq,
}
use mqtt_sentry.Settings.{ConfigManager}
use mqtt_sentry.Tg.{Api}

pub record PendingAction : Type 0 where
  pub key : String
  pub param : String

-- A button that sends its data to the bot, or that opens the inline search with a text.
pub data Button : Type 0 where
  callback_button : (text callback_data : String) → Button
  search_button : (text query : String) → Button

abbrev pub Keyboard : Type 0
Keyboard = List (List Button)

-- One result of the inline search.
pub record Article : Type 0 where
  pub id : String
  pub title : String
  pub description : String
  pub message_text : String

-- What the Telegram API has accepted, and the signal that the bot raises.
pub data Output : Type 0 where
  message : (chat : ℕ) (text : String) → Keyboard → Output
  edited : (chat message_id : ℕ) (text : String) → Keyboard → Output
  answered_callback : String → Output
  answered_inline : String → List Article → Output
  raised_sigint : Output

-- AdminController, with the manager and the bot that it refers to.
pub record AdminController : Type 0 where
  pub awaiting_input : Assoc ℕ PendingAction
  pub cm : ConfigManager
  pub sent : List Output

abbrev pub Act : Type 0 → Type 0
Act A = AdminController → AdminController × Outcome A

abbrev pub proceed :
    {A B : Type 0} → AdminController × Outcome A → (A → Act B) → AdminController × Outcome B
proceed (s, ok a) next = next a s
proceed (s, throw e) next = (s, throw e)
proceed (s, undefined) next = (s, undefined)

infixl 5 ◌>>=◌
abbrev pub ◌>>=◌ : {A B : Type 0} → Act A → (A → Act B) → Act B
(first >>= next) s = proceed (first s) next

abbrev pub done : {A : Type 0} → A → Act A
done a s = (s, ok a)

abbrev pub value : {A : Type 0} → Outcome A → Act A
value o s = (s, o)

-- Every failure of the API is an exception.
abbrev pub call_api : Bool → Output → Act Unit
call_api accepted output s =
    if accepted
    then (record s { sent = s.sent ++ output ∷ [] }, ok tt)
    else (s, throw runtime_error)

abbrev pub send_message : ⦃api : Api⦄ → ℕ → String → Act Unit
send_message ⦃api⦄ chat text = call_api (api.accepts chat text) (message chat text [])

abbrev pub send_keyboard : ⦃api : Api⦄ → ℕ → String → Keyboard → Act Unit
send_keyboard ⦃api⦄ chat text keyboard =
    call_api (api.accepts chat text) (message chat text keyboard)

abbrev pub edit_message_text : ⦃api : Api⦄ → ℕ → ℕ → String → Keyboard → Act Unit
edit_message_text ⦃api⦄ chat message_id text keyboard =
    call_api (api.accepts chat text) (edited chat message_id text keyboard)

abbrev pub answer_callback_query : ⦃api : Api⦄ → String → Act Unit
answer_callback_query ⦃api⦄ query = call_api (api.answers query) (answered_callback query)

abbrev pub answer_inline_query : ⦃api : Api⦄ → String → List Article → Act Unit
answer_inline_query ⦃api⦄ query results =
    call_api (api.answers query) (answered_inline query results)

-- A method of the configuration manager.
abbrev pub on_config : (ConfigManager → ConfigManager × Bool) → Act Bool
on_config change s = let (cm', success) = change s.cm in (record s { cm = cm' }, ok success)

abbrev pub changed :
    AdminController → Outcome (ConfigManager × Bool) → AdminController × Outcome Bool
changed s (ok (cm', success)) = (record s { cm = cm' }, ok success)
changed s (throw e) = (s, throw e)
changed s undefined = (s, undefined)

abbrev pub on_config_outcome : (ConfigManager → Outcome (ConfigManager × Bool)) → Act Bool
on_config_outcome change s = changed s (change s.cm)

-- _awaitingInput[from] = action
abbrev pub put_action : ℕ → PendingAction → Act Unit
put_action from action s =
    (record s { awaiting_input = insert from action s.awaiting_input }, ok tt)

-- _awaitingInput.erase(it)
abbrev pub end_action : ℕ → Act Unit
end_action from s = (record s { awaiting_input = erase from s.awaiting_input }, ok tt)

abbrev pub handled :
    {A : Type 0} → Act A → AdminController × Outcome A → AdminController × Outcome A
handled handler (s, ok a) = (s, ok a)
handled handler (s, throw e) = handler s
handled handler (s, undefined) = (s, undefined)

-- try { … } catch (...) { … }
abbrev pub catch_all : {A : Type 0} → Act A → Act A → Act A
catch_all body handler s = handled handler (body s)
