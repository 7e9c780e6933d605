-- ===== src/App/Threads/Notifications.antt =====
-- What the users should be told by src/tgService.cpp.
use text.Mathlib.TextLemmas.{append_assoc}
use mqtt_sentry.Tg.{sign, alert_text, send_each}
use mqtt_sentry.Base.{
  refl, arith, Bool-cases, inl, inr, ℕ, String, Bool, ◌≡◌, List, [], ◌∷◌, ◌++◌, if◌then◌else◌, map,
  take_while, ◌==◌, ◌&&◌, ◌<>◌, vs16, nat_eq, string_eq,
}
use mqtt_sentry.Types.{
  AlertEvents, AlertState, fine, online, offline, error, eco_malfunction, pump_on, pump_off,
}
use mqtt_sentry.Settings.{ConfigManager}
use mqtt_sentry.Tg.{Api}

-- The sign in front of an alert: good news, contact, silence, a fault, or the winter mode.
abbrev pub symbol : AlertState → String
symbol fine = "✅"
symbol online = "📶"
symbol offline = "🚫"
symbol error = "🚨"
symbol eco_malfunction = "🚨"
symbol pump_on = "🟢"
symbol pump_off = "🔴"

-- The date of an alert, which is left out of one that is sent at once.
abbrev pub date : String → String
date timestamp = if timestamp == "NOW" then "" else "🗓" <> vs16 <> " " <> timestamp

-- What a user should read of an alert: the machine, the sign and the message, the date.
abbrev pub notification : AlertEvents → String
notification a =
    (a.machine_id <> " :\n") <> (symbol a.state <> " " <> a.message <> "\n") <> date a.timestamp

module _ ⦃api : Api⦄ where
  -- A text goes to the users in their order, up to the first one for whom Telegram refuses it.
  abbrev pub posted : String → List ℕ → List (ℕ × String)
  posted text users = map (λ user. (user, text)) (take_while (λ user. api.accepts user text) users)

  -- The messages to the users for alerts of the worker; the one without a machine and without a
  -- message only ends it.
  abbrev pub messages : ConfigManager → List AlertEvents → List (ℕ × String)
  messages cm [] = []
  messages cm (a ∷ rest) =
      (if a.machine_id == "" && a.message == "" then [] else posted (notification a) cm.tg.users)
      ++ messages cm rest

  abbrev pub notice : ConfigManager → Bool → String → List (ℕ × String)
  notice cm reachable text = if reachable then posted text cm.tg.users else []

module _ ⦃api : Api⦄ where
  pub send_each-posted : (text : String) (users : List ℕ) → send_each text users ≡ posted text users
  unfolding send_each
  send_each-posted text [] = refl
  send_each-posted text (user ∷ users) = ground (arith, send_each-posted text users)

sign-symbol : (state : AlertState) → sign state ≡ symbol state <> " "
sign-symbol fine = refl
sign-symbol online = refl
sign-symbol offline = refl
sign-symbol eco_malfunction = refl
sign-symbol error = refl
sign-symbol pump_on = refl
sign-symbol pump_off = refl

pub alert_text-notification : (a : AlertEvents) → alert_text a ≡ notification a
unfolding alert_text
alert_text-notification a = elim (Bool-cases (a.timestamp == "NOW")) [
  | inl now ↦ rw now (simp (sign-symbol, append_assoc))
  | inr dated ↦ rw dated (simp (sign-symbol, append_assoc))
]
