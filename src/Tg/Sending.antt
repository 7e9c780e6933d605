-- ===== src/Tg/Sending.antt =====
-- Which users receive a message: the loops over the users in src/tgService.cpp.
use mqtt_sentry.Base.{ℕ, String, ◌≡◌, refl, true, false, List, [], ◌∷◌, ◌++◌, map, All}
use mqtt_sentry.Types.{AlertEvents}
use mqtt_sentry.Settings.{ConfigManager}
use mqtt_sentry.Tg.{TgService, Api, send_each, send_alert, alert_text}

module _ ⦃api : Api⦄ where
  pub send_each-each_user :
      (text : String) (users : List ℕ)
      → All (λ user. api.accepts user text ≡ true) users
      → send_each text users ≡ map (λ user. (user, text)) users
  unfolding send_each
  send_each-each_user text [] a = refl
  send_each-each_user text (user ∷ rest) a = rw (a.0, send_each-each_user text rest a.1)

  pub send_each_stops :
      (text : String) (before : List ℕ) (bad : ℕ) (after : List ℕ)
      → All (λ user. api.accepts user text ≡ true) before
      → api.accepts bad text ≡ false
      → send_each text (before ++ bad ∷ after) ≡ map (λ user. (user, text)) before
  unfolding send_each
  send_each_stops text [] bad after a b = rw b
  send_each_stops text (user ∷ rest) bad after a b =
      rw (a.0, send_each_stops text rest bad after a.1 b)

  -- If Telegram accepts an alert for every user, each of them gets its text once, in the order of
  -- the configuration, behind what was sent before.
  pub send_alert-each_user :
      (cm : ConfigManager) (alert : AlertEvents) (tg : TgService)
      → All (λ user. api.accepts user (alert_text alert) ≡ true) cm.tg.users
      → (send_alert cm alert tg).sent
        ≡ tg.sent ++ map (λ user. (user, alert_text alert)) cm.tg.users
  unfolding send_alert
  send_alert-each_user cm alert tg a = rw (send_each-each_user (alert_text alert) cm.tg.users a)

  -- The first user for whom Telegram refuses an alert ends the loop: those before get it and none
  -- after, whether Telegram would accept it or not.
  pub send_alert_stops :
      (cm : ConfigManager) (alert : AlertEvents) (tg : TgService) (before : List ℕ) (bad : ℕ)
      (after : List ℕ)
      → cm.tg.users ≡ before ++ bad ∷ after
      → All (λ user. api.accepts user (alert_text alert) ≡ true) before
      → api.accepts bad (alert_text alert) ≡ false
      → (send_alert cm alert tg).sent ≡ tg.sent ++ map (λ user. (user, alert_text alert)) before
  unfolding send_alert
  send_alert_stops cm alert tg before bad after u a b =
      rw (u, send_each_stops (alert_text alert) before bad after a b)
