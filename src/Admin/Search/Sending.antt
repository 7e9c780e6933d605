-- ===== src/Admin/Search/Sending.antt =====
-- The inline search of src/adminController.cpp only answers the query.
use mqtt_sentry.Base.{ℕ, String, List, [], ◌∷◌, Assoc, if_rule, ◌==◌, string_eq, Outcome}
use mqtt_sentry.Tg.{Api}
use mqtt_sentry.Utils.{split}
use mqtt_sentry.Settings.{user_exist}
use mqtt_sentry.Admin.Effects.{AdminController, Output, Act, done}
use mqtt_sentry.Admin.Keeps.{Keeps, handled-Keeps}
use mqtt_sentry.Admin.Commands.Sending.{call-Keeps}
use mqtt_sentry.Admin.Search.{reply, on_inline_query}

module _ ⦃api : Api⦄ (P : AdminController → Type 0)
    (sending : (s : AdminController) (sent : List Output)
      → P s
      → P (record s { sent = sent })) where
  reply-Keeps :
      (query : String) (machines : Assoc String String) (words : List String)
      → Keeps P (reply query machines words)
  unfolding reply
  reply-Keeps query machines [] = call-Keeps P sending _ _
  reply-Keeps query machines (command ∷ []) =
      if_rule (λ (act : Act Unit). Keeps P act) (command == "stateof") (call-Keeps P sending _ _)
        (call-Keeps P sending _ _)
  reply-Keeps query machines (command ∷ s_id ∷ []) =
      if_rule (λ (act : Act Unit). Keeps P act) (command == "stateof") (call-Keeps P sending _ _)
        (call-Keeps P sending _ _)
  reply-Keeps query machines (command ∷ s_id ∷ _ ∷ _) = call-Keeps P sending _ _

  pub on_inline_query-Keeps :
      (from : ℕ) (query text : String) → Keeps P (on_inline_query from query text)
  unfolding on_inline_query
  on_inline_query-Keeps from query text s p =
      let machines = s.cm.logic.machines in
      let words = split " " text in
      if_rule (λ (r : AdminController × Outcome Unit). P r.0) (user_exist from s.cm)
        (handled-Keeps P (done tt) (reply query machines words s) (λ s p. p)
          (reply-Keeps query machines words s p))
        p
