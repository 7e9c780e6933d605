-- ===== src/Admin/Presses.antt =====
-- What the buttons of src/adminController.cpp change.
use mqtt_sentry.Base.{
  ℕ, String, ◌≡◌, ◌≢◌, refl, Bool, true, false, not, List, [], ◌∷◌, ◌++◌, arith, ◌==◌, nat_eq,
  string_eq, nat_beq_iff, if_rule, Outcome, throw, ok, undefined, insert, lookup, lookup-insert,
}
use mqtt_sentry.Tg.{Api}
use mqtt_sentry.Admin.{is_admin}
use mqtt_sentry.Admin.Texts.{machines_text}
use mqtt_sentry.Admin.Effects.{
  AdminController, PendingAction, Output, Act, ◌>>=◌, proceed, value, call_api, message,
  send_message, answer_callback_query, answered_callback, raised_sigint,
}
use mqtt_sentry.Admin.Queries.{press, await_input, put_key, on_callback_query}

-- A property of the controller that survives what the buttons do.
pub record IsStill (from : ℕ) (P : AdminController → Type 0) : Type 1 where
  pub sending : (s : AdminController) (sent : List Output) → P s → P (record s { sent = sent })
  pub putting :
      (s : AdminController) (a : PendingAction)
      → P s
      → P (record s { awaiting_input = insert from a s.awaiting_input })

module _ ⦃api : Api⦄ (from chat message_id : ℕ) (P : AdminController → Type 0)
    (still : IsStill from P) where
  abbrev After : {A : Type 0} → AdminController × Outcome A → Type 0
  After r = P r.0

  call-After :
      (accepted : Bool) (output : Output) (s : AdminController)
      → P s
      → After (call_api accepted output s)
  call-After true output s p = still.sending s (s.sent ++ output ∷ []) p
  call-After false output s p = p

  proceed-After :
      {A B : Type 0} (next : A → Act B) (r : AdminController × Outcome A)
      → ((a : A) (s : AdminController) → P s → After (next a s))
      → After r
      → After (proceed r next)
  proceed-After next (s, ok a) n p = n a s p
  proceed-After next (s, throw e) n p = p
  proceed-After next (s, undefined) n p = p

  await-After :
      (key question : String) (s : AdminController)
      → P s
      → After (await_input from chat message_id key question s)
  unfolding await_input put_key
  await-After key question s p =
      call-After (api.accepts chat question) (message chat question []) _ (still.putting s _ p)

  peek-After :
      (list : Outcome String) (s : AdminController)
      → P s
      → After ((value list >>= send_message chat) s)
  peek-After (ok text) s p = call-After (api.accepts chat text) (message chat text []) s p
  peek-After (throw e) s p = p
  peek-After undefined s p = p

  restart-After :
      (s : AdminController)
      → P s
      → After (
          (send_message chat "🚀 Система перезапускається. Почекайте ~15 секунд..."
              >>= (λ _. call_api true raised_sigint))
            s)
  restart-After s p =
      proceed-After (λ _. call_api true raised_sigint)
        (send_message chat "🚀 Система перезапускається. Почекайте ~15 секунд..." s)
        (λ _ s p. call-After true raised_sigint s p) (call-After _ _ s p)

  press-After :
      (data_text : String) (s : AdminController)
      → P s
      → After (press from chat message_id data_text s)
  unfolding press
  press-After data_text s p =
      let Q = λ (r : AdminController × Outcome Unit). P r.0 in
      if_rule Q (data_text == "admin") (call-After _ _ s p) (
        if_rule Q (data_text == "admin_timeouts") (call-After _ _ s p) (
          if_rule Q (data_text == "admin_timeouts_change") (await-After _ _ s p) (
            if_rule Q (data_text == "admin_timeouts_limit_change") (await-After _ _ s p) (
              if_rule Q (data_text == "admin_users") (call-After _ _ s p) (
                if_rule Q (data_text == "admin_users_peek") (call-After _ _ s p) (
                  if_rule Q (data_text == "admin_users_add") (await-After _ _ s p) (
                    if_rule Q (data_text == "admin_users_rem") (await-After _ _ s p) (
                      if_rule Q (data_text == "admin_machines") (call-After _ _ s p) (
                        if_rule Q (data_text == "admin_machines_peek")
                          (peek-After (machines_text s.cm.logic.machines s.cm.mqtt.topic) s p)
                          (if_rule Q (data_text == "admin_machines_state") (await-After _ _ s p) (
                            if_rule Q (data_text == "admin_machines_add") (await-After _ _ s p) (
                              if_rule Q (data_text == "admin_machines_rem") (await-After _ _ s p) (
                                if_rule Q (data_text == "admin_errors") (call-After _ _ s p) (
                                  if_rule Q (data_text == "admin_errors_peek") (call-After _ _ s p)
                                    (if_rule Q (data_text == "admin_errors_add")
                                      (await-After _ _ s p)
                                      (if_rule Q (data_text == "admin_errors_rem")
                                        (await-After _ _ s p)
                                        (if_rule Q (data_text == "admin_ex_peek")
                                          (call-After _ _ s p)
                                          (if_rule Q (data_text == "admin_ex_add")
                                            (await-After _ _ s p)
                                            (if_rule Q (data_text == "admin_ex_rem")
                                              (await-After _ _ s p)
                                              (if_rule Q (data_text == "admin_restart")
                                                (restart-After s p) (p)))))))))))))))))))))

  pub on_callback_query-After :
      (query data_text : String) (s : AdminController)
      → P s
      → P (on_callback_query from chat message_id query data_text s).0
  unfolding on_callback_query
  on_callback_query-After query data_text s p =
      if_rule (λ (r : AdminController × Outcome Unit). P r.0) (not (is_admin from s.cm)) p
        (proceed-After (λ _. answer_callback_query query) (press from chat message_id data_text s)
          (λ _ s p. call-After (api.answers query) (answered_callback query) s p)
          (press-After data_text s p))

module _ ⦃api : Api⦄ where
  -- No button changes the configuration, whoever presses it and whatever Telegram accepts.
  pub on_callback_query-cm :
      (from chat message_id : ℕ) (query data_text : String) (s : AdminController)
      → (on_callback_query from chat message_id query data_text s).0.cm ≡ s.cm
  on_callback_query-cm from chat message_id query data_text s =
      on_callback_query-After from chat message_id (λ s'. s'.cm ≡ s.cm)
        (record { sending = λ s sent p. p; putting = λ s a p. p }) query data_text s refl

  -- A button that one user presses leaves the dialogue of every other user where it is.
  pub on_callback_query-others :
      (from other chat message_id : ℕ) (query data_text : String) (s : AdminController)
      → other ≢ from
      → lookup other (on_callback_query from chat message_id query data_text s).0.awaiting_input
        ≡ lookup other s.awaiting_input
  on_callback_query-others from other chat message_id query data_text s ne =
      on_callback_query-After from chat message_id
        (λ s'. lookup other s'.awaiting_input ≡ lookup other s.awaiting_input)
        (record {
          sending = λ s' sent p. p;
          putting = λ s' a p.
              ground (arith, lookup-insert from other a s'.awaiting_input, nat_beq_iff from other);
        })
        query data_text s refl
