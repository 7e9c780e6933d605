-- ===== src/Admin/Keeps/Messages.antt =====
-- A message to the bot keeps what its single steps keep, whichever way the handler of
-- src/adminController.cpp takes.
use mqtt_sentry.Base.{
  ℕ, String, ◌≡◌, refl, Bool, true, false, not, Option, none, some, [], ◌∷◌, ◌++◌, ◌==◌, nat_eq,
  string_eq, if_rule, ok, throw, undefined, Outcome, ℤ, lookup, Bool-cases, inl, inr,
}
use mqtt_sentry.Json.{JsonLib}
use mqtt_sentry.Tg.{Api}
use mqtt_sentry.Utils.Scan.{stoul, stoull, stoll}
use mqtt_sentry.Settings.{ConfigManager}
use mqtt_sentry.Settings.Manager.{
  update_logic_config, add_user, remove_user, add_machine, remove_machine, add_error, rem_error,
  add_ex, rem_ex,
}
use mqtt_sentry.Admin.{
  is_admin, too_small, is_cancel, incorrect, cancel, edit, apply, finish, answer, on_any_message,
  try_number, set_timeout, set_timeout_limit, answer_awaited, next_step, show_admin_pannel,
}
use mqtt_sentry.Admin.Effects.{
  Output, message, call_api, AdminController, PendingAction, Act, ◌>>=◌, done, send_message,
  on_config, changed, value, put_action, end_action,
}
use mqtt_sentry.Admin.Config.{
  update_logic_config-logic, add_user-timeout, remove_user-timeout, add_error-timeout,
  rem_error-timeout, add_ex-timeout, rem_ex-timeout, add_machine-timeout, remove_machine-timeout,
}
use mqtt_sentry.Admin.Keeps.{IsAllowed, same_timeout, IsStable, Keeps, bind-Keeps, handled-Keeps}

module _ ⦃J : JsonLib⦄ ⦃api : Api⦄ (from : ℕ) (P : AdminController → Type 0)
    (stable : IsStable from P) where
  call-Keeps : (accepted : Bool) (output : Output) → Keeps P (call_api accepted output)
  call-Keeps true output s p = stable.sending s (s.sent ++ output ∷ []) p
  call-Keeps false output s p = p

  send-Keeps : (chat : ℕ) (text : String) → Keeps P (send_message chat text)
  send-Keeps chat text = call-Keeps (api.accepts chat text) (message chat text [])

  config-Keeps :
      (change : ConfigManager → ConfigManager × Bool)
      → ((cm : ConfigManager) → IsAllowed cm (change cm).0)
      → Keeps P (on_config change)
  config-Keeps change a s p = stable.changing s (change s.cm).0 (a s.cm) p

  changed-Keeps :
      (s : AdminController) (o : Outcome (ConfigManager × Bool))
      → ((cm' : ConfigManager) (b : Bool) → o ≡ ok (cm', b) → IsAllowed s.cm cm')
      → P s
      → P (changed s o).0
  changed-Keeps s (ok (cm', b)) a p = stable.changing s cm' (a cm' b refl) p
  changed-Keeps s (throw e) a p = p
  changed-Keeps s undefined a p = p

  number-Keeps :
      (chat : ℕ) (complaint : String) (change : ℕ → ConfigManager → ConfigManager × Bool)
      (o : Outcome ℕ)
      → ((n : ℕ) (cm : ConfigManager) → IsAllowed cm (change n cm).0)
      → Keeps P (try_number chat complaint change o)
  unfolding try_number
  number-Keeps chat complaint change (ok n) a = config-Keeps (change n) (a n)
  number-Keeps chat complaint change (throw e) a =
      bind-Keeps P (send_message chat complaint) (λ _. done false) (send-Keeps chat complaint)
        (λ _ s p. p)
  number-Keeps chat complaint change undefined a = λ s p. p

  timeout-Keeps : (val : ℤ) → Keeps P (set_timeout val)
  unfolding set_timeout
  timeout-Keeps val s p = elim (Bool-cases (too_small val)) [
    | inl small ↦ rw small p
    | inr large ↦
        let set =
          λ (cm : ConfigManager). update_logic_config (record cm.logic { timeout = val }) cm in
        let allowed : IsAllowed s.cm (set s.cm).0 = record {
          timeout =
              λ _. rw (update_logic_config-logic s.cm (record s.cm.logic { timeout = val })) large;
        } in
        rw large (stable.changing s (set s.cm).0 allowed p)
  ]

  next-Keeps :
      (chat : ℕ) (key text question : String) → Keeps P (next_step from chat key text question)
  unfolding next_step
  next-Keeps chat key text question =
      let ask = λ (_ : Unit). send_message chat question >>= (λ _. done false) in
      bind-Keeps P (put_action from (record { key = key; param = text })) ask
        (λ s p. stable.putting s (record { key = key; param = text }) p)
        (λ _.
          bind-Keeps P (send_message chat question) (λ _. done false) (send-Keeps chat question)
            (λ _ s p. p))

  limit-IsAllowed : (val : ℕ) (cm : ConfigManager) → IsAllowed cm (set_timeout_limit val cm).0
  unfolding set_timeout_limit
  limit-IsAllowed val cm =
      same_timeout (rw (update_logic_config-logic cm (record cm.logic { timeout_limit = val })))

  apply-Keeps : (chat : ℕ) (it : PendingAction) (text : String) → Keeps P (apply from chat it text)
  unfolding apply
  apply-Keeps chat it text =
      let Q = λ (act : Act Bool). Keeps P act in
      if_rule Q (it.key == "logic.timeout")
        (bind-Keeps P (value (stoll text)) set_timeout (λ s p. p) timeout-Keeps)
        (if_rule Q (it.key == "logic.timeout_limit")
          (bind-Keeps P (value (stoul text)) _ (λ s p. p)
            (λ val. config-Keeps (set_timeout_limit val) (limit-IsAllowed val)))
          (if_rule Q (it.key == "tg.users.add")
            (number-Keeps chat _ add_user (stoull text)
              (λ n cm. same_timeout (add_user-timeout cm n)))
            (if_rule Q (it.key == "tg.users.rem")
              (bind-Keeps P (value (stoull text)) _ (λ s p. p)
                (λ n. config-Keeps (remove_user n) (λ cm. same_timeout (remove_user-timeout cm n))))
              (if_rule Q (it.key == "machines.add.id") (next-Keeps chat _ text _) (
                if_rule Q (it.key == "machines.add.pseudo")
                  (λ s.
                    changed-Keeps s (add_machine it.param text s.cm)
                      (λ cm' b e. same_timeout (add_machine-timeout s.cm it.param text cm' b e)))
                  (if_rule Q (it.key == "machines.rem")
                    (λ s.
                      changed-Keeps s (remove_machine text s.cm)
                        (λ cm' b e. same_timeout (remove_machine-timeout s.cm text cm' b e)))
                    (if_rule Q (it.key == "errors.add.code") (next-Keeps chat _ text _) (
                      if_rule Q (it.key == "errors.add.des")
                        (number-Keeps chat _ (λ code. add_error code text) (stoul it.param)
                          (λ n cm. same_timeout (add_error-timeout cm text n)))
                        (if_rule Q (it.key == "errors.rem")
                          (number-Keeps chat _ rem_error (stoul text)
                            (λ n cm. same_timeout (rem_error-timeout cm n)))
                          (if_rule Q (it.key == "ex.add")
                            (number-Keeps chat _ add_ex (stoul text)
                              (λ n cm. same_timeout (add_ex-timeout cm n)))
                            (if_rule Q (it.key == "ex.rem")
                              (number-Keeps chat _ rem_ex (stoul text)
                                (λ n cm. same_timeout (rem_ex-timeout cm n)))
                              (λ s p. p))))))))))))

  finish-Keeps : (chat : ℕ) (key : String) (success : Bool) → Keeps P (finish from chat key success)
  unfolding finish show_admin_pannel
  finish-Keeps chat key false = λ s p. p
  finish-Keeps chat key true =
      let rest = λ (_ : Unit). end_action from >>= (λ _. show_admin_pannel chat) in
      bind-Keeps P (send_message chat _) rest (send-Keeps chat _) (λ _.
        bind-Keeps P (end_action from) (λ _. show_admin_pannel chat) stable.ending
          (λ _. call-Keeps _ _))

  cancel-Keeps : (chat : ℕ) → Keeps P (cancel from chat)
  unfolding cancel
  cancel-Keeps chat =
      bind-Keeps P (end_action from) (λ _. send_message chat "❌ Редагування скасовано.")
        stable.ending (λ _. send-Keeps chat "❌ Редагування скасовано.")

  edit-Keeps : (chat : ℕ) (text : String) (it : PendingAction) → Keeps P (edit from chat text it)
  unfolding edit
  edit-Keeps chat text it s p =
      let body = apply from chat it text >>= finish from chat it.key in
      handled-Keeps P (send_message chat incorrect) (body s) (send-Keeps chat incorrect) (
        bind-Keeps P (apply from chat it text) (finish from chat it.key) (apply-Keeps chat it text)
          (finish-Keeps chat it.key) s p)

  answer-Keeps :
      (chat : ℕ) (text : String) (it : PendingAction) → Keeps P (answer from chat text it)
  unfolding answer
  answer-Keeps chat text it =
      if_rule (λ (act : Act Unit). Keeps P act) (is_cancel text) (cancel-Keeps chat)
        (edit-Keeps chat text it)

  awaited-Keeps :
      (chat : ℕ) (text : String) (o : Option PendingAction)
      → Keeps P (answer_awaited from chat text o)
  unfolding answer_awaited
  awaited-Keeps chat text none = λ s p. p
  awaited-Keeps chat text (some it) = answer-Keeps chat text it

  pub on_any_message-Keeps : (chat : ℕ) (text : String) → Keeps P (on_any_message from chat text)
  unfolding on_any_message
  on_any_message-Keeps chat text s p =
      if_rule (λ (r : AdminController × Outcome Unit). P r.0) (not (is_admin from s.cm)) p
        (awaited-Keeps chat text (lookup from s.awaiting_input) s p)
