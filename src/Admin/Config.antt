-- ===== src/Admin/Config.antt =====
-- What the methods of ConfigManager that the dialogues of src/adminController.cpp call do to the
-- timeout.
use mqtt_sentry.Base.{
  ℕ, String, ◌≡◌, Bool, not, [], ◌∷◌, ◌++◌, arith, ◌==◌, nat_eq, string_eq, keep, insert, erase, ok,
  >>=-eq-ok,
}
use mqtt_sentry.Json.{JsonLib}
use mqtt_sentry.Settings.{ConfigManager, Logic, topic_exists, other_topics, machine_topic}
use mqtt_sentry.Settings.Manager.{
  update_logic_config, update_tg_config, add_user, remove_user, add_machine, remove_machine,
  add_error, rem_error, add_ex, rem_ex,
}
use mqtt_sentry.Settings.Writes.{write-config, update_both-logic}

module _ ⦃J : JsonLib⦄ (cm : ConfigManager) where
  pub update_logic_config-logic : (l : Logic) → (update_logic_config l cm).0.logic ≡ l
  unfolding update_logic_config
  update_logic_config-logic l = ground (arith, write-config (record cm { logic = l }))

  pub add_user-timeout : (u : ℕ) → (add_user u cm).0.logic.timeout ≡ cm.logic.timeout
  unfolding add_user update_tg_config
  add_user-timeout u =
      ground
        (arith, write-config (record cm { tg = record cm.tg { users = cm.tg.users ++ u ∷ [] } }))

  pub remove_user-timeout : (u : ℕ) → (remove_user u cm).0.logic.timeout ≡ cm.logic.timeout
  unfolding remove_user update_tg_config
  remove_user-timeout u = ground (
    arith,
    write-config
        (record cm { tg = record cm.tg { users = keep (λ it. not (it == u)) cm.tg.users } }),
  )

  pub add_error-timeout :
      (des : String) (code : ℕ) → (add_error code des cm).0.logic.timeout ≡ cm.logic.timeout
  unfolding add_error
  add_error-timeout des code =
      ground (
        arith,
        update_logic_config-logic (record cm.logic { code = insert code des cm.logic.code }),
      )

  pub rem_error-timeout : (code : ℕ) → (rem_error code cm).0.logic.timeout ≡ cm.logic.timeout
  unfolding rem_error
  rem_error-timeout code = rw (
      update_logic_config-logic
        (record cm.logic { code = keep (λ each. not (each.0 == code)) cm.logic.code }))

  pub add_ex-timeout : (code : ℕ) → (add_ex code cm).0.logic.timeout ≡ cm.logic.timeout
  unfolding add_ex
  add_ex-timeout code = rw (
      update_logic_config-logic
        (record cm.logic { disabled_codes = cm.logic.disabled_codes ++ code ∷ [] }))

  pub rem_ex-timeout : (code : ℕ) → (rem_ex code cm).0.logic.timeout ≡ cm.logic.timeout
  unfolding rem_ex
  rem_ex-timeout code = rw (
      update_logic_config-logic (record cm.logic {
        disabled_codes = keep (λ each. not (each == code)) cm.logic.disabled_codes;
      }))

  pub add_machine-timeout :
      (mid pseudo : String) (cm' : ConfigManager) (b : Bool)
      → add_machine mid pseudo cm ≡ ok (cm', b)
      → cm'.logic.timeout ≡ cm.logic.timeout
  unfolding add_machine
  add_machine-timeout mid pseudo cm' b h =
      let (exist, e, r) = >>=-eq-ok (topic_exists mid cm.mqtt.topic) _ h in
      ground (
        arith,
        update_both-logic (record cm.logic { machines = insert mid pseudo cm.logic.machines })
            (record cm.mqtt { topic = cm.mqtt.topic ++ machine_topic mid ∷ [] }) cm,
      )

  pub remove_machine-timeout :
      (mid : String) (cm' : ConfigManager) (b : Bool)
      → remove_machine mid cm ≡ ok (cm', b)
      → cm'.logic.timeout ≡ cm.logic.timeout
  unfolding remove_machine
  remove_machine-timeout mid cm' b h =
      let (temp, e, r) = >>=-eq-ok (other_topics mid cm.mqtt.topic) _ h in
      ground (
        arith,
        update_both-logic (record cm.logic { machines = erase mid cm.logic.machines })
            (record cm.mqtt { topic = temp }) cm,
      )
