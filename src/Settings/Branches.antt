-- ===== src/Settings/Branches.antt =====
-- The ways that removeUser and addError of src/settings.cpp take.
use mqtt_sentry.Base.{
  ℕ, String, ◌≡◌, true, false, not, none, some, List, [], ◌∷◌, ◌==◌, nat_eq, arith, keep, lookup,
  insert,
}
use mqtt_sentry.Json.{JsonLib}
use mqtt_sentry.Settings.{ConfigManager}
use mqtt_sentry.Settings.Manager.{
  write, update_tg_config, update_logic_config, remove_user, add_error,
}

module _ ⦃J : JsonLib⦄ where
  pub add_error_new :
      (code : ℕ) (des : String) (cm : ConfigManager)
      → lookup code cm.logic.code ≡ none
      → add_error code des cm
        ≡ write (record cm { logic = record cm.logic { code = insert code des cm.logic.code } })
  unfolding add_error update_logic_config
  add_error_new code des cm e = rw (e, add_error)

  pub add_error_known :
      (code : ℕ) (des name : String) (cm : ConfigManager)
      → lookup code cm.logic.code ≡ some name
      → add_error code des cm ≡ (cm, false)
  unfolding add_error
  add_error_known code des name cm e = rw (e, add_error)

  pub remove_user_nobody :
      (u : ℕ) (cm : ConfigManager) → cm.tg.users ≡ [] → remove_user u cm ≡ (cm, true)
  unfolding remove_user
  remove_user_nobody u cm e = ground (arith, e)

  pub remove_user_somebody :
      (u v : ℕ) (vs : List ℕ) (cm : ConfigManager)
      → cm.tg.users ≡ v ∷ vs
      → remove_user u cm
        ≡ update_tg_config (record cm.tg { users = keep (λ it. not (it == u)) (v ∷ vs) }) cm
  unfolding remove_user
  remove_user_somebody u v vs cm e = ground (arith, e)
