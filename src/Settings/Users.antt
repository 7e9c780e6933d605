-- ===== src/Settings/Users.antt =====
-- The users and the codes of src/settings.cpp: addUser, removeUser, addError, remError, addEx, remEx.
use mqtt_sentry.Base.{
  ℕ, String, ◌≡◌, refl, true, false, not, none, some, List, [], ◌∷◌, ◌++◌, arith, ◌==◌, nat_eq,
  nat_beq_iff, keep, contains, lookup, insert, lookup-insert, if◌then◌else◌, Assoc,
}
use mqtt_sentry.Json.{JsonLib}
use mqtt_sentry.Settings.{ConfigManager, user_exist}
use mqtt_sentry.Settings.Manager.{
  add_user, remove_user, add_error, update_tg_config, update_logic_config,
}
use mqtt_sentry.Settings.Writes.{write-config}

pub contains-append :
    (u v : ℕ) (us : List ℕ) → contains u (us ++ v ∷ []) ≡ (if v == u then true else contains u us)
contains-append u v [] = refl
contains-append u v (x ∷ us) = ground (arith, contains-append u v us)

pub contains-keep :
    (u v : ℕ) (us : List ℕ)
    → contains u (keep (λ it. not (it == v)) us) ≡ (if v == u then false else contains u us)
contains-keep u v [] = ground arith
contains-keep u v (x ∷ us) = ground (arith, contains-keep u v us)

lookup-keep :
    (k j : ℕ) (m : Assoc ℕ String)
    → lookup j (keep (λ each. not (each.0 == k)) m) ≡ (if k == j then none else lookup j m)
unfolding lookup
lookup-keep k j [] = ground arith
lookup-keep k j ((i, v) ∷ m) = ground (arith, lookup-keep k j m)

module _ ⦃J : JsonLib⦄ where
  -- Whether or not the write succeeds, addUser makes exactly the given user a user besides those
  -- before, and the administrators stay.
  pub add_user-exist :
      (u v : ℕ) (cm : ConfigManager)
      → (user_exist v (add_user u cm).0 ≡ (if u == v then true else user_exist v cm))
        × ((add_user u cm).0.tg.admins ≡ cm.tg.admins)
  unfolding add_user user_exist update_tg_config
  add_user-exist u v cm =
      let updated = record cm { tg = record cm.tg { users = cm.tg.users ++ u ∷ [] } } in
      ground (arith, write-config updated, contains-append v u cm.tg.users)

  -- Whether or not the write succeeds, after removeUser exactly the given user is no longer a
  -- user, and the administrators stay.
  pub remove_user-exist :
      (u v : ℕ) (cm : ConfigManager)
      → (user_exist v (remove_user u cm).0 ≡ (if u == v then false else user_exist v cm))
        × ((remove_user u cm).0.tg.admins ≡ cm.tg.admins)
  unfolding remove_user user_exist update_tg_config
  remove_user-exist u v cm =
      let updated = record cm {
        tg = record cm.tg { users = keep (λ it. not (it == u)) cm.tg.users };
      } in
      ground (arith, write-config updated, contains-keep v u cm.tg.users)

  -- After addError the code has the new text if it had none, and every code that had a text keeps
  -- it, whether or not the write succeeds.
  pub add_error-lookup :
      (code j : ℕ) (des : String) (cm : ConfigManager)
      → lookup j (add_error code des cm).0.logic.code ≡ (elim (lookup j cm.logic.code) [
        | some old ↦ some old
        | none ↦ if code == j then some des else none
      ])
  unfolding add_error update_logic_config
  add_error-lookup code j des cm =
      let updated = record cm {
        logic = record cm.logic { code = insert code des cm.logic.code };
      } in
      ground
        (arith, write-config updated, lookup-insert code j des cm.logic.code, nat_beq_iff code j)
