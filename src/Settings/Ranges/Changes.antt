-- ===== src/Settings/Ranges/Changes.antt =====
-- Sequences of calls that change the configuration of src/settings.cpp keep the numbers in range.
use mqtt_sentry.Base.{
  refl, Bool, List, [], ◌∷◌, nat_eq, string_eq, Outcome, ok, ◌>>=◌, contains, All, All-append,
  if_rule, throw, undefined,
}
use mqtt_sentry.Json.{JsonLib}
use mqtt_sentry.Settings.{ConfigManager}
use mqtt_sentry.Settings.Manager.{add_user, rem_error, add_ex, rem_ex}
use mqtt_sentry.Settings.Persist.{InRange}
use mqtt_sentry.Settings.View.{
  Change, new_tg, new_mqtt, new_logic, new_graphite, user_added, user_removed, machine_added,
  machine_removed, error_added, error_removed, code_disabled, code_enabled,
}
use mqtt_sentry.Settings.History.{perform, perform_all}
use mqtt_sentry.Settings.Ranges.{Fits, AllInRange, All-keep}
use mqtt_sentry.Settings.Ranges.Methods.{
  update_tg-InRange, update_mqtt-InRange, update_logic-InRange, update_graphite-InRange,
  remove_user-InRange, add_error-InRange, add_machine-InRange, remove_machine-InRange,
}

module _ ⦃J : JsonLib⦄ where
  perform-InRange :
      (c : Change) (cm : ConfigManager) → InRange cm → Fits c → AllInRange (λ r. r.0) (perform c cm)
  unfolding perform add_user rem_error add_ex rem_ex
  perform-InRange (new_tg t) cm i f = update_tg-InRange t cm i f
  perform-InRange (new_mqtt m) cm i f = update_mqtt-InRange m cm i f
  perform-InRange (new_logic l) cm i f = update_logic-InRange l cm i f
  perform-InRange (new_graphite g) cm i f = update_graphite-InRange g cm i f
  perform-InRange (user_added u) cm i f =
      if_rule {A = ConfigManager × Bool} (λ r. InRange r.0) (contains u cm.tg.users) i
        (update_tg-InRange _ cm i (All-append _ cm.tg.users (u ∷ []) i.users (f, tt), i.admins))
  perform-InRange (user_removed u) cm i f = remove_user-InRange u _ cm refl i
  perform-InRange (machine_added mid pseudo) cm i f = add_machine-InRange mid pseudo _ cm refl i
  perform-InRange (machine_removed mid) cm i f = remove_machine-InRange mid _ cm refl i
  perform-InRange (error_added code des) cm i f = add_error-InRange code des _ cm refl i f
  perform-InRange (error_removed code) cm i f =
      update_logic-InRange _ cm i
        (i.timeout_limit, i.disabled_codes, All-keep _ _ cm.logic.code i.code, i.poses, i.timeout)
  perform-InRange (code_disabled code) cm i f = update_logic-InRange _ cm i (
    i.timeout_limit,
    All-append _ cm.logic.disabled_codes (code ∷ []) i.disabled_codes (f, tt),
    i.code,
    i.poses,
    i.timeout,
  )
  perform-InRange (code_enabled code) cm i f = update_logic-InRange _ cm i (
    i.timeout_limit,
    All-keep _ _ cm.logic.disabled_codes i.disabled_codes,
    i.code,
    i.poses,
    i.timeout,
  )

  InRange-next :
      (r : Outcome (ConfigManager × Bool)) (continue : ConfigManager → Outcome ConfigManager)
      → AllInRange (λ r. r.0) r
      → ((cm : ConfigManager) → InRange cm → AllInRange (λ cm. cm) (continue cm))
      → AllInRange (λ cm. cm) (r >>= (λ (cm, _). continue cm))
  InRange-next (ok (cm, b)) continue i ih = ih cm i
  InRange-next (throw ex) continue i ih = tt
  InRange-next undefined continue i ih = tt

  -- Whether its writes succeed or fail, a sequence of calls whose arguments fit their C++ types
  -- leaves a configuration whose numbers fit theirs as one whose numbers do.
  pub perform_all-InRange :
      (changes : List Change) (cm : ConfigManager)
      → InRange cm
      → All Fits changes
      → AllInRange (λ cm. cm) (perform_all changes cm)
  unfolding perform_all
  perform_all-InRange [] cm i a = i
  perform_all-InRange (c ∷ rest) cm i a =
      InRange-next (perform c cm) (perform_all rest) (perform-InRange c cm i a.0)
        (λ cm' i'. perform_all-InRange rest cm' i' a.1)
