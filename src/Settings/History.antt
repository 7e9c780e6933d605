-- ===== src/Settings/History.antt =====
-- Sequences of changes of the configuration of src/settings.cpp: as long as its writes succeed, they
-- do to the settings what they should, and the file holds the settings.
use mqtt_sentry.Base.{
  map, Bool-cases, inl, inr, ℕ, String, ◌≡◌, refl, ap, Bool, true, false, not, Option, none, some,
  List, [], ◌∷◌, ◌==◌, Eq, nat_eq, string_eq, Outcome, ok, ◌>>=◌, keep, contains, Assoc, lookup,
  erase, arith, throw, undefined,
}
use mqtt_sentry.Json.{JsonLib}
use mqtt_sentry.Settings.{Mqtt, Logic, ConfigManager, machine_topic}
use mqtt_sentry.Settings.Manager.{
  config_json, write, update_tg_config, update_mqtt_config, update_logic_config,
  update_graphite_config, add_user, remove_user, update_both, add_machine, remove_machine,
  add_error, rem_error, add_ex, rem_ex,
}
use mqtt_sentry.Settings.Branches.{add_error_new, add_error_known, remove_user_nobody}
use mqtt_sentry.Settings.Owners.{topic_exists-found, other_topics-others}
use mqtt_sentry.Settings.View.{
  View, view, Change, revise, revise_all, new_tg, new_mqtt, new_logic, new_graphite, user_added,
  user_removed, machine_added, machine_removed, error_added, error_removed, code_disabled,
  code_enabled, find, assign, forget, owner, leading, is_complete,
}

module _ ⦃J : JsonLib⦄ where
  -- The method that makes a change.
  unfoldable pub perform : Change → ConfigManager → Outcome (ConfigManager × Bool)
  perform (new_tg t) cm = ok (update_tg_config t cm)
  perform (new_mqtt m) cm = ok (update_mqtt_config m cm)
  perform (new_logic l) cm = ok (update_logic_config l cm)
  perform (new_graphite g) cm = ok (update_graphite_config g cm)
  perform (user_added u) cm = ok (add_user u cm)
  perform (user_removed u) cm = ok (remove_user u cm)
  perform (machine_added mid pseudo) cm = add_machine mid pseudo cm
  perform (machine_removed mid) cm = remove_machine mid cm
  perform (error_added code des) cm = ok (add_error code des cm)
  perform (error_removed code) cm = ok (rem_error code cm)
  perform (code_disabled code) cm = ok (add_ex code cm)
  perform (code_enabled code) cm = ok (rem_ex code cm)

  unfoldable pub perform_all : List Change → ConfigManager → Outcome ConfigManager
  perform_all [] cm = ok cm
  perform_all (c ∷ rest) cm = do (cm', _) ← perform c cm; perform_all rest cm'

  -- Its writes succeed, and its file holds the configuration.
  pub record Saved (cm : ConfigManager) : Type 0 where
    pub file : cm.file ≡ some (J.dump (config_json cm))
    pub succeed : cm.writes ≡ []

  abbrev pub IsSaved : Outcome (ConfigManager × Bool) → Type 0
  IsSaved (ok (cm, _)) = Saved cm
  IsSaved _ = Unit

  abbrev pub view_of : Outcome (ConfigManager × Bool) → Outcome View
  view_of (ok (cm, _)) = ok (view cm)
  view_of (throw e) = throw e
  view_of undefined = undefined

  -- The changed configuration is saved, and has the view that it should have.
  abbrev Does : Outcome View → Outcome (ConfigManager × Bool) → Type 0
  Does v r = IsSaved r × (view_of r ≡ v)

erase-keep :
    {K : Type 0} ⦃e : Eq K⦄ (k : K) (m : Assoc K String)
    → keep (λ each. not (each.0 == k)) m ≡ erase k m
unfolding erase
erase-keep k [] = refl
erase-keep k ((j, w) ∷ m) = ground (arith, erase-keep k m)

keep-nobody : (p : ℕ → Bool) (users : List ℕ) → users ≡ [] → users ≡ keep p users
keep-nobody p users e = rw e

module _ ⦃J : JsonLib⦄ where
  -- A manager that writes without a failure.
  write-Does : (cm : ConfigManager) → cm.writes ≡ [] → Does (ok (view cm)) (ok (write cm))
  unfolding write config_json
  write-Does cm e = rw e (record { file = refl; succeed = refl }, refl)

  both-Does :
      (logic : Logic) (mqtt : Mqtt) (cm : ConfigManager)
      → cm.writes ≡ []
      → Does (ok (view (record cm { logic = logic; mqtt = mqtt }))) (ok (update_both logic mqtt cm))
  unfolding update_both write update_logic_config update_mqtt_config config_json
  both-Does logic mqtt cm e = rw e (record { file = refl; succeed = refl }, refl)

  added-Does :
      (mid pseudo : String) (cm : ConfigManager)
      → Saved cm
      → Does (revise (machine_added mid pseudo) (view cm)) (add_machine mid pseudo cm)
  unfolding revise add_machine assign machine_topic
  added-Does mid pseudo cm s =
      let owners = map owner cm.mqtt.topic in
      rw topic_exists-found (elim (Bool-cases (contains mid (leading owners))) [
        | inl known ↦ rw known (s, refl)
        | inr new ↦ elim (Bool-cases (is_complete owners)) [
          | inl complete ↦ rw (new, complete) (both-Does _ _ cm s.succeed)
          | inr lacking ↦ rw (new, lacking) (tt, refl)
        ]
      ])

  removed-Does :
      (mid : String) (cm : ConfigManager)
      → Saved cm
      → Does (revise (machine_removed mid) (view cm)) (remove_machine mid cm)
  unfolding revise remove_machine forget
  removed-Does mid cm s =
      rw other_topics-others (elim (Bool-cases (is_complete (map owner cm.mqtt.topic))) [
        | inl complete ↦ rw complete (both-Does _ _ cm s.succeed)
        | inr lacking ↦ rw lacking (tt, refl)
      ])

  error-Does :
      (code : ℕ) (des : String) (cm : ConfigManager) (o : Option String)
      → Saved cm
      → lookup code cm.logic.code ≡ o
      → Does (revise (error_added code des) (view cm)) (ok (add_error code des cm))
  unfolding revise find assign
  error-Does code des cm none s e = rw (add_error_new code des cm e, e) (write-Does _ s.succeed)
  error-Does code des cm (some name) s e = rw (add_error_known code des name cm e, e) (s, refl)

  user-Does :
      (u : ℕ) (cm : ConfigManager) (known : Bool)
      → Saved cm
      → contains u cm.tg.users ≡ known
      → Does (revise (user_added u) (view cm)) (ok (add_user u cm))
  unfolding revise add_user update_tg_config
  user-Does u cm true s e = rw e (s, refl)
  user-Does u cm false s e = rw e (write-Does _ s.succeed)

  leaver-Does :
      (u : ℕ) (cm : ConfigManager) (users : List ℕ)
      → Saved cm
      → cm.tg.users ≡ users
      → Does (revise (user_removed u) (view cm)) (ok (remove_user u cm))
  unfolding revise remove_user update_tg_config
  leaver-Does u cm [] s e = rw (remove_user_nobody u cm e) (
    s,
    ap (λ us. ok (record (view cm) { tg = record cm.tg { users = us } }))
        (keep-nobody (λ it. not (it == u)) _ e),
  )
  leaver-Does u cm (v ∷ vs) s e = rw e (write-Does _ s.succeed)

  perform-Does :
      (c : Change) (cm : ConfigManager) → Saved cm → Does (revise c (view cm)) (perform c cm)
  unfolding perform revise forget update_tg_config update_mqtt_config update_logic_config
      update_graphite_config rem_error add_ex rem_ex
  perform-Does (new_tg t) cm s = write-Does _ s.succeed
  perform-Does (new_mqtt m) cm s = write-Does _ s.succeed
  perform-Does (new_logic l) cm s = write-Does _ s.succeed
  perform-Does (new_graphite g) cm s = write-Does _ s.succeed
  perform-Does (user_added u) cm s = user-Does u cm _ s refl
  perform-Does (user_removed u) cm s = leaver-Does u cm _ s refl
  perform-Does (machine_added mid pseudo) cm s = added-Does mid pseudo cm s
  perform-Does (machine_removed mid) cm s = removed-Does mid cm s
  perform-Does (error_added code des) cm s = error-Does code des cm _ s refl
  perform-Does (error_removed code) cm s =
      rw (erase-keep code cm.logic.code) (write-Does _ s.succeed)
  perform-Does (code_disabled code) cm s = write-Does _ s.succeed
  perform-Does (code_enabled code) cm s = write-Does _ s.succeed

  abbrev pub AllSaved : Outcome ConfigManager → Type 0
  AllSaved (ok cm) = Saved cm
  AllSaved _ = Unit

  -- A result of several changes has the view that it should have, and if it is one, it is saved.
  abbrev pub DoesAll : Outcome View → Outcome ConfigManager → Type 0
  DoesAll v r = ((do cm ← r; ok (view cm)) ≡ v) × AllSaved r

  DoesAll-next :
      (v : Outcome View) (r : Outcome (ConfigManager × Bool)) (next : View → Outcome View)
      (continue : ConfigManager → Outcome ConfigManager)
      → Does v r
      → ((cm : ConfigManager) → Saved cm → DoesAll (next (view cm)) (continue cm))
      → DoesAll (v >>= next) (r >>= (λ (cm, _). continue cm))
  DoesAll-next v (ok (cm, b)) next continue d ih = rw (← d.1) (ih cm d.0)
  DoesAll-next v (throw ex) next continue d ih = rw (← d.1) (refl, tt)
  DoesAll-next v undefined next continue d ih = rw (← d.1) (refl, tt)

  -- Where the writes of a manager succeed and its file holds its configuration, a sequence of
  -- calls that change it makes of the settings, its maps up to the order of iteration, what each
  -- call says: the users, codes and disabled codes are added and removed, a new machine gets its
  -- pseudonym and a topic at the end, a machine that has a topic before the first topic without a
  -- second segment keeps its pseudonym, and a removed machine loses its pseudonym and its topics.
  -- It ends in undefined behaviour exactly where a topic without a second segment is looked at;
  -- and if it does not, the file holds the configuration again.
  pub perform_all-view :
      (changes : List Change) (cm : ConfigManager)
      → Saved cm
      → DoesAll (revise_all changes (view cm)) (perform_all changes cm)
  unfolding perform_all revise_all
  perform_all-view [] cm s = (refl, s)
  perform_all-view (c ∷ rest) cm s =
      DoesAll-next (revise c (view cm)) (perform c cm) (revise_all rest) (perform_all rest)
        (perform-Does c cm s) (perform_all-view rest)
