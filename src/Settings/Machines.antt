-- ===== src/Settings/Machines.antt =====
-- addMachine and removeMachine of src/settings.cpp.
use mqtt_sentry.Settings.Topics.{
  HasId, exists-total, exists-append, other-append, exists-other, machine_topic-HasId,
  topic_id_undefined,
}
use mqtt_sentry.Base.{
  String, ◌≡◌, ◌⊎◌, sym, ap, ◌∙◌, Bool, true, false, none, some, List, [], ◌∷◌, ◌++◌, arith, ◌==◌,
  string_eq, eq_iff, ok, undefined, >>=-eq-ok, All, All-append, inl, inr, lookup, insert, erase,
  lookup-insert, lookup-erase, if◌then◌else◌,
}
use mqtt_sentry.Json.{JsonLib}
use mqtt_sentry.Utils.Split.{Lacks}
use mqtt_sentry.Settings.{
  ConfigManager, Logic, Mqtt, WriteResult, cannot_open, topic_exists, other_topics, machine_topic,
}
use mqtt_sentry.Settings.Manager.{add_machine, remove_machine, update_both, write}
use mqtt_sentry.Settings.Writes.{
  update_both-config, update_both-logic, update_both_torn, update_both-mqtt,
}

ok-injective {ℓ} : {A : Type ℓ} {a b : A} → ok a ≡ ok b → a ≡ b
ok-injective e = cc

module _ ⦃J : JsonLib⦄ (mid : String) (cm : ConfigManager) where
  abbrev with_machine : String → Logic
  with_machine pseudo = record cm.logic { machines = insert mid pseudo cm.logic.machines }

  abbrev with_topic : Mqtt
  with_topic = record cm.mqtt { topic = cm.mqtt.topic ++ machine_topic mid ∷ [] }

  add_machine_new :
      (pseudo : String)
      → topic_exists mid cm.mqtt.topic ≡ ok false
      → add_machine mid pseudo cm ≡ ok (update_both (with_machine pseudo) with_topic cm)
  unfolding add_machine
  add_machine_new pseudo e = rw e

  add_machine_old :
      (pseudo : String)
      → topic_exists mid cm.mqtt.topic ≡ ok true
      → add_machine mid pseudo cm ≡ ok (cm, false)
  unfolding add_machine
  add_machine_old pseudo e = rw e

  -- What a success means.
  add_machine-ok :
      (pseudo : String) (cm' : ConfigManager)
      → add_machine mid pseudo cm ≡ ok (cm', true)
      → (topic_exists mid cm.mqtt.topic ≡ ok false)
        × (cm'.mqtt.topic ≡ cm.mqtt.topic ++ machine_topic mid ∷ [])
        × (cm'.logic.machines ≡ insert mid pseudo cm.logic.machines)
  unfolding add_machine
  add_machine-ok pseudo cm' h =
      let (exist, e, r) = >>=-eq-ok (topic_exists mid cm.mqtt.topic) _ h in
      ground (arith, update_both-config (with_machine pseudo) with_topic cm)

  -- Where every topic has a second segment, addMachine ends, with success or without, whatever the
  -- ID and whether or not the writes succeed, and every topic still has one.
  pub add_machine-total :
      (pseudo : String)
      → All HasId cm.mqtt.topic
      → (cm' : ConfigManager) × (b : Bool) × (add_machine mid pseudo cm ≡ ok (cm', b))
        × All HasId cm'.mqtt.topic
  add_machine-total pseudo a = ends (exists-total mid cm.mqtt.topic a)
    where
      added : All HasId with_topic.topic
      added =
          All-append HasId cm.mqtt.topic (machine_topic mid ∷ []) a (machine_topic-HasId mid, tt)

      kept : (m : Mqtt) → (m ≡ cm.mqtt) ⊎ (m ≡ with_topic) → All HasId m.topic
      kept m (inl old) = rw old a
      kept m (inr new) = rw new added

      ends :
          (b : Bool) × (topic_exists mid cm.mqtt.topic ≡ ok b)
          → (cm' : ConfigManager) × (b : Bool) × (add_machine mid pseudo cm ≡ ok (cm', b))
            × All HasId cm'.mqtt.topic
      ends (true, e) = (cm, false, add_machine_old pseudo e, a)
      ends (false, e) =
          let (cm', b) = update_both (with_machine pseudo) with_topic cm in
          (cm', b, add_machine_new pseudo e, kept cm'.mqtt (update_both-mqtt _ _ cm))

  -- Once addMachine has succeeded for an ID without a slash, its name is the pseudonym, and
  -- addMachine of the same ID under any name reports failure and changes nothing.
  pub add_machine_again :
      (pseudo other : String) (cm' : ConfigManager)
      → Lacks "/" mid
      → add_machine mid pseudo cm ≡ ok (cm', true)
      → (lookup mid cm'.logic.machines ≡ some pseudo)
        × (add_machine mid other cm' ≡ ok (cm', false))
  unfolding add_machine
  add_machine_again pseudo other cm' l h =
      let (e, t, m) = add_machine-ok pseudo cm' h in
      (
        rw (m, lookup-insert mid mid pseudo cm.logic.machines) (ground (arith, eq_iff mid mid)),
        rw (t, exists-append mid cm.mqtt.topic l e),
      )

  without_machine : Logic
  without_machine = record cm.logic { machines = erase mid cm.logic.machines }

  remove_machine-ok :
      (cm' : ConfigManager)
      → remove_machine mid cm ≡ ok (cm', true)
      → (other_topics mid cm.mqtt.topic ≡ ok cm'.mqtt.topic)
        × (cm'.logic.machines ≡ erase mid cm.logic.machines)
  unfolding remove_machine without_machine
  remove_machine-ok cm' h =
      let (temp, e, r) = >>=-eq-ok (other_topics mid cm.mqtt.topic) _ h in
      ground (arith, update_both-config without_machine (record cm.mqtt { topic = temp }) cm)

  -- After removeMachine has succeeded no topic is that of the ID, the ID has no name, and the
  -- other machines have the names they had.
  pub remove_machine_gone :
      (cm' : ConfigManager)
      → remove_machine mid cm ≡ ok (cm', true)
      → (topic_exists mid cm'.mqtt.topic ≡ ok false)
        × ((j : String)
            → lookup j cm'.logic.machines ≡ (if mid == j then none else lookup j cm.logic.machines))
  remove_machine_gone cm' h =
      let (t, m) = remove_machine-ok cm' h in
      (
        exists-other mid cm.mqtt.topic cm'.mqtt.topic t,
        λ j. rw m (lookup-erase mid j cm.logic.machines),
      )

  -- Where the first topic has one segment only, addMachine reads past the end of the vector of its
  -- segments.
  pub add_machine_undefined :
      (pseudo t : String) (ts : List String)
      → cm.mqtt.topic ≡ t ∷ ts
      → Lacks "/" t
      → add_machine mid pseudo cm ≡ undefined
  unfolding add_machine topic_exists
  add_machine_undefined pseudo t ts e l = rw (e, topic_id_undefined t l)

  -- Where the ID is new and the file cannot be opened for the first write, addMachine reports
  -- failure with the name of the machine set and its topic missing.
  pub add_machine_torn :
      (pseudo : String) (rest : List WriteResult)
      → topic_exists mid cm.mqtt.topic ≡ ok false
      → cm.writes ≡ cannot_open ∷ rest
      → (cm' : ConfigManager) × (add_machine mid pseudo cm ≡ ok (cm', false))
        × (lookup mid cm'.logic.machines ≡ some pseudo)
        × (cm'.mqtt.topic ≡ cm.mqtt.topic)
  add_machine_torn pseudo rest e w =
      let torn = update_both_torn (with_machine pseudo) with_topic cm (unfold write in rw w) in
      let done = update_both (with_machine pseudo) with_topic cm in
      (
        done.0,
        add_machine_new pseudo e ∙ ap (λ (b : Bool). ok (done.0, b)) torn.0,
        rw (update_both-logic (with_machine pseudo) with_topic cm)
            (rw (lookup-insert mid mid pseudo cm.logic.machines) (ground (arith, eq_iff mid mid))),
        ap (λ (m : Mqtt). m.topic) torn.1,
      )

module _ ⦃J : JsonLib⦄ where
  -- Removing a machine that addMachine has added, if both succeed and the ID has no slash, leads
  -- back to the topics before, and leaves the ID without a name.
  pub remove-add_machine :
      (mid pseudo : String) (cm cm' cm'' : ConfigManager)
      → Lacks "/" mid
      → add_machine mid pseudo cm ≡ ok (cm', true)
      → remove_machine mid cm' ≡ ok (cm'', true)
      → (cm''.mqtt.topic ≡ cm.mqtt.topic) × (lookup mid cm''.logic.machines ≡ none)
  remove-add_machine mid pseudo cm cm' cm'' l h k =
      let (e, t, _) = add_machine-ok mid cm pseudo cm' h in
      let (r, m) = remove_machine-ok mid cm' cm'' k in
      (
        ok-injective (sym r ∙ ap (other_topics mid) t ∙ other-append mid cm.mqtt.topic l e),
        rw (m, lookup-erase mid mid cm'.logic.machines) (ground (arith, eq_iff mid mid)),
      )
