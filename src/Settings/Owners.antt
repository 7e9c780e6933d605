-- ===== src/Settings/Owners.antt =====
-- The loops over the topics in addMachine and removeMachine of src/settings.cpp.
use mqtt_sentry.Base.{
  ap, sym, ◌∙◌, map, if◌then◌else◌, Bool-cases, inl, inr, String, ◌≡◌, refl, Bool, true, false, not,
  Option, none, some, List, [], ◌∷◌, ◌==◌, nat_eq, string_eq, Outcome, ok, keep, contains,
  undefined,
}
use mqtt_sentry.Settings.{topic_exists, other_topics, topic_id}
use mqtt_sentry.Settings.View.{owner, leading, is_complete, is_of}

-- The loop of addMachine finds the ID among those before a topic without one.
abbrev pub found : String → List (Option String) → Outcome Bool
found mid owners =
    if contains mid (leading owners)
    then ok true
    else if is_complete owners
    then ok false
    else undefined

found-next :
    (mid id : String) (owners : List (Option String)) (later : Outcome Bool)
    → later ≡ found mid owners
    → (elim (id == mid) as (λ b. Outcome Bool) [ true ↦ ok true | false ↦ later ])
      ≡ found mid (some id ∷ owners)
found-next mid id owners later e = elim (Bool-cases (id == mid)) [
  | inl same ↦ rw same refl
  | inr other ↦ rw other e
]

found-case :
    (mid t : String) (ts : List String) (o : Option String)
    → owner t ≡ o
    → topic_exists mid ts ≡ found mid (map owner ts)
    → topic_exists mid (t ∷ ts) ≡ found mid (owner t ∷ map owner ts)
unfolding topic_exists topic_id
found-case mid t ts none e ih = rw e refl
found-case mid t ts (some id) e ih = rw e (found-next mid id (map owner ts) _ ih)

pub topic_exists-found :
    (mid : String) (topics : List String) → topic_exists mid topics ≡ found mid (map owner topics)
unfolding topic_exists
topic_exists-found mid [] = refl
topic_exists-found mid (t ∷ ts) = found-case mid t ts (owner t) refl (topic_exists-found mid ts)

-- The loop of removeMachine leaves out the topics of the machine.
abbrev pub others : String → List String → Outcome (List String)
others mid topics =
    if is_complete (map owner topics) then ok (keep (λ t. not (is_of mid t)) topics) else undefined

is_of-owner : (mid t id : String) → owner t ≡ some id → is_of mid t ≡ (id == mid)
is_of-owner mid t id e = rw (is_of, e) refl

if-not : {A : Type 0} (b : Bool) (x y : A) → (if b then x else y) ≡ (if not b then y else x)
if-not true x y = refl
if-not false x y = refl

others-case :
    (mid t : String) (ts : List String) (o : Option String)
    → owner t ≡ o
    → other_topics mid ts ≡ others mid ts
    → other_topics mid (t ∷ ts) ≡ others mid (t ∷ ts)
unfolding other_topics topic_id
others-case mid t ts none e ih = rw e refl
others-case mid t ts (some id) e ih =
    rw (e, ih)
      (elim (Bool-cases (is_complete (map owner ts))) [
        | inl complete ↦
            let rest = keep (λ t. not (is_of mid t)) ts in
            rw complete (
              ap ok (if-not (id == mid) rest (t ∷ rest))
              ∙ ap (λ b. ok (if not b then t ∷ rest else rest)) (sym (is_of-owner mid t id e)))
        | inr lacking ↦ rw lacking refl
      ])

pub other_topics-others :
    (mid : String) (topics : List String) → other_topics mid topics ≡ others mid topics
unfolding other_topics
other_topics-others mid [] = refl
other_topics-others mid (t ∷ ts) = others-case mid t ts (owner t) refl (other_topics-others mid ts)
