-- ===== src/Settings/View.antt =====
-- What the configuration of include/settings.hpp means, without its file: the settings, with its
-- maps up to the order in which they iterate, and the changes that src/settings.cpp makes to them.
use mathlib.Core.Quot
use mathlib.Core.Quot.{Quot, Quot-set}
use mathlib.Core.HLevel.{hedberg}
use mathlib.Core.Option.{is_set}
use mathlib.Core.Logic.{◌↔◌}
use mathlib.Core.Bool.{true≢false}
use mqtt_sentry.Utils.{split}
use mqtt_sentry.Base.{
  Bool, true, false, undefined, map, get_elem?, ◌<>◌, Bool-cases, inl, inr, sym, ◌∙◌, ℕ, String,
  ◌≡◌, ap, not, Option, none, some, List, [], ◌∷◌, ◌++◌, ◌==◌, Eq, nat_eq, string_eq, if◌then◌else◌,
  Outcome, ok, ◌>>=◌, keep, contains, Assoc, lookup, insert, erase, lookup-insert, lookup-erase, ℤ,
}
use mqtt_sentry.Settings.{Tg, Mqtt, Logic, Graphite, ConfigManager}
use mqtt_sentry.Settings.Persist.{SameMap}

pub Eq-set : {A : Type 0} → Eq A → IsSet A
Eq-set e = hedberg (λ x y. elim (Bool-cases (e.beq x y)) [
  | inl same ↦ yes ((e.beq_iff x y).0 same)
  | inr other ↦ no (λ p. true≢false (sym ((e.beq_iff x y).1 p) ∙ other))
])

-- A map to names, as its reader sees it.
abbrev pub Names : (K : Type 0) → ⦃e : Eq K⦄ → Type 0
Names K = Quot (SameMap {K = K})

module _ {K : Type 0} ⦃e : Eq K⦄ where
  abbrev pub names : Assoc K String → Names K
  names m = Quot.mk m

  unfoldable pub find : K → Names K → Option String
  find k = Quot.lift (is_set (Eq-set string_eq)) (lookup k) (λ m m' same. same.at k)

  unfoldable pub assign : K → String → Names K → Names K
  assign k name =
      Quot.lift Quot-set (λ m. names (insert k name m))
        (λ m m' same. Quot.sound (record {
          at = λ j. rw (lookup-insert k j name m, lookup-insert k j name m', same.at j);
        }))

  unfoldable pub forget : K → Names K → Names K
  forget k =
      Quot.lift Quot-set (λ m. names (erase k m))
        (λ m m' same.
          Quot.sound (record { at = λ j. rw (lookup-erase k j m, lookup-erase k j m', same.at j) }))

  -- Two maps are the same to a reader exactly if they give the same name for every key.
  pub Names-same : (m m' : Assoc K String) → (names m ≡ names m') ↔ SameMap m m'
  unfolding find
  Names-same m m' = ((λ p. record { at = λ k. ap (find k) p }), λ same. Quot.sound same)

-- The settings.
pub record View : Type 0 where
  pub tg : Tg
  pub mqtt : Mqtt
  pub graphite : Graphite
  pub timeout : ℤ
  pub timeout_limit : ℕ
  pub disabled_codes : List ℕ
  pub code : Names ℕ
  pub machines : Names String
  pub poses : Names ℕ

abbrev pub view_logic : Logic → View → View
view_logic l v = record v {
  timeout = l.timeout;
  timeout_limit = l.timeout_limit;
  disabled_codes = l.disabled_codes;
  code = names l.code;
  machines = names l.machines;
  poses = names l.poses;
}

abbrev pub view : ConfigManager → View
view cm = record {
  tg = cm.tg;
  mqtt = cm.mqtt;
  graphite = cm.graphite;
  timeout = cm.logic.timeout;
  timeout_limit = cm.logic.timeout_limit;
  disabled_codes = cm.logic.disabled_codes;
  code = names cm.logic.code;
  machines = names cm.logic.machines;
  poses = names cm.logic.poses;
}

-- A call of a method that changes the configuration.
pub data Change : Type 0 where
  new_tg : Tg → Change
  new_mqtt : Mqtt → Change
  new_logic : Logic → Change
  new_graphite : Graphite → Change
  user_added user_removed : ℕ → Change
  machine_added : String → String → Change
  machine_removed : String → Change
  error_added : ℕ → String → Change
  error_removed code_disabled code_enabled : ℕ → Change

-- The ID of the machine that a topic belongs to: its second segment, if it has one.
abbrev pub owner : String → Option String
owner t = get_elem? (split "/" t) 1

-- The IDs before the first topic that has none.
abbrev pub leading : List (Option String) → List String
leading [] = []
leading (none ∷ rest) = []
leading (some id ∷ rest) = id ∷ leading rest

abbrev pub is_complete : List (Option String) → Bool
is_complete [] = true
is_complete (none ∷ rest) = false
is_complete (some id ∷ rest) = is_complete rest

abbrev pub is_of : String → String → Bool
is_of mid t = elim (owner t) [ none ↦ false | some id ↦ id == mid ]

-- What a change makes of the settings. A machine that has a topic already keeps its pseudonym. A
-- topic without a second segment leads to undefined behaviour, where it is looked at.
unfoldable pub revise : Change → View → Outcome View
revise (new_tg t) v = ok (record v { tg = t })
revise (new_mqtt m) v = ok (record v { mqtt = m })
revise (new_logic l) v = ok (view_logic l v)
revise (new_graphite g) v = ok (record v { graphite = g })
revise (user_added u) v = ok (
    if contains u v.tg.users
    then v
    else record v { tg = record v.tg { users = v.tg.users ++ u ∷ [] } })
revise (user_removed u) v =
    ok (record v { tg = record v.tg { users = keep (λ it. not (it == u)) v.tg.users } })
revise (machine_added mid pseudo) v =
    if contains mid (leading (map owner v.mqtt.topic))
    then ok v
    else if is_complete (map owner v.mqtt.topic)
    then ok (record v {
      machines = assign mid pseudo v.machines;
      mqtt = record v.mqtt { topic = v.mqtt.topic ++ ("NordFrost/" <> mid <> "/#") ∷ [] };
    })
    else undefined
revise (machine_removed mid) v =
    if is_complete (map owner v.mqtt.topic)
    then ok (record v {
      machines = forget mid v.machines;
      mqtt = record v.mqtt { topic = keep (λ t. not (is_of mid t)) v.mqtt.topic };
    })
    else undefined
revise (error_added code des) v =
    ok (elim (find code v.code) [ some _ ↦ v | none ↦ record v { code = assign code des v.code } ])
revise (error_removed code) v = ok (record v { code = forget code v.code })
revise (code_disabled code) v = ok (record v { disabled_codes = v.disabled_codes ++ code ∷ [] })
revise (code_enabled code) v =
    ok (record v { disabled_codes = keep (λ each. not (each == code)) v.disabled_codes })

unfoldable pub revise_all : List Change → View → Outcome View
revise_all [] v = ok v
revise_all (c ∷ rest) v = do v' ← revise c v; revise_all rest v'
