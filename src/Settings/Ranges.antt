-- ===== src/Settings/Ranges.antt =====
-- The numbers in the configuration of src/settings.cpp fit their C++ types, whatever is changed.
pub mod Methods
pub mod Changes
use mqtt_sentry.Base.{
  ℕ, ◌<◌, ◌^◌, String, ◌≡◌, refl, Bool, true, false, not, Option, none, some, List, [], ◌∷◌, ◌==◌,
  Eq, nat_eq, string_eq, Outcome, ok, ◌>>=◌, keep, contains, Assoc, lookup, insert, All, All-append,
  if_rule, throw, undefined,
}
use mqtt_sentry.Json.{JsonLib}
use mqtt_sentry.Settings.{Tg, Mqtt, Logic, Graphite, ConfigManager, topic_exists, other_topics}
use mqtt_sentry.Settings.Manager.{
  write, update_tg_config, update_mqtt_config, update_logic_config, update_graphite_config,
  add_user, remove_user, update_both, add_machine, remove_machine, add_error, rem_error, add_ex,
  rem_ex,
}
use mqtt_sentry.Settings.Writes.{SameConfig, write-config}
use mqtt_sentry.Settings.Persist.{InRange, FitsTime}
use mqtt_sentry.Settings.View.{
  Change, new_tg, new_mqtt, new_logic, new_graphite, user_added, user_removed, machine_added,
  machine_removed, error_added, error_removed, code_disabled, code_enabled,
}
use mqtt_sentry.Settings.History.{perform, perform_all}

-- Numbers of so many bits.
abbrev pub Fit : ℕ → List ℕ → Type 0
Fit bits ns = All (λ n. n < 2 ^ bits) ns

abbrev pub FitTg : Tg → Type 0
FitTg t = Fit 64 t.users × Fit 64 t.admins

abbrev pub FitLogic : Logic → Type 0
FitLogic l =
    (l.timeout_limit < 2 ^ 32)
    × Fit 32 l.disabled_codes
    × All (λ entry. entry.0 < 2 ^ 32) l.code
    × All (λ entry. entry.0 < 2 ^ 32) l.poses
    × FitsTime l.timeout

-- The arguments of a call fit their C++ types.
abbrev pub Fits : Change → Type 0
Fits (new_tg t) = FitTg t
Fits (new_mqtt m) = m.port < 2 ^ 16
Fits (new_logic l) = FitLogic l
Fits (new_graphite g) = g.port < 2 ^ 16
Fits (user_added u) = u < 2 ^ 64
Fits (error_added code des) = code < 2 ^ 32
Fits (code_disabled code) = code < 2 ^ 32
Fits _ = Unit

pub All-keep :
    {A : Type 0} (P : A → Type 0) (p : A → Bool) (xs : List A) → All P xs → All P (keep p xs)
All-keep P p [] a = tt
All-keep P p (x ∷ xs) a = if_rule (All P) (p x) (a.0, All-keep P p xs a.1) (All-keep P p xs a.1)

pub All-insert :
    {K : Type 0} ⦃e : Eq K⦄ (P : K → Type 0) (k : K) (name : String) (m : Assoc K String)
    → P k
    → All (λ entry. P entry.0) m
    → All (λ entry. P entry.0) (insert k name m)
unfolding insert
All-insert P k name [] h a = (h, tt)
All-insert P k name ((j, w) ∷ m) h a =
    if_rule (All (λ entry. P entry.0)) (j == k) (h, a.1) (a.0, All-insert P k name m h a.1)

module _ (cm : ConfigManager) where
  pub tg-InRange : (t : Tg) → InRange cm → FitTg t → InRange (record cm { tg = t })
  tg-InRange t i f = record {
    users = f.0;
    admins = f.1;
    mqtt_port = i.mqtt_port;
    graphite_port = i.graphite_port;
    timeout = i.timeout;
    timeout_limit = i.timeout_limit;
    disabled_codes = i.disabled_codes;
    code = i.code;
    poses = i.poses;
  }

  pub logic-InRange : (l : Logic) → InRange cm → FitLogic l → InRange (record cm { logic = l })
  logic-InRange l i f = record {
    users = i.users;
    admins = i.admins;
    mqtt_port = i.mqtt_port;
    graphite_port = i.graphite_port;
    timeout = f.4;
    timeout_limit = f.0;
    disabled_codes = f.1;
    code = f.2;
    poses = f.3;
  }

  pub fit_logic : InRange cm → FitLogic cm.logic
  fit_logic i = (i.timeout_limit, i.disabled_codes, i.code, i.poses, i.timeout)

pub InRange-same : (a b : ConfigManager) → SameConfig a b → InRange b → InRange a
InRange-same a b s i = record {
  users = rw s.tg i.users;
  admins = rw s.tg i.admins;
  mqtt_port = rw s.mqtt i.mqtt_port;
  graphite_port = rw s.graphite i.graphite_port;
  timeout = rw s.logic i.timeout;
  timeout_limit = rw s.logic i.timeout_limit;
  disabled_codes = rw s.logic i.disabled_codes;
  code = rw s.logic i.code;
  poses = rw s.logic i.poses;
}

abbrev pub AllInRange : {A : Type 0} → (A → ConfigManager) → Outcome A → Type 0
AllInRange config (ok a) = InRange (config a)
AllInRange config _ = Unit
