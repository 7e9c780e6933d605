-- ===== src/Json.antt =====
-- The part of nlohmann::json that the program calls, as an interface: the library is a submodule.
use mqtt_sentry.Base.{
  ℕ, String, Bool, List, ℤ, Assoc, Outcome, ok, throw, type_error, ◌>>=◌, if◌then◌else◌,
}

pub record JsonLib : Type 1 where
  pub Json : Type 0
  -- json::parse and dump(4)
  pub parse : String → Outcome Json
  pub dump : Json → String
  pub is_object : Json → Bool
  pub has_key : Json → String → Bool
  -- j.at(key), and the const j[key] and j[index]
  pub at : Json → String → Outcome Json
  pub field : Json → String → Outcome Json
  pub item : Json → ℕ → Outcome Json
  -- Conversions to std::string, an unsigned number of so many bits, int, time_t, and containers.
  pub get_string : Json → Outcome String
  pub get_uint : ℕ → Json → Outcome ℕ
  pub get_int : Json → Outcome ℤ
  pub get_time : Json → Outcome ℤ
  pub get_uints : ℕ → Json → Outcome (List ℕ)
  pub get_strings : Json → Outcome (List String)
  pub get_codes : Json → Outcome (Assoc ℕ String)
  pub get_names : Json → Outcome (Assoc String String)
  -- Conversions from them, and the object with the given members.
  pub of_string : String → Json
  pub of_uint : ℕ → Json
  pub of_time : ℤ → Json
  pub of_uints : List ℕ → Json
  pub of_strings : List String → Json
  pub of_codes : Assoc ℕ String → Json
  pub of_names : Assoc String String → Json
  pub object : Assoc String Json → Json

module _ ⦃J : JsonLib⦄ where
  -- j.value(key, std::vector<uint64_t>{…})
  abbrev pub value_uints : J.Json → String → List ℕ → Outcome (List ℕ)
  value_uints j key default =
      if J.is_object j
      then (if J.has_key j key then (do v ← J.at j key; J.get_uints 64 v) else ok default)
      else throw type_error

  -- if (j.contains(key)) j.at(key).get_to(field)
  abbrev pub get_to {ℓ} : {A : Type ℓ} → (J.Json → Outcome A) → J.Json → String → A → Outcome A
  get_to get j key old = if J.has_key j key then (do v ← J.at j key; get v) else ok old
