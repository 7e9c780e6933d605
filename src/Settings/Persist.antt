-- ===== src/Settings/Persist.antt =====
-- A configuration that was saved is read back: `_write` and `_load` of src/settings.cpp.
use mqtt_sentry.Base.{
  ℕ, ◌<◌, ◌^◌, String, ◌≡◌, refl, Bool, true, false, Option, none, some, List, ℤ, pos, negsuc,
  Assoc, lookup, Eq, ◌==◌, string_eq, ok, All, or_throw, or_undefined, json_out_of_range, nat_eq,
}
use mqtt_sentry.Json.{JsonLib}
use mqtt_sentry.Settings.{ConfigManager, Tg, Mqtt, Logic, Graphite, WriteResult}
use mqtt_sentry.Settings.Format.{
  tg_to_json, tg_from_json, mqtt_to_json, mqtt_from_json, logic_to_json, logic_from_json,
  graphite_to_json, graphite_from_json,
}
use mqtt_sentry.Settings.Manager.{config_json, construct, initial, load, write}
use mqtt_sentry.Settings.Writes.{write-file}

abbrev pub has {ℓ} : {A : Type ℓ} → Option A → Bool
has none = false
has (some a) = true

-- Maps that answer alike: a container that is read back may iterate in another order.
pub record SameMap {K : Type 0} ⦃e : Eq K⦄ (m m' : Assoc K String) : Type 0 where
  pub at : (k : K) → lookup k m ≡ lookup k m'

-- A time_t of 64 bits.
abbrev pub FitsTime : ℤ → Type 0
FitsTime (pos n) = n < 2 ^ 63
FitsTime (negsuc n) = n < 2 ^ 63

-- What the documentation of nlohmann::json says of the calls in Json.antt.
pub record JsonLaws (J : JsonLib) : Type 0 where
  pub object_is : (m : Assoc String J.Json) → J.is_object (J.object m) ≡ true
  pub object_has :
      (m : Assoc String J.Json) (k : String) → J.has_key (J.object m) k ≡ has (lookup k m)
  pub object_at :
      (m : Assoc String J.Json) (k : String)
      → J.at (J.object m) k ≡ or_throw (lookup k m) json_out_of_range
  pub object_field :
      (m : Assoc String J.Json) (k : String) → J.field (J.object m) k ≡ or_undefined (lookup k m)
  pub string_back : (s : String) → J.get_string (J.of_string s) ≡ ok s
  pub uint_back : (bits n : ℕ) → n < 2 ^ bits → J.get_uint bits (J.of_uint n) ≡ ok n
  pub time_back : (t : ℤ) → FitsTime t → J.get_time (J.of_time t) ≡ ok t
  pub uints_back :
      (bits : ℕ) (ns : List ℕ)
      → All (λ n. n < 2 ^ bits) ns
      → J.get_uints bits (J.of_uints ns) ≡ ok ns
  pub strings_back : (ss : List String) → J.get_strings (J.of_strings ss) ≡ ok ss
  pub codes_back :
      (m : Assoc ℕ String)
      → All (λ entry. entry.0 < 2 ^ 32) m
      → (m' : Assoc ℕ String) × (J.get_codes (J.of_codes m) ≡ ok m') × SameMap m m'
  pub names_back :
      (m : Assoc String String)
      → (m' : Assoc String String) × (J.get_names (J.of_names m) ≡ ok m') × SameMap m m'

-- The numbers fit their C++ types.
pub record InRange (cm : ConfigManager) : Type 0 where
  pub users : All (λ n. n < 2 ^ 64) cm.tg.users
  pub admins : All (λ n. n < 2 ^ 64) cm.tg.admins
  pub mqtt_port : cm.mqtt.port < 2 ^ 16
  pub graphite_port : cm.graphite.port < 2 ^ 16
  pub timeout : FitsTime cm.logic.timeout
  pub timeout_limit : cm.logic.timeout_limit < 2 ^ 32
  pub disabled_codes : All (λ n. n < 2 ^ 32) cm.logic.disabled_codes
  pub code : All (λ entry. entry.0 < 2 ^ 32) cm.logic.code
  pub poses : All (λ entry. entry.0 < 2 ^ 32) cm.logic.poses

-- The same settings, in maps that answer alike.
pub record SameLogic (a b : Logic) : Type 0 where
  pub timeout : a.timeout ≡ b.timeout
  pub timeout_limit : a.timeout_limit ≡ b.timeout_limit
  pub disabled_codes : a.disabled_codes ≡ b.disabled_codes
  pub code : SameMap a.code b.code
  pub machines : SameMap a.machines b.machines
  pub poses : SameMap a.poses b.poses

module _ ⦃J : JsonLib⦄ (L : JsonLaws J) where
  tg-back :
      (t : Tg)
      → All (λ n. n < 2 ^ 64) t.users
      → All (λ n. n < 2 ^ 64) t.admins
      → tg_from_json (tg_to_json t) ≡ ok t
  unfolding tg_from_json tg_to_json lookup
  tg-back t u a = simp (
    L.object_field,
    L.object_is,
    L.object_has,
    L.object_at,
    L.string_back,
    L.uints_back 64 t.users u,
    L.uints_back 64 t.admins a,
  )

  mqtt-back : (m : Mqtt) → m.port < 2 ^ 16 → mqtt_from_json (mqtt_to_json m) ≡ ok m
  unfolding mqtt_from_json mqtt_to_json lookup
  mqtt-back m p =
      simp (L.object_has, L.object_at, L.string_back, L.uint_back 16 m.port p, L.strings_back)

  graphite-back : (g : Graphite) → g.port < 2 ^ 16 → graphite_from_json (graphite_to_json g) ≡ ok g
  unfolding graphite_from_json graphite_to_json lookup
  graphite-back g p = simp (L.object_field, L.string_back, L.uint_back 16 g.port p)

  pub logic-back :
      (l : Logic)
      → FitsTime l.timeout
      → l.timeout_limit < 2 ^ 32
      → All (λ n. n < 2 ^ 32) l.disabled_codes
      → All (λ entry. entry.0 < 2 ^ 32) l.code
      → All (λ entry. entry.0 < 2 ^ 32) l.poses
      → (l' : Logic) × (logic_from_json (logic_to_json l) ≡ ok l') × SameLogic l l'
  unfolding logic_from_json logic_to_json lookup
  logic-back l time t d c p =
      let (code, ec, sc) = L.codes_back l.code c in
      let (poses, ep, sp) = L.codes_back l.poses p in
      let (machines, em, sm) = L.names_back l.machines in
      (
        record l { code = code; machines = machines; poses = poses },
        simp (
          L.object_has,
          L.object_at,
          L.time_back l.timeout time,
          L.uint_back 32 l.timeout_limit t,
          L.uints_back 32 l.disabled_codes d,
          ec,
          ep,
          em,
        ),
        record {
          timeout = refl;
          timeout_limit = refl;
          disabled_codes = refl;
          code = sc;
          machines = sm;
          poses = sp;
        },
      )

  -- What `_load` makes of the text of a configuration.
  pub load-config :
      (cm cm' : ConfigManager) (logic : Logic)
      → cm'.loaded ≡ false
      → cm'.file ≡ some (J.dump (config_json cm))
      → InRange cm
      → J.parse (J.dump (config_json cm)) ≡ ok (config_json cm)
      → J.dump (config_json cm) == "" ≡ false
      → logic_from_json (logic_to_json cm.logic) ≡ ok logic
      → load cm'
        ≡ ok (
          record cm' {
            tg = cm.tg;
            mqtt = cm.mqtt;
            logic = logic;
            graphite = cm.graphite;
            loaded = true;
          },
          true,
        )
  unfolding load config_json lookup
  load-config cm cm' logic fresh file v parses filled back = simp (
    fresh,
    file,
    parses,
    filled,
    back,
    L.object_has,
    L.object_at,
    tg-back cm.tg v.users v.admins,
    mqtt-back cm.mqtt v.mqtt_port,
    graphite-back cm.graphite v.graphite_port,
  )

  -- A manager in range whose last write has succeeded left a file from which a new manager reads
  -- the same settings, its maps up to the order of iteration, provided that the JSON library
  -- parses what it has written for them and that this is not the empty text.
  pub construct-write :
      (cm : ConfigManager) (graphite : Graphite) (writes : List WriteResult)
      → InRange cm
      → J.parse (J.dump (config_json cm)) ≡ ok (config_json cm)
      → J.dump (config_json cm) == "" ≡ false
      → (write cm).1 ≡ true
      → (cm' : ConfigManager) × (construct graphite (write cm).0.file writes ≡ ok cm')
        × (cm'.tg ≡ cm.tg)
        × (cm'.mqtt ≡ cm.mqtt)
        × (cm'.graphite ≡ cm.graphite)
        × SameLogic cm.logic cm'.logic
  unfolding construct
  construct-write cm graphite writes v parses filled written =
      let (logic, back, same) =
        logic-back cm.logic v.timeout v.timeout_limit v.disabled_codes v.code v.poses in
      let fresh = initial graphite (write cm).0.file writes in
      (
        record fresh {
          tg = cm.tg;
          mqtt = cm.mqtt;
          logic = logic;
          graphite = cm.graphite;
          loaded = true;
        },
        simp (load-config cm fresh logic refl (write-file cm written) v parses filled back),
        refl,
        refl,
        refl,
        same,
      )
