-- ===== src/Examples/Toy.antt =====
-- Small stand-ins for the JSON library and the Telegram API, which keep what is documented of the
-- real ones.
use mqtt_sentry.Base.{
  ℕ, String, ◌≡◌, refl, ap, Bool, true, false, not, Option, none, some, List, ℤ, pos, Assoc, lookup,
  ◌==◌, nat_eq, string_eq, Outcome, ok, throw, undefined, or_throw, or_undefined, json_out_of_range,
  parse_error, type_error, if◌then◌else◌,
}
use mqtt_sentry.Json.{JsonLib}
use mqtt_sentry.Settings.Persist.{JsonLaws, has}
use mqtt_sentry.Tg.{Api}

pub data Json : Type 0 where
  text : String → Json
  uint : ℕ → Json
  time : ℤ → Json
  uints : List ℕ → Json
  strings : List String → Json
  codes : Assoc ℕ String → Json
  names : Assoc String String → Json
  null : Json
  object : (String → Bool) → (String → Json) → Json

abbrev member : Json → String → Option Json
member (object has_k at_k) k = if has_k k then some (at_k k) else none
member _ k = none

abbrev or_null : Option Json → Json
or_null none = null
or_null (some j) = j

abbrev object_of : Assoc String Json → Json
object_of m = object (λ k. has (lookup k m)) (λ k. or_null (lookup k m))

found : (o : Option Json) → (if has o then some (or_null o) else none) ≡ o
found none = refl
found (some j) = refl

abbrev is_object : Json → Bool
is_object (object _ _) = true
is_object _ = false

abbrev get_string : Json → Outcome String
get_string (text s) = ok s
get_string _ = throw type_error

abbrev get_uint : ℕ → Json → Outcome ℕ
get_uint bits (uint n) = ok n
get_uint bits _ = throw type_error

abbrev get_int : Json → Outcome ℤ
get_int (uint n) = ok (pos n)
get_int _ = throw type_error

abbrev get_time : Json → Outcome ℤ
get_time (time t) = ok t
get_time _ = throw type_error

abbrev get_uints : ℕ → Json → Outcome (List ℕ)
get_uints bits (uints ns) = ok ns
get_uints bits _ = throw type_error

abbrev get_strings : Json → Outcome (List String)
get_strings (strings ss) = ok ss
get_strings _ = throw type_error

abbrev get_codes : Json → Outcome (Assoc ℕ String)
get_codes (codes m) = ok m
get_codes _ = throw type_error

abbrev get_names : Json → Outcome (Assoc String String)
get_names (names m) = ok m
get_names _ = throw type_error

-- A library for the files that hold one document.
abbrev pub json_of : Json → JsonLib
json_of document = record {
  Json = Json;
  parse = λ s. if s == "{…}" then ok document else throw parse_error;
  dump = λ j. "{…}";
  is_object = is_object;
  has_key = λ j k. has (member j k);
  at = λ j k. or_throw (member j k) json_out_of_range;
  field = λ j k. or_undefined (member j k);
  item = λ j n. if n == 0 then ok j else undefined;
  get_string = get_string;
  get_uint = get_uint;
  get_int = get_int;
  get_time = get_time;
  get_uints = get_uints;
  get_strings = get_strings;
  get_codes = get_codes;
  get_names = get_names;
  of_string = text;
  of_uint = uint;
  of_time = time;
  of_uints = uints;
  of_strings = strings;
  of_codes = codes;
  of_names = names;
  object = object_of;
}

pub json_of-JsonLaws : (document : Json) → JsonLaws (json_of document)
json_of-JsonLaws document = record {
  object_is = λ m. refl;
  object_has = λ m k. ap has (found (lookup k m));
  object_at = λ m k. ap (λ o. or_throw o json_out_of_range) (found (lookup k m));
  object_field = λ m k. ap or_undefined (found (lookup k m));
  string_back = λ s. refl;
  uint_back = λ bits n h. refl;
  time_back = λ t h. refl;
  uints_back = λ bits ns h. refl;
  strings_back = λ ss. refl;
  codes_back = λ m h. (m, refl, record { at = λ k. refl });
  names_back = λ m. (m, refl, record { at = λ k. refl });
}

-- Telegram, where user 13 has blocked the bot.
instance abbrev pub toy_api : Api
toy_api = record { accepts = λ user text. not (user == 13); answers = λ query. true }
