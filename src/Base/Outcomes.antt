-- ===== src/Base/Outcomes.antt =====
-- How a C++ expression ends: with a value, with an exception, or in undefined behaviour.
use mathlib.Core.Path.{◌≡◌, refl}
use mathlib.Core.Option.{Option, none, some}

-- The exceptions that the program tells apart: those of the standard library, and those of
-- nlohmann::json, of which none is a std::out_of_range.
pub data Exception : Type 0 where
  out_of_range invalid_argument runtime_error : Exception
  parse_error type_error json_out_of_range : Exception

pub data Outcome {ℓ} (A : Type ℓ) : Type ℓ where
  ok : A → Outcome A
  throw : Exception → Outcome A
  undefined : Outcome A

infixl 5 ◌>>=◌
abbrev pub ◌>>=◌ {ℓ κ} : {A : Type ℓ} {B : Type κ} → Outcome A → (A → Outcome B) → Outcome B
ok a >>= f = f a
throw e >>= f = throw e
undefined >>= f = undefined

-- v.at(i), m.at(k)
abbrev pub or_throw {ℓ} : {A : Type ℓ} → Option A → Exception → Outcome A
or_throw none e = throw e
or_throw (some a) e = ok a

-- v[i]
abbrev pub or_undefined {ℓ} : {A : Type ℓ} → Option A → Outcome A
or_undefined none = undefined
or_undefined (some a) = ok a

-- A chain that ends with a value has had one at every link.
pub >>=-eq-ok {ℓ κ} :
    {A : Type ℓ} {C : Type κ} (first : Outcome A) (next : A → Outcome C) {c : C}
    → (first >>= next) ≡ ok c
    → (x : A) × (first ≡ ok x) × (next x ≡ ok c)
>>=-eq-ok undefined next e = cc
>>=-eq-ok (throw ex) next e = cc
>>=-eq-ok (ok x) next e = (x, refl, e)
