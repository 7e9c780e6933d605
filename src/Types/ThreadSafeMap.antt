-- ===== src/Types/ThreadSafeMap.antt =====
-- ThreadSafeMap of include/types.hpp. Every method holds the lock, so each is one step.
use mqtt_sentry.Base.{
  Bool, true, false, Option, none, some, ◌≡◌, refl, Bool-cases, inl, inr, Eq, ◌==◌, if◌then◌else◌,
  Assoc, lookup, insert, lookup-insert,
}
use mqtt_sentry.Base.{erase as erase_key}

pub record Map {ℓ κ} (K : Type ℓ) (V : Type κ) : Type (ℓ ⊔ κ) where
  pub entries : Assoc K V

module _ {ℓ κ} {K : Type ℓ} {V : Type κ} ⦃e : Eq K⦄ where
  unfoldable pub set : K → V → Map K V → Map K V
  set key value m = record { entries = insert key value m.entries }

  unfoldable pub get : K → Map K V → Option V
  get key m = lookup key m.entries

  -- The map without the key, and whether it was there.
  unfoldable pub erase : K → Map K V → Map K V × Bool
  erase key m = (
    record { entries = erase_key key m.entries },
    (elim (lookup key m.entries) [ none ↦ false | some _ ↦ true ]),
  )

  unfoldable pub contains : K → Map K V → Bool
  contains key m = elim (lookup key m.entries) [ none ↦ false | some _ ↦ true ]

  pub get-set :
      (k j : K) (v : V) (m : Map K V) → get j (set k v m) ≡ (if k == j then some v else get j m)
  unfolding get set
  get-set k j v m = lookup-insert k j v m.entries

  pub contains-get :
      (k : K) (m : Map K V) → contains k m ≡ elim (get k m) [ none ↦ false | some _ ↦ true ]
  unfolding contains get
  contains-get k m = refl

  pub contains-set :
      (k j : K) (v : V) (m : Map K V)
      → contains j (set k v m) ≡ (if k == j then true else contains j m)
  contains-set k j v m =
      rw (contains-get j (set k v m), get-set k j v m, contains-get j m)
        (elim (Bool-cases (k == j)) [ inl same ↦ rw same refl | inr other ↦ rw other refl ])
