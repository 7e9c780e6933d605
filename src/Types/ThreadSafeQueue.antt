-- ===== src/Types/ThreadSafeQueue.antt =====
-- ThreadSafeQueue of include/types.hpp. Every method holds the lock, so each is one step.
use mqtt_sentry.Base.{
  Outcome, ok, undefined, Bool, true, false, Option, none, some, List, [], ◌∷◌, ◌++◌,
}

-- std::queue, front first.
pub record Queue {ℓ} (U : Type ℓ) : Type ℓ where
  pub items : List U

module _ {ℓ} {U : Type ℓ} where
  unfoldable pub push : U → Queue U → Queue U
  push value q = record { items = q.items ++ value ∷ [] }

  take_front : List U → Option (U × Queue U)
  take_front [] = none
  take_front (value ∷ rest) = some (value, record { items = rest })

  -- `none` means that the caller waits for a push.
  unfoldable pub pop : Queue U → Option (U × Queue U)
  unfolding take_front
  pop q = take_front q.items

  unfoldable pub try_pop : Queue U → Option (U × Queue U)
  unfolding take_front
  try_pop q = take_front q.items

  unfoldable pub is_empty : Queue U → Bool
  is_empty q = elim q.items [ [] ↦ true | _ ↦ false ]

  -- The element in front, converted to bool.
  unfoldable pub front : (U → Bool) → Queue U → Outcome Bool
  front to_bool q = elim q.items [ [] ↦ undefined | value ∷ _ ↦ ok (to_bool value) ]
