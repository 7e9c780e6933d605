-- ===== src/Types.antt =====
-- include/types.hpp: alerts, metrics and histories; the containers and the messages of the
-- machines are in the children.
pub mod ThreadSafeQueue
pub mod ThreadSafeMap
pub mod Messages
use mqtt_sentry.Base.{ℕ, String, Bool, ◌≡◌, ◌↔◌, refl, Eq, ℤ, nat_beq, arith}

-- AlertEvents::State
pub data AlertState : Type 0 where
  fine online offline error pump_on pump_off eco_malfunction : AlertState

-- The number of an enumerator, by which `==` compares.
abbrev pub state_number : AlertState → ℕ
state_number fine = 0
state_number online = 1
state_number offline = 2
state_number error = 3
state_number pump_on = 4
state_number pump_off = 5
state_number eco_malfunction = 6

abbrev pub state_beq : AlertState → AlertState → Bool
state_beq a b = nat_beq (state_number a) (state_number b)

pub state_beq_iff : (a b : AlertState) → (state_beq a b ≡ Bool.true) ↔ (a ≡ b)
state_beq_iff a b = ground arith

instance abbrev pub state_eq : Eq AlertState
state_eq = record { beq = state_beq; beq_iff = state_beq_iff }

pub record AlertEvents : Type 0 where
  pub state : AlertState
  pub machine_id : String
  pub message : String
  pub timestamp : String

pub record History {ℓ} (T : Type ℓ) : Type ℓ where
  pub current : T
  pub previous : T

unfoldable pub update {ℓ} : {T : Type ℓ} → T → History T → History T
update next h = record { current = next; previous = h.current }

pub record Metric : Type 0 where
  pub path : String
  pub value : ℕ
  pub ts : ℤ
