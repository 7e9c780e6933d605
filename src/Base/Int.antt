-- ===== src/Base/Int.antt =====
-- Signed integers, and their 64-bit patterns.
use Prim.Native.Nat.{ℕ, zero, suc, ◌+◌, ◌-◌, ◌%◌, ◌^◌}
use mathlib.Core.Bool.{Bool, true, false}
use mqtt_sentry.Base.Tests.{ltb, leb, if◌then◌else◌}
use mqtt_sentry.Base.Text.{◌<>◌, to_string}
use Prim.Native.String.{String}

-- `negsuc n` is -(n + 1).
pub data ℤ : Type 0 where
  pos : ℕ → ℤ
  negsuc : ℕ → ℤ

-- -n
abbrev pub neg : ℕ → ℤ
neg zero = pos 0
neg (suc n) = negsuc n

-- z - k
abbrev pub sub_ℕ : ℤ → ℕ → ℤ
sub_ℕ (pos n) k = if leb k n then pos (n - k) else negsuc (k - n - 1)
sub_ℕ (negsuc n) k = negsuc (n + k)

-- Conversion to `bool`.
abbrev pub nonzero : ℤ → Bool
nonzero (pos zero) = false
nonzero (pos (suc n)) = true
nonzero (negsuc n) = true

-- static_cast<uint64_t>(z), and back.
abbrev pub to_u64 : ℤ → ℕ
to_u64 (pos n) = n % 2 ^ 64
to_u64 (negsuc n) = 2 ^ 64 - 1 - n % 2 ^ 64

abbrev pub to_i64 : ℕ → ℤ
to_i64 n = if ltb n (2 ^ 63) then pos n else negsuc (2 ^ 64 - 1 - n)

-- std::to_string of a signed number.
unfoldable pub int_to_string : ℤ → String
unfolding to_string
int_to_string (pos n) = to_string n
int_to_string (negsuc n) = "-" <> to_string (suc n)
