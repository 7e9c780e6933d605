-- ===== src/Base/Text.antt =====
-- Texts: concatenation, and the decimal form of a number (`std::to_string`).
use Prim.Native.Nat.{ℕ, zero, suc, ◌/◌, ◌%◌}
use Prim.Native.Char.{char}
use Prim.Native.String.{String, [], ◌∷◌}
use Prim.Native.String
use mqtt_sentry.Base.Tests.{ltb, if◌then◌else◌}

infixr 65 ◌<>◌
abbrev pub ◌<>◌ : String → String → String
s <> t = String.◌++◌ s t

abbrev pub digit : ℕ → String
digit n =
    if ltb n 1
    then "0"
    else if ltb n 2
    then "1"
    else if ltb n 3
    then "2"
    else if ltb n 4
    then "3"
    else if ltb n 5
    then "4"
    else if ltb n 6
    then "5"
    else if ltb n 7
    then "6"
    else if ltb n 8
    then "7"
    else if ltb n 9
    then "8"
    else "9"

-- `fuel` rounds print a number below 10 ^ fuel.
unfoldable pub to_digits : ℕ → ℕ → String
to_digits zero n = []
to_digits (suc fuel) n =
    let rest = to_digits fuel (n / 10) <> digit (n % 10) in if ltb n 10 then digit n else rest

-- std::to_string of an unsigned number: twenty digits are enough for 64 bits.
unfoldable pub to_string : ℕ → String
unfolding to_digits
to_string n = to_digits 20 n

-- The variation selector that follows some of the signs in the messages.
abbrev pub vs16 : String
vs16 = char 0xfe0f tt ∷ []
