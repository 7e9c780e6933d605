-- ===== src/Utils/Scan.antt =====
-- Numbers read from text: the conversions of `sscanf` and `std::stoul`, `std::stoull` and
-- `std::stoll` that the program uses. `%d` reads any number; string_to_unix looks whether it fits an
-- `int`.
use Prim.Native.Char.{Char, code}
use Prim.Native.String.{[], ◌∷◌}
use mqtt_sentry.Base.{
  ℕ, ◌+◌, ◌-◌, ◌*◌, ◌%◌, ◌^◌, String, Bool, true, false, ◌&&◌, ◌||◌, Option, none, some, ℤ, pos,
  neg, ◌==◌, nat_eq, ltb, leb, if◌then◌else◌, Outcome, ok, throw, invalid_argument, out_of_range,
}

abbrev pub is_space : ℕ → Bool
is_space c = c == b' ' || (leb 9 c && leb c 13)

abbrev pub is_digit : ℕ → Bool
is_digit c = leb b'0' c && leb c b'9'

skip_space : String → String
skip_space [] = []
skip_space (c ∷ s) = if is_space (code c) then skip_space s else c ∷ s

-- The digits at the front of a text, after the number `n`.
unfoldable pub read_digits : ℕ → String → ℕ × String
read_digits n [] = (n, [])
read_digits n (c ∷ s) =
    let rest = read_digits (n * 10 + (code c - b'0')) s in
    if is_digit (code c) then rest else (n, c ∷ s)

-- At least one digit.
read_number : Bool → String → Option (Bool × ℕ × String)
unfolding read_digits
read_number negative [] = none
read_number negative (c ∷ s) =
    let (n, rest) = read_digits 0 (c ∷ s) in
    if is_digit (code c) then some (negative, n, rest) else none

read_sign : String → Option (Bool × ℕ × String)
unfolding read_number
read_sign [] = none
read_sign (c ∷ s) =
    if code c == b'-'
    then read_number true s
    else if code c == b'+'
    then read_number false s
    else read_number false (c ∷ s)

-- The sign, the magnitude and what follows.
unfoldable pub read_signed : String → Option (Bool × ℕ × String)
unfolding skip_space read_sign
read_signed s = read_sign (skip_space s)

abbrev signed : Bool → ℕ → ℤ
signed true n = neg n
signed false n = pos n

infixl 5 ◌>>=◌
abbrev ◌>>=◌ : {A B : Type 0} → Option A → (A → Option B) → Option B
none >>= f = none
some a >>= f = f a

-- %d
scan_int : String → Option (ℤ × String)
unfolding read_signed
scan_int s = do (negative, n, rest) ← read_signed s; some (signed negative n, rest)

-- A literal character of the format.
scan_char : Char → String → Option String
scan_char d [] = none
scan_char d (c ∷ s) = if code c == code d then some s else none

-- sscanf(s, "%d-%d-%d %d:%d:%d", …) == 6
unfoldable pub scan_date : String → Option (ℤ × ℤ × ℤ × ℤ × ℤ × ℤ)
unfolding scan_int scan_char skip_space
scan_date s = do
  (year, s1) ← scan_int s
  s2 ← scan_char "-" s1
  (month, s3) ← scan_int s2
  s4 ← scan_char "-" s3
  (day, s5) ← scan_int s4
  (hour, s6) ← scan_int (skip_space s5)
  s7 ← scan_char ":" s6
  (min, s8) ← scan_int s7
  s9 ← scan_char ":" s8
  (sec, _) ← scan_int s9
  some (year, month, day, hour, min, sec)

-- strtoul in `bits` bits: a number with a minus sign is accepted, and wraps.
to_unsigned : ℕ → Option (Bool × ℕ × String) → Outcome ℕ
to_unsigned bits none = throw invalid_argument
to_unsigned bits (some (negative, n, rest)) =
    if leb (2 ^ bits) n
    then throw out_of_range
    else ok (if negative then (2 ^ bits - n) % 2 ^ bits else n)

to_signed : Option (Bool × ℕ × String) → Outcome ℤ
to_signed none = throw invalid_argument
to_signed (some (true, n, rest)) = if ltb (2 ^ 63) n then throw out_of_range else ok (neg n)
to_signed (some (false, n, rest)) = if leb (2 ^ 63) n then throw out_of_range else ok (pos n)

-- `unsigned long` has 32 bits on the ARMv6 target.
unfoldable pub stoul : String → Outcome ℕ
unfolding to_unsigned read_signed
stoul s = to_unsigned 32 (read_signed s)

unfoldable pub stoull : String → Outcome ℕ
unfolding to_unsigned read_signed
stoull s = to_unsigned 64 (read_signed s)

unfoldable pub stoll : String → Outcome ℤ
unfolding to_signed read_signed
stoll s = to_signed (read_signed s)
