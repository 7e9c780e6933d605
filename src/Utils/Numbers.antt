-- ===== src/Utils/Numbers.antt =====
-- std::stoul and std::stoull read back what std::to_string has printed.
use mathlib.Core.Path.{subst}
use Prim.Native.Char.{Char, code}
use Prim.Native.String.{[], ◌∷◌}
use text.Mathlib.TextLemmas.{append_assoc, append-nil, cons-append, nil-append}
use native.Mathlib.Nat.{pow-suc}
use mqtt_sentry.Base.{
  throw, out_of_range, if◌then◌else◌, ℕ, zero, suc, ◌+◌, ◌-◌, ◌*◌, ◌/◌, ◌%◌, ◌^◌, ◌<◌, String, ◌≡◌,
  refl, true, false, arith, ltb, ◌<>◌, to_string, to_digits, digit, Bool-cases, inl, inr, some, ok,
  nat_eq, ◌==◌,
}
use mqtt_sentry.Utils.Scan.{stoul, stoull, read_signed, read_digits, is_digit, is_space}

-- A text that starts with a digit.
pub record StartsWithDigit (s : String) : Type 0 where
  pub head : Char
  pub tail : String
  pub is : s ≡ head ∷ tail
  pub digit : is_digit (code head) ≡ true

-- The character of a digit.
pub record DigitOf (n : ℕ) : Type 0 where
  char : Char
  is : digit n ≡ char ∷ []
  value : code char ≡ b'0' + n

digit-DigitOf : (n : ℕ) → n < 10 → DigitOf n
digit-DigitOf zero h = record { char = "0"; is = refl; value = refl }
digit-DigitOf (suc zero) h = record { char = "1"; is = refl; value = refl }
digit-DigitOf (suc (suc zero)) h = record { char = "2"; is = refl; value = refl }
digit-DigitOf (suc (suc (suc zero))) h = record { char = "3"; is = refl; value = refl }
digit-DigitOf (suc (suc (suc (suc zero)))) h = record { char = "4"; is = refl; value = refl }
digit-DigitOf (suc (suc (suc (suc (suc zero))))) h = record { char = "5"; is = refl; value = refl }
digit-DigitOf (suc (suc (suc (suc (suc (suc zero)))))) h = record {
  char = "6";
  is = refl;
  value = refl;
}
digit-DigitOf (suc (suc (suc (suc (suc (suc (suc zero))))))) h = record {
  char = "7";
  is = refl;
  value = refl;
}
digit-DigitOf (suc (suc (suc (suc (suc (suc (suc (suc zero)))))))) h = record {
  char = "8";
  is = refl;
  value = refl;
}
digit-DigitOf (suc (suc (suc (suc (suc (suc (suc (suc (suc zero))))))))) h = record {
  char = "9";
  is = refl;
  value = refl;
}
digit-DigitOf (suc (suc (suc (suc (suc (suc (suc (suc (suc (suc n)))))))))) h = absurd (omega arith)

digit-read :
    (a n m : ℕ) (s : String)
    → n < 10
    → a * 10 + n ≡ m
    → read_digits a (digit n <> s) ≡ read_digits m s
unfolding read_digits
digit-read a n m s h e =
    let d = digit-DigitOf n h in
    let value : a * 10 + (code d.char - b'0') ≡ m = omega (arith, d.value) in
    let is : is_digit (code d.char) ≡ true = ground (arith, d.value) in
    rw (d.is, cons-append, nil-append, is, value)

digit-starts : (n : ℕ) (s : String) → n < 10 → StartsWithDigit (digit n <> s)
digit-starts n s h =
    let d = digit-DigitOf n h in
    record {
      head = d.char;
      tail = s;
      is = rw (d.is, cons-append, nil-append);
      digit = ground (arith, d.value);
    }

-- Reading the digits of a number and then a text.
to_digits-read :
    (fuel n : ℕ) (s : String)
    → n < 10 ^ suc fuel
    → read_digits 0 (to_digits (suc fuel) n <> s) ≡ read_digits n s
unfolding to_digits
to_digits-read zero n s h =
    let small : ltb n 10 ≡ true = ground (arith, h) in
    rw small (digit-read 0 n n s (omega (arith, h)) (omega arith))
to_digits-read (suc fuel) n s h = elim (Bool-cases (ltb n 10)) [
  | inl small ↦ rw small (digit-read 0 n n s (ground arith) (omega arith))
  | inr large ↦
      let fits : n / 10 < 10 ^ suc fuel = omega (arith, pow-suc 10 (suc fuel)) in
      rw (large, append_assoc, to_digits-read fuel (n / 10) _ fits)
        (digit-read (n / 10) (n % 10) n s (omega arith) (omega arith))
]

to_digits-starts :
    (fuel n : ℕ) (s : String) → n < 10 ^ suc fuel → StartsWithDigit (to_digits (suc fuel) n <> s)
unfolding to_digits
to_digits-starts zero n s h =
    let small : ltb n 10 ≡ true = ground (arith, h) in
    rw small (digit-starts n s (omega (arith, h)))
to_digits-starts (suc fuel) n s h = elim (Bool-cases (ltb n 10)) [
  | inl small ↦ rw small (digit-starts n s (ground arith))
  | inr large ↦
      let fits : n / 10 < 10 ^ suc fuel = omega (arith, pow-suc 10 (suc fuel)) in
      rw (large, append_assoc) (to_digits-starts fuel (n / 10) _ fits)
]

read_signed-starts :
    (s : String)
    → StartsWithDigit s
    → read_signed s ≡ some (false, (read_digits 0 s).0, (read_digits 0 s).1)
unfolding read_signed
read_signed-starts s d =
    let not_space : is_space (code d.head) ≡ false = ground (arith, d.digit) in
    let not_minus : code d.head == b'-' ≡ false = ground (arith, d.digit) in
    let not_plus : code d.head == b'+' ≡ false = ground (arith, d.digit) in
    rw d.is (rw (not_space, not_minus, not_plus, d.digit))

read_signed-to_string : (n : ℕ) → n < 10 ^ 20 → read_signed (to_string n) ≡ some (false, n, [])
unfolding to_string read_digits
read_signed-to_string n h = rw (
  ← append-nil (to_digits 20 n),
  read_signed-starts _ (to_digits-starts 19 n [] h),
  to_digits-read 19 n [] h,
)

pub to_string-StartsWithDigit : (n : ℕ) → n < 10 ^ 20 → StartsWithDigit (to_string n)
unfolding to_string
to_string-StartsWithDigit n h =
    subst StartsWithDigit (append-nil (to_digits 20 n)) (to_digits-starts 19 n [] h)

-- A number of 64 bits that std::to_string prints is read back by std::stoull. std::stoul, whose
-- numbers have 32 bits, reads it back if it is below 2 ^ 32 and throws out_of_range otherwise.
pub to_string_back :
    (n : ℕ)
    → n < 2 ^ 64
    → (stoull (to_string n) ≡ ok n)
      × (stoul (to_string n) ≡ (if ltb n (2 ^ 32) then ok n else throw out_of_range))
unfolding stoul stoull
to_string_back n h = rw (read_signed-to_string n (omega arith)) (ground arith, ground arith)
