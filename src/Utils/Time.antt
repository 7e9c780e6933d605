-- ===== src/Utils/Time.antt =====
-- formatTime of include/utils.hpp: the buffer is long enough.
use Prim.Native.String.{len}
use text.Mathlib.TextPositions.{len-append}
use native.Mathlib.Nat.{pow-suc}
use mqtt_sentry.Base.{
  ℕ, zero, suc, ◌/◌, ◌%◌, ◌^◌, ◌≤◌, ◌<◌, String, ◌≡◌, refl, true, arith, ltb, ◌<>◌, to_string,
  to_digits, digit, Bool-cases, inl, inr, if_rule,
}
use mqtt_sentry.Utils.{format_time, cut}

digit-len : (n : ℕ) → len (digit n) ≡ 1
digit-len n =
    let P = λ (s : String). len s ≡ 1 in
    if_rule P (ltb n 1) refl (
      if_rule P (ltb n 2) refl (
        if_rule P (ltb n 3) refl (
          if_rule P (ltb n 4) refl (
            if_rule P (ltb n 5) refl (
              if_rule P (ltb n 6) refl (
                if_rule P (ltb n 7) refl
                  (if_rule P (ltb n 8) refl (if_rule P (ltb n 9) refl refl))))))))

-- A number below 10 ^ k has at most k digits.
to_digits-len : (fuel k n : ℕ) → 0 < k → n < 10 ^ k → len (to_digits fuel n) ≤ k
unfolding to_digits
to_digits-len zero k n p h = omega arith
to_digits-len (suc fuel) zero n p h = absurd (omega arith)
to_digits-len (suc fuel) (suc zero) n p h =
    let small : ltb n 10 ≡ true = ground arith in rw small (omega (arith, digit-len n))
to_digits-len (suc fuel) (suc (suc k)) n p h = elim (Bool-cases (ltb n 10)) [
  | inl small ↦ rw small (omega (arith, digit-len n))
  | inr large ↦
      let fits : n / 10 < 10 ^ suc k = omega (arith, pow-suc 10 (suc k)) in
      rw large (
        omega (
          arith,
          len-append (to_digits fuel (n / 10)) (digit (n % 10)),
          digit-len (n % 10),
          to_digits-len fuel (suc k) (n / 10) (omega arith) fits,
        ))
]

to_string-len : (k n : ℕ) → 0 < k → n < 10 ^ k → len (to_string n) ≤ k
unfolding to_string
to_string-len k n p h = to_digits-len 20 k n p h

cut-whole : (size : ℕ) (s : String) → len s < size → cut size s ≡ s
unfolding cut
cut-whole size s h = ground arith

-- The text of a time of up to 64 bits fits into the buffer of 32 bytes: nothing is cut off.
pub format_time_whole :
    (seconds : ℕ)
    → seconds < 2 ^ 64
    → format_time seconds
      ≡ to_string (seconds / 60 / 60)
        <> "г "
        <> to_string (seconds / 60 % 60)
        <> "хв "
        <> to_string (seconds % 60)
        <> "с"
unfolding format_time
format_time_whole seconds h = cut-whole 32 _ (
    omega (
      arith,
      len-append (to_string hours) ("г " <> to_string minutes <> "хв " <> to_string secs <> "с"),
      len-append "г " (to_string minutes <> "хв " <> to_string secs <> "с"),
      len-append (to_string minutes) ("хв " <> to_string secs <> "с"),
      len-append "хв " (to_string secs <> "с"),
      len-append (to_string secs) "с",
      to_string-len 16 hours (omega arith) (omega arith),
      to_string-len 2 minutes (omega arith) (omega arith),
      to_string-len 2 secs (omega arith) (omega arith),
    ))
  where
    hours : ℕ
    hours = seconds / 60 / 60

    minutes : ℕ
    minutes = seconds / 60 % 60

    secs : ℕ
    secs = seconds % 60
