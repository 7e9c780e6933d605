-- ===== src/Utils.antt =====
-- include/utils.hpp
pub mod Scan
pub mod Split
pub mod Time
pub mod Numbers
use Prim.Native.Char.{Char, code}
use Prim.Native.String.{[], ◌∷◌, len, slice}
use Scan.{scan_date}
use mqtt_sentry.Base.{
  Bool, pos, negsuc, ◌&&◌, ◌^◌, ℕ, ◌-◌, ◌/◌, ◌%◌, String, List, Option, none, some, ℤ, ◌==◌, nat_eq,
  ltb, if◌then◌else◌, ◌<>◌, to_string, sub_ℕ, to_u64,
}

-- The token that `std::getline` is reading, and the tokens of the later calls. A call at the end
-- of the stream fails, so nothing follows a delimiter that ends the text.
token : Char → String → String × List String
token d [] = ([], List.[])
token d (c ∷ s) =
    let (t, ts) = token d s in
    if code c == code d
    then ([], (elim s [ [] ↦ List.[] | _ ∷ _ ↦ List.◌∷◌ t ts ]))
    else (c ∷ t, ts)

unfoldable pub split : Char → String → List String
unfolding token
split d [] = List.[]
split d (c ∷ s) = let (t, ts) = token d (c ∷ s) in List.◌∷◌ t ts

-- snprintf into a buffer of `size` bytes: what does not fit is cut off.
unfoldable pub cut : ℕ → String → String
cut size s = if ltb (len s) size then s else slice s 0 (size - 1)

unfoldable pub format_time : ℕ → String
format_time seconds =
    let s = seconds % 60 in
    let m = seconds / 60 % 60 in
    let h = seconds / 60 / 60 in
    cut 32 (to_string h <> "г " <> to_string m <> "хв " <> to_string s <> "с")

-- struct tm, as the program fills it in.
pub record Tm : Type 0 where
  pub tm_year : ℤ
  pub tm_mon : ℤ
  pub tm_mday : ℤ
  pub tm_hour : ℤ
  pub tm_min : ℤ
  pub tm_sec : ℤ

-- `mktime` reads the machine's time zone, so it is a parameter. So is what stringToUnix gives for a
-- text with a number that does not fit an `int`, which the C standard leaves undefined.
pub record TimeZone : Type 0 where
  pub mktime : Tm → ℤ
  pub unrepresentable : String → ℕ

abbrev pub is_int : ℤ → Bool
is_int (pos n) = ltb n (2 ^ 31)
is_int (negsuc n) = ltb n (2 ^ 31)

module _ ⦃z : TimeZone⦄ where
  unfoldable pub string_to_unix : String → ℕ
  unfolding scan_date
  string_to_unix timestamp = elim (scan_date timestamp) [
    | none ↦ 0
    | some (year, month, day, hour, min, sec) ↦
        if is_int year
          && is_int (sub_ℕ year 1900)
          && is_int month
          && is_int (sub_ℕ month 1)
          && is_int day
          && is_int hour
          && is_int min
          && is_int sec
        then to_u64 (
            z.mktime (record {
              tm_year = sub_ℕ year 1900;
              tm_mon = sub_ℕ month 1;
              tm_mday = day;
              tm_hour = hour;
              tm_min = min;
              tm_sec = sec;
            }))
        else z.unrepresentable timestamp
  ]
