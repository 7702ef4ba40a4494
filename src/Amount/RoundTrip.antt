-- ===== src/Amount/RoundTrip.antt =====
-- An amount that is printed is read back exactly.
use camonanowallet.Base.{
  ℕ, ◌+◌, ◌*◌, ◌/◌, ◌%◌, ◌^◌, ◌<◌, ◌≡◌, ◌∙◌, refl, ap, inl, inr, false, some, List, [], ◌∷◌, arith,
  lt→ltb, ◌==◌, length, ok,
}
use camonanowallet.Base.Word.{u128_mod, checked_add, checked_mul}
use camonanowallet.Amount.Text.{
  Text, fraction, parse_u128, pad_left, pad_right, decimal, show_u128, trim_end_zeros, from_parts,
  from_str, fmt,
}
use camonanowallet.Amount.Digits.{
  AreDigits, value, digits_value-value, value-decimal, decimal-AreDigits, decimal-nonempty, padded,
}
use camonanowallet.Amount.Format.{split-printed, pad_right-trim_end_zeros}

-- Digits are read as the number that they spell, if it fits.
parse_u128-digits :
    (t : Text) (v : ℕ)
    → AreDigits t
    → 0 < length t
    → value 0 t ≡ v
    → v < u128_mod
    → parse_u128 t ≡ some v
unfolding parse_u128
parse_u128-digits [] v d h e fits = absurd (omega arith)
parse_u128-digits (c ∷ cs) v d h e fits =
    let other : (c == 43) ≡ false = ground arith in
    rw (other, digits_value-value 0 (c ∷ cs) d, e, lt→ltb v u128_mod fits) refl

-- a whole part and thirty digits are read as their sum
from_parts-sum :
    (one_nano : ℕ) (whole : Text) (parts : List Text) (padded_fraction : Text) (nano raw : ℕ)
    → parse_u128 whole ≡ some nano
    → pad_right 30 (fraction parts) ≡ padded_fraction
    → parse_u128 padded_fraction ≡ some raw
    → nano * one_nano + raw < u128_mod
    → from_parts one_nano (whole ∷ parts) ≡ ok (nano * one_nano + raw)
unfolding checked_add checked_mul
from_parts-sum one_nano whole parts padded_fraction nano raw w p f fits =
    let fits' : nano * one_nano < u128_mod = omega arith in
    rw
      (
        w,
        lt→ltb (nano * one_nano) u128_mod fits',
        p,
        f,
        lt→ltb (nano * one_nano + raw) u128_mod fits,
      )
      refl

show_u128-AreDigits : (m : ℕ) → AreDigits (show_u128 m)
unfolding show_u128
show_u128-AreDigits m = decimal-AreDigits 39 m

-- every `u128` is read back from its decimal text
parse_show_u128 : (m : ℕ) → m < u128_mod → parse_u128 (show_u128 m) ≡ some m
unfolding show_u128
parse_show_u128 m h =
    parse_u128-digits (decimal 39 m) m (decimal-AreDigits 39 m) (decimal-nonempty 38 m)
      (value-decimal 39 m (omega arith)) h

-- `ONE_NANO` in raw
abbrev unit_raw : ℕ
unit_raw = 10 ^ 30

round_trip : (v : ℕ) → v < u128_mod → from_str unit_raw (fmt unit_raw v) ≡ ok v
unfolding from_str fmt
round_trip v fits =
    let nano = v / unit_raw in
    let raw = v % unit_raw in
    let s = show_u128 nano in
    let r = pad_left 30 (show_u128 raw) in
    let (digits, spells, thirty) = padded raw (omega arith) in
    let s_digits = show_u128-AreDigits nano in
    let whole = parse_show_u128 nano (omega arith) in
    let frac = parse_u128-digits r raw digits (omega arith) spells (omega arith) in
    let back = pad_right-trim_end_zeros r thirty in
    let total : nano * unit_raw + raw ≡ v = omega arith in
    elim (split-printed s r s_digits digits) [
      | inl (gone, parts) ↦ rw parts (
          from_parts-sum unit_raw s [] r nano raw whole (rw gone at back) frac (omega arith)
          ∙ ap ok total)
      | inr parts ↦ rw parts (
          from_parts-sum unit_raw s (trim_end_zeros r ∷ []) r nano raw whole back frac (omega arith)
          ∙ ap ok total)
    ]

-- If a Nano has 10 ^ 30 raw, printing an amount and reading the text gives the amount back, for
-- every `u128`.
pub from_str-fmt :
    (one_nano v : ℕ) → one_nano ≡ 10 ^ 30 → v < u128_mod → from_str one_nano (fmt one_nano v) ≡ ok v
from_str-fmt one_nano v unit fits = rw unit (round_trip v fits)
