-- ===== src/Amount/Digits.antt =====
-- Decimal digits: a printed number is digits that read back as the number.
use native.Mathlib.Nat.{pow-suc}
use camonanowallet.Base.{
  ℕ, zero, suc, ◌+◌, ◌-◌, ◌*◌, ◌/◌, ◌%◌, ◌^◌, ◌≤◌, ◌<◌, ◌≡◌, refl, ap, inl, inr, true, some, [],
  ◌∷◌, ◌++◌, arith, ltb, ltb→lt, Bool-cases, length, length-append, replicate, All, All-append,
}
use camonanowallet.Base.Word.{u128_mod}
use camonanowallet.Amount.Text.{
  Text, is_digit, digit_zero, digits_value, decimal, show_u128, pad_left,
}

abbrev pub AreDigits : Text → Type 0
AreDigits = All (λ c. is_digit c ≡ true)

-- the number that digits spell
abbrev pub value : ℕ → Text → ℕ
value acc [] = acc
value acc (c ∷ cs) = value (acc * 10 + (c - 48)) cs

pub digits_value-value :
    (acc : ℕ) (t : Text) → AreDigits t → digits_value acc t ≡ some (value acc t)
unfolding digits_value
digits_value-value acc [] h = refl
digits_value-value acc (c ∷ cs) h = rw h.0 (digits_value-value (acc * 10 + (c - 48)) cs h.1)

pub value-append : (acc : ℕ) (s t : Text) → value acc (s ++ t) ≡ value (value acc s) t
value-append acc [] t = refl
value-append acc (c ∷ cs) t = value-append (acc * 10 + (c - 48)) cs t

digit_of : (d : ℕ) → d < 10 → is_digit (48 + d) ≡ true
digit_of d h = ground arith

pub decimal-AreDigits : (fuel m : ℕ) → AreDigits (decimal fuel m)
unfolding decimal
decimal-AreDigits zero m = tt
decimal-AreDigits (suc fuel) m = elim (Bool-cases (ltb m 10)) [
  | inl small ↦ rw small (digit_of m (ltb→lt m 10 small), tt)
  | inr large ↦ rw large (
      All-append (λ c. is_digit c ≡ true) (decimal fuel (m / 10)) ((48 + m % 10) ∷ [])
        (decimal-AreDigits fuel (m / 10)) (digit_of (m % 10) (omega arith), tt))
]

-- With fuel for all digits the printed number reads back.
pub value-decimal : (fuel m : ℕ) → m < 10 ^ fuel → value 0 (decimal fuel m) ≡ m
unfolding decimal
value-decimal zero m h = omega arith
value-decimal (suc fuel) m h = elim (Bool-cases (ltb m 10)) [
  | inl small ↦ rw small (omega arith)
  | inr large ↦
      rw
        (
          large,
          value-append 0 (decimal fuel (m / 10)) ((48 + m % 10) ∷ []),
          value-decimal fuel (m / 10) (omega (arith, pow-suc 10 fuel)),
        )
        (omega arith)
]

-- A number below 10 ^ k has k digits at most.
pub length-decimal-le : (fuel k m : ℕ) → m < 10 ^ suc k → length (decimal fuel m) ≤ suc k
unfolding decimal
length-decimal-le zero k m h = omega arith
length-decimal-le (suc fuel) zero m h = elim (Bool-cases (ltb m 10)) [
  | inl small ↦ rw small (omega arith)
  | inr large ↦ absurd (ground (arith, pow-suc 10 0))
]
length-decimal-le (suc fuel) (suc k) m h = elim (Bool-cases (ltb m 10)) [
  | inl small ↦ rw small (omega arith)
  | inr large ↦
      rw (large, length-append (decimal fuel (m / 10)) ((48 + m % 10) ∷ []))
        (omega (arith, length-decimal-le fuel k (m / 10) (omega (arith, pow-suc 10 (suc k)))))
]

pub decimal-nonempty : (fuel m : ℕ) → 0 < length (decimal (suc fuel) m)
unfolding decimal
decimal-nonempty fuel m = elim (Bool-cases (ltb m 10)) [
  | inl small ↦ rw small (omega arith)
  | inr large ↦ rw (large, length-append (decimal fuel (m / 10)) ((48 + m % 10) ∷ [])) (omega arith)
]

-- leading zeros
pub replicate-AreDigits : (k : ℕ) → AreDigits (replicate k digit_zero)
replicate-AreDigits zero = tt
replicate-AreDigits (suc k) = (refl, replicate-AreDigits k)

pub value-replicate : (k : ℕ) (t : Text) → value 0 (replicate k digit_zero ++ t) ≡ value 0 t
value-replicate zero t = refl
value-replicate (suc k) t = value-replicate k t

pub length-replicate : (k : ℕ) → length (replicate k digit_zero) ≡ k
length-replicate zero = refl
length-replicate (suc k) = ap suc (length-replicate k)

-- A number below 10 ^ 30, padded to 30 digits.
pub padded :
    (m : ℕ)
    → m < 10 ^ 30
    → AreDigits (pad_left 30 (show_u128 m))
      × (value 0 (pad_left 30 (show_u128 m)) ≡ m)
      × (length (pad_left 30 (show_u128 m)) ≡ 30)
unfolding show_u128
padded m h =
    let t = decimal 39 m in
    let k = 30 - length t in
    (
      All-append (λ c. is_digit c ≡ true) (replicate k digit_zero) t (replicate-AreDigits k)
          (decimal-AreDigits 39 m),
      rw (value-replicate k t) (value-decimal 39 m (omega arith)),
      rw (length-append (replicate k digit_zero) t, length-replicate k)
          (omega (arith, length-decimal-le 39 29 m h)),
    )

-- once the fuel is enough for the digits, more fuel changes nothing
decimal_more_fuel :
    (fuel more m : ℕ)
    → m < 10 ^ suc fuel
    → fuel ≤ more
    → decimal (suc more) m ≡ decimal (suc fuel) m
unfolding decimal
decimal_more_fuel zero more m h le = elim (Bool-cases (ltb m 10)) [
  | inl small ↦ rw small refl
  | inr large ↦ absurd (ground arith)
]
decimal_more_fuel (suc fuel) zero m h le = absurd (omega arith)
decimal_more_fuel (suc fuel) (suc more) m h le =
    let same =
      decimal_more_fuel fuel more (m / 10) (omega (arith, pow-suc 10 (suc fuel))) (omega arith) in
    elim (Bool-cases (ltb m 10)) [ inl small ↦ rw small refl | inr large ↦ rw (large, same) refl ]

-- The printer of a `u128` comes to its end within its fuel: with any greater fuel the text is the
-- same.
pub show_u128_terminates :
    (m more : ℕ) → m < u128_mod → 38 ≤ more → decimal (suc more) m ≡ show_u128 m
unfolding show_u128
show_u128_terminates m more h = decimal_more_fuel 38 more m (omega arith)
