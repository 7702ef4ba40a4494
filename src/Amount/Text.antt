-- ===== src/Amount/Text.antt =====
-- Reading and printing an amount. A text is the list of its characters' codes. `one_nano` is
-- nanopyrs' constant `ONE_NANO`, the number of raw in a Nano.
use camonanowallet.Base.{
  ℕ, zero, suc, ◌+◌, ◌-◌, ◌*◌, ◌/◌, ◌%◌, Bool, ◌&&◌, Option, none, some, List, [], ◌∷◌, ◌++◌, ltb,
  leb, ◌==◌, length, replicate, Result, panic, ◌>>=◌, ok_or, if◌then◌else◌,
}
use camonanowallet.Base.Word.{u128_mod, checked_add, checked_mul}

-- the errors of these functions: `AmountBelowDustThreshold`
pub data AmountError : Type 0 where
  amount_below_dust_threshold : AmountError

abbrev pub Text : Type 0
Text = List ℕ

abbrev pub dot : ℕ
dot = b'.'

abbrev pub digit_zero : ℕ
digit_zero = b'0'

abbrev pub is_digit : ℕ → Bool
is_digit c = leb b'0' c && leb c b'9'

-- `str::split` at a character
abbrev pub cons_head : ℕ → List Text → List Text
cons_head c [] = (c ∷ []) ∷ []
cons_head c (w ∷ ws) = (c ∷ w) ∷ ws

unfoldable pub split : ℕ → Text → List Text
split sep [] = [] ∷ []
split sep (c ∷ cs) = if c == sep then [] ∷ split sep cs else cons_head c (split sep cs)

-- the number that digits spell, on from `acc`; `none` at any other character
unfoldable pub digits_value : ℕ → Text → Option ℕ
digits_value acc [] = some acc
digits_value acc (c ∷ cs) =
    let rest = digits_value (acc * 10 + (c - b'0')) cs in if is_digit c then rest else none

-- `str::parse::<u128>`: one `+` may stand first, and some digit is wanted
abbrev pub in_range : Option ℕ → Option ℕ
in_range none = none
in_range (some v) = if ltb v u128_mod then some v else none

abbrev pub parse_digits : Text → Option ℕ
parse_digits [] = none
parse_digits (c ∷ cs) = in_range (digits_value 0 (c ∷ cs))

unfoldable pub parse_u128 : Text → Option ℕ
unfolding digits_value
parse_u128 [] = none
parse_u128 (c ∷ cs) = if c == b'+' then parse_digits cs else parse_digits (c ∷ cs)

-- `format!("{:0<30}")` and `format!("{:0>30}")`
abbrev pub pad_right : ℕ → Text → Text
pad_right width t = t ++ replicate (width - length t) digit_zero

abbrev pub pad_left : ℕ → Text → Text
pad_left width t = replicate (width - length t) digit_zero ++ t

-- `str::trim_end_matches('0')`
abbrev pub keep_unless_zero : ℕ → Text → Text
keep_unless_zero c [] = if c == digit_zero then [] else c ∷ []
keep_unless_zero c (d ∷ ds) = c ∷ d ∷ ds

unfoldable pub trim_end_zeros : Text → Text
trim_end_zeros [] = []
trim_end_zeros (c ∷ cs) = keep_unless_zero c (trim_end_zeros cs)

-- `if string.ends_with('.') { string.pop(); }`
unfoldable pub pop_dot : Text → Text
pop_dot [] = []
pop_dot (c ∷ []) = if c == dot then [] else c ∷ []
pop_dot (c ∷ d ∷ ds) = c ∷ pop_dot (d ∷ ds)

-- the text that the standard library gives a `u128`: its decimal digits, 39 at most
unfoldable pub decimal : ℕ → ℕ → Text
decimal zero n = []
decimal (suc fuel) n =
    let rest = decimal fuel (n / 10) in
    if ltb n 10 then (b'0' + n) ∷ [] else rest ++ (b'0' + n % 10) ∷ []

unfoldable pub show_u128 : ℕ → Text
unfolding decimal
show_u128 n = decimal 39 n

-- the fractional part of the text: the second part, or "0" where there is no point
abbrev pub fraction : List Text → Text
fraction [] = digit_zero ∷ []
fraction (f ∷ _) = f

module _ (one_nano : ℕ) where
  -- `Amount::from_str`; `split` gives one part at least
  abbrev pub from_parts : List Text → Result AmountError ℕ
  from_parts [] = panic
  from_parts (whole ∷ parts) = do
    nano ← ok_or (parse_u128 whole) amount_below_dust_threshold
    amount_0 ← ok_or (checked_mul nano one_nano) amount_below_dust_threshold
    amount_1 ← ok_or (parse_u128 (pad_right 30 (fraction parts))) amount_below_dust_threshold
    ok_or (checked_add amount_0 amount_1) amount_below_dust_threshold

  unfoldable pub from_str : Text → Result AmountError ℕ
  unfolding split parse_u128 checked_mul checked_add
  from_str s = from_parts (split dot s)

  -- `Amount::fmt`
  unfoldable pub fmt : ℕ → Text
  unfolding show_u128 trim_end_zeros pop_dot
  fmt value =
      let nano = value / one_nano in
      let raw = value % one_nano in
      pop_dot (trim_end_zeros (show_u128 nano ++ dot ∷ pad_left 30 (show_u128 raw)))
