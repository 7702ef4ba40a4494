-- ===== src/Tests/Amount.antt =====
-- Runs of the amount's text functions. A Nano has 10 ^ 30 raw.
use camonanowallet.Base.{ℕ, ◌≡◌, refl, arith, [], ◌∷◌, ok, err}
use camonanowallet.Amount.Text.{AmountError, Text, from_str, fmt}
use camonanowallet.Amount.RoundTrip.{from_str-fmt}

abbrev one_nano : ℕ
one_nano = 1000000000000000000000000000000

-- "1.5"
abbrev one_and_half : Text
one_and_half = 49 ∷ 46 ∷ 53 ∷ []

fmt-one_and_half : fmt one_nano 1500000000000000000000000000000 ≡ one_and_half
unfolding fmt
fmt-one_and_half = refl

from_str-one_and_half : from_str one_nano one_and_half ≡ ok 1500000000000000000000000000000
unfolding from_str
from_str-one_and_half = refl

-- "."
from_str_point : from_str one_nano (46 ∷ []) ≡ err AmountError.amount_below_dust_threshold
unfolding from_str
from_str_point = refl

from_str-fmt_example :
    from_str one_nano (fmt one_nano 1500000000000000000000000000000)
    ≡ ok 1500000000000000000000000000000
from_str-fmt_example = from_str-fmt one_nano 1500000000000000000000000000000 refl (omega arith)
