-- ===== src/Base/Word.antt =====
-- `u128` and `u64` arithmetic of the release build: sums and differences wrap.
use camonanowallet.Base.Tests.{ltb, if◌then◌else◌}
use Prim.Native.Nat.{ℕ, ◌+◌, ◌-◌, ◌*◌, ◌%◌, ◌≤◌, ◌<◌}
use mathlib.Core.Path.{◌≡◌}
use mathlib.Core.Option.{Option, none, some}
use native.Mathlib.Omega.{arith}

abbrev pub u128_mod : ℕ
u128_mod = 340282366920938463463374607431768211456

abbrev pub u64_mod : ℕ
u64_mod = 18446744073709551616

-- `a + b` and `a - b`
unfoldable pub wrapping_add : ℕ → ℕ → ℕ
wrapping_add a b = (a + b) % u128_mod

unfoldable pub wrapping_sub : ℕ → ℕ → ℕ
wrapping_sub a b = (a + u128_mod - b) % u128_mod

-- `a.checked_add(b)` and `a.checked_mul(b)`
unfoldable pub checked_add : ℕ → ℕ → Option ℕ
checked_add a b = if ltb (a + b) u128_mod then some (a + b) else none

unfoldable pub checked_mul : ℕ → ℕ → Option ℕ
checked_mul a b = if ltb (a * b) u128_mod then some (a * b) else none

pub wrapping_add_exact : (a b : ℕ) → a + b < u128_mod → wrapping_add a b ≡ a + b
unfolding wrapping_add
wrapping_add_exact a b h = omega arith

pub wrapping_sub_exact : (a b : ℕ) → b ≤ a → a < u128_mod → wrapping_sub a b ≡ a - b
unfolding wrapping_sub
wrapping_sub_exact a b h k = omega arith
