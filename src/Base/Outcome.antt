-- ===== src/Base/Outcome.antt =====
-- The results of fallible code: a value, an error value, or a panic (a failed `assert!`, `expect`
-- or index).
use mathlib.Core.Path.{◌≡◌, refl}
use mathlib.Core.Logic.{◌⊎◌, inl, inr}
use mathlib.Core.Bool.{Bool, true, false}
use mathlib.Core.Option.{Option, none, some}

pub data Result {ℓ κ} (E : Type κ) (A : Type ℓ) : Type (ℓ ⊔ κ) where
  ok : A → Result E A
  err : E → Result E A
  panic : Result E A

infixl 5 ◌>>=◌
abbrev pub ◌>>=◌ {ℓ κ ι} :
    {E : Type κ} {A : Type ℓ} {B : Type ι} → Result E A → (A → Result E B) → Result E B
panic >>= step = panic
err e >>= step = err e
ok a >>= step = step a

-- `if bad { return Err(e) }`
abbrev pub fail_if {κ} : {E : Type κ} → Bool → E → Result E (Unit {0})
fail_if true e = err e
fail_if false e = ok tt

-- a step whose value is not used
infixl 5 ◌>>◌
abbrev pub ◌>>◌ {κ ℓ} : {E : Type κ} {B : Type ℓ} → Result E (Unit {0}) → Result E B → Result E B
first >> then = first >>= λ _. then

-- `assert!(good)`
abbrev pub assert {κ} : {E : Type κ} → Bool → Result E (Unit {0})
assert true = ok tt
assert false = panic

-- `Option::ok_or`
abbrev pub ok_or {ℓ κ} : {E : Type κ} {A : Type ℓ} → Option A → E → Result E A
ok_or none e = err e
ok_or (some a) e = ok a

-- `Option::expect`
abbrev pub expect {ℓ κ} : {E : Type κ} {A : Type ℓ} → Option A → Result E A
expect none = panic
expect (some a) = ok a

pub Result-cases {ℓ κ} :
    {E : Type κ} {A : Type ℓ} (r : Result E A)
    → ((a : A) × (r ≡ ok a)) ⊎ ((e : E) × (r ≡ err e)) ⊎ (r ≡ panic)
Result-cases (ok a) = inl (a, refl)
Result-cases (err e) = inr (inl (e, refl))
Result-cases panic = inr (inr refl)

-- the value of the result, if it is one, has the property
abbrev pub IfOk {ℓ κ ι} : {E : Type κ} {A : Type ℓ} → (A → Type ι) → Result E A → Type ι
IfOk P (ok a) = P a
IfOk P (err e) = Unit
IfOk P panic = Unit

module _ {ℓ κ ι} {E : Type κ} {A : Type ℓ} (P : A → Type ι) where
  pub IfOk-value : (r : Result E A) (a : A) → IfOk P r → r ≡ ok a → P a
  IfOk-value r a h e = rw e at h

  pub IfOk-bind {ν μ} :
      {B : Type ν} (Q : B → Type μ) (r : Result E A) (f : A → Result E B)
      → IfOk P r
      → ((a : A) → P a → IfOk Q (f a))
      → IfOk Q (r >>= f)
  IfOk-bind Q (ok a) f h k = k a h
  IfOk-bind Q (err e) f h k = tt
  IfOk-bind Q panic f h k = tt

-- whatever the value is
pub IfOk-then {ℓ κ ν μ} :
    {E : Type κ} {A : Type ℓ} {B : Type ν} (Q : B → Type μ) (r : Result E A) (f : A → Result E B)
    → ((a : A) → IfOk Q (f a))
    → IfOk Q (r >>= f)
IfOk-then Q (ok a) f k = k a
IfOk-then Q (err e) f k = tt
IfOk-then Q panic f k = tt
