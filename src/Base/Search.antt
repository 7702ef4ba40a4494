-- ===== src/Base/Search.antt =====
-- The searches of a `Vec` that the source makes by `iter().find` and `iter().position`.
use Prim.Native.Nat.{ℕ, zero, suc}
use mathlib.Core.Path.{◌≡◌, refl}
use mathlib.Core.Logic.{inl, inr}
use mathlib.Core.Bool.{Bool, true, false}
use mathlib.Core.List.{List, [], ◌∷◌, ◌++◌}
use mathlib.Core.Option.{Option, none, some}
use native.Mathlib.Omega.{arith}
use camonanowallet.Base.Tests.{if◌then◌else◌, Bool-cases}
use camonanowallet.Base.Lists.{get_elem?, set, erase_idx, All}

-- the position of an element, one further down the list
abbrev pub shift : Option ℕ → Option ℕ
shift none = none
shift (some i) = some (suc i)

shift-some : (o : Option ℕ) (i : ℕ) → shift o ≡ some i → (j : ℕ) × (o ≡ some j) × (i ≡ suc j)
shift-some none i h = cc
shift-some (some j) i h = (j, refl, ground arith)

module _ {ℓ} {A : Type ℓ} where
  unfoldable pub find : (A → Bool) → List A → Option A
  find p [] = none
  find p (x ∷ xs) = if p x then some x else find p xs

  unfoldable pub position : (A → Bool) → List A → Option ℕ
  position p [] = none
  position p (x ∷ xs) = if p x then some 0 else shift (position p xs)

  -- A search by position finds the element that `find` finds.
  pub position-some :
      (p : A → Bool) (xs : List A) (i : ℕ)
      → position p xs ≡ some i
      → (x : A) × (get_elem? xs i ≡ some x) × (p x ≡ true) × (find p xs ≡ some x)
  unfolding find position
  position-some p [] i h = cc
  position-some p (x ∷ xs) i h = elim (Bool-cases (p x)) [
    | inl e ↦ let z : 0 ≡ i = ground arith in (x, rw (← z), e, rw e)
    | inr e ↦
        let (j, found, q) = shift-some (position p xs) i (rw e at h) in
        let (y, got, holds, same) = position-some p xs j found in
        (y, rw (q, got), holds, rw (e, same))
  ]

  pub position-none : (p : A → Bool) (xs : List A) → position p xs ≡ none → find p xs ≡ none
  unfolding find position
  position-none p [] h = refl
  position-none p (x ∷ xs) h = ground (arith, position-none p xs)

  pub find-none-position : (p : A → Bool) (xs : List A) → find p xs ≡ none → position p xs ≡ none
  unfolding find position
  find-none-position p [] h = refl
  find-none-position p (x ∷ xs) h = ground (arith, find-none-position p xs)

  pub find-holds : (p : A → Bool) (xs : List A) (x : A) → find p xs ≡ some x → p x ≡ true
  unfolding find
  find-holds p [] x h = cc
  find-holds p (y ∷ ys) x h = ground (arith, find-holds p ys x)

  pub find-All {κ} :
      (P : A → Type κ) (p : A → Bool) (xs : List A) (x : A) → All P xs → find p xs ≡ some x → P x
  unfolding find
  find-All P p [] x all h = cc
  find-All P p (y ∷ ys) x all h = elim (Bool-cases (p y)) [
    | inl e ↦ let q : y ≡ x = ground arith in rw q at all.0
    | inr e ↦ find-All P p ys x all.1 (ground arith)
  ]

  pub find-append :
      (p : A → Bool) (xs : List A) (y : A)
      → find p xs ≡ none
      → find p (xs ++ y ∷ []) ≡ (if p y then some y else none)
  unfolding find
  find-append p [] y h = refl
  find-append p (x ∷ xs) y h = ground (arith, find-append p xs y)

  pub find-append_some :
      (p : A → Bool) (xs : List A) (ys : List A) (x : A)
      → find p xs ≡ some x
      → find p (xs ++ ys) ≡ some x
  unfolding find
  find-append_some p [] ys x h = cc
  find-append_some p (y ∷ xs) ys x h = ground (arith, find-append_some p xs ys x)

  pub find-none_get :
      (p : A → Bool) (xs : List A) (i : ℕ) (x : A)
      → find p xs ≡ none
      → get_elem? xs i ≡ some x
      → p x ≡ false
  unfolding find
  find-none_get p [] i x h g = cc
  find-none_get p (y ∷ ys) zero x h g = ground arith
  find-none_get p (y ∷ ys) (suc i) x h g = ground (arith, find-none_get p ys i x)

  -- A write at the position of a search is what the search then finds, if it passes the test.
  pub find-set-position :
      (p : A → Bool) (xs : List A) (i : ℕ) (new : A)
      → position p xs ≡ some i
      → p new ≡ true
      → find p (set xs i new) ≡ some new
  unfolding find position
  find-set-position p [] i new h q = cc
  find-set-position p (x ∷ xs) i new h q = elim (Bool-cases (p x)) [
    | inl e ↦ let z : 0 ≡ i = ground arith in rw (← z) (rw q)
    | inr e ↦
        let (j, found, s) = shift-some (position p xs) i (rw e at h) in
        rw (s, e) (find-set-position p xs j new found q)
  ]

  -- An element that was appended last is removed by its position, which restores the list.
  pub position-append :
      (p : A → Bool) (xs : List A) (y : A)
      → find p xs ≡ none
      → p y ≡ true
      → (i : ℕ) × (position p (xs ++ y ∷ []) ≡ some i)
        × (get_elem? (xs ++ y ∷ []) i ≡ some y)
        × (erase_idx (xs ++ y ∷ []) i ≡ xs)
  unfolding find position
  position-append p [] y h q = (0, rw q, refl, refl)
  position-append p (x ∷ xs) y h q =
      let no : p x ≡ false = ground arith in
      let (i, found, got, back) = position-append p xs y (rw no at h) q in
      (suc i, rw (no, found), got, rw back)
