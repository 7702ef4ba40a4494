-- ===== src/Base/Sort.antt =====
-- `slice::sort_by_key` with a numeric key: a stable sort.
use Prim.Native.Nat.{ℕ, ◌≤◌}
use mathlib.Core.Path.{◌≡◌, ◌∙◌, refl}
use mathlib.Core.Logic.{inl, inr}
use mathlib.Core.Bool.{Bool, true, ◌&&◌}
use mathlib.Core.List.{List, [], ◌∷◌}
use native.Mathlib.Omega.{arith}
use camonanowallet.Base.Tests.{if◌then◌else◌, leb, leb→le, Bool-cases}
use camonanowallet.Base.Lists.{All, length, select}

module _ {ℓ} {A : Type ℓ} (key : A → ℕ) where
  unfoldable pub insert_by_key : A → List A → List A
  insert_by_key x [] = x ∷ []
  insert_by_key x (y ∷ ys) =
      let rest = insert_by_key x ys in if leb (key x) (key y) then x ∷ y ∷ ys else y ∷ rest

  unfoldable pub sort_by_key : List A → List A
  unfolding insert_by_key
  sort_by_key [] = []
  sort_by_key (x ∷ xs) = insert_by_key x (sort_by_key xs)

  abbrev pub IsSorted : List A → Type 0
  IsSorted [] = Unit
  IsSorted (x ∷ xs) = All (λ y. key x ≤ key y) xs × IsSorted xs

  pub All-insert_by_key {κ} :
      (P : A → Type κ) (x : A) (xs : List A) → P x → All P xs → All P (insert_by_key x xs)
  unfolding insert_by_key
  All-insert_by_key P x [] p all = (p, tt)
  All-insert_by_key P x (y ∷ ys) p all = elim (Bool-cases (leb (key x) (key y))) [
    | inl e ↦ rw e (p, all)
    | inr e ↦ rw e (all.0, All-insert_by_key P x ys p all.1)
  ]

  pub All-sort_by_key {κ} : (P : A → Type κ) (xs : List A) → All P xs → All P (sort_by_key xs)
  unfolding sort_by_key
  All-sort_by_key P [] all = tt
  All-sort_by_key P (x ∷ xs) all =
      All-insert_by_key P x (sort_by_key xs) all.0 (All-sort_by_key P xs all.1)

  All-le : (a b : ℕ) (xs : List A) → a ≤ b → All (λ y. b ≤ key y) xs → All (λ y. a ≤ key y) xs
  All-le a b [] h all = tt
  All-le a b (x ∷ xs) h all = (omega (arith, all.0), All-le a b xs h all.1)

  insert_by_key-IsSorted : (x : A) (xs : List A) → IsSorted xs → IsSorted (insert_by_key x xs)
  unfolding insert_by_key
  insert_by_key-IsSorted x [] s = (tt, tt)
  insert_by_key-IsSorted x (y ∷ ys) s = elim (Bool-cases (leb (key x) (key y))) [
    | inl e ↦ let le = leb→le (key x) (key y) e in rw e ((le, All-le (key x) (key y) ys le s.0), s)
    | inr e ↦ rw e (
      All-insert_by_key (λ z. key y ≤ key z) x ys (ground arith) s.0,
      insert_by_key-IsSorted x ys s.1,
    )
  ]

  pub sort_by_key-IsSorted : (xs : List A) → IsSorted (sort_by_key xs)
  unfolding sort_by_key
  sort_by_key-IsSorted [] = tt
  sort_by_key-IsSorted (x ∷ xs) =
      insert_by_key-IsSorted x (sort_by_key xs) (sort_by_key-IsSorted xs)

  n_of-insert_by_key :
      (p : A → Bool) (x : A) (xs : List A)
      → length (select p (insert_by_key x xs)) ≡ length (select p (x ∷ xs))
  unfolding insert_by_key
  n_of-insert_by_key p x [] = refl
  n_of-insert_by_key p x (y ∷ ys) = ground (arith, n_of-insert_by_key p x ys)

  -- as many elements pass a test after the sort as before
  pub n_of-sort_by_key :
      (p : A → Bool) (xs : List A) → length (select p (sort_by_key xs)) ≡ length (select p xs)
  unfolding sort_by_key
  n_of-sort_by_key p [] = refl
  n_of-sort_by_key p (x ∷ xs) =
      n_of-insert_by_key p x (sort_by_key xs) ∙ ground (arith, n_of-sort_by_key p xs)

  pub All-select {κ} :
      (P : A → Type κ) (p : A → Bool) (xs : List A) → All P xs → All P (select p xs)
  All-select P p [] all = tt
  All-select P p (x ∷ xs) all = elim (Bool-cases (p x)) [
    | inl e ↦ rw e (all.0, All-select P p xs all.1)
    | inr e ↦ rw e (All-select P p xs all.1)
  ]

  pub select-IsSorted : (p : A → Bool) (xs : List A) → IsSorted xs → IsSorted (select p xs)
  select-IsSorted p [] s = tt
  select-IsSorted p (x ∷ xs) s = elim (Bool-cases (p x)) [
    | inl e ↦ rw e (All-select (λ y. key x ≤ key y) p xs s.0, select-IsSorted p xs s.1)
    | inr e ↦ rw e (select-IsSorted p xs s.1)
  ]

module _ {ℓ} {A : Type ℓ} where
  -- what a selection holds passes its test
  pub select-All : (p : A → Bool) (xs : List A) → All (λ x. p x ≡ true) (select p xs)
  select-All p [] = tt
  select-All p (x ∷ xs) = elim (Bool-cases (p x)) [
    | inl e ↦ rw e (e, select-All p xs)
    | inr e ↦ rw e (select-All p xs)
  ]

  pub n_of-select :
      (p q : A → Bool) (xs : List A)
      → length (select p (select q xs)) ≡ length (select (λ x. q x && p x) xs)
  n_of-select p q [] = refl
  n_of-select p q (x ∷ xs) = ground (arith, n_of-select p q xs)
