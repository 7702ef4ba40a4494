-- ===== src/Amount/Format.antt =====
-- What trimming, dropping the point and splitting at the point do to printed digits.
use camonanowallet.Base.{
  ℕ, suc, ◌-◌, ◌≡◌, ◌⊎◌, refl, ap, inl, inr, false, List, [], ◌∷◌, ◌++◌, arith, ◌==◌, Bool-cases,
  length, length-append, replicate,
}
use camonanowallet.Amount.Text.{
  Text, dot, digit_zero, split, trim_end_zeros, keep_unless_zero, pop_dot, pad_right,
}
use camonanowallet.Amount.Digits.{AreDigits, length-replicate}

List-cases {ℓ} : {A : Type ℓ} (xs : List A) → (xs ≡ []) ⊎ ((x : A) × (ys : List A) × (xs ≡ x ∷ ys))
List-cases [] = inl refl
List-cases (x ∷ xs) = inr (x, xs, refl)

keep_nonempty :
    (c : ℕ) (s : Text) (d : ℕ) (t : Text) → keep_unless_zero c (s ++ d ∷ t) ≡ c ∷ (s ++ d ∷ t)
keep_nonempty c [] d t = refl
keep_nonempty c (x ∷ s) d t = refl

keep_dot : (t : Text) → keep_unless_zero dot t ≡ dot ∷ t
keep_dot [] = refl
keep_dot (c ∷ cs) = refl

-- Trimming stops at the point.
pub trim_end_zeros-dot : (s t : Text) → trim_end_zeros (s ++ dot ∷ t) ≡ s ++ dot ∷ trim_end_zeros t
unfolding trim_end_zeros
trim_end_zeros-dot [] t = keep_dot (trim_end_zeros t)
trim_end_zeros-dot (c ∷ s) t =
    rw (trim_end_zeros-dot s t) (keep_nonempty c s dot (trim_end_zeros t))

-- What is trimmed off are zeros.
trim_end_zeros-restores : (t : Text) → (k : ℕ) × (trim_end_zeros t ++ replicate k digit_zero ≡ t)
unfolding trim_end_zeros
trim_end_zeros-restores [] = (0, refl)
trim_end_zeros-restores (c ∷ cs) =
    let (k, e) = trim_end_zeros-restores cs in
    elim (List-cases (trim_end_zeros cs)) [
      | inl none_left ↦ elim (Bool-cases (c == digit_zero)) [
        | inl zero_char ↦
            let q : c ≡ digit_zero = ground arith in
            let e' = rw none_left at e in (suc k, rw (none_left, q) (ap (◌∷◌ digit_zero) e'))
        | inr other ↦ (k, rw (none_left, other) (ap (◌∷◌ c) (rw none_left at e)))
      ]
      | inr (x, ys, some_left) ↦ (k, rw some_left (ap (◌∷◌ c) (rw some_left at e)))
    ]

-- Padding on the right to the old length undoes the trimming.
pub pad_right-trim_end_zeros : (t : Text) → length t ≡ 30 → pad_right 30 (trim_end_zeros t) ≡ t
pad_right-trim_end_zeros t h =
    let (k, e) = trim_end_zeros-restores t in
    let len = length-append (trim_end_zeros t) (replicate k digit_zero) in
    let q : 30 - length (trim_end_zeros t) ≡ k =
      omega (arith, len, length-replicate k, ap length e) in
    rw q e

trim_end_zeros-AreDigits : (t : Text) → AreDigits t → AreDigits (trim_end_zeros t)
unfolding trim_end_zeros
trim_end_zeros-AreDigits [] h = h
trim_end_zeros-AreDigits (c ∷ cs) h = go (trim_end_zeros cs) (trim_end_zeros-AreDigits cs h.1)
  where
    go : (t : Text) → AreDigits t → AreDigits (keep_unless_zero c t)
    go [] k = elim (Bool-cases (c == digit_zero)) [ inl z ↦ rw z tt | inr o ↦ rw o (h.0, tt) ]
    go (d ∷ ds) k = (h.0, k)

pub pop_dot-dot : (s : Text) → pop_dot (s ++ dot ∷ []) ≡ s
unfolding pop_dot
pop_dot-dot [] = refl
pop_dot-dot (c ∷ []) = refl
pop_dot-dot (c ∷ d ∷ s) = ap (◌∷◌ c) (pop_dot-dot (d ∷ s))

pop_dot-digits : (t : Text) → AreDigits t → pop_dot t ≡ t
unfolding pop_dot
pop_dot-digits [] h = refl
pop_dot-digits (c ∷ []) h = ground arith
pop_dot-digits (c ∷ d ∷ t) h = ap (◌∷◌ c) (pop_dot-digits (d ∷ t) h.1)

pub pop_dot-fraction :
    (s : Text) (c : ℕ) (t : Text)
    → AreDigits (c ∷ t)
    → pop_dot (s ++ dot ∷ c ∷ t) ≡ s ++ dot ∷ c ∷ t
unfolding pop_dot
pop_dot-fraction [] c t h = ap (◌∷◌ dot) (pop_dot-digits (c ∷ t) h)
pop_dot-fraction (x ∷ []) c t h = ap (λ r. x ∷ dot ∷ r) (pop_dot-digits (c ∷ t) h)
pop_dot-fraction (x ∷ y ∷ s) c t h = ap (◌∷◌ x) (pop_dot-fraction (y ∷ s) c t h)

pub split-digits : (s : Text) → AreDigits s → split dot s ≡ s ∷ []
unfolding split
split-digits [] h = refl
split-digits (c ∷ s) h =
    let other : (c == dot) ≡ false = ground arith in rw (other, split-digits s h.1)

pub split-dot : (s t : Text) → AreDigits s → AreDigits t → split dot (s ++ dot ∷ t) ≡ s ∷ t ∷ []
unfolding split
split-dot [] t h k = rw (split-digits t k)
split-dot (c ∷ s) t h k =
    let other : (c == dot) ≡ false = ground arith in rw (other, split-dot s t h.1 k)

-- The printed text of a whole part and thirty digits: the whole part alone if all thirty are zero,
-- and the two parts round the point otherwise.
pub split-printed :
    (s r : Text)
    → AreDigits s
    → AreDigits r
    → ((trim_end_zeros r ≡ []) × (split dot (pop_dot (trim_end_zeros (s ++ dot ∷ r))) ≡ s ∷ []))
      ⊎ (split dot (pop_dot (trim_end_zeros (s ++ dot ∷ r))) ≡ s ∷ trim_end_zeros r ∷ [])
split-printed s r hs hr = elim (List-cases (trim_end_zeros r)) [
  | inl e ↦ inl (e, rw (trim_end_zeros-dot s r, e, pop_dot-dot s) (split-digits s hs))
  | inr (x, ys, e) ↦
      let d : AreDigits (x ∷ ys) = rw e at (trim_end_zeros-AreDigits r hr) in
      inr (rw (trim_end_zeros-dot s r, e, pop_dot-fraction s x ys d) (split-dot s (x ∷ ys) hs d))
]
