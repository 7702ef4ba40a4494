-- ===== src/App/Entries.antt =====
-- The receivables of a client as a map from the hashes of their blocks.
use camonanowallet.Base.{
  ◌≡◌, refl, inl, inr, Bool, none, some, List, [], ◌∷◌, ◌==◌, not, select, All, arith, Bool-cases,
  if◌then◌else◌,
}
use camonanowallet.Nano.{Nano, Bytes32, Receivable}
use camonanowallet.App.State.{put, lookup, delete, insert_each}

module _ {A : Type 0} where
  -- every hash stands once
  abbrev pub Distinct : List (Bytes32 × A) → Type 0
  Distinct [] = Unit
  Distinct ((h, a) ∷ rest) = (lookup rest h ≡ none) × Distinct rest

  pub lookup-put :
      (entries : List (Bytes32 × A)) (h k : Bytes32) (a : A)
      → lookup (put entries h a) k ≡ (if h == k then some a else lookup entries k)
  unfolding lookup put
  lookup-put [] h k a = refl
  lookup-put ((g, b) ∷ rest) h k a = ground (arith, lookup-put rest h k a)

  lookup-select-none :
      (p : Bytes32 × A → Bool) (entries : List (Bytes32 × A)) (h : Bytes32)
      → lookup entries h ≡ none
      → lookup (select p entries) h ≡ none
  unfolding lookup
  lookup-select-none p [] h e = refl
  lookup-select-none p ((g, b) ∷ rest) h e = ground (arith, lookup-select-none p rest h)

  pub select-Distinct :
      (p : Bytes32 × A → Bool) (entries : List (Bytes32 × A))
      → Distinct entries
      → Distinct (select p entries)
  select-Distinct p [] d = d
  select-Distinct p ((g, b) ∷ rest) d = elim (Bool-cases (p (g, b))) [
    | inl e ↦ rw e (lookup-select-none p rest g d.0, select-Distinct p rest d.1)
    | inr e ↦ rw e (select-Distinct p rest d.1)
  ]

  pub put-Distinct :
      (entries : List (Bytes32 × A)) (h : Bytes32) (a : A)
      → Distinct entries
      → Distinct (put entries h a)
  unfolding put lookup
  put-Distinct [] h a d = (refl, tt)
  put-Distinct ((g, b) ∷ rest) h a d = elim (Bool-cases (g == h)) [
    | inl e ↦ rw (put, e) d
    | inr e ↦ rw (put, e) (ground (arith, lookup-put rest h g a), put-Distinct rest h a d.1)
  ]

  pub lookup-delete :
      (entries : List (Bytes32 × A)) (h k : Bytes32)
      → lookup (delete entries h) k ≡ (if h == k then none else lookup entries k)
  unfolding lookup delete
  lookup-delete [] h k = ground arith
  lookup-delete ((g, b) ∷ rest) h k = ground (arith, lookup-delete rest h k)

  pub select-All :
      (P : Bytes32 × A → Type 0) (p : Bytes32 × A → Bool) (entries : List (Bytes32 × A))
      → All P entries
      → All P (select p entries)
  select-All P p [] all = all
  select-All P p (entry ∷ rest) all = elim (Bool-cases (p entry)) [
    | inl e ↦ rw e (all.0, select-All P p rest all.1)
    | inr e ↦ rw e (select-All P p rest all.1)
  ]

  pub put-All :
      (P : Bytes32 × A → Type 0) (entries : List (Bytes32 × A)) (h : Bytes32) (a : A)
      → All P entries
      → P (h, a)
      → All P (put entries h a)
  unfolding put
  put-All P [] h a all holds = (holds, tt)
  put-All P ((g, b) ∷ rest) h a all holds = elim (Bool-cases (g == h)) [
    | inl e ↦ let same : h ≡ g = ground arith in rw (put, e) (rw same at holds, all.1)
    | inr e ↦ rw (put, e) (all.0, put-All P rest h a all.1 holds)
  ]

module _ (n : Nano) where
  -- a map in which every receivable stands under the hash of its block
  pub record IsKeyed (entries : List (Bytes32 × Receivable n)) : Type 0 where
    pub distinct : Distinct entries
    pub keys : All (λ (entry : Bytes32 × Receivable n). entry.0 ≡ entry.1.block_hash) entries

  pub select-IsKeyed :
      (p : Bytes32 × Receivable n → Bool) (entries : List (Bytes32 × Receivable n))
      → IsKeyed entries
      → IsKeyed (select p entries)
  select-IsKeyed p entries keyed = record {
    distinct = select-Distinct p entries keyed.distinct;
    keys = select-All _ p entries keyed.keys;
  }

  pub delete-IsKeyed :
      (entries : List (Bytes32 × Receivable n)) (h : Bytes32)
      → IsKeyed entries
      → IsKeyed (delete entries h)
  unfolding delete
  delete-IsKeyed entries h = select-IsKeyed (λ entry. not (entry.0 == h)) entries

  pub insert_each-IsKeyed :
      (entries : List (Bytes32 × Receivable n)) (rs : List (Receivable n))
      → IsKeyed entries
      → IsKeyed (insert_each n entries rs)
  unfolding insert_each
  insert_each-IsKeyed entries [] keyed = keyed
  insert_each-IsKeyed entries (r ∷ rs) keyed =
      insert_each-IsKeyed (put entries r.block_hash r) rs (record {
        distinct = put-Distinct entries r.block_hash r keyed.distinct;
        keys = put-All _ entries r.block_hash r keyed.keys refl;
      })
