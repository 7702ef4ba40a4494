-- ===== src/App/TakeLaws.antt =====
-- Which receivables the command `receive` takes from the client.
use camonanowallet.Base.{
  ◌≡◌, refl, inl, inr, Option-cases, Option, none, some, List, [], ◌∷◌, ◌++◌, map, arith,
  if◌then◌else◌,
}
use camonanowallet.Nano.{Nano, Bytes32, Receivable}
use camonanowallet.Rpc.Work.{contains_key}
use camonanowallet.App.State.{lookup, delete}
use camonanowallet.App.Entries.{lookup-delete}
use camonanowallet.App.Commands.Receive.{cons_option, take_each}

module _ (n : Nano) where
  -- the lookups in `entries'` are those in `entries` without some hashes
  abbrev pub Without :
      List (Bytes32 × Receivable n) → List Bytes32 → List (Bytes32 × Receivable n) → Type 0
  Without entries hashes entries' =
      (h : Bytes32) → lookup entries' h ≡ (if contains_key hashes h then none else lookup entries h)

  -- All hashes are taken, and the receivables are those that were stored under them, in the order of
  -- the hashes; or the hashes before the first one that is missing are gone, and nothing is returned.
  abbrev pub TakeResult :
      List (Bytes32 × Receivable n)
      → List Bytes32
      → List (Bytes32 × Receivable n) × Option (List (Receivable n))
      → Type 0
  TakeResult entries hashes (entries', some rs) =
      (map (lookup entries) hashes ≡ map some rs) × Without entries hashes entries'
  TakeResult entries hashes (entries', none) =
      (done : List Bytes32) × (missing : Bytes32) × (rest : List Bytes32) × (hashes
        ≡ done ++ missing ∷ rest)
      × (lookup entries' missing ≡ none)
      × Without entries done entries'

  map-lookup-delete :
      (entries : List (Bytes32 × Receivable n)) (hash : Bytes32) (hashes : List Bytes32)
      (rs : List (Receivable n))
      → map (lookup (delete entries hash)) hashes ≡ map some rs
      → map (lookup entries) hashes ≡ map some rs
  map-lookup-delete entries hash [] rs e = e
  map-lookup-delete entries hash (k ∷ ks) [] e = cc
  map-lookup-delete entries hash (k ∷ ks) (r ∷ rs) e =
      ground (arith, map-lookup-delete entries hash ks rs, lookup-delete entries hash k)

  cons-TakeResult :
      (entries : List (Bytes32 × Receivable n)) (hash : Bytes32) (r : Receivable n)
      (hashes : List Bytes32) (out : List (Bytes32 × Receivable n) × Option (List (Receivable n)))
      → lookup entries hash ≡ some r
      → TakeResult (delete entries hash) hashes out
      → TakeResult entries (hash ∷ hashes) (out.0, cons_option (some r) out.1)
  cons-TakeResult entries hash r hashes (entries', some rs) e (values, left) = (
    ground (arith, map-lookup-delete entries hash hashes rs values),
    λ h. ground (arith, left h, lookup-delete entries hash h),
  )
  cons-TakeResult entries hash r hashes (entries', none) e
        (done, missing, rest, split, gone, left) =
      (
        hash ∷ done,
        missing,
        rest,
        rw split,
        gone,
        λ h. ground (arith, left h, lookup-delete entries hash h),
      )

  -- Taking the receivables of some hashes gives the stored ones, in the order of the hashes, and
  -- removes exactly those; or, if one is missing, the receivables of the hashes before the first
  -- missing one are gone and none is returned.
  pub take_each-TakeResult :
      (entries : List (Bytes32 × Receivable n)) (hashes : List Bytes32)
      → TakeResult entries hashes (take_each n entries hashes)
  unfolding take_each
  take_each-TakeResult entries [] = (refl, λ h. refl)
  take_each-TakeResult entries (hash ∷ hashes) = elim (Option-cases (lookup entries hash)) [
    | inl e ↦ rw (take_each, e) ([], hash, hashes, refl, e, λ h. refl)
    | inr (r, e) ↦
        rw (take_each, e)
          (cons-TakeResult entries hash r hashes (take_each n (delete entries hash) hashes) e
            (take_each-TakeResult (delete entries hash) hashes))
  ]
