-- ===== src/Frontiers/Search.antt =====
-- Lookups in a list of frontiers: what a search by account finds, before and after a write.
use camonanowallet.Base.{
  ℕ, zero, suc, ◌+◌, ◌≡◌, refl, inl, inr, none, some, List, [], ◌∷◌, ◌++◌, arith, Option-cases,
  get_elem?, set, erase_idx, find, find-append, find-none_get, position, position-some,
  position-none, if◌then◌else◌,
}
use camonanowallet.Nano.{Nano}
use camonanowallet.Frontiers.Info.{FrontierInfo}
use camonanowallet.Frontiers.Db.{FrontiersDb, is_of, account_frontier}

module _ (n : Nano) where
  abbrev pub total : List (FrontierInfo n) → ℕ
  total [] = 0
  total (f ∷ fs) = f.block.balance + total fs

  -- no account has two entries
  abbrev pub Distinct : List (FrontierInfo n) → Type 0
  Distinct [] = Unit
  Distinct (f ∷ fs) = (find (is_of n f.block.account) fs ≡ none) × Distinct fs

  pub account_frontier-find :
      (db : FrontiersDb n) (a : n.Account) → account_frontier n db a ≡ find (is_of n a) db.frontiers
  unfolding account_frontier
  account_frontier-find db a = elim (Option-cases (position (is_of n a) db.frontiers)) [
    | inl e ↦ rw (e, position-none (is_of n a) db.frontiers e)
    | inr (i, e) ↦
        let (x, got, _, found) = position-some (is_of n a) db.frontiers i e in rw (e, got, found)
  ]

  pub total-append : (fs gs : List (FrontierInfo n)) → total (fs ++ gs) ≡ total fs + total gs
  total-append [] gs = omega arith
  total-append (f ∷ fs) gs = omega (arith, total-append fs gs)

  pub total-set :
      (fs : List (FrontierInfo n)) (i : ℕ) (old new : FrontierInfo n)
      → get_elem? fs i ≡ some old
      → total (set fs i new) + old.block.balance ≡ total fs + new.block.balance
  total-set [] i old new h = cc
  total-set (f ∷ fs) zero old new h = ground arith
  total-set (f ∷ fs) (suc i) old new h = omega (arith, total-set fs i old new h)

  pub total-erase_idx :
      (fs : List (FrontierInfo n)) (i : ℕ) (old : FrontierInfo n)
      → get_elem? fs i ≡ some old
      → total (erase_idx fs i) + old.block.balance ≡ total fs
  total-erase_idx [] i old h = cc
  total-erase_idx (f ∷ fs) zero old h = ground arith
  total-erase_idx (f ∷ fs) (suc i) old h = omega (arith, total-erase_idx fs i old h)

  -- A write of an entry of the same account changes what is found for that account only.
  pub find-set :
      (fs : List (FrontierInfo n)) (i : ℕ) (old new : FrontierInfo n) (a : n.Account)
      → Distinct fs
      → get_elem? fs i ≡ some old
      → old.block.account ≡ new.block.account
      → find (is_of n a) (set fs i new) ≡ (if is_of n a new then some new else find (is_of n a) fs)
  unfolding find
  find-set [] i old new a d h e = cc
  find-set (f ∷ fs) zero old new a d h e = ground arith
  find-set (f ∷ fs) (suc i) old new a d h e = ground (
    arith,
    find-set fs i old new a d.1 h e,
    find-none_get (is_of n f.block.account) fs i old d.0 h,
  )

  pub set-Distinct :
      (fs : List (FrontierInfo n)) (i : ℕ) (old new : FrontierInfo n)
      → Distinct fs
      → get_elem? fs i ≡ some old
      → old.block.account ≡ new.block.account
      → Distinct (set fs i new)
  set-Distinct [] i old new d h e = cc
  set-Distinct (f ∷ fs) zero old new d h e =
      let q : f.block.account ≡ new.block.account = ground arith in (rw (← q) d.0, d.1)
  set-Distinct (f ∷ fs) (suc i) old new d h e = (
    ground (
      arith,
      find-set fs i old new f.block.account d.1 h e,
      find-none_get (is_of n f.block.account) fs i old d.0 h,
    ),
    set-Distinct fs i old new d.1 h e,
  )

  pub append-Distinct :
      (fs : List (FrontierInfo n)) (new : FrontierInfo n)
      → Distinct fs
      → find (is_of n new.block.account) fs ≡ none
      → Distinct (fs ++ new ∷ [])
  unfolding find
  append-Distinct [] new d h = (refl, tt)
  append-Distinct (f ∷ fs) new d h = (
    ground (arith, find-append (is_of n f.block.account) fs new d.0),
    append-Distinct fs new d.1 (ground arith),
  )

  -- Removing an entry removes what is found for its account, and nothing else.
  pub find-erase_idx :
      (fs : List (FrontierInfo n)) (i : ℕ) (old : FrontierInfo n) (a : n.Account)
      → Distinct fs
      → get_elem? fs i ≡ some old
      → find (is_of n a) (erase_idx fs i) ≡ (if is_of n a old then none else find (is_of n a) fs)
  unfolding find
  find-erase_idx [] i old a d h = cc
  find-erase_idx (f ∷ fs) zero old a d h = ground arith
  find-erase_idx (f ∷ fs) (suc i) old a d h = ground (
    arith,
    find-erase_idx fs i old a d.1 h,
    find-none_get (is_of n f.block.account) fs i old d.0 h,
  )

  pub erase_idx-Distinct :
      (fs : List (FrontierInfo n)) (i : ℕ) (old : FrontierInfo n)
      → Distinct fs
      → get_elem? fs i ≡ some old
      → Distinct (erase_idx fs i)
  erase_idx-Distinct [] i old d h = cc
  erase_idx-Distinct (f ∷ fs) zero old d h = d.1
  erase_idx-Distinct (f ∷ fs) (suc i) old d h = (
    ground (arith, find-erase_idx fs i old f.block.account d.1 h),
    erase_idx-Distinct fs i old d.1 h,
  )

  -- A new account's entry is found for that account only.
  pub find-append_new :
      (fs : List (FrontierInfo n)) (new : FrontierInfo n) (a : n.Account)
      → find (is_of n new.block.account) fs ≡ none
      → find (is_of n a) (fs ++ new ∷ [])
        ≡ (if is_of n a new then some new else find (is_of n a) fs)
  unfolding find
  find-append_new [] new a h = refl
  find-append_new (f ∷ fs) new a h = ground (arith, find-append_new fs new a)
