-- ===== src/Wallet/ManyLaws.antt =====
-- Which records `DerivedAccountDB::insert_many` of client/core/src/wallet.rs leaves.
use camonanowallet.Base.{
  ℕ, ◌+◌, ◌≡◌, ◌≢◌, eqb→eq, ◌∙◌, refl, inl, inr, arith, true, false, Bool, Bool-cases, Option,
  Option-cases, none, some, List, [], ◌∷◌, ◌++◌, find, find-append, find-append_some, select,
  length, if◌then◌else◌,
}
use camonanowallet.Nano.{Nano}
use camonanowallet.Wallet.Derived.{
  DerivedAccountInfo, DerivedAccountDb, is_account, get_info, contains, insert, insert_many,
}

-- the first of two options that there is
abbrev pub or_else {ℓ} : {A : Type ℓ} → Option A → Option A → Option A
or_else none b = b
or_else (some a) b = some a

module _ (n : Nano) (a : n.Account) where
  -- how many records there are of the account
  abbrev pub n_records : List (DerivedAccountInfo n) → ℕ
  n_records infos = length (select (is_account n a) infos)

  n_records-append :
      (xs : List (DerivedAccountInfo n)) (y : DerivedAccountInfo n)
      → n_records (xs ++ y ∷ []) ≡ n_records xs + n_records (y ∷ [])
  n_records-append [] y = omega arith
  n_records-append (x ∷ xs) y = ground (arith, n_records-append xs y)

  find-cons :
      (x : DerivedAccountInfo n) (xs : List (DerivedAccountInfo n))
      → find (is_account n a) (x ∷ xs)
        ≡ (if is_account n a x then some x else find (is_account n a) xs)
  unfolding find
  find-cons x xs = refl

  n_records-none :
      (xs : List (DerivedAccountInfo n)) → find (is_account n a) xs ≡ none → n_records xs ≡ 0
  n_records-none [] h = refl
  n_records-none (x ∷ xs) h = ground (arith, find-cons x xs, n_records-none xs)

  -- the database after one record
  known_stays :
      (db : DerivedAccountDb n) (info : DerivedAccountInfo n)
      → contains n db info.account ≡ true
      → (insert n db info).0 ≡ db
  unfolding insert
  known_stays db info h = rw (insert, h) refl

  new_added :
      (db : DerivedAccountDb n) (info : DerivedAccountInfo n)
      → contains n db info.account ≡ false
      → (insert n db info).0 ≡ record { info = db.info ++ info ∷ [] }
  unfolding insert
  new_added db info h = rw (insert, h) refl

  known_found :
      (db : DerivedAccountDb n) (info : DerivedAccountInfo n)
      → contains n db info.account ≡ true
      → is_account n a info ≡ true
      → get_info n db a ≢ none
  unfolding contains
  known_found db info h same gone =
      let q : info.account ≡ a = eqb→eq n.account_dec _ _ same in
      let known = rw q at h in absurd (ground (arith, known))

  new_absent :
      (db : DerivedAccountDb n) (info : DerivedAccountInfo n)
      → contains n db info.account ≡ false
      → is_account n a info ≡ true
      → get_info n db a ≡ none
  unfolding contains
  new_absent db info h same =
      let q : info.account ≡ a = eqb→eq n.account_dec _ _ same in
      let unknown = rw q at h in
      elim (Option-cases (get_info n db a)) [
        | inl e ↦ e
        | inr (x, e) ↦ absurd (ground (arith, unknown))
      ]

  -- the number of records where one is found, or else another number
  abbrev pub if_found : Option (DerivedAccountInfo n) → ℕ → ℕ → ℕ
  if_found none k other = other
  if_found (some _) k other = k

  abbrev one : Bool → DerivedAccountInfo n → Option (DerivedAccountInfo n)
  one b info = if b then some info else none

  known_or_else :
      (o : Option (DerivedAccountInfo n)) (b : Bool) (info : DerivedAccountInfo n) (k : ℕ)
      → (b ≡ true → o ≢ none)
      → (o ≡ none → k ≡ 0)
      → (o ≡ or_else o (one b info)) × (k ≡ if_found o k (if b then 1 else 0))
  known_or_else none true info k h z = absurd (h refl refl)
  known_or_else none false info k h z = (refl, z refl)
  known_or_else (some x) b info k h z = (refl, refl)

  new_or_else :
      (o : Option (DerivedAccountInfo n)) (xs : List (DerivedAccountInfo n)) (b : Bool)
      (info : DerivedAccountInfo n)
      → find (is_account n a) xs ≡ o
      → is_account n a info ≡ b
      → (b ≡ true → o ≡ none)
      → (find (is_account n a) (xs ++ info ∷ []) ≡ or_else o (one b info))
        × (n_records (xs ++ info ∷ []) ≡ if_found o (n_records xs) (if b then 1 else 0))
  new_or_else none xs b info e f h = (
    find-append (is_account n a) xs info e ∙ (rw f refl),
    n_records-append xs info ∙ ground (arith, n_records-none xs e),
  )
  new_or_else (some x) xs true info e f h = absurd (some_ne_none (h refl))
    where
      some_ne_none : some x ≢ none
      some_ne_none q = cc
  new_or_else (some x) xs false info e f h = (
    find-append_some (is_account n a) xs (info ∷ []) x e,
    n_records-append xs info ∙ ground arith,
  )

  insert-Inserted :
      (db : DerivedAccountDb n) (info : DerivedAccountInfo n)
      → (get_info n (insert n db info).0 a
          ≡ or_else (get_info n db a) (one (is_account n a info) info))
        × (n_records (insert n db info).0.info
            ≡ if_found (get_info n db a) (n_records db.info) (if is_account n a info then 1 else 0))
  unfolding get_info
  insert-Inserted db info = elim (Bool-cases (contains n db info.account)) [
    | inl known ↦ rw (known_stays db info known) (
        known_or_else (get_info n db a) (is_account n a info) info (n_records db.info)
          (known_found db info known) (n_records-none db.info))
    | inr new ↦ rw (new_added db info new) (
        new_or_else (get_info n db a) db.info (is_account n a info) info refl refl
          (new_absent db info new))
  ]

  -- The account has the record of before, or else the first of the given ones. A given record adds no
  -- second one of its account.
  pub record Inserted (db : DerivedAccountDb n) (infos : List (DerivedAccountInfo n))
      (db' : DerivedAccountDb n) : Type 0 where
    pub found : get_info n db' a ≡ or_else (get_info n db a) (find (is_account n a) infos)
    pub records :
        n_records db'.info
        ≡ if_found
            (get_info n db a)
            (n_records db.info)
            (if_found (find (is_account n a) infos) 1 0)

  then_many :
      (o o' rest : Option (DerivedAccountInfo n)) (b : Bool) (info : DerivedAccountInfo n)
      (k k' : ℕ)
      → o' ≡ or_else o (one b info)
      → k' ≡ if_found o k (if b then 1 else 0)
      → (or_else o' rest ≡ or_else o (if b then some info else rest))
        × (if_found o' k' (if_found rest 1 0)
            ≡ if_found o k (if_found (if b then some info else rest) 1 0))
  then_many none o' rest true info k k' e f = rw (e, f) (refl, refl)
  then_many none o' rest false info k k' e f = rw e (refl, refl)
  then_many (some x) o' rest b info k k' e f = rw (e, f) (refl, refl)

  none_of : (db : DerivedAccountDb n) → get_info n db a ≡ none → n_records db.info ≡ 0
  unfolding get_info
  none_of db = n_records-none db.info

  nothing :
      (o : Option (DerivedAccountInfo n)) (k : ℕ)
      → (o ≡ none → k ≡ 0)
      → (o ≡ or_else o none) × (k ≡ if_found o k 0)
  nothing none k z = (refl, z refl)
  nothing (some x) k z = (refl, refl)

  -- After `insert_many`, a search for an account finds the record of before, or where there was
  -- none the first given record of the account; and there are as many records of the account as
  -- before, or where there was none one if a record of it is given, however often, and else none.
  pub insert_many-Inserted :
      (db : DerivedAccountDb n) (infos : List (DerivedAccountInfo n))
      → Inserted db infos (insert_many n db infos)
  unfolding insert_many find
  insert_many-Inserted db [] =
      let (found, records) = nothing (get_info n db a) (n_records db.info) (none_of db) in
      record { found = found; records = records }
  insert_many-Inserted db (info ∷ infos) =
      let (found, records) = insert-Inserted db info in
      let last = insert_many-Inserted (insert n db info).0 infos in
      let (f, k) =
        then_many (get_info n db a) (get_info n (insert n db info).0 a)
          (find (is_account n a) infos) (is_account n a info) info (n_records db.info)
          (n_records (insert n db info).0.info) found records in
      record { found = last.found ∙ f; records = last.records ∙ k }
