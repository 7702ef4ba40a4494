-- ===== src/Wallet/DerivedLaws.antt =====
-- Insertion into the database of derived accounts: what is inserted is contained afterwards, and what
-- was contained stays so.
use camonanowallet.Base.{
  ◌≡◌, refl, arith, inl, inr, true, Bool-cases, List, [], ◌∷◌, ◌++◌, eqb_self, find,
}
use camonanowallet.Nano.{Nano}
use camonanowallet.Wallet.Db.{is_some}
use camonanowallet.Wallet.Derived.{
  DerivedAccountInfo, DerivedAccountDb, is_account, contains, get_info, insert, insert_many,
}

module _ (n : Nano) where
  find-append_self :
      (xs : List (DerivedAccountInfo n)) (info : DerivedAccountInfo n)
      → is_some (find (is_account n info.account) (xs ++ info ∷ [])) ≡ true
  unfolding find
  find-append_self [] info = rw (eqb_self n.account_dec info.account) refl
  find-append_self (x ∷ xs) info = ground (arith, find-append_self xs info)

  find-append-kept :
      (xs : List (DerivedAccountInfo n)) (info : DerivedAccountInfo n) (a : n.Account)
      → is_some (find (is_account n a) xs) ≡ true
      → is_some (find (is_account n a) (xs ++ info ∷ [])) ≡ true
  unfolding find
  find-append-kept [] info a h = cc
  find-append-kept (x ∷ xs) info a h = ground (arith, find-append-kept xs info a)

  insert-contains :
      (db : DerivedAccountDb n) (info : DerivedAccountInfo n)
      → contains n (insert n db info).0 info.account ≡ true
  unfolding insert contains get_info
  insert-contains db info = elim (Bool-cases (contains n db info.account)) [
    | inl e ↦ rw (e, insert) e
    | inr e ↦ rw (e, insert) (find-append_self db.info info)
  ]

  insert-keeps :
      (db : DerivedAccountDb n) (info : DerivedAccountInfo n) (a : n.Account)
      → contains n db a ≡ true
      → contains n (insert n db info).0 a ≡ true
  unfolding insert contains get_info
  insert-keeps db info a h = elim (Bool-cases (contains n db info.account)) [
    | inl e ↦ rw (e, insert) h
    | inr e ↦ rw (e, insert) (find-append-kept db.info info a h)
  ]

  pub insert_many-keeps :
      (db : DerivedAccountDb n) (infos : List (DerivedAccountInfo n)) (a : n.Account)
      → contains n db a ≡ true
      → contains n (insert_many n db infos) a ≡ true
  unfolding insert_many
  insert_many-keeps db [] a h = h
  insert_many-keeps db (x ∷ xs) a h =
      insert_many-keeps (insert n db x).0 xs a (insert-keeps db x a h)

  pub insert_many-contains :
      (db : DerivedAccountDb n) (before after : List (DerivedAccountInfo n))
      (info : DerivedAccountInfo n)
      → contains n (insert_many n db (before ++ info ∷ after)) info.account ≡ true
  unfolding insert_many
  insert_many-contains db [] after info =
      insert_many-keeps (insert n db info).0 after info.account (insert-contains db info)
  insert_many-contains db (x ∷ before) after info =
      insert_many-contains (insert n db x).0 before after info
