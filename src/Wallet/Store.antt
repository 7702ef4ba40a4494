-- ===== src/Wallet/Store.antt =====
-- What `GenericInfoDb` promises: a bounded, duplicate-free store in which insertion and removal are
-- inverse to one another.
use camonanowallet.Base.{
  ◌≤◌, ◌≡◌, refl, inl, inr, Bool, false, none, some, List, [], ◌∷◌, ◌++◌, arith, eqb_self, leb,
  leb→le, Bool-cases, Option-cases, find, find-append, length, length-append, position-append,
  Result, ok, err, panic, not, ◌&&◌, if◌then◌else◌,
}
use camonanowallet.Nano.{Nano}
use camonanowallet.Error.{CoreClientError}
use camonanowallet.Config.{CoreClientConfig}
use camonanowallet.Wallet.Db.{
  GenericInfo, GenericInfoDb, is_account, get_info, contains, insert, remove,
}

module _ {T : Type 0} (dec : Discrete T) where
  -- no account is tracked twice
  abbrev pub Distinct : List (GenericInfo T) → Type 0
  Distinct [] = Unit
  Distinct (x ∷ xs) = (find (is_account dec x.account) xs ≡ none) × Distinct xs

  append-Distinct :
      (xs : List (GenericInfo T)) (y : GenericInfo T)
      → Distinct xs
      → find (is_account dec y.account) xs ≡ none
      → Distinct (xs ++ y ∷ [])
  unfolding find
  append-Distinct [] y d h = (refl, tt)
  append-Distinct (x ∷ xs) y d h = (
    ground (arith, find-append (is_account dec x.account) xs y d.0),
    append-Distinct xs y d.1 (ground arith),
  )

  find-append_new :
      (xs : List (GenericInfo T)) (y : GenericInfo T) (a : T)
      → find (is_account dec y.account) xs ≡ none
      → find (is_account dec a) (xs ++ y ∷ [])
        ≡ (if is_account dec a y then some y else find (is_account dec a) xs)
  unfolding find
  find-append_new [] y a h = refl
  find-append_new (x ∷ xs) y a h = ground (arith, find-append_new xs y a)

  module _ (n : Nano) (config : CoreClientConfig n) where
    -- What `insert` returns. Below the limit the account is stored unless it is there already, which
    -- the result tells; at the limit every insertion is refused.
    abbrev pub InsertResult :
        GenericInfoDb T
        → GenericInfo T
        → Result (CoreClientError n) (GenericInfoDb T × Bool)
        → Type 0
    InsertResult db info (ok (db', known)) =
        (length db'.info ≤ config.db_number_of_accounts_limit)
        × Distinct db'.info
        × (known ≡ contains dec db info.account)
        × ((a : T)
            → get_info dec db' a
              ≡ (if is_account dec a info && not known then some info else get_info dec db a))
    InsertResult db info (err e) =
        (config.db_number_of_accounts_limit ≤ length db.info)
        × (e ≡ CoreClientError.db_account_limit_reached)
    InsertResult db info panic = ⊥

    -- Inserting into a database without duplicates never panics. Below the limit on accounts the
    -- result has no duplicates and is within the limit, tells whether the account was there
    -- already, has the new record under its account if it was not, and every other lookup as
    -- before. At the limit, and only there, the insertion is refused with the error of the limit.
    pub insert-InsertResult :
        (db : GenericInfoDb T) (info : GenericInfo T)
        → Distinct db.info
        → InsertResult db info (insert dec n config db info)
    unfolding insert get_info
    insert-InsertResult db info d =
        elim (Bool-cases (leb config.db_number_of_accounts_limit (length db.info))) [
          | inl full ↦ rw (full, insert) (omega (arith, leb→le _ _ full), refl)
          | inr room ↦ elim (Option-cases (find (is_account dec info.account) db.info)) [
            | inl e ↦
                rw (room, insert, e)
                  (
                    ground (arith, length-append db.info (info ∷ [])),
                    append-Distinct db.info info d e,
                    refl,
                    λ a. ground (arith, find-append_new db.info info a e),
                  )
            | inr (old, e) ↦ rw (room, insert, e) (ground arith, d, refl, λ a. ground arith)
          ]
        ]

    -- If an insertion adds an account that was not there, removing the account gives back the
    -- record and the database as it was.
    pub remove-insert :
        (db db' : GenericInfoDb T) (info : GenericInfo T)
        → insert dec n config db info ≡ ok (db', false)
        → remove dec n db' info.account ≡ ok (db, info)
    unfolding insert remove
    remove-insert db db' info h =
        let e : find (is_account dec info.account) db.info ≡ none = ground arith in
        let q : record { info = db.info ++ info ∷ [] } ≡ db' = ground arith in
        let (i, found, got, back) =
          position-append (is_account dec info.account) db.info info e
            (eqb_self dec info.account) in
        rw (← q) (rw (found, remove, got, back) refl)
