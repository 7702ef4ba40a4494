-- ===== src/Client/RemovalCounts.antt =====
-- What a removal takes out of a database of accounts: one record of the account, and no other.
use camonanowallet.Base.{
  ℕ, zero, suc, ◌+◌, ◌≤◌, ◌≡◌, ◌∙◌, refl, inl, inr, arith, Bool, false, none, some, List, [], ◌∷◌,
  Option-cases, map, select, length, erase_idx, get_elem?, eqb, eqb→eq, eqb_self, find, position,
  position-some, position-none, Result, ok, err, panic,
}
use camonanowallet.Nano.{Nano}
use camonanowallet.Error.{CoreClientError}
use camonanowallet.Wallet.Db.{GenericInfo, GenericInfoDb}
use camonanowallet.Wallet.Db as Accounts
use camonanowallet.Wallet.Derived
use camonanowallet.Wallet.Derived.{DerivedAccountInfo, DerivedAccountDb}
use camonanowallet.Frontiers.Db
use camonanowallet.Client.State.{CoreClient, get_derived_accounts_from_master}
use camonanowallet.Client.Removal.{after, remove_derived}

-- how many elements pass a test
abbrev pub count : {A : Type 0} → (A → Bool) → List A → ℕ
count p xs = length (select p xs)

module _ {A : Type 0} where
  count-erase_idx :
      (p : A → Bool) (xs : List A) (i : ℕ) (x : A)
      → get_elem? xs i ≡ some x
      → count p xs ≡ count p (x ∷ erase_idx xs i)
  count-erase_idx p [] i x h = cc
  count-erase_idx p (y ∷ ys) zero x h = ground arith
  count-erase_idx p (y ∷ ys) (suc i) x h = ground (arith, count-erase_idx p ys i x)

  count-find : (p : A → Bool) (xs : List A) → find p xs ≡ none → count p xs ≡ 0
  unfolding find
  count-find p [] h = refl
  count-find p (x ∷ xs) h = ground (arith, count-find p xs)

  pub count-map-select :
      {B : Type 0} (f : A → B) (p : B → Bool) (q : A → Bool) (xs : List A)
      → count p (map f (select q xs)) ≤ count (λ x. p (f x)) xs
  count-map-select f p q [] = omega arith
  count-map-select f p q (x ∷ xs) = ground (arith, count-map-select f p q xs)

module _ {T : Type 0} (dec : Discrete T) (n : Nano) where
  -- a record of the account is gone, and all others are there as often as before
  abbrev pub TakesOne : T → List (GenericInfo T) → List (GenericInfo T) → Type 0
  TakesOne a before after =
      (x : GenericInfo T) × (x.account ≡ a)
      × ((p : GenericInfo T → Bool) → count p before ≡ count p (x ∷ after))

  abbrev pub TakeResult :
      GenericInfoDb T → T → Result (CoreClientError n) (GenericInfoDb T × GenericInfo T) → Type 0
  TakeResult db a (ok (db', _)) = TakesOne a db.info db'.info
  TakeResult db a (err e) =
      (Accounts.contains dec db a ≡ false) × (e ≡ CoreClientError.account_not_found)
  TakeResult db a panic = ⊥

  pub remove-TakeResult :
      (db : GenericInfoDb T) (a : T) → TakeResult db a (Accounts.remove dec n db a)
  unfolding Accounts.remove Accounts.contains Accounts.get_info
  remove-TakeResult db a = elim (Option-cases (position (Accounts.is_account dec a) db.info)) [
    | inl e ↦
        rw (e, Accounts.remove, position-none (Accounts.is_account dec a) db.info e) (refl, refl)
    | inr (i, e) ↦
        let (x, got, holds, _) = position-some (Accounts.is_account dec a) db.info i e in
        rw (e, Accounts.remove, got)
          (x, eqb→eq dec _ _ holds, λ p. count-erase_idx p db.info i x got)
  ]

module _ (n : Nano) where
  abbrev pub n_derived : (n.Account → Bool) → DerivedAccountDb n → ℕ
  n_derived p db = count (λ info. p info.account) db.info

  abbrev pub DerivedTakeResult :
      DerivedAccountDb n
      → n.Account
      → Result (CoreClientError n) (DerivedAccountDb n × DerivedAccountInfo n)
      → Type 0
  DerivedTakeResult db a (ok (db', _)) =
      (p : n.Account → Bool) → n_derived p db ≡ count p (a ∷ []) + n_derived p db'
  DerivedTakeResult db a (err e) = n_derived (λ b. eqb n.account_dec b a) db ≡ 0
  DerivedTakeResult db a panic = ⊥

  pub remove-DerivedTakeResult :
      (db : DerivedAccountDb n) (a : n.Account) → DerivedTakeResult db a (Derived.remove n db a)
  unfolding Derived.remove
  remove-DerivedTakeResult db a = elim (Option-cases (position (Derived.is_account n a) db.info)) [
    | inl e ↦
        rw (e, Derived.remove)
          (count-find (Derived.is_account n a) db.info
            (position-none (Derived.is_account n a) db.info e))
    | inr (i, e) ↦
        let (x, got, holds, _) = position-some (Derived.is_account n a) db.info i e in
        let same = eqb→eq n.account_dec _ _ holds in
        rw (e, Derived.remove, got)
          (λ p.
            rw same at (count-erase_idx (λ info. p info.account) db.info i x got) ∙ ground arith)
  ]

  -- the database after a removal that may have failed, for an account that it had
  pub after-n_derived :
      (db : DerivedAccountDb n) (a : n.Account)
      (r : Result (CoreClientError n) (DerivedAccountDb n × DerivedAccountInfo n))
      (accounts : List n.Account)
      → ((p : n.Account → Bool) → count p (a ∷ accounts) ≤ n_derived p db)
      → DerivedTakeResult db a r
      → (p : n.Account → Bool) → n_derived p db ≡ count p (a ∷ []) + n_derived p (after db r)
  after-n_derived db a (ok (db', _)) accounts le taken p = taken p
  after-n_derived db a (err e) accounts le missing p =
      let one = le (λ b. eqb n.account_dec b a) in absurd (ground (arith, eqb_self n.account_dec a))
  after-n_derived db a panic accounts le h p = absurd h

  module _ (first : n.Account) where
    count-cons :
        (p : n.Account → Bool) (accounts : List n.Account)
        → count p (first ∷ accounts) ≡ count p (first ∷ []) + count p accounts
    count-cons p accounts = ground arith

  -- one round of the loop of `remove_camo_account`
  abbrev pub dropped : CoreClient n → n.Account → CoreClient n
  dropped client a = record client {
    wallet_db = record client.wallet_db {
      derived_account_db =
          after client.wallet_db.derived_account_db
            (Derived.remove n client.wallet_db.derived_account_db a);
    };
    frontiers_db = after client.frontiers_db (Db.remove n client.frontiers_db a);
  }

  -- The loop over accounts that the database has takes out each of them once.
  pub remove_derived-n_derived :
      (client : CoreClient n) (accounts : List n.Account)
      → ((p : n.Account → Bool)
          → count p accounts ≤ n_derived p client.wallet_db.derived_account_db)
      → (p : n.Account → Bool)
      → n_derived p client.wallet_db.derived_account_db
        ≡ count p accounts
          + n_derived p (remove_derived n client accounts).wallet_db.derived_account_db
  unfolding remove_derived
  remove_derived-n_derived client [] le p = omega arith
  remove_derived-n_derived client (a ∷ accounts) le p =
      let db = client.wallet_db.derived_account_db in
      let taken =
        after-n_derived db a (Derived.remove n db a) accounts le (remove-DerivedTakeResult db a) in
      omega (
        arith,
        taken p,
        count-cons a p accounts,
        remove_derived-n_derived (dropped client a) accounts
            (λ q. omega (arith, le q, taken q, count-cons a q accounts)) p,
      )

  -- the derived accounts of a camo account are records of the database
  pub derived-le :
      (client : CoreClient n) (account : n.CamoAccount) (p : n.Account → Bool)
      → count p (get_derived_accounts_from_master n client account)
        ≤ n_derived p client.wallet_db.derived_account_db
  unfolding get_derived_accounts_from_master Derived.get_info_from_master
  derived-le client account p =
      elim (Option-cases (Accounts.get_info n.camo_dec client.wallet_db.camo_account_db account)) [
        | inl e ↦
            rw (get_derived_accounts_from_master, Derived.get_info_from_master, e) (omega arith)
        | inr (info, e) ↦
            rw (get_derived_accounts_from_master, Derived.get_info_from_master, e)
              (count-map-select (λ d. d.account) p _ client.wallet_db.derived_account_db.info)
      ]

  -- a camo account that is not tracked has no derived accounts
  pub untracked-derived :
      (client : CoreClient n) (account : n.CamoAccount)
      → Accounts.contains n.camo_dec client.wallet_db.camo_account_db account ≡ false
      → get_derived_accounts_from_master n client account ≡ []
  unfolding get_derived_accounts_from_master Derived.get_info_from_master Accounts.contains
  untracked-derived client account h =
      elim (Option-cases (Accounts.get_info n.camo_dec client.wallet_db.camo_account_db account)) [
        | inl e ↦ rw (get_derived_accounts_from_master, Derived.get_info_from_master, e) refl
        | inr (info, e) ↦ absurd (ground arith)
      ]
