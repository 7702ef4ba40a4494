-- ===== src/Wallet/Grow.antt =====
-- The operations that add accounts to a wallet keep its invariant: the records that the seed gives,
-- normal, camo and derived, are the seed's own.
use camonanowallet.Base.{
  ℕ, ◌≡◌, refl, inl, inr, Bool, some, List, [], ◌∷◌, ◌++◌, arith, Bool-cases, Option-cases, All,
  All-append, Result, ok, err, panic,
}
use camonanowallet.Nano.{Nano, Bytes32}
use camonanowallet.Error.{CoreClientError}
use camonanowallet.Config.{CoreClientConfig}
use camonanowallet.Wallet.Db.{GenericInfo, GenericInfoDb}
use camonanowallet.Wallet.Db
use camonanowallet.Wallet.Derived
use camonanowallet.Wallet.Derived.{DerivedAccountInfo, DerivedAccountDb}
use camonanowallet.Wallet.Seed.{
  WalletSeed, get_key, get_camo_key, derive_key_from_secret, derive_key,
}
use camonanowallet.Wallet.Keys.{WalletDb}
use camonanowallet.Wallet.Validity.{KeyLaws, IsOwn, IsOwnCamo, IsOwnDerived, IsValid}

insert-All :
    {T : Type 0} (P : GenericInfo T → Type 0) (dec : Discrete T) (n : Nano)
    (config : CoreClientConfig n) (db db' : GenericInfoDb T) (info : GenericInfo T) (known : Bool)
    → Db.insert dec n config db info ≡ ok (db', known)
    → P info
    → All P db.info
    → All P db'.info
unfolding Db.insert
insert-All P dec n config db db' info known h p all =
    elim (Bool-cases (Db.contains dec db info.account)) [
      | inl old ↦ let q : db ≡ db' = ground arith in rw (← q) all
      | inr fresh ↦
          let q : record { info = db.info ++ info ∷ [] } ≡ db' = ground arith in
          rw (← q) (All-append P db.info (info ∷ []) all (p, tt))
    ]

insert_derived-All :
    (n : Nano) (P : DerivedAccountInfo n → Type 0) (db : DerivedAccountDb n)
    (info : DerivedAccountInfo n)
    → P info
    → All P db.info
    → All P (Derived.insert n db info).0.info
unfolding Derived.insert
insert_derived-All n P db info p all = elim (Bool-cases (Derived.contains n db info.account)) [
  | inl old ↦ rw (old, Derived.insert) all
  | inr fresh ↦ rw (fresh, Derived.insert) (All-append P db.info (info ∷ []) all (p, tt))
]

module _ (n : Nano) (seed : WalletSeed) where
  -- A wallet of the seed's own accounts stays one when the account of an index of the seed is
  -- inserted.
  pub insert_account-IsValid :
      (config : CoreClientConfig n) (db : WalletDb n) (i : ℕ) (accounts : GenericInfoDb n.Account)
      (known : Bool)
      → IsValid n seed db
      → Db.insert n.account_dec n config db.account_db (get_key n seed i).1 ≡ ok (accounts, known)
      → IsValid n seed (record db { account_db = accounts })
  unfolding get_key
  insert_account-IsValid config db i accounts known v h = record {
    accounts =
        insert-All (IsOwn n seed) n.account_dec n config db.account_db accounts (get_key n seed i).1
          known h refl v.accounts;
    camo_accounts = v.camo_accounts;
    derived_accounts = v.derived_accounts;
  }

  get_camo_key-IsOwnCamo :
      (i : ℕ) (versions : n.CamoVersions) (k : n.CamoKeys) (info : GenericInfo n.CamoAccount)
      → KeyLaws n
      → get_camo_key n seed i versions ≡ some (k, info)
      → IsOwnCamo n seed info
  unfolding get_camo_key
  get_camo_key-IsOwnCamo i versions k info laws h =
      elim (Option-cases (n.camo_from_seed seed.bytes i versions)) [
        | inl e ↦ absurd (ground arith)
        | inr (k', e) ↦
            let q : record { index = i; account = n.to_camo_account k' } ≡ info = ground arith in
            rw (← q) (k', laws.rederive seed.bytes i versions k' e, refl)
      ]

  -- With a key derivation that keeps its laws, a wallet of the seed's own accounts stays one when a
  -- camo account that `get_camo_key` makes is inserted.
  pub insert_camo_account-IsValid :
      (config : CoreClientConfig n) (db : WalletDb n) (i : ℕ) (versions : n.CamoVersions)
      (k : n.CamoKeys) (info : GenericInfo n.CamoAccount) (accounts : GenericInfoDb n.CamoAccount)
      (known : Bool)
      → KeyLaws n
      → IsValid n seed db
      → get_camo_key n seed i versions ≡ some (k, info)
      → Db.insert n.camo_dec n config db.camo_account_db info ≡ ok (accounts, known)
      → IsValid n seed (record db { camo_account_db = accounts })
  insert_camo_account-IsValid config db i versions k info accounts known laws v made h = record {
    accounts = v.accounts;
    camo_accounts =
        insert-All (IsOwnCamo n seed) n.camo_dec n config db.camo_account_db accounts info known h
          (get_camo_key-IsOwnCamo i versions k info laws made) v.camo_accounts;
    derived_accounts = v.derived_accounts;
  }

  -- what deriving an account of a tracked camo account from a shared secret returns
  abbrev pub DeriveResult :
      GenericInfo n.CamoAccount → Result (CoreClientError n) (n.Key × DerivedAccountInfo n) → Type 0
  DeriveResult master (ok (key, info)) =
      IsOwnDerived n seed info
      × (info.account ≡ n.to_account key)
      × (info.master_index ≡ master.index)
  DeriveResult master (err e) = ⊥
  DeriveResult master panic = ⊥

  -- For a camo account of the seed and a key derivation that keeps its laws,
  -- `derive_key_from_secret` neither fails nor panics. The record that it returns is one whose key
  -- the seed gives again from the record's index, versions and secret; its account is that of the
  -- returned key, and its master index that of the camo account.
  derive_key_from_secret-DeriveResult :
      (master : GenericInfo n.CamoAccount) (secret : Bytes32)
      → KeyLaws n
      → IsOwnCamo n seed master
      → DeriveResult master (derive_key_from_secret n seed master secret)
  unfolding derive_key_from_secret get_camo_key
  derive_key_from_secret-DeriveResult master secret laws (k, made, own) =
      rw (made, derive_key_from_secret, get_camo_key)
        ((k, rw (laws.versions k, own) made, refl), refl, refl)

  -- For a camo account of the seed and a key derivation that keeps its laws, `derive_key` neither
  -- fails nor panics. The record that it returns is one whose key the seed gives again from the
  -- record's index, versions and secret; its account is that of the returned key, and its master
  -- index that of the camo account.
  pub derive_key-DeriveResult :
      (master : GenericInfo n.CamoAccount) (notification : n.NotificationV1)
      → KeyLaws n
      → IsOwnCamo n seed master
      → DeriveResult master (derive_key n seed master notification)
  unfolding derive_key get_camo_key
  derive_key-DeriveResult master notification laws (k, made, own) =
      rw (made, derive_key, get_camo_key) ((k, rw (laws.versions k, own) made, refl), refl, refl)

  insert_many-All :
      (P : DerivedAccountInfo n → Type 0) (db : DerivedAccountDb n)
      (infos : List (DerivedAccountInfo n))
      → All P infos
      → All P db.info
      → All P (Derived.insert_many n db infos).info
  unfolding Derived.insert_many
  insert_many-All P db [] ps all = all
  insert_many-All P db (x ∷ xs) ps all =
      insert_many-All P (Derived.insert n db x).0 xs ps.1 (insert_derived-All n P db x ps.0 all)

  -- A wallet of the seed's own accounts stays one when derived accounts of the seed are inserted.
  pub insert_many-IsValid :
      (db : WalletDb n) (infos : List (DerivedAccountInfo n))
      → IsValid n seed db
      → All (IsOwnDerived n seed) infos
      → IsValid n seed
          (record db { derived_account_db = Derived.insert_many n db.derived_account_db infos })
  insert_many-IsValid db infos v own = record {
    accounts = v.accounts;
    camo_accounts = v.camo_accounts;
    derived_accounts =
        insert_many-All (IsOwnDerived n seed) db.derived_account_db infos own v.derived_accounts;
  }
