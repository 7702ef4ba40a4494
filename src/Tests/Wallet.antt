-- ===== src/Tests/Wallet.antt =====
-- Runs of the wallet's databases, and their properties on concrete data. The seed is 100, so the
-- account of index 0 is 101, the camo account of index 0 is 600, and 601 is its notification account.
use camonanowallet.Base.{ℕ, ◌≡◌, refl, false, none, some, [], ◌∷◌, ok, err, panic, find, ℕ_discrete}
use camonanowallet.Error.{CoreClientError}
use camonanowallet.Wallet.Db.{GenericInfo, GenericInfoDb}
use camonanowallet.Wallet.Db
use camonanowallet.Wallet.Derived
use camonanowallet.Wallet.Derived.{DerivedAccountInfo, DerivedAccountDb}
use camonanowallet.Wallet.Seed.{get_camo_key, derive_key}
use camonanowallet.Wallet.Keys.{WalletDb, contains_account, find_key, sign_block}
use camonanowallet.Wallet.Store.{Distinct, InsertResult, insert-InsertResult, remove-insert}
use camonanowallet.Wallet.Validity.{
  IsValid, FindResult, SignResult, find_key-FindResult, sign_block-SignResult,
}
use camonanowallet.Wallet.Grow.{DeriveResult, insert_camo_account-IsValid, derive_key-DeriveResult}
use camonanowallet.Wallet.ManyLaws.{Inserted, insert_many-Inserted}
use camonanowallet.Tests.Toy.{toy, toy_laws, config, entry, seed}

abbrev own : GenericInfo ℕ
own = record { index = 0; account = 101 }

abbrev own_camo : GenericInfo ℕ
own_camo = record { index = 0; account = 600 }

-- an account that payments with the shared secret 7 went to
abbrev own_derived : DerivedAccountInfo toy
own_derived = record { versions = 1; secret = 7; master_index = 0; index = 0; account = 608 }

abbrev pub wallet : WalletDb toy
wallet = record {
  account_db = record { info = own ∷ [] };
  camo_account_db = record { info = own_camo ∷ [] };
  derived_account_db = record { info = own_derived ∷ [] };
}

pub wallet-IsValid : IsValid toy seed wallet
wallet-IsValid = record {
  accounts = (refl, tt);
  camo_accounts = ((600, refl, refl), tt);
  derived_accounts = ((600, refl, refl), tt);
}

find_derived : find_key toy wallet seed 608 ≡ ok (some 607)
unfolding find_key ℕ_discrete
find_derived = refl

find_notification : find_key toy wallet seed 601 ≡ ok (some 600)
unfolding find_key ℕ_discrete
find_notification = refl

find_unknown : find_key toy wallet seed 9 ≡ ok none
unfolding find_key ℕ_discrete
find_unknown = refl

-- an account that is not the seed's trips the assertion
find_foreign :
    find_key toy
      (record wallet { account_db = record { info = record { index = 3; account = 9 } ∷ [] } })
      seed
      9
    ≡ panic
unfolding find_key ℕ_discrete
find_foreign = refl

own-Distinct : Distinct ℕ_discrete (own ∷ [])
unfolding find
own-Distinct = (refl, tt)

insert-InsertResult_example :
    InsertResult ℕ_discrete toy config wallet.account_db
      (record { index = 1; account = 102 })
      (Db.insert ℕ_discrete toy config wallet.account_db (record { index = 1; account = 102 }))
insert-InsertResult_example =
    insert-InsertResult ℕ_discrete toy config wallet.account_db
      (record { index = 1; account = 102 }) own-Distinct

abbrev two_accounts : GenericInfoDb ℕ
two_accounts = record { info = own ∷ record { index = 1; account = 102 } ∷ [] }

inserted :
    Db.insert ℕ_discrete toy config wallet.account_db (record { index = 1; account = 102 })
    ≡ ok (two_accounts, false)
unfolding Db.insert ℕ_discrete
inserted = refl

full :
    Db.insert ℕ_discrete toy config two_accounts (record { index = 2; account = 103 })
    ≡ err CoreClientError.db_account_limit_reached
unfolding Db.insert ℕ_discrete
full = refl

remove-insert_example :
    Db.remove ℕ_discrete toy two_accounts 102
    ≡ ok (wallet.account_db, record { index = 1; account = 102 })
remove-insert_example =
    remove-insert ℕ_discrete toy config wallet.account_db two_accounts
      (record { index = 1; account = 102 }) inserted

find_key-FindResult_example :
    FindResult toy seed 608 (contains_account toy wallet 608) (find_key toy wallet seed 608)
find_key-FindResult_example = find_key-FindResult toy seed wallet 608 toy_laws wallet-IsValid

sign_block-SignResult_example :
    SignResult toy seed wallet (entry 101 5).block (sign_block toy wallet seed (entry 101 5).block)
sign_block-SignResult_example =
    sign_block-SignResult toy seed wallet (entry 101 5).block toy_laws wallet-IsValid

abbrev two_camo : GenericInfoDb ℕ
two_camo = record { info = own_camo ∷ record { index = 1; account = 601 } ∷ [] }

made_camo : get_camo_key toy seed 1 1 ≡ some (601, record { index = 1; account = 601 })
unfolding get_camo_key ℕ_discrete
made_camo = refl

inserted_camo :
    Db.insert ℕ_discrete toy config wallet.camo_account_db (record { index = 1; account = 601 })
    ≡ ok (two_camo, false)
unfolding Db.insert ℕ_discrete
inserted_camo = refl

insert_camo_account-IsValid_example :
    IsValid toy seed (record wallet { camo_account_db = two_camo })
insert_camo_account-IsValid_example =
    insert_camo_account-IsValid toy seed config wallet 1 1 601 (record { index = 1; account = 601 })
      two_camo false toy_laws wallet-IsValid made_camo inserted_camo

derive_key-DeriveResult_example :
    DeriveResult toy seed own_camo (derive_key toy seed own_camo (601, 3))
derive_key-DeriveResult_example =
    derive_key-DeriveResult toy seed own_camo (601, 3) toy_laws (600, refl, refl)

abbrev other_derived : DerivedAccountInfo toy
other_derived = record { versions = 1; secret = 8; master_index = 0; index = 0; account = 609 }

-- the account 608 is there already, and 609 is new
insert_many-Inserted_example :
    Inserted toy 609 wallet.derived_account_db (own_derived ∷ other_derived ∷ other_derived ∷ []) (
      Derived.insert_many toy wallet.derived_account_db
        (own_derived ∷ other_derived ∷ other_derived ∷ []))
insert_many-Inserted_example =
    insert_many-Inserted toy 609 wallet.derived_account_db
      (own_derived ∷ other_derived ∷ other_derived ∷ [])
