-- ===== src/Wallet/Derived.antt =====
-- `DerivedAccountInfo` and `DerivedAccountDb`: the accounts to which camo payments were made.
use camonanowallet.Base.{
  ℕ, Bool, true, false, Option, none, some, List, [], ◌∷◌, ◌++◌, map, eqb, get_elem?, erase_idx,
  select, find, position, ℕ_discrete, Result, ok, err, ◌>>=◌, expect, if◌then◌else◌,
}
use camonanowallet.Nano.{Nano, Bytes32}
use camonanowallet.Error.{CoreClientError}
use camonanowallet.Wallet.Db.{GenericInfoDb, is_some}
use camonanowallet.Wallet.Db

pub record DerivedAccountInfo (n : Nano) : Type 0 where
  pub versions : n.CamoVersions
  pub secret : Bytes32
  pub master_index : ℕ
  pub index : ℕ
  pub account : n.Account

pub record DerivedAccountDb (n : Nano) : Type 0 where
  pub info : List (DerivedAccountInfo n)

module _ (n : Nano) where
  abbrev pub is_account : n.Account → DerivedAccountInfo n → Bool
  is_account account item = eqb n.account_dec item.account account

  unfoldable pub all_accounts : DerivedAccountDb n → List n.Account
  all_accounts db = map (λ info. info.account) db.info

  unfoldable pub get_info : DerivedAccountDb n → n.Account → Option (DerivedAccountInfo n)
  unfolding find
  get_info db account = find (is_account account) db.info

  unfoldable pub contains : DerivedAccountDb n → n.Account → Bool
  unfolding get_info
  contains db account = is_some (get_info db account)

  unfoldable pub insert : DerivedAccountDb n → DerivedAccountInfo n → DerivedAccountDb n × Bool
  unfolding contains
  insert db info =
      if contains db info.account
      then (db, true)
      else (record { info = db.info ++ info ∷ [] }, false)

  unfoldable pub insert_many : DerivedAccountDb n → List (DerivedAccountInfo n) → DerivedAccountDb n
  unfolding insert
  insert_many db [] = db
  insert_many db (info ∷ infos) = insert_many (insert db info).0 infos

  unfoldable pub remove :
      DerivedAccountDb n
      → n.Account
      → Result (CoreClientError n) (DerivedAccountDb n × DerivedAccountInfo n)
  unfolding position
  remove db account = elim (position (is_account account) db.info) [
    | none ↦ err CoreClientError.account_not_found
    | some i ↦ do
      info ← expect (get_elem? db.info i)
      ok (record { info = erase_idx db.info i }, info)
  ]

  -- the derived accounts of a camo account, found through the index of the camo account
  unfoldable pub get_info_from_master :
      DerivedAccountDb n → GenericInfoDb n.CamoAccount → n.CamoAccount → List (DerivedAccountInfo n)
  unfolding Db.get_info
  get_info_from_master db camo_account_db master =
      elim (Db.get_info n.camo_dec camo_account_db master) [
        | none ↦ []
        | some info ↦ select (λ item. eqb ℕ_discrete item.master_index info.index) db.info
      ]
