-- ===== src/Wallet/Keys.antt =====
-- `WalletDB`: the three account databases, and the search for an account's key. An `expect` or an
-- `assert!` that fails is a panic; `ok none` is the `None` of the source.
use camonanowallet.Base.{
  Bool, ◌||◌, Option, none, some, List, ◌++◌, map, eqb, find, Result, ok, ◌>>=◌, ◌>>◌, assert,
  expect, ok_or,
}
use camonanowallet.Nano.{Nano, Block}
use camonanowallet.Error.{CoreClientError}
use camonanowallet.Wallet.Db.{GenericInfo, GenericInfoDb, is_some}
use camonanowallet.Wallet.Db
use camonanowallet.Wallet.Derived
use camonanowallet.Wallet.Derived.{DerivedAccountDb}
use camonanowallet.Wallet.Seed.{WalletSeed}

pub record WalletDb (n : Nano) : Type 0 where
  pub account_db : GenericInfoDb n.Account
  pub camo_account_db : GenericInfoDb n.CamoAccount
  pub derived_account_db : DerivedAccountDb n

-- `Option::or`
abbrev pub or_else {ℓ} : {A : Type ℓ} → Option A → Option A → Option A
or_else (some a) o = some a
or_else none o = o

module _ (n : Nano) where
  -- the form `Notification` of the macro `search_db!`
  abbrev pub is_notification : n.Account → GenericInfo n.CamoAccount → Bool
  is_notification account item = eqb n.account_dec (n.signer_account item.account) account

  unfoldable pub all_notification_accounts : GenericInfoDb n.CamoAccount → List n.Account
  all_notification_accounts db = map (λ info. n.signer_account info.account) db.info

  unfoldable pub get_info_from_notification_account :
      GenericInfoDb n.CamoAccount → n.Account → Option (GenericInfo n.CamoAccount)
  unfolding find
  get_info_from_notification_account db account = find (is_notification account) db.info

  unfoldable pub contains_notification_account : GenericInfoDb n.CamoAccount → n.Account → Bool
  unfolding get_info_from_notification_account
  contains_notification_account db account = is_some (get_info_from_notification_account db account)

  unfoldable pub get_key_from_account : WalletDb n → WalletSeed → n.Account → Option n.Key
  unfolding Db.get_info
  get_key_from_account db seed account = elim (Db.get_info n.account_dec db.account_db account) [
    | none ↦ none
    | some info ↦ some (n.key_from_seed seed.bytes info.index)
  ]

  unfoldable pub get_derived_key_from_account : WalletDb n → WalletSeed → n.Account → Option n.Key
  unfolding Derived.get_info
  get_derived_key_from_account db seed account =
      elim (Derived.get_info n db.derived_account_db account) [
        | none ↦ none
        | some info ↦ elim (n.camo_from_seed seed.bytes info.master_index info.versions) [
          | none ↦ none
          | some master ↦ some (n.derive_key master info.secret)
        ]
      ]

  unfoldable pub find_camo_key :
      WalletDb n → WalletSeed → n.CamoAccount → Result (CoreClientError n) (Option n.CamoKeys)
  unfolding Db.get_info
  find_camo_key db seed account = elim (Db.get_info n.camo_dec db.camo_account_db account) [
    | none ↦ ok none
    | some info ↦ do
      key ← expect (n.camo_from_seed seed.bytes info.index (n.camo_versions account))
      ok (some key)
  ]

  unfoldable pub find_camo_key_from_notification_account :
      WalletDb n → WalletSeed → n.Account → Result (CoreClientError n) (Option n.CamoKeys)
  unfolding get_info_from_notification_account
  find_camo_key_from_notification_account db seed account =
      elim (get_info_from_notification_account db.camo_account_db account) [
        | none ↦ ok none
        | some info ↦ do
          key ← expect (n.camo_from_seed seed.bytes info.index (n.camo_versions info.account))
          ok (some key)
      ]

  abbrev pub signer_of : Option n.CamoKeys → Option n.Key
  signer_of none = none
  signer_of (some master) = some (n.signer_key master)

  unfoldable pub get_camo_notification_key :
      WalletDb n → WalletSeed → n.Account → Result (CoreClientError n) (Option n.Key)
  unfolding get_info_from_notification_account find_camo_key
  get_camo_notification_key db seed account =
      elim (get_info_from_notification_account db.camo_account_db account) [
        | none ↦ ok none
        | some info ↦ do master ← find_camo_key db seed info.account; ok (signer_of master)
      ]

  -- `assert!(&key.to_account() == account)` on the key that was found
  abbrev pub check_key : n.Account → Option n.Key → Result (CoreClientError n) (Option n.Key)
  check_key account none = ok none
  check_key account (some key) = do
    assert (eqb n.account_dec (n.to_account key) account)
    ok (some key)

  -- all three places are searched before the first hit is taken
  unfoldable pub find_key :
      WalletDb n → WalletSeed → n.Account → Result (CoreClientError n) (Option n.Key)
  unfolding get_key_from_account get_derived_key_from_account get_camo_notification_key
  find_key db seed account = do
    let normal = get_key_from_account db seed account
    let derived = get_derived_key_from_account db seed account
    notification ← get_camo_notification_key db seed account
    check_key account (or_else (or_else normal derived) notification)

  unfoldable pub contains_account : WalletDb n → n.Account → Bool
  unfolding Db.get_info Derived.get_info get_info_from_notification_account
  contains_account db account =
      is_some (Db.get_info n.account_dec db.account_db account)
      || is_some (get_info_from_notification_account db.camo_account_db account)
      || is_some (Derived.get_info n db.derived_account_db account)

  unfoldable pub contains_camo_account : WalletDb n → n.CamoAccount → Bool
  unfolding Db.get_info
  contains_camo_account db account = is_some (Db.get_info n.camo_dec db.camo_account_db account)

  unfoldable pub public_nano_accounts : WalletDb n → List n.Account
  unfolding all_notification_accounts Db.all_accounts
  public_nano_accounts db =
      Db.all_accounts n.account_dec db.account_db ++ all_notification_accounts db.camo_account_db

  unfoldable pub all_nano_accounts : WalletDb n → List n.Account
  unfolding all_notification_accounts Db.all_accounts Derived.all_accounts
  all_nano_accounts db =
      Db.all_accounts n.account_dec db.account_db
      ++ (all_notification_accounts db.camo_account_db
          ++ Derived.all_accounts n db.derived_account_db)

  -- the block with its signature replaced
  unfoldable pub sign_block :
      WalletDb n → WalletSeed → Block n → Result (CoreClientError n) (Block n)
  unfolding find_key
  sign_block db seed block = do
    found ← find_key db seed block.account
    key ← ok_or found CoreClientError.account_not_found
    ok (record block { signature = n.signature_by block key })
