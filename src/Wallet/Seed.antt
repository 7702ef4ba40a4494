-- ===== src/Wallet/Seed.antt =====
-- `WalletSeed`: the keys that the seed gives, and the records of the accounts they belong to. The
-- seed is its 32 bytes; its hexadecimal text is the work of the crate hex.
use camonanowallet.Base.{ℕ, Option, none, some, Result, ok, ◌>>=◌, expect}
use camonanowallet.Nano.{Nano, Bytes32}
use camonanowallet.Error.{CoreClientError}
use camonanowallet.Wallet.Db.{GenericInfo}
use camonanowallet.Wallet.Derived.{DerivedAccountInfo}

pub record WalletSeed : Type 0 where
  pub bytes : Bytes32

module _ (n : Nano) where
  unfoldable pub get_key : WalletSeed → ℕ → n.Key × GenericInfo n.Account
  get_key seed index =
      let key = n.key_from_seed seed.bytes index in
      (key, record { index = index; account = n.to_account key })

  unfoldable pub get_camo_key :
      WalletSeed → ℕ → n.CamoVersions → Option (n.CamoKeys × GenericInfo n.CamoAccount)
  get_camo_key seed index versions = elim (n.camo_from_seed seed.bytes index versions) [
    | none ↦ none
    | some key ↦ some (key, record { index = index; account = n.to_camo_account key })
  ]

  unfoldable pub derive_key_from_secret :
      WalletSeed
      → GenericInfo n.CamoAccount
      → Bytes32
      → Result (CoreClientError n) (n.Key × DerivedAccountInfo n)
  unfolding get_camo_key
  derive_key_from_secret seed master secret = do
    (master_key, _) ← expect (get_camo_key seed master.index (n.camo_versions master.account))
    let key = n.derive_key master_key secret
    ok (
      key,
      record {
        versions = n.keys_versions master_key;
        secret = secret;
        master_index = master.index;
        index = 0;
        account = n.to_account key;
      },
    )

  unfoldable pub derive_key :
      WalletSeed
      → GenericInfo n.CamoAccount
      → n.NotificationV1
      → Result (CoreClientError n) (n.Key × DerivedAccountInfo n)
  unfolding derive_key_from_secret
  derive_key seed master notification = do
    (master_key, _) ← expect (get_camo_key seed master.index (n.camo_versions master.account))
    derive_key_from_secret seed master (n.receiver_ecdh master_key notification)
