-- ===== src/App/StartLaws.antt =====
-- A wallet that the program creates is the wallet that it loads later.
use camonanowallet.Base.{
  ◌≡◌, refl, Bool, true, false, Option, none, some, List, ok, ◌>>◌, fail_if, IfOk, IfOk-value,
  IfOk-bind, ◌>>=◌,
}
use camonanowallet.Nano.{Nano, Bytes32}
use camonanowallet.Config.{CoreClientConfig}
use camonanowallet.Amount.Text.{Text}
use camonanowallet.App.Error.{Externals, CliError, map_err}
use camonanowallet.App.State.{Client, new}
use camonanowallet.App.Storage.{EncryptedWallet, Cipher}
use camonanowallet.App.StorageLaws.{CipherLaws}
use camonanowallet.App.Wallets.{
  CliClient, Files, wallet_exists, save_wallet, save_wallet_override, save_wallet_to, load_config,
}
use camonanowallet.App.WalletsLaws.{Unique}
use camonanowallet.App.SaveLaws.{Saved}
use camonanowallet.App.DiskLaws.{FilesLaws, Ready, Loads, save_override-Saved, stored-Loads}
use camonanowallet.App.Start.{Entry, create}

module _ (n : Nano) (x : Externals) (c : Cipher n x) (files : Files n x) (laws : CipherLaws n x c)
    (file_laws : FilesLaws n x files) (entry : Entry n x c)
    (good : c.is_nonce entry.nonce ≡ true) where
  -- what a creation leaves: the wallet loads as the client that it returned
  abbrev Created : Text → Bytes32 → files.Disk × Option (CliClient n) → Type 0
  Created name key (disk', none) = ⊥
  Created name key (disk', some made) =
      (made.name ≡ name) × (made.key ≡ key) × Loads n x c files made disk'

  save_wallet-Saved :
      (wallets : List EncryptedWallet) (client : Client n) (name : Text) (key : Bytes32)
      → Unique wallets
      → IfOk
          (Saved n x c entry.is_alphanumeric wallets client name key)
          (save_wallet n x c entry.is_alphanumeric entry.salt entry.nonce wallets client name key)
  unfolding save_wallet
  save_wallet-Saved wallets client name key u = go (wallet_exists wallets name)
    where
      go :
          (exists : Bool)
          → IfOk (Saved n x c entry.is_alphanumeric wallets client name key) (
              fail_if exists CliError.wallet_already_exists
              >> save_wallet_override n x c entry.is_alphanumeric entry.salt entry.nonce wallets
                  client name key)
      go true = tt
      go false =
          save_override-Saved n x c files laws file_laws entry.is_alphanumeric entry.salt
            entry.nonce good wallets client name key u

  create-Created :
      (disk : files.Disk) (config : CoreClientConfig n) (wallets : List EncryptedWallet)
      (name : Text) (key seed : Bytes32)
      → Ready n x c files disk config wallets
      → IfOk (Created name key) (create n x c files entry disk name key seed)
  unfolding create load_config save_wallet_to
  create-Created disk config wallets name key seed ready =
      rw (create, load_config, ready.has_config, save_wallet_to, ready.has_wallets)
        (IfOk-bind (Loads n x c files made) (Created name key)
          (do
            wallets' ←
                save_wallet n x c entry.is_alphanumeric entry.salt entry.nonce wallets made.client
                  name key
            map_err CliError.disk_error (files.store_wallets disk wallets'))
          (λ disk''. ok (disk'', some made))
          (stored-Loads n x c files laws file_laws entry.is_alphanumeric entry.salt entry.nonce good
            disk wallets made _ ready (save_wallet-Saved wallets made.client name key ready.unique))
          (λ disk'' loads. (refl, refl, loads)))
    where
      made : CliClient n
      made = record { name = name; key = key; client = new n (record { bytes = seed }) config }

  -- On a disk that has both files, with unique names, with a cipher and files that keep their laws
  -- and a nonce of the right length: the client that a creation returns has the name and the key of
  -- the wallet, loading them from the new disk gives this client with its configuration, and the
  -- new disk has both files with unique names.
  pub load_wallet-create :
      (disk disk' : files.Disk) (config : CoreClientConfig n) (wallets : List EncryptedWallet)
      (name : Text) (key seed : Bytes32) (made : CliClient n)
      → Ready n x c files disk config wallets
      → create n x c files entry disk name key seed ≡ ok (disk', some made)
      → (made.name ≡ name) × (made.key ≡ key) × Loads n x c files made disk'
  load_wallet-create disk disk' config wallets name key seed made ready =
      IfOk-value (Created name key) _ (disk', some made)
        (create-Created disk config wallets name key seed ready)
