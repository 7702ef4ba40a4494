-- ===== src/App/DiskLaws.antt =====
-- What a save leaves on the disk.
use camonanowallet.Base.{
  ℕ, ◌≡◌, refl, inl, inr, Bool, true, Result-cases, List, Result, ok, err, panic, IfOk, ◌>>=◌,
}
use camonanowallet.Nano.{Nano, Bytes32}
use camonanowallet.Config.{CoreClientConfig}
use camonanowallet.Amount.Text.{Text}
use camonanowallet.App.Error.{Externals, CliError, map_err}
use camonanowallet.App.State.{Client}
use camonanowallet.App.Storage.{EncryptedWallet, Cipher}
use camonanowallet.App.StorageLaws.{CipherLaws}
use camonanowallet.App.Wallets.{
  CliClient, Files, save_wallet_override, load_wallet, load_wallet_from, load_config, save_config,
  save_wallet_overriding,
}
use camonanowallet.App.WalletsLaws.{Unique}
use camonanowallet.App.SaveLaws.{Saved, SaveResult, save_wallet_override-SaveResult}
use camonanowallet.App.Loop.{save_client}

-- What the program relies on in the crate confy: a file that was stored is there, and a write to one
-- file keeps the other.
pub record FilesLaws (n : Nano) (x : Externals) (files : Files n x) : Type 0 where
  pub stored :
      (disk disk' : files.Disk) (wallets : List EncryptedWallet)
      → files.store_wallets disk wallets ≡ ok disk'
      → files.load_wallets disk' ≡ ok (disk', wallets)
  pub config_kept :
      (disk disk' : files.Disk) (wallets : List EncryptedWallet) (config : CoreClientConfig n)
      → files.load_config disk ≡ ok (disk, config)
      → files.store_wallets disk wallets ≡ ok disk'
      → files.load_config disk' ≡ ok (disk', config)
  pub config_stored :
      (disk disk' : files.Disk) (config : CoreClientConfig n)
      → files.store_config disk config ≡ ok disk'
      → files.load_config disk' ≡ ok (disk', config)
  pub wallets_kept :
      (disk disk' : files.Disk) (wallets : List EncryptedWallet) (config : CoreClientConfig n)
      → files.load_wallets disk ≡ ok (disk, wallets)
      → files.store_config disk config ≡ ok disk'
      → files.load_wallets disk' ≡ ok (disk', wallets)

module _ (n : Nano) (x : Externals) (c : Cipher n x) (files : Files n x) where
  -- the disk has both files, and names are unique
  pub record Ready (disk : files.Disk) (config : CoreClientConfig n)
      (wallets : List EncryptedWallet) : Type 0 where
    pub has_config : files.load_config disk ≡ ok (disk, config)
    pub has_wallets : files.load_wallets disk ≡ ok (disk, wallets)
    pub unique : Unique wallets

  -- the disk gives the client, with both files there and names unique
  abbrev pub Loads : CliClient n → files.Disk → Type 0
  Loads cli disk =
      (load_wallet_from n x c files disk cli.name cli.key ≡ ok (disk, cli))
      × ((wallets : List EncryptedWallet) × Ready disk cli.client.core.config wallets)

  module _ (laws : CipherLaws n x c) (file_laws : FilesLaws n x files) (is_alphanumeric : ℕ → Bool)
      (salt nonce : c.Bytes) (good : c.is_nonce nonce ≡ true) where
    stored-Ready :
        (disk disk' : files.Disk) (config : CoreClientConfig n)
        (wallets wallets' : List EncryptedWallet)
        → Ready disk config wallets
        → Unique wallets'
        → files.store_wallets disk wallets' ≡ ok disk'
        → Ready disk' config wallets'
    stored-Ready disk disk' config wallets wallets' ready u e = record {
      has_config = file_laws.config_kept disk disk' wallets' config ready.has_config e;
      has_wallets = file_laws.stored disk disk' wallets' e;
      unique = u;
    }

    Saved-IfOk :
        (wallets : List EncryptedWallet) (client : Client n) (name : Text) (key : Bytes32)
        (r : Result (CliError n x) (List EncryptedWallet))
        → SaveResult n x c laws is_alphanumeric salt nonce good wallets client name key r
        → IfOk (Saved n x c is_alphanumeric wallets client name key) r
    Saved-IfOk wallets client name key (ok wallets') h = h
    Saved-IfOk wallets client name key (err e) h = tt
    Saved-IfOk wallets client name key panic h = tt

    pub save_override-Saved :
        (wallets : List EncryptedWallet) (client : Client n) (name : Text) (key : Bytes32)
        → Unique wallets
        → IfOk
            (Saved n x c is_alphanumeric wallets client name key)
            (save_wallet_override n x c is_alphanumeric salt nonce wallets client name key)
    save_override-Saved wallets client name key u = Saved-IfOk wallets client name key _ (
        save_wallet_override-SaveResult n x c laws is_alphanumeric salt nonce good wallets client
          name key u)

    loads-stored :
        (disk' : files.Disk) (config : CoreClientConfig n) (wallets' : List EncryptedWallet)
        (name : Text) (key : Bytes32) (made : CliClient n)
        → Ready disk' config wallets'
        → load_wallet n x c wallets' config name key ≡ ok made
        → load_wallet_from n x c files disk' name key ≡ ok (disk', made)
    unfolding load_wallet_from load_config
    loads-stored disk' config wallets' name key made ready e =
        rw (load_wallet_from, load_config, ready.has_config, ready.has_wallets, e) refl

    -- the wallets of a save, stored on the disk
    pub stored-Loads :
        (disk : files.Disk) (wallets : List EncryptedWallet) (cli : CliClient n)
        (r : Result (CliError n x) (List EncryptedWallet))
        → Ready disk cli.client.core.config wallets
        → IfOk (Saved n x c is_alphanumeric wallets cli.client cli.name cli.key) r
        → IfOk
            (Loads cli)
            (do wallets' ← r; map_err CliError.disk_error (files.store_wallets disk wallets'))
    stored-Loads disk wallets cli (ok wallets') ready saved =
        elim (Result-cases (files.store_wallets disk wallets')) [
          | inl (disk', e) ↦
              let ready' =
                stored-Ready disk disk' cli.client.core.config wallets wallets' ready saved.unique
                  e in
              rw e (
                loads-stored disk' cli.client.core.config wallets' cli.name cli.key cli ready'
                    (saved.loads cli.client.core.config),
                (wallets', ready'),
              )
          | inr (inl (_, e)) ↦ rw e tt
          | inr (inr e) ↦ rw e tt
        ]
    stored-Loads disk wallets cli (err e) ready saved = tt
    stored-Loads disk wallets cli panic ready saved = tt

    -- whatever the configuration on the disk was, that of the client takes its place
    pub save_client-Loads :
        (disk : files.Disk) (config : CoreClientConfig n) (wallets : List EncryptedWallet)
        (cli : CliClient n)
        → Ready disk config wallets
        → IfOk (Loads cli) (save_client n x c files is_alphanumeric (salt, nonce) disk cli)
    unfolding save_client save_config save_wallet_overriding
    save_client-Loads disk config wallets cli ready =
        elim (Result-cases (files.store_config disk cli.client.core.config)) [
          | inl (disk', e) ↦
              let there = file_laws.wallets_kept disk disk' wallets _ ready.has_wallets e in
              rw (save_client, save_config, e, save_wallet_overriding, there)
                (stored-Loads disk' wallets cli
                  (save_wallet_override n x c is_alphanumeric salt nonce wallets cli.client cli.name
                    cli.key)
                  (record {
                    has_config = file_laws.config_stored disk disk' cli.client.core.config e;
                    has_wallets = there;
                    unique = ready.unique;
                  })
                  (save_override-Saved wallets cli.client cli.name cli.key ready.unique))
          | inr (inl (_, e)) ↦ rw (save_client, save_config, e) tt
          | inr (inr e) ↦ rw (save_client, save_config, e) tt
        ]
