-- ===== src/App/Wallets.antt =====
-- cliwallet/src/storage.rs: the encrypted wallets of the user, and the files that hold them and the
-- configuration. The crate confy, which reads and writes the files, is a `Files`.
use camonanowallet.Base.{
  ℕ, ℕ_discrete, Bool, true, false, not, ◌&&◌, List, [], ◌∷◌, ◌++◌, map, eqb, find, position,
  get_elem?, erase_idx, Result, ok, err, panic, ◌>>=◌, ◌>>◌, ok_or, expect, fail_if, if◌then◌else◌,
}
use camonanowallet.Nano.{Nano, Bytes32}
use camonanowallet.Config.{CoreClientConfig}
use camonanowallet.Wallet.Db.{is_some}
use camonanowallet.Amount.Text.{Text}
use camonanowallet.App.Error.{Externals, ClientError, CliError, map_err}
use camonanowallet.App.State.{Client}
use camonanowallet.App.Storage.{
  Cipher, EncryptedWallet, encrypt, decrypt, as_wallet_data, to_client,
}

pub record CliClient (n : Nano) : Type 0 where
  pub name : Text
  pub key : Bytes32
  pub client : Client n

abbrev pub text_discrete : Discrete Text
text_discrete = hlevel ℕ_discrete

-- `confy::load` and `confy::store`; loading a file that is missing stores the default
pub record Files (n : Nano) (x : Externals) : Type 1 where
  pub Disk : Type 0
  pub load_wallets : Disk → Result x.ConfyError (Disk × List EncryptedWallet)
  pub store_wallets : Disk → List EncryptedWallet → Result x.ConfyError Disk
  pub load_config : Disk → Result x.ConfyError (Disk × CoreClientConfig n)
  pub store_config : Disk → CoreClientConfig n → Result x.ConfyError Disk
  -- the path of the configuration file
  pub config_location : Result x.ConfyError Text

abbrev all_of : (ℕ → Bool) → Text → Bool
all_of p [] = true
all_of p (c ∷ cs) = p c && all_of p cs

-- `is_alphanumeric` is `char::is_alphanumeric`
unfoldable pub is_valid_name : (is_alphanumeric : ℕ → Bool) → Text → Bool
is_valid_name is_alphanumeric name =
    all_of is_alphanumeric name
    && not (eqb text_discrete name (b'c' ∷ b'o' ∷ b'n' ∷ b'f' ∷ b'i' ∷ b'g' ∷ []))

abbrev pub has_id : Text → EncryptedWallet → Bool
has_id name wallet = eqb text_discrete wallet.id name

unfoldable pub wallet_exists : List EncryptedWallet → Text → Bool
unfolding find
wallet_exists wallets name = is_some (find (has_id name) wallets)

module _ (n : Nano) (x : Externals) (c : Cipher n x) where
  -- `is_ok` of a decryption; a panic in it stays one
  abbrev pub opens : EncryptedWallet → Bytes32 → Result (CliError n x) Bool
  opens wallet key = elim (decrypt n x c wallet key) [
    | ok _ ↦ ok true
    | err _ ↦ ok false
    | panic ↦ panic
  ]

  unfoldable pub delete_wallet :
      List EncryptedWallet → Text → Bytes32 → Result (CliError n x) (List EncryptedWallet)
  unfolding position decrypt
  delete_wallet wallets name key = do
    index ← ok_or (position (has_id name) wallets) CliError.wallet_not_found
    wallet ← expect (get_elem? wallets index)
    opened ← opens wallet key
    fail_if (not opened) (CliError.client_error (ClientError.invalid_password x.aes_error))
    ok (erase_idx wallets index)

  unfoldable pub load_wallet :
      List EncryptedWallet
      → CoreClientConfig n
      → Text
      → Bytes32
      → Result (CliError n x) (CliClient n)
  unfolding wallet_exists find decrypt to_client
  load_wallet wallets config name key = do
    fail_if (not (wallet_exists wallets name)) CliError.wallet_not_found
    wallet ← ok_or (find (has_id name) wallets) CliError.wallet_not_found
    found ← map_err CliError.client_error (decrypt n x c wallet key)
    ok (record { name = name; key = key; client = to_client n found config })

  module _ (is_alphanumeric : ℕ → Bool) (salt nonce : c.Bytes) where
    -- the wallets without the one that is saved again
    abbrev pub make_room :
        List EncryptedWallet → Text → Bytes32 → Result (CliError n x) (List EncryptedWallet)
    make_room wallets name key =
        if wallet_exists wallets name then delete_wallet wallets name key else ok wallets

    unfoldable pub save_wallet_override :
        List EncryptedWallet
        → Client n
        → Text
        → Bytes32
        → Result (CliError n x) (List EncryptedWallet)
    unfolding is_valid_name wallet_exists delete_wallet encrypt as_wallet_data
    save_wallet_override wallets client name key = do
      fail_if (not (is_valid_name is_alphanumeric name)) CliError.invalid_wallet_name
      others ← make_room wallets name key
      encrypted ←
          map_err CliError.client_error
            (encrypt n x c salt nonce (as_wallet_data n client) name key)
      ok (others ++ encrypted ∷ [])

    unfoldable pub save_wallet :
        List EncryptedWallet
        → Client n
        → Text
        → Bytes32
        → Result (CliError n x) (List EncryptedWallet)
    unfolding wallet_exists save_wallet_override
    save_wallet wallets client name key =
        fail_if (wallet_exists wallets name) CliError.wallet_already_exists
        >> save_wallet_override wallets client name key

-- the functions on the files; a write that fails leaves the disk as it was read
module _ (n : Nano) (x : Externals) (c : Cipher n x) (files : Files n x) where
  abbrev pub load_from_disk : files.Disk → Result (CliError n x) (files.Disk × List EncryptedWallet)
  load_from_disk disk = map_err CliError.disk_error (files.load_wallets disk)

  abbrev pub save_to_disk : files.Disk → List EncryptedWallet → Result (CliError n x) files.Disk
  save_to_disk disk wallets = map_err CliError.disk_error (files.store_wallets disk wallets)

  unfoldable pub save_config : files.Disk → CoreClientConfig n → Result (CliError n x) files.Disk
  save_config disk config = map_err CliError.disk_error (files.store_config disk config)

  unfoldable pub load_config : files.Disk → Result (CliError n x) (files.Disk × CoreClientConfig n)
  load_config disk = map_err CliError.disk_error (files.load_config disk)

  unfoldable pub get_wallet_names : files.Disk → Result (CliError n x) (files.Disk × List Text)
  get_wallet_names disk = do
    (disk', wallets) ← load_from_disk disk
    ok (disk', map (λ (wallet : EncryptedWallet). wallet.id) wallets)

  unfoldable pub wallet_exists_on : files.Disk → Text → Result (CliError n x) (files.Disk × Bool)
  unfolding wallet_exists
  wallet_exists_on disk name = do
    (disk', wallets) ← load_from_disk disk
    ok (disk', wallet_exists wallets name)

  unfoldable pub load_wallet_from :
      files.Disk → Text → Bytes32 → Result (CliError n x) (files.Disk × CliClient n)
  unfolding load_config load_wallet
  load_wallet_from disk name key = do
    (disk', config) ← load_config disk
    (disk'', wallets) ← load_from_disk disk'
    cli_client ← load_wallet n x c wallets config name key
    ok (disk'', cli_client)

  unfoldable pub delete_wallet_from : files.Disk → Text → Bytes32 → Result (CliError n x) files.Disk
  unfolding delete_wallet
  delete_wallet_from disk name key = do
    (disk', wallets) ← load_from_disk disk
    wallets' ← delete_wallet n x c wallets name key
    save_to_disk disk' wallets'

  module _ (is_alphanumeric : ℕ → Bool) (salt nonce : c.Bytes) where
    unfoldable pub save_wallet_overriding :
        files.Disk → Client n → Text → Bytes32 → Result (CliError n x) files.Disk
    unfolding save_wallet_override
    save_wallet_overriding disk client name key = do
      (disk', wallets) ← load_from_disk disk
      wallets' ← save_wallet_override n x c is_alphanumeric salt nonce wallets client name key
      save_to_disk disk' wallets'

    unfoldable pub save_wallet_to :
        files.Disk → Client n → Text → Bytes32 → Result (CliError n x) files.Disk
    unfolding save_wallet
    save_wallet_to disk client name key = do
      (disk', wallets) ← load_from_disk disk
      wallets' ← save_wallet n x c is_alphanumeric salt nonce wallets client name key
      save_to_disk disk' wallets'

  unfoldable pub init_files : files.Disk → Result (CliError n x) files.Disk
  unfolding load_config
  init_files disk = do
    (disk', config) ← load_config disk
    (disk'', wallets) ← load_from_disk disk'
    ok disk''
