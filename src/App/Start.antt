-- ===== src/App/Start.antt =====
-- cliwallet/src/init.rs: the commands that the program is started with. The passwords that the user
-- types, the random seed and the random bytes of the encryption are given by an `Entry`.
use camonanowallet.Base.{
  ℕ, Bool, true, false, not, Option, none, some, Result, ok, err, panic, ◌>>=◌, ◌>>◌, fail_if,
}
use camonanowallet.Nano.{Nano, Bytes32}
use camonanowallet.Config.{CoreClientConfig}
use camonanowallet.Amount.Text.{Text}
use camonanowallet.App.Error.{Externals, ClientError, CliError, map_err}
use camonanowallet.App.State.{new}
use camonanowallet.App.Storage.{Cipher}
use camonanowallet.App.Wallets.{
  CliClient, Files, load_config, save_config, wallet_exists_on, save_wallet_to, load_wallet_from,
  delete_wallet_from, get_wallet_names, init_files,
}

-- what the start of the program gets from outside; a password is given by its hash
pub record Entry (n : Nano) (x : Externals) (c : Cipher n x) : Type 0 where
  pub is_alphanumeric : ℕ → Bool
  pub salt : c.Bytes
  pub nonce : c.Bytes
  pub random_seed : Bytes32
  -- `prompt_password`
  pub password : Result (ClientError n x) Bytes32
  -- `prompt_confirmed_password`
  pub confirmed_password : Result (CliError n x) Bytes32
  pub default_config : CoreClientConfig n

pub data InitType : Type 0 where
  new_of : Text → InitType
  import_of : Text → Bytes32 → InitType
  load_of : Text → InitType
  delete_of : Text → InitType
  list_of : InitType
  config_of : Bool → InitType

module _ (n : Nano) (x : Externals) (c : Cipher n x) (files : Files n x) (entry : Entry n x c) where
  -- the result of a start: the disk, and the client if there is one
  abbrev pub Started : Type 0
  Started = Result (CliError n x) (files.Disk × Option (CliClient n))

  -- the steps of `new` and `import` once a password is confirmed
  unfoldable pub create : files.Disk → Text → Bytes32 → Bytes32 → Started
  unfolding load_config save_wallet_to
  create disk name key seed = do
    (disk', config) ← load_config n x c files disk
    let client = new n (record { bytes = seed }) config
    disk'' ←
        save_wallet_to n x c files entry.is_alphanumeric entry.salt entry.nonce disk' client name
          key
    ok (disk'', some (record { name = name; key = key; client = client }))

  unfoldable pub create_new : files.Disk → Text → Bytes32 → Started
  unfolding wallet_exists_on create
  create_new disk name seed = do
    (disk', exists) ← wallet_exists_on n x c files disk name
    fail_if exists CliError.wallet_already_exists
    key ← entry.confirmed_password
    create disk' name key seed

  unfoldable pub load_named : files.Disk → Text → Started
  unfolding wallet_exists_on load_wallet_from
  load_named disk name = do
    (disk', exists) ← wallet_exists_on n x c files disk name
    fail_if (not exists) CliError.wallet_not_found
    key ← map_err CliError.client_error entry.password
    (disk'', cli_client) ← load_wallet_from n x c files disk' name key
    ok (disk'', some cli_client)

  unfoldable pub delete_named : files.Disk → Text → Started
  unfolding wallet_exists_on delete_wallet_from
  delete_named disk name = do
    (disk', exists) ← wallet_exists_on n x c files disk name
    fail_if (not exists) CliError.wallet_already_exists
    key ← map_err CliError.client_error entry.password
    disk'' ← delete_wallet_from n x c files disk' name key
    ok (disk'', none)

  unfoldable pub start : files.Disk → InitType → Started
  unfolding create_new load_named delete_named get_wallet_names save_config
  start disk (InitType.new_of name) = create_new disk name entry.random_seed
  start disk (InitType.import_of name seed) = create_new disk name seed
  start disk (InitType.load_of name) = load_named disk name
  start disk (InitType.delete_of name) = delete_named disk name
  start disk InitType.list_of = do
    (disk', names) ← get_wallet_names n x c files disk
    ok (disk', none)
  start disk (InitType.config_of true) = do
    disk' ← save_config n x c files disk entry.default_config
    _ ← map_err CliError.disk_error files.config_location
    ok (disk', none)
  start disk (InitType.config_of false) = do
    _ ← map_err CliError.disk_error files.config_location
    ok (disk, none)

  -- `Init::execute`
  unfoldable pub execute_init : files.Disk → InitType → Started
  unfolding start init_files
  execute_init disk command = do
    (disk', cli_client) ← start disk command
    disk'' ← init_files n x c files disk'
    ok (disk'', cli_client)

  -- what `main` does with the result: without a client `expect` panics
  abbrev pub client_of_main : Started → Result (CliError n x) (CliClient n)
  client_of_main (ok (disk, some cli_client)) = ok cli_client
  client_of_main (ok (disk, none)) = panic
  client_of_main (err e) = err e
  client_of_main panic = panic
