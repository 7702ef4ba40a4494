-- ===== src/App/Error.antt =====
-- `ClientError` of client/src/error.rs and `CliError` of cliwallet/src/error.rs. The errors of the crates
-- that they wrap are those of an `Externals`.
use camonanowallet.Base.{Result, ok, err, panic}
use camonanowallet.Nano.{Nano}
use camonanowallet.Error.{CoreClientError}

pub record Externals : Type 1 where
  pub HexError : Type 0
  pub BincodeError : Type 0
  pub Argon2Error : Type 0
  -- `aes_gcm::Error`, a type with one value
  pub AesError : Type 0
  pub aes_error : AesError
  pub ConfyError : Type 0
  -- the text of an error of the terminal
  pub Message : Type 0

pub data ClientError (n : Nano) (x : Externals) : Type 0 where
  nano_error : n.NanoError → ClientError n x
  core_client_error : CoreClientError n → ClientError n x
  invalid_arguments : ClientError n x
  amount_below_dust_threshold : ClientError n x
  invalid_hex : x.HexError → ClientError n x
  serialization_error : x.BincodeError → ClientError n x
  argon2_error : x.Argon2Error → ClientError n x
  encryption_error : x.AesError → ClientError n x
  invalid_password : x.AesError → ClientError n x
  failed_to_read_password : x.Message → ClientError n x

pub data CliError (n : Nano) (x : Externals) : Type 0 where
  client_error : ClientError n x → CliError n x
  disk_error : x.ConfyError → CliError n x
  invalid_wallet_name : CliError n x
  wallet_not_found : CliError n x
  wallet_already_exists : CliError n x

-- `Result::map_err`, and the `From` of the operator `?`
abbrev pub map_err {ℓ κ ι} :
    {E : Type κ} {F : Type ι} {A : Type ℓ} → (E → F) → Result E A → Result F A
map_err f (ok a) = ok a
map_err f (err e) = err (f e)
map_err f panic = panic
