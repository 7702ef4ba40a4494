-- ===== src/App/Storage.antt =====
-- client/src/storage.rs: what is stored of a client, and its encryption. The crates aes_gcm, argon2,
-- bincode and hex are the functions of a `Cipher`.
use camonanowallet.Base.{Bool, List, Result, ok, ◌>>=◌, ◌>>◌, assert}
use camonanowallet.Nano.{Nano, Bytes32, Receivable}
use camonanowallet.Config.{CoreClientConfig}
use camonanowallet.Frontiers.Db.{FrontiersDb}
use camonanowallet.Wallet.Seed.{WalletSeed}
use camonanowallet.Wallet.Keys.{WalletDb}
use camonanowallet.Amount.Text.{Text}
use camonanowallet.App.Error.{Externals, ClientError, map_err}
use camonanowallet.App.State.{Client, CamoTxSummary}

pub record WalletData (n : Nano) : Type 0 where
  pub seed : WalletSeed
  pub wallet_db : WalletDb n
  pub frontiers_db : FrontiersDb n
  pub cached_receivable : List (Bytes32 × Receivable n)
  pub camo_history : List (CamoTxSummary n)

pub record EncryptedWallet : Type 0 where
  pub id : Text
  pub salt : Text
  pub nonce : Text
  pub data_text : Text

pub record Cipher (n : Nano) (x : Externals) : Type 1 where
  pub Bytes : Type 0
  -- `hex::encode`, `hex::decode`
  pub encode : Bytes → Text
  pub decode : Text → Result x.HexError Bytes
  -- `bincode::serialize`, `bincode::deserialize`
  pub serialize : WalletData n → Result x.BincodeError Bytes
  pub deserialize : Bytes → Result x.BincodeError (WalletData n)
  -- the key of Argon2 for a password hash and a salt
  pub CipherKey : Type 0
  pub hash_password : Bytes32 → Bytes → Result x.Argon2Error CipherKey
  -- whether the bytes are as many as those of a nonce; `Nonce::from_slice` panics on others
  pub is_nonce : Bytes → Bool
  -- Aes256Gcm, with a nonce
  pub encrypt : CipherKey → Bytes → Bytes → Result x.AesError Bytes
  pub decrypt : CipherKey → Bytes → Bytes → Result x.AesError Bytes

module _ (n : Nano) (x : Externals) (c : Cipher n x) where
  unfoldable pub key_hash : Bytes32 → c.Bytes → Result (ClientError n x) c.CipherKey
  key_hash key salt = map_err ClientError.argon2_error (c.hash_password key salt)

  -- `salt` and `nonce` are random
  unfoldable pub encrypt :
      c.Bytes → c.Bytes → WalletData n → Text → Bytes32 → Result (ClientError n x) EncryptedWallet
  unfolding key_hash
  encrypt salt nonce wallet id key = do
    cipher_key ← key_hash key salt
    bytes ← map_err ClientError.serialization_error (c.serialize wallet)
    encrypted ← map_err ClientError.encryption_error (c.encrypt cipher_key nonce bytes)
    ok (record {
      id = id;
      salt = c.encode salt;
      nonce = c.encode nonce;
      data_text = c.encode encrypted;
    })

  unfoldable pub decrypt : EncryptedWallet → Bytes32 → Result (ClientError n x) (WalletData n)
  unfolding key_hash
  decrypt wallet key = do
    salt ← map_err ClientError.invalid_hex (c.decode wallet.salt)
    nonce ← map_err ClientError.invalid_hex (c.decode wallet.nonce)
    assert (c.is_nonce nonce)
    cipher_key ← key_hash key salt
    bytes ← map_err ClientError.invalid_hex (c.decode wallet.data_text)
    plaintext ← map_err ClientError.invalid_password (c.decrypt cipher_key nonce bytes)
    map_err ClientError.serialization_error (c.deserialize plaintext)

module _ (n : Nano) where
  -- `Client::as_wallet_data` of client/src/lib.rs
  unfoldable pub as_wallet_data : Client n → WalletData n
  as_wallet_data client = record {
    seed = client.core.seed;
    wallet_db = client.core.wallet_db;
    frontiers_db = client.core.frontiers_db;
    cached_receivable = client.receivable;
    camo_history = client.camo_history;
  }

  unfoldable pub to_client : WalletData n → CoreClientConfig n → Client n
  to_client wallet config = record {
    core = record {
      seed = wallet.seed;
      config = config;
      wallet_db = wallet.wallet_db;
      frontiers_db = wallet.frontiers_db;
    };
    receivable = wallet.cached_receivable;
    camo_history = wallet.camo_history;
  }
