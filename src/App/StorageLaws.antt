-- ===== src/App/StorageLaws.antt =====
-- What is encrypted can be decrypted with its key.
use camonanowallet.Base.{◌≡◌, refl, true, inl, inr, Result-cases, ok, IfOk}
use camonanowallet.Nano.{Nano, Bytes32}
use camonanowallet.Amount.Text.{Text}
use camonanowallet.App.Error.{Externals}
use camonanowallet.App.State.{Client}
use camonanowallet.App.Storage.{
  WalletData, EncryptedWallet, Cipher, key_hash, encrypt, decrypt, as_wallet_data, to_client,
}

-- What the storage relies on in the crates hex, bincode and aes_gcm.
pub record CipherLaws (n : Nano) (x : Externals) (c : Cipher n x) : Type 0 where
  pub hex : (bytes : c.Bytes) → c.decode (c.encode bytes) ≡ ok bytes
  pub bincode :
      (wallet : WalletData n) (bytes : c.Bytes)
      → c.serialize wallet ≡ ok bytes
      → c.deserialize bytes ≡ ok wallet
  pub aes :
      (key : c.CipherKey) (nonce plain encrypted : c.Bytes)
      → c.encrypt key nonce plain ≡ ok encrypted
      → c.decrypt key nonce encrypted ≡ ok plain

-- the wallet has the name, and the key gives the data back
abbrev pub Holds :
    (n : Nano) (x : Externals)
    → Cipher n x
    → Text
    → Bytes32
    → WalletData n
    → EncryptedWallet
    → Type 0
Holds n x c id key wallet encrypted =
    (encrypted.id ≡ id) × (decrypt n x c encrypted key ≡ ok wallet)

module _ (n : Nano) (x : Externals) (c : Cipher n x) (laws : CipherLaws n x c) where
  pub encrypt-Holds :
      (salt nonce : c.Bytes) (wallet : WalletData n) (id : Text) (key : Bytes32)
      → c.is_nonce nonce ≡ true
      → IfOk (Holds n x c id key wallet) (encrypt n x c salt nonce wallet id key)
  unfolding encrypt decrypt key_hash
  encrypt-Holds salt nonce wallet id key good = elim (Result-cases (c.hash_password key salt)) [
    | inl (cipher_key, e) ↦ elim (Result-cases (c.serialize wallet)) [
      | inl (plain, f) ↦ elim (Result-cases (c.encrypt cipher_key nonce plain)) [
        | inl (encrypted, g) ↦
            rw (encrypt, key_hash, e, f, g)
              (
                refl,
                rw
                    (
                      decrypt,
                      key_hash,
                      laws.hex salt,
                      laws.hex nonce,
                      laws.hex encrypted,
                      good,
                      e,
                      laws.aes cipher_key nonce plain encrypted g,
                      laws.bincode wallet plain f,
                    )
                    refl,
              )
        | inr (inl (_, g)) ↦ rw (encrypt, key_hash, e, f, g) tt
        | inr (inr g) ↦ rw (encrypt, key_hash, e, f, g) tt
      ]
      | inr (inl (_, f)) ↦ rw (encrypt, key_hash, e, f) tt
      | inr (inr f) ↦ rw (encrypt, key_hash, e, f) tt
    ]
    | inr (inl (_, e)) ↦ rw (encrypt, key_hash, e) tt
    | inr (inr e) ↦ rw (encrypt, key_hash, e) tt
  ]

-- what is stored of a client gives the client again, with its configuration
pub to_client-as_wallet_data :
    (n : Nano) (client : Client n)
    → to_client n (as_wallet_data n client) client.core.config ≡ client
unfolding to_client as_wallet_data
to_client-as_wallet_data n client = refl
