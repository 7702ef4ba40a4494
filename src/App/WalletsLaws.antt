-- ===== src/App/WalletsLaws.antt =====
-- What saving and deleting wallets does to the user's wallets: names stay unique, other wallets stay,
-- and a wallet is replaced or deleted with its key only.
use camonanowallet.Base.{
  ℕ, zero, suc, ◌≡◌, refl, ◌⊎◌, inl, inr, Option-cases, Result-cases, Option, none, some, List, [],
  ◌∷◌, ◌++◌, arith, eqb, eqb→eq, find, position, find-append, find-none_get, position-some,
  position-none, get_elem?, erase_idx, Result, ok, err, panic, if◌then◌else◌,
}
use camonanowallet.Nano.{Nano, Bytes32}
use camonanowallet.Amount.Text.{Text}
use camonanowallet.App.Error.{Externals, ClientError, CliError}
use camonanowallet.App.Storage.{WalletData, EncryptedWallet, Cipher, decrypt}
use camonanowallet.App.Wallets.{text_discrete, has_id, opens, delete_wallet}

-- no two wallets have the same name
abbrev pub Unique : List EncryptedWallet → Type 0
Unique [] = Unit
Unique (w ∷ ws) = (find (has_id w.id) ws ≡ none) × Unique ws

pub append-Unique :
    (ws : List EncryptedWallet) (new : EncryptedWallet)
    → Unique ws
    → find (has_id new.id) ws ≡ none
    → Unique (ws ++ new ∷ [])
unfolding find
append-Unique [] new u h = (refl, tt)
append-Unique (w ∷ ws) new u h =
    (ground (arith, find-append (has_id w.id) ws new u.0), append-Unique ws new u.1 (ground arith))

-- without the wallet at an index, its name is free and all else is as it was
find-erase_wallet :
    (ws : List EncryptedWallet) (i : ℕ) (old : EncryptedWallet) (name : Text)
    → Unique ws
    → get_elem? ws i ≡ some old
    → find (has_id name) (erase_idx ws i)
      ≡ (if has_id name old then none else find (has_id name) ws)
unfolding find
find-erase_wallet [] i old name u g = cc
find-erase_wallet (w ∷ ws) zero old name u g = ground arith
find-erase_wallet (w ∷ ws) (suc i) old name u g =
    ground
      (arith, find-erase_wallet ws i old name u.1 g, find-none_get (has_id w.id) ws i old u.0 g)

erase-Unique :
    (ws : List EncryptedWallet) (i : ℕ) (old : EncryptedWallet)
    → Unique ws
    → get_elem? ws i ≡ some old
    → Unique (erase_idx ws i)
erase-Unique [] i old u g = cc
erase-Unique (w ∷ ws) zero old u g = u.1
erase-Unique (w ∷ ws) (suc i) old u g =
    (ground (arith, find-erase_wallet ws i old w.id u.1 g), erase-Unique ws i old u.1 g)

-- the lookup of a name in the wallets after the name `name` was deleted
abbrev pub without : List EncryptedWallet → Text → Text → Option EncryptedWallet
without wallets name other =
    if eqb text_discrete name other then none else find (has_id other) wallets

pub find-append_wallet :
    (ws : List EncryptedWallet) (new : EncryptedWallet) (name : Text)
    → find (has_id new.id) ws ≡ none
    → find (has_id name) (ws ++ new ∷ [])
      ≡ (if has_id name new then some new else find (has_id name) ws)
unfolding find
find-append_wallet [] new name h = refl
find-append_wallet (w ∷ ws) new name h = ground (arith, find-append_wallet ws new name)

module _ (n : Nano) (x : Externals) (c : Cipher n x) where
  -- Deletion: on success the stored wallet of the name could be decrypted with the key, names are
  -- still unique, the name is free and other wallets are as they were. The errors are an unknown
  -- name and a key that does not decrypt the wallet; a panic is one of the decryption.
  abbrev pub DeleteResult :
      List EncryptedWallet → Text → Bytes32 → Result (CliError n x) (List EncryptedWallet) → Type 0
  DeleteResult wallets name key (ok wallets') =
      ((old : EncryptedWallet) × (found : WalletData n) × (find (has_id name) wallets ≡ some old)
        × (decrypt n x c old key ≡ ok found))
      × Unique wallets'
      × ((other : Text) → find (has_id other) wallets' ≡ without wallets name other)
  DeleteResult wallets name key (err e) =
      ((find (has_id name) wallets ≡ none) × (e ≡ CliError.wallet_not_found))
      ⊎ ((old : EncryptedWallet) × (why : ClientError n x) × (find (has_id name) wallets ≡ some old)
          × (decrypt n x c old key ≡ err why)
          × (e ≡ CliError.client_error (ClientError.invalid_password x.aes_error)))
  DeleteResult wallets name key panic =
      (old : EncryptedWallet) × (find (has_id name) wallets ≡ some old)
      × (decrypt n x c old key ≡ panic)

  -- On wallets with unique names, a deletion succeeds only with a key that decrypts the wallet of
  -- the name, and then the name is free, the wallets of other names are as they were, and names are
  -- unique. Otherwise the error is that of an unknown name, or of an invalid password where the
  -- decryption fails; and it panics only where the decryption does.
  pub delete_wallet-DeleteResult :
      (wallets : List EncryptedWallet) (name : Text) (key : Bytes32)
      → Unique wallets
      → DeleteResult wallets name key (delete_wallet n x c wallets name key)
  unfolding delete_wallet
  delete_wallet-DeleteResult wallets name key u =
      elim (Option-cases (position (has_id name) wallets)) [
        | inl e ↦ rw (delete_wallet, e) (inl (position-none (has_id name) wallets e, refl))
        | inr (i, e) ↦
            let (old, got, holds, found) = position-some (has_id name) wallets i e in
            let same : old.id ≡ name = eqb→eq text_discrete old.id name holds in
            elim (Result-cases (decrypt n x c old key)) [
              | inl (opened, d) ↦
                  rw (delete_wallet, e, got, opens, d)
                    (
                      (old, opened, found, d),
                      erase-Unique wallets i old u got,
                      λ other. rw (← same) (find-erase_wallet wallets i old other u got),
                    )
              | inr (inl (why, d)) ↦
                  rw (delete_wallet, e, got, opens, d) (inr (old, why, found, d, refl))
              | inr (inr d) ↦ rw (delete_wallet, e, got, opens, d) (old, found, d)
            ]
      ]
