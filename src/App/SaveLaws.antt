-- ===== src/App/SaveLaws.antt =====
-- What is saved can be loaded again, and other wallets stay as they were.
use camonanowallet.Base.{
  ◌≡◌, ◌≢◌, ◌∙◌, ap, refl, sym, ◌⊎◌, inl, inr, Bool, true, false, Bool-cases, Option-cases, none,
  some, List, [], ◌∷◌, ◌++◌, arith, eqb, eqb_self, find, Result, ok, err, panic, ◌>>=◌, IfOk, ℕ,
}
use camonanowallet.Nano.{Nano, Bytes32}
use camonanowallet.Config.{CoreClientConfig}
use camonanowallet.Amount.Text.{Text}
use camonanowallet.App.Error.{Externals, ClientError, CliError, map_err}
use camonanowallet.App.State.{Client}
use camonanowallet.App.Storage.{
  WalletData, EncryptedWallet, Cipher, encrypt, decrypt, as_wallet_data, to_client,
}
use camonanowallet.App.StorageLaws.{CipherLaws, Holds, encrypt-Holds}
use camonanowallet.App.Wallets.{
  text_discrete, has_id, is_valid_name, wallet_exists, delete_wallet, load_wallet, make_room,
  save_wallet_override,
}
use camonanowallet.App.WalletsLaws.{
  Unique, append-Unique, find-append_wallet, DeleteResult, delete_wallet-DeleteResult,
}

other_name : (name other : Text) → name ≢ other → eqb text_discrete name other ≡ false
other_name name other ne = ground arith

module _ (n : Nano) (x : Externals) (c : Cipher n x) where
  -- the key decrypts the wallet that has the name, if there is one
  abbrev pub Opens : List EncryptedWallet → Text → Bytes32 → Type 0
  Opens wallets name key =
      (old : EncryptedWallet)
      → find (has_id name) wallets ≡ some old
      → (found : WalletData n) × (decrypt n x c old key ≡ ok found)

  -- the lookups of other names
  abbrev pub SameOthers : Text → List EncryptedWallet → List EncryptedWallet → Type 0
  SameOthers name wallets wallets' =
      (other : Text) → name ≢ other → find (has_id other) wallets' ≡ find (has_id other) wallets

  -- the wallets before the new one is added
  abbrev RoomResult :
      List EncryptedWallet → Text → Bytes32 → Result (CliError n x) (List EncryptedWallet) → Type 0
  RoomResult wallets name key (ok others) =
      Unique others
      × (find (has_id name) others ≡ none)
      × SameOthers name wallets others
      × Opens wallets name key
  RoomResult wallets name key (err e) = DeleteResult n x c wallets name key (err e)
  RoomResult wallets name key panic = DeleteResult n x c wallets name key panic

  deleted-RoomResult :
      (wallets : List EncryptedWallet) (name : Text) (key : Bytes32)
      (r : Result (CliError n x) (List EncryptedWallet))
      → DeleteResult n x c wallets name key r
      → RoomResult wallets name key r
  deleted-RoomResult wallets name key (ok others) ((old, found, at, opened), u, lookups) = (
    u,
    ground (arith, lookups name, eqb_self text_discrete name),
    λ other ne. ground (arith, lookups other, other_name name other ne),
    λ old' at'.
        let same : old ≡ old' = ground arith in
        (found, ap (λ w. decrypt n x c w key) (sym same) ∙ opened),
  )
  deleted-RoomResult wallets name key (err e) h = h
  deleted-RoomResult wallets name key panic h = h

  make_room-RoomResult :
      (wallets : List EncryptedWallet) (name : Text) (key : Bytes32) (is_alphanumeric : ℕ → Bool)
      (salt nonce : c.Bytes)
      → Unique wallets
      → RoomResult wallets name key (make_room n x c is_alphanumeric salt nonce wallets name key)
  unfolding wallet_exists
  make_room-RoomResult wallets name key is_alphanumeric salt nonce u =
      elim (Option-cases (find (has_id name) wallets)) [
        | inl e ↦ rw e (u, e, λ other ne. refl, λ old at. absurd (ground arith))
        | inr (old, e) ↦ rw e (
            deleted-RoomResult wallets name key (delete_wallet n x c wallets name key)
              (delete_wallet-DeleteResult n x c wallets name key u))
      ]

  -- The wallets after a save. The name is a valid one, names are unique, other wallets are as they
  -- were, and a wallet that was replaced could be decrypted with the key. Loading the name with the
  -- key gives the client that was saved, with the configuration of the load.
  pub record Saved (is_alphanumeric : ℕ → Bool) (wallets : List EncryptedWallet) (client : Client n)
      (name : Text) (key : Bytes32) (wallets' : List EncryptedWallet) : Type 0 where
    pub valid : is_valid_name is_alphanumeric name ≡ true
    pub unique : Unique wallets'
    pub others : SameOthers name wallets wallets'
    pub replaced : Opens wallets name key
    pub loads :
        (config : CoreClientConfig n)
        → load_wallet n x c wallets' config name key
          ≡ ok (record {
            name = name;
            key = key;
            client = record client { core = record client.core { config = config } };
          })

  loads-saved :
      (wallets : List EncryptedWallet) (new : EncryptedWallet) (client : Client n) (name : Text)
      (key : Bytes32) (config : CoreClientConfig n)
      → find (has_id name) wallets ≡ none
      → Holds n x c name key (as_wallet_data n client) new
      → load_wallet n x c (wallets ++ new ∷ []) config name key
        ≡ ok (record {
          name = name;
          key = key;
          client = record client { core = record client.core { config = config } };
        })
  unfolding load_wallet wallet_exists to_client as_wallet_data
  loads-saved wallets new client name key config free (id, opened) =
      let at : find (has_id name) (wallets ++ new ∷ []) ≡ some new =
        ground (arith, find-append_wallet wallets new name, eqb_self text_discrete name) in
      rw (load_wallet, wallet_exists, at, opened) refl

  module _ (laws : CipherLaws n x c) (is_alphanumeric : ℕ → Bool) (salt nonce : c.Bytes)
      (good : c.is_nonce nonce ≡ true) where
    abbrev encrypted_of : Client n → Text → Bytes32 → Result (ClientError n x) EncryptedWallet
    encrypted_of client name key = encrypt n x c salt nonce (as_wallet_data n client) name key

    -- a save with its errors: a name that is not valid, an old wallet that the key does not decrypt,
    -- and an error of the encryption
    abbrev pub SaveResult :
        List EncryptedWallet
        → Client n
        → Text
        → Bytes32
        → Result (CliError n x) (List EncryptedWallet)
        → Type 0
    SaveResult wallets client name key (ok wallets') =
        Saved is_alphanumeric wallets client name key wallets'
    SaveResult wallets client name key (err e) =
        ((is_valid_name is_alphanumeric name ≡ false) × (e ≡ CliError.invalid_wallet_name))
        ⊎ DeleteResult n x c wallets name key (err e)
        ⊎ ((why : ClientError n x) × (encrypted_of client name key ≡ err why)
            × (e ≡ CliError.client_error why))
    SaveResult wallets client name key panic =
        DeleteResult n x c wallets name key panic ⊎ (encrypted_of client name key ≡ panic)

    added-Saved :
        (wallets others : List EncryptedWallet) (client : Client n) (name : Text) (key : Bytes32)
        (new : EncryptedWallet)
        → is_valid_name is_alphanumeric name ≡ true
        → RoomResult wallets name key (ok others)
        → Holds n x c name key (as_wallet_data n client) new
        → Saved is_alphanumeric wallets client name key (others ++ new ∷ [])
    added-Saved wallets others client name key new valid (u, free, same, opens) (id, opened) =
        record {
          valid = valid;
          unique = append-Unique others new u (rw id free);
          others = λ other ne.
              let differs = other_name name other ne in
              let free' : find (has_id new.id) others ≡ none = rw id free in
              let kept : find (has_id other) (others ++ new ∷ []) ≡ find (has_id other) others =
                ground (arith, find-append_wallet others new other free', id) in
              kept ∙ same other ne;
          replaced = opens;
          loads = λ config. loads-saved others new client name key config free (id, opened);
        }

    with_room :
        (wallets : List EncryptedWallet) (client : Client n) (name : Text) (key : Bytes32)
        (r : Result (CliError n x) (List EncryptedWallet))
        → is_valid_name is_alphanumeric name ≡ true
        → RoomResult wallets name key r
        → SaveResult wallets client name key (do
          others ← r
          encrypted ← map_err CliError.client_error (encrypted_of client name key)
          ok (others ++ encrypted ∷ []))
    with_room wallets client name key (ok others) valid room =
        go (encrypted_of client name key) refl
          (encrypt-Holds n x c laws salt nonce (as_wallet_data n client) name key good)
      where
        go :
            (r : Result (ClientError n x) EncryptedWallet)
            → encrypted_of client name key ≡ r
            → IfOk (Holds n x c name key (as_wallet_data n client)) r
            → SaveResult wallets client name key
                (do encrypted ← map_err CliError.client_error r; ok (others ++ encrypted ∷ []))
        go (ok new) e holds = added-Saved wallets others client name key new valid room holds
        go (err why) e holds = inr (inr (why, e, refl))
        go panic e holds = inr e
    with_room wallets client name key (err e) valid room = inr (inl room)
    with_room wallets client name key panic valid room = inl room

    -- With a cipher that keeps its laws and a nonce of the right length, on wallets with unique
    -- names: a save that succeeds leaves names unique and the wallets of other names as they were,
    -- and loading the name with the key gives the client that was saved, with the configuration of
    -- the load; it succeeds for a valid name only, and replaces a wallet only where the key
    -- decrypts it. An error is that of a name that is not valid, of the deletion of the old wallet,
    -- or of the encryption, and a panic is one of these two.
    pub save_wallet_override-SaveResult :
        (wallets : List EncryptedWallet) (client : Client n) (name : Text) (key : Bytes32)
        → Unique wallets
        → SaveResult wallets client name key
            (save_wallet_override n x c is_alphanumeric salt nonce wallets client name key)
    unfolding save_wallet_override
    save_wallet_override-SaveResult wallets client name key u =
        elim (Bool-cases (is_valid_name is_alphanumeric name)) [
          | inl e ↦
              rw (save_wallet_override, e)
                (with_room wallets client name key _ e
                  (make_room-RoomResult wallets name key is_alphanumeric salt nonce u))
          | inr e ↦ rw (save_wallet_override, e) (inl (e, refl))
        ]
