-- ===== src/Client/PaymentLaws.antt =====
-- A camo payment from the sender to the recipient's wallet: the block that notifies the recipient is
-- enough for the recipient to find the account that was paid, and its key.
use camonanowallet.Base.{
  ◌≡◌, ◌∙◌, refl, ap, sym, Bool, true, false, Option, none, some, List, ◌∷◌, ◌++◌, arith, Result,
  ok, err, panic, ◌>>=◌, ok_or,
}
use camonanowallet.Nano.{Nano, Block, Bytes8, Bytes32}
use camonanowallet.Error.{CoreClientError}
use camonanowallet.Frontiers.Info.{FrontierInfo}
use camonanowallet.Wallet.Db.{GenericInfo}
use camonanowallet.Wallet.Derived
use camonanowallet.Wallet.Derived.{DerivedAccountInfo, DerivedAccountDb}
use camonanowallet.Wallet.DerivedLaws.{insert_many-contains}
use camonanowallet.Wallet.Seed.{WalletSeed, derive_key, derive_key_from_secret, get_camo_key}
use camonanowallet.Wallet.Keys.{
  WalletDb, contains_account, find_key, get_info_from_notification_account,
}
use camonanowallet.Wallet.Validity.{KeyLaws, IsValid, FindResult, find_key-FindResult}
use camonanowallet.Wallet.Grow.{insert_many-IsValid}
use camonanowallet.Rpc.World.{Env}
use camonanowallet.Client.State.{CoreClient, CamoPayment}
use camonanowallet.Client.Blocks.{create_send_block}
use camonanowallet.Client.BlockLaws.{create_send_block-SendBlockResult}
use camonanowallet.Client.Camo.{camo_transaction_memo, sender_ecdh, known_frontier, notify_payment}
use camonanowallet.Client.History.{get_camo_destination, get_camo_destinations_from_blocks}
use camonanowallet.Client.DestinationLaws.{
  found-IsOwnCamo, Finds, DestinationsResult, get_camo_destinations-Finds,
  get_camo_destinations-DestinationsResult,
}

-- What a camo payment relies on in nanopyrs.
pub record PaymentLaws (n : Nano) : Type 0 where
  -- the sender and the recipient derive the same account from one secret
  pub derive :
      (k : n.CamoKeys) (secret : Bytes32)
      → n.to_account (n.derive_key k secret) ≡ n.derive_account (n.to_camo_account k) secret
  -- the recipient computes the sender's secret from the notification
  pub ecdh :
      (k : n.CamoKeys) (key : n.Key) (frontier : Bytes32)
      → n.receiver_ecdh k (n.sender_ecdh (n.to_camo_account k) key frontier).1
        ≡ (n.sender_ecdh (n.to_camo_account k) key frontier).0
  -- a notification goes to the notification account, and is made of its two fields
  pub recipient :
      (camo : n.CamoAccount) (key : n.Key) (frontier : Bytes32)
      → n.recipient (n.sender_ecdh camo key frontier).1 ≡ n.signer_account camo
  pub fields :
      (note : n.NotificationV1)
      → n.notification_v1 (n.recipient note) (n.representative_payload note) ≡ note
  -- a block whose link is an account is a notification to it
  pub link :
      (block : Block n) (a : n.Account)
      → block.link ≡ n.to_bytes a
      → (n.link_as_account block ≡ some a)
        × (n.from_v1 block ≡ n.notification_v1 a block.representative)

bool_clash : (b : Bool) → b ≡ true → b ≡ false → ⊥
bool_clash b h k = ground arith

ok-injective : {E A : Type 0} (a b : A) → ◌≡◌ {A = Result E A} (ok a) (ok b) → a ≡ b
ok-injective a b h = cc

module _ (n : Nano) where
  -- what the memo of a payment is made of
  abbrev MadeFrom : CamoPayment n → n.Account × n.NotificationV1 → Type 0
  MadeFrom payment (derived, note) =
      (key : n.Key) × (hash : Bytes32) × (derived
        ≡ n.derive_account payment.recipient (n.sender_ecdh payment.recipient key hash).0)
      × (note ≡ (n.sender_ecdh payment.recipient key hash).1)

  memo-with_frontier :
      (payment : CamoPayment n) (key : n.Key) (r : Result (CoreClientError n) (FrontierInfo n))
      (out : n.Account × n.NotificationV1)
      → (do
        (secret, note) ← (do
          frontier ← r
          ok (n.sender_ecdh payment.recipient key (n.hash frontier.block)))
        ok (n.derive_account payment.recipient secret, note))
        ≡ ok out
      → MadeFrom payment out
  memo-with_frontier payment key (ok frontier) out h =
      rw (← ok-injective _ _ h) (key, n.hash frontier.block, refl, refl)
  memo-with_frontier payment key (err e) out h = cc
  memo-with_frontier payment key panic out h = cc

  memo-with_key :
      (client : CoreClient n) (payment : CamoPayment n)
      (r : Result (CoreClientError n) (Option n.Key)) (out : n.Account × n.NotificationV1)
      → (do
        found ← r
        key ← ok_or found CoreClientError.account_not_found
        (secret, note) ← sender_ecdh n client payment.recipient key
        ok (n.derive_account payment.recipient secret, note))
        ≡ ok out
      → MadeFrom payment out
  unfolding sender_ecdh
  memo-with_key client payment (ok (some key)) out h =
      memo-with_frontier payment key (known_frontier n client (n.to_account key)) out h
  memo-with_key client payment (ok none) out h = cc
  memo-with_key client payment (err e) out h = cc
  memo-with_key client payment panic out h = cc

  memo-MadeFrom :
      (client : CoreClient n) (payment : CamoPayment n) (out : n.Account × n.NotificationV1)
      → camo_transaction_memo n client payment ≡ ok out
      → MadeFrom payment out
  unfolding camo_transaction_memo
  memo-MadeFrom client payment out h =
      memo-with_key client payment (find_key n client.wallet_db client.seed payment.sender) out h

  -- the search in a block that carries the notification of a payment
  module _ (laws : KeyLaws n) (pay : PaymentLaws n) (seed : WalletSeed) (db : WalletDb n)
      (v : IsValid n seed db) (payment : CamoPayment n) (master : GenericInfo n.CamoAccount)
      (known : get_info_from_notification_account n db.camo_account_db
          (n.signer_account payment.recipient)
        ≡ some master)
      (own : master.account ≡ payment.recipient) where
    derive_key-paid :
        (key : n.Key) (hash : Bytes32)
        → (info : DerivedAccountInfo n) × (k : n.Key) × (derive_key n seed master
              (n.sender_ecdh payment.recipient key hash).1
            ≡ ok (k, info))
          × (info.account
              ≡ n.derive_account payment.recipient (n.sender_ecdh payment.recipient key hash).0)
    unfolding derive_key derive_key_from_secret get_camo_key
    derive_key-paid key hash =
        let (keys, made, camo) =
          found-IsOwnCamo n seed db laws v (n.signer_account payment.recipient) master known in
        let same : n.to_camo_account keys ≡ payment.recipient = camo ∙ own in
        let secret = (n.sender_ecdh payment.recipient key hash).0 in
        let agreed : n.receiver_ecdh keys (n.sender_ecdh payment.recipient key hash).1 ≡ secret =
          rw same at (pay.ecdh keys key hash) in
        let account : n.to_account (n.derive_key keys secret)
            ≡ n.derive_account payment.recipient secret =
          rw same at (pay.derive keys secret) in
        let info : DerivedAccountInfo n = record {
          versions = n.keys_versions keys;
          secret = secret;
          master_index = master.index;
          index = 0;
          account = n.to_account (n.derive_key keys secret);
        } in
        (
          info,
          n.derive_key keys secret,
          rw (derive_key, derive_key_from_secret, get_camo_key, made, agreed) refl,
          account,
        )

    destination-paid :
        (block : Block n) (derived : n.Account) (note : n.NotificationV1)
        → MadeFrom payment (derived, note)
        → block.link ≡ n.to_bytes (n.recipient note)
        → block.representative ≡ n.representative_payload note
        → (info : DerivedAccountInfo n) × (get_camo_destination n db seed block ≡ ok (some info))
          × (info.account ≡ derived)
    unfolding get_camo_destination
    destination-paid block derived note (key, hash, is_derived, is_note) link payload =
        let (info, k, found, account) = derive_key-paid key hash in
        let (linked, from) = pay.link block (n.recipient note) link in
        let note_of : n.from_v1 block ≡ note =
          from ∙ ap (n.notification_v1 (n.recipient note)) payload ∙ pay.fields note in
        let to_signer : n.recipient note ≡ n.signer_account payment.recipient =
          ap n.recipient is_note ∙ pay.recipient payment.recipient key hash in
        let master_of =
          ap (get_info_from_notification_account n db.camo_account_db) to_signer ∙ known in
        (
          info,
          rw (get_camo_destination, linked, master_of, note_of, is_note, found) refl,
          account ∙ sym is_derived,
        )

    -- the recipient's wallet with the accounts that it found
    abbrev pub with_derived : List (DerivedAccountInfo n) → WalletDb n
    with_derived infos = record db {
      derived_account_db = Derived.insert_many n db.derived_account_db infos;
    }

    -- The search succeeds, and with what it finds the wallet is valid and has the key of `derived`.
    abbrev pub Arrives :
        n.Account → Result (CoreClientError n) (List (DerivedAccountInfo n)) → Type 0
    Arrives derived (ok infos) =
        IsValid n seed (with_derived infos)
        × ((k : n.Key) × (find_key n (with_derived infos) seed derived ≡ ok (some k))
            × (n.to_account k ≡ derived))
    Arrives derived (err e) = ⊥
    Arrives derived panic = ⊥

    has_key :
        (w : WalletDb n) (a : n.Account)
        → IsValid n seed w
        → Derived.contains n w.derived_account_db a ≡ true
        → (k : n.Key) × (find_key n w seed a ≡ ok (some k)) × (n.to_account k ≡ a)
    unfolding contains_account Derived.contains
    has_key w a valid h = go (find_key n w seed a) (find_key-FindResult n seed w a laws valid) refl
      where
        in_wallet : contains_account n w a ≡ true
        in_wallet = ground arith

        go :
            (r : Result (CoreClientError n) (Option n.Key))
            → FindResult n seed a (contains_account n w a) r
            → find_key n w seed a ≡ r
            → (k : n.Key) × (find_key n w seed a ≡ ok (some k)) × (n.to_account k ≡ a)
        go (ok none) f e = absurd (bool_clash _ in_wallet f)
        go (ok (some k)) f e = (k, e, f.1)
        go (err e') f e = absurd f
        go panic f e = absurd f

    Arrives-Found :
        (derived : n.Account) (r : Result (CoreClientError n) (List (DerivedAccountInfo n)))
        → DestinationsResult n seed r
        → Finds n seed derived r
        → Arrives derived r
    Arrives-Found derived (ok infos) owns (before, info, after, split, is) =
        let valid = insert_many-IsValid n seed db infos v owns in
        let in_list : infos ≡ before ++ info ∷ after = ok-injective _ _ split in
        let contained : Derived.contains n (Derived.insert_many n db.derived_account_db infos)
              derived
            ≡ true =
          rw (in_list, ← is) (insert_many-contains n db.derived_account_db before after info) in
        (valid, has_key (with_derived infos) derived valid contained)
    Arrives-Found derived (err e) owns found = owns
    Arrives-Found derived panic owns found = owns

    -- A camo payment arrives. For valid wallets of two seeds, and a key derivation and a crate
    -- nanopyrs that keep their laws: if the sender's client makes the memo of a payment and the
    -- notification block of it, whose recipient is the camo account that the recipient's wallet has
    -- for the notification account, then the recipient's search in blocks among which this block
    -- stands, with any work, neither fails nor panics, and the recipient's wallet with the accounts
    -- that the search found is valid and has the key of the account that the memo names.
    pub camo_payment-Arrives :
        (env : Env n) (client : CoreClient n) (frontier : FrontierInfo n) (derived : n.Account)
        (note : n.NotificationV1) (block : Block n) (work : Bytes8) (before after : List (Block n))
        → IsValid n client.seed client.wallet_db
        → camo_transaction_memo n client payment ≡ ok (derived, note)
        → create_send_block n env client (notify_payment n payment note) frontier ≡ ok block
        → Arrives derived (
            get_camo_destinations_from_blocks n db seed
              (before ++ record block { work = work } ∷ after))
    camo_payment-Arrives env client frontier derived note block work before after valid memo made =
        let (sends, _, payload) = rw made at (
          create_send_block-SendBlockResult n env client (notify_payment n payment note) frontier
            laws valid) in
        let (info, found, is) =
          destination-paid (record block { work = work }) derived note
            (memo-MadeFrom client payment (derived, note) memo) sends.link payload in
        Arrives-Found derived _
          (get_camo_destinations-DestinationsResult n seed db
            (before ++ record block { work = work } ∷ after) laws v)
          (rw is at (
            get_camo_destinations-Finds n seed db before (record block { work = work }) after info
              laws v found))
