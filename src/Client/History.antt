-- ===== src/Client/History.antt =====
-- client/core/src/client/camo.rs: the search for camo payments in blocks, receivables and account
-- histories. Also `get_accounts_receivable` of receive.rs, and the downloads of mod.rs.
use camonanowallet.Base.{
  ℕ, ◌*◌, ◌%◌, Bool, false, ◌&&◌, ◌||◌, Option, none, some, List, [], ◌∷◌, ◌++◌, map, eqb, ltb, leb,
  select, Result, ok, ◌>>=◌, if◌then◌else◌,
}
use camonanowallet.Base.Word.{u64_mod}
use camonanowallet.Nano.{Nano, Block, BlockInfo, Bytes32, Receivable}
use camonanowallet.Error.{CoreClientError}
use camonanowallet.Frontiers.Info.{FrontierInfo}
use camonanowallet.Frontiers.Query.{filter_known_accounts}
use camonanowallet.Wallet.Seed.{WalletSeed, derive_key}
use camonanowallet.Wallet.Derived.{DerivedAccountInfo}
use camonanowallet.Wallet.Keys.{
  WalletDb, all_nano_accounts, contains_notification_account, get_info_from_notification_account,
}
use camonanowallet.Rpc.World.{RpcResult}
use camonanowallet.Rpc.Reads.{Reads}
use camonanowallet.Rpc.Download.{is_empty, flatten, concat, download_frontiers}
use camonanowallet.Client.State.{CoreClient}

pub record RescanData (n : Nano) : Type 0 where
  pub receivable : List (Receivable n)
  pub new_frontiers : List (FrontierInfo n)
  pub derived_info : List (DerivedAccountInfo n)
  pub new_head : Option Bytes32

module _ (n : Nano) where
  -- `iter().any(..)`
  abbrev pub any {ℓ} : {A : Type ℓ} → (A → Bool) → List A → Bool
  any p [] = false
  any p (x ∷ xs) = p x || any p xs

  unfoldable pub account_has_value : List (Receivable n) → List (FrontierInfo n) → n.Account → Bool
  account_has_value receivable frontiers account =
      any (λ (r : Receivable n). eqb n.account_dec r.recipient account) receivable
      || any
          (λ (f : FrontierInfo n).
            eqb n.account_dec f.block.account account && ltb 0 f.block.balance)
          frontiers

  unfoldable pub filter_worthless :
      List (DerivedAccountInfo n)
      → List (FrontierInfo n)
      → List (Receivable n)
      → List (DerivedAccountInfo n)
  unfolding account_has_value
  filter_worthless infos frontiers receivable =
      select (λ info. account_has_value receivable frontiers info.account) infos

  -- one round of `get_camo_destinations_from_blocks`: a block that is no notification to an account
  -- of the wallet is skipped
  unfoldable pub get_camo_destination :
      WalletDb n → WalletSeed → Block n → Result (CoreClientError n) (Option (DerivedAccountInfo n))
  unfolding get_info_from_notification_account derive_key
  get_camo_destination db seed block = elim (n.link_as_account block) [
    | none ↦ ok none
    | some recipient ↦ elim (get_info_from_notification_account n db.camo_account_db recipient) [
      | none ↦ ok none
      | some info ↦ do (_, derived) ← derive_key n seed info (n.from_v1 block); ok (some derived)
    ]
  ]

  unfoldable pub get_camo_destinations_from_blocks :
      WalletDb n
      → WalletSeed
      → List (Block n)
      → Result (CoreClientError n) (List (DerivedAccountInfo n))
  unfolding get_camo_destination
  get_camo_destinations_from_blocks db seed [] = ok []
  get_camo_destinations_from_blocks db seed (block ∷ blocks) = do
    found ← get_camo_destination db seed block
    rest ← get_camo_destinations_from_blocks db seed blocks
    ok (flatten (found ∷ []) ++ rest)

module _ (n : Nano) (reads : Reads n) where
  unfoldable pub download_notification_blocks : List Bytes32 → RpcResult n (List (Block n))
  download_notification_blocks hashes = do
    s ← reads.blocks_info hashes
    ok (record {
      item = map (λ (info : BlockInfo n). info.block) (flatten s.item);
      failures = s.failures;
    })

  -- the receivables that may be notifications to an account of the wallet
  abbrev pub notification_receivables : CoreClient n → List (Receivable n) → List (Receivable n)
  notification_receivables client all_receivable =
      select (λ r. contains_notification_account n client.wallet_db.camo_account_db r.recipient)
        (select (λ r. leb n.camo_recipient_dust_threshold r.amount) all_receivable)

  unfoldable pub get_notification_blocks :
      CoreClient n → List (Receivable n) → RpcResult n (List (Block n))
  unfolding contains_notification_account download_notification_blocks
  get_notification_blocks client all_receivable =
      download_notification_blocks
        (map (λ (r : Receivable n). r.block_hash) (notification_receivables client all_receivable))

  unfoldable pub get_accounts_receivable :
      CoreClient n → List n.Account → RpcResult n (List (Receivable n))
  get_accounts_receivable client accounts =
      if is_empty accounts
      then ok (record { item = []; failures = [] })
      else (reads.accounts_receivable accounts client.config.rpc_accounts_receivable_batch_size
            client.config.normal_dust_threshold
          >>= λ s. ok (record { item = concat s.item; failures = s.failures }))

  abbrev pub last_previous : List (Block n) → Option Bytes32
  last_previous [] = none
  last_previous (b ∷ []) = some b.previous
  last_previous (b ∷ c ∷ bs) = last_previous (c ∷ bs)

  abbrev pub scaled_offset : ℕ → Option ℕ → Option ℕ
  scaled_offset size none = none
  scaled_offset size (some offset) = some ((offset * size) % u64_mod)

  unfoldable pub download_historical_notifications :
      CoreClient n
      → n.CamoAccount
      → Option Bytes32
      → Option ℕ
      → RpcResult n (List (DerivedAccountInfo n) × Option Bytes32)
  unfolding download_notification_blocks get_camo_destinations_from_blocks
  download_historical_notifications client account head offset = do
    history ←
        reads.account_history (n.signer_account account)
          client.config.rpc_account_history_batch_size head
          (scaled_offset client.config.rpc_account_history_batch_size offset)
    blocks ← download_notification_blocks (map (λ (b : Block n). b.link) history.item)
    infos ← get_camo_destinations_from_blocks n client.wallet_db client.seed blocks.item
    ok (record {
      item = (infos, last_previous history.item);
      failures = history.failures ++ blocks.failures;
    })

  unfoldable pub get_camo_receivable :
      CoreClient n
      → List (Receivable n)
      → RpcResult n (List (Receivable n) × List (DerivedAccountInfo n))
  unfolding get_notification_blocks get_camo_destinations_from_blocks get_accounts_receivable
  get_camo_receivable client initial =
      if is_empty initial then ok (record { item = ([], []); failures = [] }) else do
        blocks ← get_notification_blocks client initial
        infos ← get_camo_destinations_from_blocks n client.wallet_db client.seed blocks.item
        receivable ←
            get_accounts_receivable client
              (map (λ (info : DerivedAccountInfo n). info.account) infos)
        ok (record {
          item = (receivable.item, infos);
          failures = blocks.failures ++ receivable.failures;
        })

  -- the two downloads run at once; of two errors the first one stands here
  unfoldable pub rescan_notifications_partial :
      CoreClient n → n.CamoAccount → Option Bytes32 → Option ℕ → Bool → RpcResult n (RescanData n)
  unfolding download_historical_notifications download_frontiers get_accounts_receivable
      filter_worthless
  rescan_notifications_partial client account head offset filter = do
    found ← download_historical_notifications client account head offset
    let accounts = map (λ (info : DerivedAccountInfo n). info.account) found.item.0
    frontiers ← download_frontiers n reads client.frontiers_db accounts
    receivable ← get_accounts_receivable client accounts
    ok (record {
      item = record {
        receivable = receivable.item;
        new_frontiers = frontiers.item;
        derived_info =
            if filter
            then filter_worthless n found.item.0 frontiers.item receivable.item
            else found.item.0;
        new_head = found.item.1;
      };
      failures = (found.failures ++ frontiers.failures) ++ receivable.failures;
    })

  -- camo payments stand first
  unfoldable pub download_receivable :
      CoreClient n
      → List n.Account
      → RpcResult n (List (Receivable n) × List (DerivedAccountInfo n))
  unfolding get_accounts_receivable get_camo_receivable
  download_receivable client accounts = do
    receivable ← get_accounts_receivable client accounts
    camo ← get_camo_receivable client receivable.item
    ok (record {
      item = (camo.item.0 ++ receivable.item, camo.item.1);
      failures = receivable.failures ++ camo.failures;
    })

  unfoldable pub download_unknown_frontiers : CoreClient n → RpcResult n (List (FrontierInfo n))
  unfolding filter_known_accounts all_nano_accounts download_frontiers
  download_unknown_frontiers client =
      download_frontiers n reads client.frontiers_db
        (filter_known_accounts n client.frontiers_db (all_nano_accounts n client.wallet_db))
