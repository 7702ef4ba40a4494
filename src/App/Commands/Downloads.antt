-- ===== src/App/Commands/Downloads.antt =====
-- The commands `refresh` and `rescan` of client/src/interface.rs.
use camonanowallet.Base.{Bool, true, not, Option, none, some, List}
use camonanowallet.Nano.{Nano, Bytes32, Receivable}
use camonanowallet.Frontiers.Info.{FrontierInfo}
use camonanowallet.Frontiers.Db.{account_frontier}
use camonanowallet.Wallet.Keys.{all_nano_accounts}
use camonanowallet.Wallet.Derived.{DerivedAccountInfo, insert_many}
use camonanowallet.Client.State.{CoreClient}
use camonanowallet.Client.History.{download_receivable, rescan_notifications_partial}
use camonanowallet.Rpc.Download.{download_frontiers}
use camonanowallet.App.Error.{Externals}
use camonanowallet.App.State.{remove_receivables, insert_receivable, with_derived, handle_rescan}
use camonanowallet.App.Session.{
  Outside, Step, ◌>>=◌, ◌>>◌, pure, get_client, modify, change, modify_core, lift,
  handle_rpc_success, store_frontiers,
}

pub record RescanArgs (n : Nano) : Type 0 where
  pub account : n.CamoAccount
  pub head : Option Bytes32
  pub no_filter : Bool

module _ (n : Nano) (x : Externals) (outside : Outside n) where
  -- the frontiers of the accounts are brought up to date
  unfoldable pub refresh_frontiers : List n.Account → Step n x Bool
  unfolding download_frontiers store_frontiers
  refresh_frontiers accounts = do
    client ← get_client
    frontiers ← lift (download_frontiers n outside.reads client.core.frontiers_db accounts)
    store_frontiers outside.clock frontiers
    pure true

  -- what was downloaded replaces the receivables of the accounts
  unfoldable pub store_receivable :
      List n.Account → List (Receivable n) × List (DerivedAccountInfo n) → Step n x Bool
  unfolding insert_many remove_receivables insert_receivable refresh_frontiers
  store_receivable accounts (receivables, infos) = do
    modify_core (λ core. with_derived n core infos)
    modify (λ client. insert_receivable n (remove_receivables n client accounts) receivables)
    refresh_frontiers accounts

  -- the accounts are those before the download
  unfoldable pub refresh_accounts : CoreClient n → List n.Account → Step n x Bool
  unfolding download_receivable handle_rpc_success store_receivable
  refresh_accounts core accounts = do
    downloaded ← lift (download_receivable n outside.reads core accounts)
    found ← handle_rpc_success outside.clock downloaded
    store_receivable accounts found

  unfoldable pub refresh : Step n x Bool
  unfolding all_nano_accounts refresh_accounts
  refresh = do
    client ← get_client
    refresh_accounts client.core (all_nano_accounts n client.core.wallet_db)

  -- `head.or(db_head)`
  abbrev pub head_or : Option Bytes32 → Option (FrontierInfo n) → Option Bytes32
  head_or (some head) frontier = some head
  head_or none none = none
  head_or none (some info) = some (n.hash info.block)

  -- the height of the head is asked for what is printed; the failures of the nodes are collected and
  -- dropped
  unfoldable pub rescan_from : RescanArgs n → CoreClient n → Bytes32 → Step n x Bool
  unfolding rescan_notifications_partial handle_rescan
  rescan_from args core head = do
    _ ← lift (outside.reads.block_info head)
    scanned ← lift (
        rescan_notifications_partial n outside.reads core args.account (some head) none
          (not args.no_filter))
    change (λ client. handle_rescan n client scanned.item)
    pure true

  abbrev pub rescan_head : RescanArgs n → CoreClient n → Option Bytes32 → Step n x Bool
  rescan_head args core none = pure true
  rescan_head args core (some head) = rescan_from args core head

  unfoldable pub rescan : RescanArgs n → Step n x Bool
  unfolding account_frontier rescan_from
  rescan args = do
    client ← get_client
    rescan_head args client.core (
        head_or args.head
          (account_frontier n client.core.frontiers_db (n.signer_account args.account)))
