-- ===== src/App/Commands/Accounts.antt =====
-- The commands `account`, `clear_cache`, `remove` and `camo_history` of client/src/interface.rs.
use camonanowallet.Base.{
  ℕ, Bool, true, Option, none, some, List, [], ◌∷◌, ok, err, panic, get_elem?, position, set,
  if◌then◌else◌,
}
use camonanowallet.Nano.{Nano}
use camonanowallet.Config.{CoreClientConfig}
use camonanowallet.Frontiers.Info.{FrontierInfo, clear_work}
use camonanowallet.Frontiers.Db.{is_of}
use camonanowallet.Frontiers.Query.{all_accounts}
use camonanowallet.Wallet.Db
use camonanowallet.Wallet.Seed.{get_key, get_camo_key}
use camonanowallet.Client.State.{CoreClient}
use camonanowallet.Client.History.{download_unknown_frontiers}
use camonanowallet.Rpc.Download.{is_empty}
use camonanowallet.App.Error.{Externals, ClientError}
use camonanowallet.App.State.{remove_account, remove_camo_account}
use camonanowallet.App.Session.{
  Outside, Step, ◌>>=◌, ◌>>◌, pure, fail, get_client, modify, modify_core, lift, change,
  store_frontiers,
}

pub record AccountArgs (n : Nano) : Type 0 where
  pub index : ℕ
  pub camo : Bool
  pub versions : Option (List n.CamoVersion)

pub record ClearCacheArgs (n : Nano) : Type 0 where
  pub all : Bool
  pub accounts : List n.Account

pub record CamoHistoryArgs : Type 0 where
  pub count : ℕ
  pub clear : Bool

-- an account as it is written
pub data ParsedAccount (n : Nano) : Type 0 where
  nano : n.Account → ParsedAccount n
  camo : n.CamoAccount → ParsedAccount n

module _ (n : Nano) (x : Externals) where
  abbrev pub chosen_versions : CoreClientConfig n → Option (List n.CamoVersion) → List n.CamoVersion
  chosen_versions config none = config.default_camo_versions
  chosen_versions config (some versions) = versions

  -- the insertion of a camo account of the seed
  unfoldable pub add_camo_account : ℕ → Option (List n.CamoVersion) → Step n x (Unit {0})
  unfolding get_camo_key Db.insert
  add_camo_account index versions s =
      let core = s.client.core in
      elim (get_camo_key n core.seed index
        (n.new_versions (chosen_versions core.config versions))) [
          | none ↦ fail ClientError.invalid_arguments s
          | some (_, info) ↦
              elim (Db.insert n.camo_dec n core.config core.wallet_db.camo_account_db info) [
                | ok (db, _) ↦
                    modify_core
                      (λ core. record core {
                        wallet_db = record core.wallet_db { camo_account_db = db };
                      })
                      s
                | err e ↦ lift (err e) s
                | panic ↦ lift panic s
              ]
        ]

  -- the insertion of a normal account of the seed
  unfoldable pub add_account : ℕ → Option (List n.CamoVersion) → Step n x (Unit {0})
  unfolding get_key Db.insert
  add_account index (some v) s = fail ClientError.invalid_arguments s
  add_account index none s =
      let core = s.client.core in
      elim (Db.insert n.account_dec n core.config core.wallet_db.account_db
        (get_key n core.seed index).1) [
          | ok (db, _) ↦
              modify_core
                (λ core. record core { wallet_db = record core.wallet_db { account_db = db } }) s
          | err e ↦ lift (err e) s
          | panic ↦ lift panic s
        ]

  -- an error of the download comes after the account is stored
  unfoldable pub account : Outside n → AccountArgs n → Step n x Bool
  unfolding add_camo_account add_account download_unknown_frontiers store_frontiers
  account outside args = do
    if args.camo
        then add_camo_account args.index args.versions
        else add_account args.index args.versions
    client ← get_client
    downloaded ← lift (download_unknown_frontiers n outside.reads client.core)
    store_frontiers outside.clock downloaded
    pure true

  -- the loop over the accounts; an account without a frontier is skipped
  unfoldable pub clear_each : List n.Account → List (FrontierInfo n) → List (FrontierInfo n)
  unfolding position clear_work
  clear_each [] frontiers = frontiers
  clear_each (a ∷ rest) frontiers = elim (position (is_of n a) frontiers) [
    | none ↦ clear_each rest frontiers
    | some i ↦ elim (get_elem? frontiers i) [
      | none ↦ clear_each rest frontiers
      | some info ↦ clear_each rest (set frontiers i (clear_work n info))
    ]
  ]

  abbrev pub with_cleared : CoreClient n → List n.Account → CoreClient n
  with_cleared core accounts = record core {
    frontiers_db = record core.frontiers_db {
      frontiers = clear_each accounts core.frontiers_db.frontiers;
    };
  }

  unfoldable pub clear_cache : ClearCacheArgs n → Step n x Bool
  unfolding clear_each all_accounts
  clear_cache args =
      if is_empty args.accounts
      then (if args.all
          then modify_core (λ core. with_cleared core (all_accounts n core.frontiers_db))
            >> pure true
          else fail ClientError.invalid_arguments)
      else modify_core (λ core. with_cleared core args.accounts) >> pure true

  unfoldable pub remove : ParsedAccount n → Step n x Bool
  unfolding remove_account remove_camo_account
  remove (nano a) = change (λ client. remove_account n client a) >> pure true
  remove (camo a) = change (λ client. remove_camo_account n client a) >> pure true

  unfoldable pub camo_history : CamoHistoryArgs → Step n x Bool
  camo_history args =
      if args.clear
      then modify (λ client. record client { camo_history = [] }) >> pure true
      else pure true
