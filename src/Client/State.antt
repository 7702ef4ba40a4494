-- ===== src/Client/State.antt =====
-- `CoreClient` of client/core/src/client/mod.rs, its reads, and the payments of send.rs.
use camonanowallet.Base.{
  ℕ, Bool, false, not, ◌||◌, Option, none, some, List, [], ◌∷◌, map, eqb, leb, select, Result, ok,
  err, panic,
}
use camonanowallet.Base.Sort.{sort_by_key}
use camonanowallet.Base.Word.{wrapping_add}
use camonanowallet.Error.{CoreClientError}
use camonanowallet.Nano.{Nano}
use camonanowallet.Config.{CoreClientConfig}
use camonanowallet.Frontiers.Info.{FrontierInfo}
use camonanowallet.Frontiers.Db.{FrontiersDb, account_frontier, insert}
use camonanowallet.Frontiers.Query.{accounts_balances}
use camonanowallet.Wallet.Seed.{WalletSeed}
use camonanowallet.Wallet.Keys.{WalletDb, all_nano_accounts}
use camonanowallet.Wallet.Derived.{get_info_from_master}

pub record CoreClient (n : Nano) : Type 0 where
  pub seed : WalletSeed
  pub config : CoreClientConfig n
  pub wallet_db : WalletDb n
  pub frontiers_db : FrontiersDb n

pub record Payment (n : Nano) : Type 0 where
  pub sender : n.Account
  pub amount : ℕ
  pub recipient : n.Account
  pub new_representative : Option n.Account

pub record CamoPayment (n : Nano) : Type 0 where
  pub sender : n.Account
  pub sender_amount : ℕ
  pub notifier : n.Account
  pub notification_amount : ℕ
  pub recipient : n.CamoAccount

-- `.map(|balance| balance.unwrap_or(0)).sum()`; the sum wraps
unfoldable pub sum_balances : List (Option ℕ) → ℕ
unfolding wrapping_add
sum_balances [] = 0
sum_balances (none ∷ rest) = sum_balances rest
sum_balances (some b ∷ rest) = wrapping_add b (sum_balances rest)

module _ (n : Nano) where
  unfoldable pub contains : List n.Account → n.Account → Bool
  contains [] a = false
  contains (x ∷ xs) a = eqb n.account_dec x a || contains xs a

  unfoldable pub filter_map_frontier : FrontiersDb n → List n.Account → List (FrontierInfo n)
  unfolding account_frontier
  filter_map_frontier db [] = []
  filter_map_frontier db (a ∷ rest) = elim (account_frontier n db a) [
    | none ↦ filter_map_frontier db rest
    | some info ↦ info ∷ filter_map_frontier db rest
  ]

  unfoldable pub accounts_with_balance : CoreClient n → ℕ → List n.Account → List (FrontierInfo n)
  unfolding contains filter_map_frontier sort_by_key all_nano_accounts
  accounts_with_balance client amount exclude =
      sort_by_key (λ info. info.block.balance)
        (select (λ info. leb amount info.block.balance)
          (filter_map_frontier client.frontiers_db
            (select (λ a. not (contains exclude a)) (all_nano_accounts n client.wallet_db))))

  unfoldable pub wallet_balance : CoreClient n → ℕ
  unfolding sum_balances accounts_balances all_nano_accounts
  wallet_balance client =
      sum_balances (accounts_balances n client.frontiers_db (all_nano_accounts n client.wallet_db))

  unfoldable pub get_derived_accounts_from_master : CoreClient n → n.CamoAccount → List n.Account
  unfolding get_info_from_master
  get_derived_accounts_from_master client master =
      map (λ info. info.account)
        (get_info_from_master n client.wallet_db.derived_account_db client.wallet_db.camo_account_db
          master)

  -- an error is only logged; a panic goes on
  abbrev pub logged : Result (CoreClientError n) (Unit {0}) → Result (CoreClientError n) (Unit {0})
  logged (ok _) = ok tt
  logged (err _) = ok tt
  logged panic = panic

  unfoldable pub set_new_frontiers :
      CoreClient n → List (FrontierInfo n) → CoreClient n × Result (CoreClientError n) (Unit {0})
  unfolding insert
  set_new_frontiers client new =
      let (frontiers_db, result) = insert n client.frontiers_db new in
      (record client { frontiers_db = frontiers_db }, logged result)
