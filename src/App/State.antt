-- ===== src/App/State.antt =====
-- `Client` of client/src/lib.rs: the core client with the receivables that are waiting and the history
-- of camo payments. A `HashMap` from hashes is a list of its entries, in the order of their insertion.
-- The work jobs are in the `World` of an action.
use camonanowallet.Base.{
  ℕ, Bool, Option, none, some, List, [], ◌∷◌, eqb, ◌==◌, not, select, Result, if◌then◌else◌, ok,
  err, panic,
}
use camonanowallet.Nano.{Nano, Bytes32, Receivable}
use camonanowallet.Config.{CoreClientConfig}
use camonanowallet.Error.{CoreClientError}
use camonanowallet.Wallet.Seed.{WalletSeed}
use camonanowallet.Wallet.Derived.{DerivedAccountInfo, insert_many}
use camonanowallet.Client.State.{CoreClient, get_derived_accounts_from_master, set_new_frontiers}
use camonanowallet.Client.History.{RescanData}
use camonanowallet.Client.Removal
use camonanowallet.Client.Removal.{forget}

pub record CamoTxSummary (n : Nano) : Type 0 where
  pub recipient : n.CamoAccount
  pub camo_amount : ℕ
  pub total_amount : ℕ
  pub notification : Bytes32

pub record Client (n : Nano) : Type 0 where
  pub core : CoreClient n
  pub receivable : List (Bytes32 × Receivable n)
  pub camo_history : List (CamoTxSummary n)

module _ {A : Type 0} where
  -- `HashMap::insert`
  unfoldable pub put : List (Bytes32 × A) → Bytes32 → A → List (Bytes32 × A)
  put [] hash a = (hash, a) ∷ []
  put ((h, b) ∷ rest) hash a =
      let later = put rest hash a in if h == hash then (h, a) ∷ rest else (h, b) ∷ later

  -- `HashMap::get`
  unfoldable pub lookup : List (Bytes32 × A) → Bytes32 → Option A
  lookup [] hash = none
  lookup ((h, b) ∷ rest) hash = let later = lookup rest hash in if h == hash then some b else later

  -- the map after `HashMap::remove`, whose result `lookup` gives
  unfoldable pub delete : List (Bytes32 × A) → Bytes32 → List (Bytes32 × A)
  delete entries hash = select (λ entry. not (entry.0 == hash)) entries

module _ (n : Nano) where
  -- `CoreClient::new`, with the databases' defaults
  abbrev pub new_core : WalletSeed → CoreClientConfig n → CoreClient n
  new_core seed config = record {
    seed = seed;
    config = config;
    wallet_db = record {
      account_db = record { info = [] };
      camo_account_db = record { info = [] };
      derived_account_db = record { info = [] };
    };
    frontiers_db = record { frontiers = []; frontiers_balance = 0 };
  }

  -- `Client::new`
  abbrev pub new : WalletSeed → CoreClientConfig n → Client n
  new seed config = record { core = new_core seed config; receivable = []; camo_history = [] }

  -- the entries whose recipient is another account
  abbrev pub not_to : n.Account → Bytes32 × Receivable n → Bool
  not_to account (hash, r) = not (eqb n.account_dec r.recipient account)

  unfoldable pub remove_receivable : Client n → n.Account → Client n
  remove_receivable client account = record client {
    receivable = select (not_to account) client.receivable;
  }

  unfoldable pub insert_each :
      List (Bytes32 × Receivable n) → List (Receivable n) → List (Bytes32 × Receivable n)
  unfolding put
  insert_each entries [] = entries
  insert_each entries (r ∷ rs) = insert_each (put entries r.block_hash r) rs

  unfoldable pub insert_receivable : Client n → List (Receivable n) → Client n
  unfolding insert_each
  insert_receivable client receivables = record client {
    receivable = insert_each client.receivable receivables;
  }

  -- what is removed before an error stays removed
  unfoldable pub remove_account :
      Client n → n.Account → Client n × Result (CoreClientError n) (Unit {0})
  unfolding remove_receivable Removal.remove_account
  remove_account client account =
      let client' = remove_receivable client account in
      let (core, result) = Removal.remove_account n client'.core account in
      (record client' { core = core }, forget result)

  -- the loop of `remove_camo_account` over the derived accounts
  unfoldable pub remove_receivables : Client n → List n.Account → Client n
  unfolding remove_receivable
  remove_receivables client [] = client
  remove_receivables client (a ∷ rest) = remove_receivables (remove_receivable client a) rest

  unfoldable pub remove_camo_account :
      Client n → n.CamoAccount → Client n × Result (CoreClientError n) (Unit {0})
  unfolding remove_receivables remove_receivable get_derived_accounts_from_master
      Removal.remove_camo_account
  remove_camo_account client account =
      let derived = get_derived_accounts_from_master n client.core account in
      let client' =
        remove_receivable (remove_receivables client derived) (n.signer_account account) in
      let (core, result) = Removal.remove_camo_account n client'.core account in
      (record client' { core = core }, forget result)

  -- `wallet_db.derived_account_db.insert_many(infos)`
  abbrev pub with_derived : CoreClient n → List (DerivedAccountInfo n) → CoreClient n
  with_derived core infos = record core {
    wallet_db = record core.wallet_db {
      derived_account_db = insert_many n core.wallet_db.derived_account_db infos;
    };
  }

  -- after `set_new_frontiers`, which may have panicked
  abbrev pub store_rescan :
      Client n
      → RescanData n
      → Result (CoreClientError n) (Unit {0})
      → Client n × Result (CoreClientError n) (Unit {0})
  store_rescan client rescan (ok _) = (
    insert_receivable (record client { core = with_derived client.core rescan.derived_info })
        rescan.receivable,
    ok tt,
  )
  store_rescan client rescan (err e) = (client, err e)
  store_rescan client rescan panic = (client, panic)

  unfoldable pub handle_rescan :
      Client n → RescanData n → Client n × Result (CoreClientError n) (Unit {0})
  unfolding set_new_frontiers insert_many insert_receivable
  handle_rescan client rescan =
      let (core, result) = set_new_frontiers n client.core rescan.new_frontiers in
      store_rescan (record client { core = core }) rescan result
