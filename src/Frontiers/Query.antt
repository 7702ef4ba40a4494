-- ===== src/Frontiers/Query.antt =====
-- The other methods of `FrontiersDB`: reads, and the ones that change an entry in place.
use camonanowallet.Base.{
  ℕ, Option, none, some, List, [], ◌∷◌, map, get_elem?, set, select, position, Result, ok, err,
  panic, ◌>>=◌,
}
use camonanowallet.Nano.{Nano, Bytes8, Bytes32}
use camonanowallet.Error.{CoreClientError}
use camonanowallet.Config.{CoreClientConfig}
use camonanowallet.Frontiers.Info.{FrontierInfo, work_hash, cache_work}
use camonanowallet.Frontiers.Db.{
  FrontiersDb, is_none, search_account, search_hash, search_work_hash, get_index, account_frontier,
  remove,
}

module _ (n : Nano) where
  unfoldable pub get_hash : FrontiersDb n → Bytes32 → Option (FrontierInfo n)
  unfolding position
  get_hash db hash = get_index n db (search_hash n db.frontiers hash)

  unfoldable pub accounts_frontiers :
      FrontiersDb n → List n.Account → List (Option (FrontierInfo n))
  unfolding account_frontier
  accounts_frontiers db accounts = map (account_frontier n db) accounts

  unfoldable pub all_accounts : FrontiersDb n → List n.Account
  all_accounts db = map (λ info. info.block.account) db.frontiers

  unfoldable pub account_balance : FrontiersDb n → n.Account → Option ℕ
  unfolding account_frontier
  account_balance db account = elim (account_frontier n db account) [
    | none ↦ none
    | some info ↦ some info.block.balance
  ]

  unfoldable pub accounts_balances : FrontiersDb n → List n.Account → List (Option ℕ)
  unfolding account_balance
  accounts_balances db accounts = map (account_balance db) accounts

  -- work hashes of the frontiers with no cached work
  unfoldable pub needs_work : FrontiersDb n → List Bytes32
  unfolding work_hash
  needs_work db = map (work_hash n) (select (λ info. is_none info.cached_work) db.frontiers)

  unfoldable pub filter_known_hashes : FrontiersDb n → List Bytes32 → List Bytes32
  unfolding get_hash
  filter_known_hashes db hashes = select (λ hash. is_none (get_hash db hash)) hashes

  unfoldable pub filter_known_accounts : FrontiersDb n → List n.Account → List n.Account
  unfolding account_frontier
  filter_known_accounts db accounts = select (λ a. is_none (account_frontier n db a)) accounts

  -- a write through the reference that `_get_index_mut` or `get_work_hash_mut` gives
  abbrev pub modify_index :
      FrontiersDb n
      → Option ℕ
      → (FrontierInfo n → FrontierInfo n)
      → Result (CoreClientError n) (FrontiersDb n)
  modify_index db none f = err CoreClientError.account_not_found
  modify_index db (some i) f = elim (get_elem? db.frontiers i) [
    | none ↦ err CoreClientError.account_not_found
    | some info ↦ ok (record db { frontiers = set db.frontiers i (f info) })
  ]

  unfoldable pub set_account_work :
      CoreClientConfig n
      → n.Account
      → Bytes8
      → FrontiersDb n
      → Result (CoreClientError n) (FrontiersDb n)
  unfolding position cache_work
  set_account_work config account work db =
      modify_index db (search_account n db.frontiers account) (cache_work n config work)

  unfoldable pub add_work :
      CoreClientConfig n
      → Bytes32
      → Bytes8
      → FrontiersDb n
      → Result (CoreClientError n) (FrontiersDb n)
  unfolding position cache_work
  add_work config hash work db =
      modify_index db (search_work_hash n db.frontiers hash) (cache_work n config work)

  -- `remove_many`: the accounts before the first unknown one stay removed
  unfoldable pub remove_many :
      FrontiersDb n
      → List n.Account
      → FrontiersDb n × Result (CoreClientError n) (List (FrontierInfo n))
  unfolding remove
  remove_many db [] = (db, ok [])
  remove_many db (a ∷ rest) = elim (remove n db a) [
    | ok (db', old) ↦ let (db'', r) = remove_many db' rest in (db'', do olds ← r; ok (old ∷ olds))
    | err e ↦ (db, err e)
    | panic ↦ (db, panic)
  ]
