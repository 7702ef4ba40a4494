-- ===== src/Frontiers/Db.antt =====
-- `FrontiersDB`: the frontiers of all accounts, and the sum of their balances. A method that changes
-- the database returns it beside its result; an assertion that fails is a panic.
use camonanowallet.Base.{
  ℕ, Bool, true, false, not, ◌&&◌, Option, none, some, List, [], ◌∷◌, ◌++◌, eqb, get_elem?, set,
  erase_idx, position, ℕ_discrete, Result, ok, err, panic, ◌>>=◌, ◌>>◌, fail_if, assert, expect,
}
use camonanowallet.Base.Word.{wrapping_add, wrapping_sub, checked_add}
use camonanowallet.Nano.{Nano, Bytes32}
use camonanowallet.Error.{CoreClientError}
use camonanowallet.Frontiers.Info.{FrontierInfo, work_hash}

pub record FrontiersDb (n : Nano) : Type 0 where
  pub frontiers : List (FrontierInfo n)
  pub frontiers_balance : ℕ

abbrev pub is_none {ℓ} : {A : Type ℓ} → Option A → Bool
is_none none = true
is_none (some a) = false

module _ (n : Nano) where
  -- the three forms of the macro `search!`
  abbrev pub is_of : n.Account → FrontierInfo n → Bool
  is_of account info = eqb n.account_dec info.block.account account

  abbrev pub search_account : List (FrontierInfo n) → n.Account → Option ℕ
  search_account frontiers account = position (is_of account) frontiers

  abbrev pub search_hash : List (FrontierInfo n) → Bytes32 → Option ℕ
  search_hash frontiers hash = position (λ info. eqb ℕ_discrete (n.hash info.block) hash) frontiers

  abbrev pub search_work_hash : List (FrontierInfo n) → Bytes32 → Option ℕ
  search_work_hash frontiers hash =
      position (λ info. eqb ℕ_discrete (work_hash n info) hash) frontiers

  abbrev pub get_index : FrontiersDb n → Option ℕ → Option (FrontierInfo n)
  get_index db none = none
  get_index db (some i) = get_elem? db.frontiers i

  unfoldable pub account_frontier : FrontiersDb n → n.Account → Option (FrontierInfo n)
  unfolding position
  account_frontier db account = get_index db (search_account db.frontiers account)

  -- the balance check at the end of `_could_insert`
  abbrev pub check_total : ℕ → ℕ → Option ℕ → Result (CoreClientError n) (Option ℕ)
  check_total total balance index = elim (checked_add total balance) [
    | none ↦ err CoreClientError.frontier_balance_overflow
    | some _ ↦ ok index
  ]

  abbrev pub could_insert_at :
      FrontiersDb n → FrontierInfo n → Option ℕ → Result (CoreClientError n) (Option ℕ)
  could_insert_at db new none = check_total db.frontiers_balance new.block.balance none
  could_insert_at db new (some i) = do
    prev ← expect (get_elem? db.frontiers i)
    let total = wrapping_sub db.frontiers_balance prev.block.balance
    fail_if (n.is_epoch new.block.block_type && not (n.follows_epoch_rules new.block prev.block))
        CoreClientError.invalid_epoch_block
    check_total total new.block.balance (some i)

  -- `_could_insert`
  unfoldable pub could_insert :
      FrontiersDb n → FrontierInfo n → Result (CoreClientError n) (Option ℕ)
  unfolding position wrapping_sub checked_add
  could_insert db new = could_insert_at db new (search_account db.frontiers new.block.account)

  -- `_could_insert_many`
  unfoldable pub could_insert_many :
      FrontiersDb n → List (FrontierInfo n) → Result (CoreClientError n) (List (Option ℕ))
  unfolding could_insert
  could_insert_many db [] = ok []
  could_insert_many db (f ∷ fs) = do
    index ← could_insert db f
    rest ← could_insert_many db fs
    ok (index ∷ rest)

  -- `_add`
  unfoldable pub add : FrontiersDb n → FrontierInfo n → Result (CoreClientError n) (FrontiersDb n)
  unfolding account_frontier wrapping_add
  add db new = do
    assert (is_none (account_frontier db new.block.account))
    ok (record {
      frontiers = db.frontiers ++ new ∷ [];
      frontiers_balance = wrapping_add db.frontiers_balance new.block.balance;
    })

  -- `_update`, which also returns the entry that it replaces
  unfoldable pub update :
      FrontiersDb n
      → ℕ
      → FrontierInfo n
      → Result (CoreClientError n) (FrontiersDb n × FrontierInfo n)
  unfolding wrapping_add wrapping_sub
  update db i new = do
    old ← expect (get_elem? db.frontiers i)
    assert (is_of new.block.account old)
    ok (
      record {
        frontiers = set db.frontiers i new;
        frontiers_balance =
            wrapping_add (wrapping_sub db.frontiers_balance old.block.balance) new.block.balance;
      },
      old,
    )

  -- `_add_or_update`
  abbrev pub add_or_update :
      FrontiersDb n → Option ℕ → FrontierInfo n → Result (CoreClientError n) (FrontiersDb n)
  add_or_update db (some i) new = do (db', _) ← update db i new; ok db'
  add_or_update db none new = add db new

  -- `_remove`
  unfoldable pub remove_at :
      FrontiersDb n → ℕ → Result (CoreClientError n) (FrontiersDb n × FrontierInfo n)
  unfolding wrapping_sub
  remove_at db i = do
    old ← expect (get_elem? db.frontiers i)
    ok (
      record {
        frontiers = erase_idx db.frontiers i;
        frontiers_balance = wrapping_sub db.frontiers_balance old.block.balance;
      },
      old,
    )

  -- `_insert`, and the body of the loop of `insert`
  unfoldable pub insert_one :
      FrontiersDb n → FrontierInfo n → Result (CoreClientError n) (FrontiersDb n)
  unfolding could_insert add update
  insert_one db new = do index ← could_insert db new; add_or_update db index new

  -- `check_new`
  unfoldable pub check_new :
      FrontiersDb n → List (FrontierInfo n) → Result (CoreClientError n) (Unit {0})
  unfolding could_insert_many
  check_new db new = do _ ← could_insert_many db new; ok tt

  unfoldable pub insert_all :
      FrontiersDb n → List (FrontierInfo n) → FrontiersDb n × Result (CoreClientError n) (Unit {0})
  unfolding insert_one
  insert_all db [] = (db, ok tt)
  insert_all db (f ∷ fs) = elim (insert_one db f) [
    | ok db' ↦ insert_all db' fs
    | err e ↦ (db, err e)
    | panic ↦ (db, panic)
  ]

  -- `insert`: what the loop has stored before an error stays stored
  unfoldable pub insert :
      FrontiersDb n → List (FrontierInfo n) → FrontiersDb n × Result (CoreClientError n) (Unit {0})
  unfolding could_insert_many insert_all
  insert db new = elim (could_insert_many db new) [
    | ok _ ↦ insert_all db new
    | err e ↦ (db, err e)
    | panic ↦ (db, panic)
  ]

  -- `remove`
  unfoldable pub remove :
      FrontiersDb n → n.Account → Result (CoreClientError n) (FrontiersDb n × FrontierInfo n)
  unfolding position remove_at
  remove db account = elim (search_account db.frontiers account) [
    | none ↦ err CoreClientError.account_not_found
    | some i ↦ remove_at db i
  ]
