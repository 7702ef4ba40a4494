-- ===== src/Frontiers/Invariant.antt =====
-- The frontier database stays well formed: one entry for an account, and a stored balance that is
-- the sum of the entries' balances and fits a `u128`.
use camonanowallet.Base.{
  ℕ, ◌+◌, ◌-◌, ◌≤◌, ◌<◌, ◌≡◌, ◌⊎◌, refl, inl, inr, Bool, true, not, ◌&&◌, Option, none, some, List,
  [], ◌∷◌, ◌++◌, arith, eqb→eq, Bool-cases, Option-cases, get_elem?, set, find, position,
  position-some, position-none, Result, ok, err, panic, ltb, ltb→lt, ◌∙◌, if◌then◌else◌,
}
use camonanowallet.Base.Word.{
  u128_mod, wrapping_add, wrapping_sub, wrapping_add_exact, wrapping_sub_exact,
}
use camonanowallet.Nano.{Nano}
use camonanowallet.Error.{CoreClientError}
use camonanowallet.Frontiers.Info.{FrontierInfo}
use camonanowallet.Frontiers.Db.{FrontiersDb, is_of, account_frontier, insert_one}
use camonanowallet.Frontiers.Search.{
  total, Distinct, account_frontier-find, total-append, total-set, total-erase_idx, find-set,
  set-Distinct, append-Distinct, find-append_new,
}

pub record IsValid (n : Nano) (db : FrontiersDb n) : Type 0 where
  pub distinct : Distinct n db.frontiers
  pub balanced : db.frontiers_balance ≡ total n db.frontiers
  pub bounded : db.frontiers_balance < u128_mod

module _ (n : Nano) where
  -- the map that a database is, after `new` is stored
  abbrev pub stored : FrontiersDb n → FrontierInfo n → n.Account → Option (FrontierInfo n)
  stored db new a = if is_of n a new then some new else account_frontier n db a

  abbrev pub Stores : FrontiersDb n → FrontierInfo n → FrontiersDb n → Type 0
  Stores db new db' = IsValid n db' × ((a : n.Account) → account_frontier n db' a ≡ stored db new a)

  pub balance-le-total :
      (fs : List (FrontierInfo n)) (i : ℕ) (old : FrontierInfo n)
      → get_elem? fs i ≡ some old
      → old.block.balance ≤ total n fs
  balance-le-total fs i old h = omega (arith, total-erase_idx n fs i old h)

  -- an epoch block that breaks the epoch rules against the block that it replaces
  abbrev pub breaks_epoch : FrontierInfo n → FrontierInfo n → Bool
  breaks_epoch new old =
      n.is_epoch new.block.block_type && not (n.follows_epoch_rules new.block old.block)

  abbrev pub balance_or_zero : Option (FrontierInfo n) → ℕ
  balance_or_zero none = 0
  balance_or_zero (some old) = old.block.balance

  -- why a database refuses a frontier: an epoch block that breaks the rules against the frontier
  -- that the account has, or a sum of all balances that does not fit a `u128`
  abbrev pub Refuses : FrontiersDb n → FrontierInfo n → CoreClientError n → Type 0
  Refuses db new e =
      ((old : FrontierInfo n) × (account_frontier n db new.block.account ≡ some old)
        × (breaks_epoch new old ≡ true)
        × (e ≡ CoreClientError.invalid_epoch_block))
      ⊎ ((u128_mod
            ≤ db.frontiers_balance
              - balance_or_zero (account_frontier n db new.block.account)
              + new.block.balance)
          × (e ≡ CoreClientError.frontier_balance_overflow))

  -- a result of `insert_one` that is as promised: the frontier is stored, or there is a reason
  abbrev pub Returns :
      FrontiersDb n → FrontierInfo n → Result (CoreClientError n) (FrontiersDb n) → Type 0
  Returns db new (ok db') = Stores db new db'
  Returns db new (err e) = Refuses db new e
  Returns db new panic = ⊥

  abbrev pub added : FrontiersDb n → FrontierInfo n → FrontiersDb n
  added db new = record {
    frontiers = db.frontiers ++ new ∷ [];
    frontiers_balance = wrapping_add db.frontiers_balance new.block.balance;
  }

  abbrev updated : FrontiersDb n → ℕ → FrontierInfo n → FrontierInfo n → FrontiersDb n
  updated db i old new = record {
    frontiers = set db.frontiers i new;
    frontiers_balance =
        wrapping_add (wrapping_sub db.frontiers_balance old.block.balance) new.block.balance;
  }

  pub added-Stores :
      (db : FrontiersDb n) (new : FrontierInfo n)
      → IsValid n db
      → find (is_of n new.block.account) db.frontiers ≡ none
      → db.frontiers_balance + new.block.balance < u128_mod
      → Stores db new (added db new)
  added-Stores db new v e fits =
      let w = wrapping_add_exact db.frontiers_balance new.block.balance fits in
      (
        record {
          distinct = append-Distinct n db.frontiers new v.distinct e;
          balanced = omega (arith, total-append n db.frontiers (new ∷ []), w);
          bounded = omega (arith, w);
        },
        λ a.
            rw (account_frontier-find n (added db new) a, account_frontier-find n db a)
              (find-append_new n db.frontiers new a e),
      )

  pub insert_one-new :
      (db : FrontiersDb n) (new : FrontierInfo n)
      → position (is_of n new.block.account) db.frontiers ≡ none
      → insert_one n db new ≡ (
          if ltb (db.frontiers_balance + new.block.balance) u128_mod
          then ok (added db new)
          else err CoreClientError.frontier_balance_overflow)
  unfolding insert_one
  insert_one-new db new e = ground arith

  insert_one-old :
      (db : FrontiersDb n) (new old : FrontierInfo n) (i : ℕ)
      → position (is_of n new.block.account) db.frontiers ≡ some i
      → get_elem? db.frontiers i ≡ some old
      → is_of n new.block.account old ≡ true
      → insert_one n db new ≡ (
          if breaks_epoch new old
          then err CoreClientError.invalid_epoch_block
          else if ltb
              (wrapping_sub db.frontiers_balance old.block.balance + new.block.balance)
              u128_mod
          then ok (updated db i old new)
          else err CoreClientError.frontier_balance_overflow)
  unfolding insert_one
  insert_one-old db new old i e g h = ground arith

  updated-Stores :
      (db : FrontiersDb n) (new old : FrontierInfo n) (i : ℕ)
      → IsValid n db
      → get_elem? db.frontiers i ≡ some old
      → old.block.account ≡ new.block.account
      → wrapping_sub db.frontiers_balance old.block.balance + new.block.balance < u128_mod
      → Stores db new (updated db i old new)
  updated-Stores db new old i v g same fits =
      let le = balance-le-total db.frontiers i old g in
      let rest = wrapping_sub db.frontiers_balance old.block.balance in
      let less =
        wrapping_sub_exact db.frontiers_balance old.block.balance (omega arith) v.bounded in
      let more = wrapping_add_exact rest new.block.balance fits in
      (
        record {
          distinct = set-Distinct n db.frontiers i old new v.distinct g same;
          balanced = omega (arith, total-set n db.frontiers i old new g, less, more);
          bounded = omega (arith, more);
        },
        λ a.
            rw (account_frontier-find n (updated db i old new) a, account_frontier-find n db a)
              (find-set n db.frontiers i old new a v.distinct g same),
      )

  Refuses-new :
      (db : FrontiersDb n) (new : FrontierInfo n)
      → find (is_of n new.block.account) db.frontiers ≡ none
      → u128_mod ≤ db.frontiers_balance + new.block.balance
      → Refuses db new CoreClientError.frontier_balance_overflow
  Refuses-new db new e over =
      inr (rw (account_frontier-find n db new.block.account, e) (omega arith), refl)

  Refuses-old :
      (db : FrontiersDb n) (new old : FrontierInfo n) (i : ℕ)
      → IsValid n db
      → get_elem? db.frontiers i ≡ some old
      → find (is_of n new.block.account) db.frontiers ≡ some old
      → u128_mod ≤ wrapping_sub db.frontiers_balance old.block.balance + new.block.balance
      → Refuses db new CoreClientError.frontier_balance_overflow
  Refuses-old db new old i v g found over =
      let le = balance-le-total db.frontiers i old g in
      let less =
        wrapping_sub_exact db.frontiers_balance old.block.balance (rw v.balanced le) v.bounded in
      inr (rw (account_frontier-find n db new.block.account, found) (rw less at over), refl)

  Refuses-epoch :
      (db : FrontiersDb n) (new old : FrontierInfo n)
      → find (is_of n new.block.account) db.frontiers ≡ some old
      → breaks_epoch new old ≡ true
      → Refuses db new CoreClientError.invalid_epoch_block
  Refuses-epoch db new old found breaks =
      inl (old, account_frontier-find n db new.block.account ∙ found, breaks, refl)

  -- Storing a frontier in a valid database never panics. On success the database stays valid, holds
  -- the frontier under its account, and every other account as before. An error is that of an epoch
  -- block that breaks the rules against the frontier that the account has, or that of a sum of
  -- balances over the largest `u128`, and it comes only where that is the case.
  pub insert_one-Returns :
      (db : FrontiersDb n) (new : FrontierInfo n)
      → IsValid n db
      → Returns db new (insert_one n db new)
  insert_one-Returns db new v =
      elim (Option-cases (position (is_of n new.block.account) db.frontiers)) [
        | inl e ↦
            let absent = position-none (is_of n new.block.account) db.frontiers e in
            elim (Bool-cases (ltb (db.frontiers_balance + new.block.balance) u128_mod)) [
              | inl fits ↦
                  rw (insert_one-new db new e, fits)
                    (added-Stores db new v absent (ltb→lt _ _ fits))
              | inr over ↦
                  rw (insert_one-new db new e, over) (Refuses-new db new absent (ground arith))
            ]
        | inr (i, e) ↦
            let (old, g, h, found) = position-some (is_of n new.block.account) db.frontiers i e in
            let rest = wrapping_sub db.frontiers_balance old.block.balance in
            rw (insert_one-old db new old i e g h) (elim (Bool-cases (breaks_epoch new old)) [
              | inl breaks ↦ rw breaks (Refuses-epoch db new old found breaks)
              | inr follows ↦ elim (Bool-cases (ltb (rest + new.block.balance) u128_mod)) [
                | inl fits ↦
                    rw (follows, fits)
                      (updated-Stores db new old i v g (eqb→eq n.account_dec _ _ h)
                        (ltb→lt _ _ fits))
                | inr over ↦ rw (follows, over) (Refuses-old db new old i v g found (ground arith))
              ]
            ])
      ]
