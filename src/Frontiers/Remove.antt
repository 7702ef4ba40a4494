-- ===== src/Frontiers/Remove.antt =====
-- What `FrontiersDB::remove` does.
use camonanowallet.Base.{
  ℕ, ◌+◌, ◌≡◌, ◌∙◌, refl, inl, inr, true, none, some, arith, eqb, Option-cases, find, erase_idx,
  get_elem?, position, position-some, position-none, Result, ok, err, panic, if◌then◌else◌,
}
use camonanowallet.Base.Word.{wrapping_sub, wrapping_sub_exact}
use camonanowallet.Nano.{Nano}
use camonanowallet.Error.{CoreClientError}
use camonanowallet.Frontiers.Info.{FrontierInfo}
use camonanowallet.Frontiers.Db.{FrontiersDb, is_of, account_frontier, remove}
use camonanowallet.Frontiers.Search.{
  account_frontier-find, total-erase_idx, find-erase_idx, erase_idx-Distinct,
}
use camonanowallet.Frontiers.Invariant.{IsValid, balance-le-total}

module _ (n : Nano) where
  -- `remove` of a known account: the entry comes back, and the account is gone
  pub record Removes (db : FrontiersDb n) (a : n.Account) (old : FrontierInfo n)
      (db' : FrontiersDb n) : Type 0 where
    pub valid : IsValid n db'
    pub present : account_frontier n db a ≡ some old
    pub total : db'.frontiers_balance + old.block.balance ≡ db.frontiers_balance
    pub view :
        (b : n.Account)
        → account_frontier n db' b
          ≡ (if eqb n.account_dec a b then none else account_frontier n db b)

  abbrev pub RemoveResult :
      FrontiersDb n
      → n.Account
      → Result (CoreClientError n) (FrontiersDb n × FrontierInfo n)
      → Type 0
  RemoveResult db a (ok (db', old)) = Removes db a old db'
  RemoveResult db a (err e) =
      (account_frontier n db a ≡ none) × (e ≡ CoreClientError.account_not_found)
  RemoveResult db a panic = ⊥

  erased : FrontiersDb n → ℕ → FrontierInfo n → FrontiersDb n
  erased db i old = record {
    frontiers = erase_idx db.frontiers i;
    frontiers_balance = wrapping_sub db.frontiers_balance old.block.balance;
  }

  erased-Removes :
      (db : FrontiersDb n) (a : n.Account) (i : ℕ) (old : FrontierInfo n)
      → IsValid n db
      → get_elem? db.frontiers i ≡ some old
      → is_of n a old ≡ true
      → find (is_of n a) db.frontiers ≡ some old
      → Removes db a old (erased db i old)
  unfolding erased
  erased-Removes db a i old v g h found =
      let le = balance-le-total n db.frontiers i old g in
      let less =
        wrapping_sub_exact db.frontiers_balance old.block.balance (omega arith) v.bounded in
      record {
        valid = record {
          distinct = erase_idx-Distinct n db.frontiers i old v.distinct g;
          balanced = omega (arith, total-erase_idx n db.frontiers i old g, less);
          bounded = omega (arith, less);
        };
        present = account_frontier-find n db a ∙ found;
        total = omega (arith, less);
        view = λ b.
            rw (account_frontier-find n (erased db i old) b, account_frontier-find n db b, erased)
              (ground (arith, find-erase_idx n db.frontiers i old b v.distinct g));
      }

  -- Removing an account from a valid database never panics. On success the frontier that the
  -- account had is returned, the database stays valid, its balance falls by exactly that frontier's
  -- balance, the account is gone and every other account is as before. The only error is an unknown
  -- account, where the database has no frontier of it.
  pub remove-Removes :
      (db : FrontiersDb n) (a : n.Account) → IsValid n db → RemoveResult db a (remove n db a)
  unfolding remove erased
  remove-Removes db a v = elim (Option-cases (position (is_of n a) db.frontiers)) [
    | inl e ↦
        let gone = account_frontier-find n db a ∙ position-none (is_of n a) db.frontiers e in
        rw (e, remove) (gone, refl)
    | inr (i, e) ↦
        let (old, g, h, found) = position-some (is_of n a) db.frontiers i e in
        rw (e, remove, g) (erased-Removes db a i old v g h found)
  ]
