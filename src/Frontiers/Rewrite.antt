-- ===== src/Frontiers/Rewrite.antt =====
-- Writes to frontiers that keep their blocks: cached work is stored or cleared.
use camonanowallet.Base.{
  ℕ, ◌≡◌, inl, inr, Option, none, some, arith, get_elem?, set, position, Option-cases, Bool-cases,
  ok,
}
use camonanowallet.Nano.{Nano, Bytes8, Bytes32}
use camonanowallet.Config.{CoreClientConfig}
use camonanowallet.Frontiers.Info.{FrontierInfo, has_valid_work, cache_work}
use camonanowallet.Frontiers.Db.{FrontiersDb, search_work_hash}
use camonanowallet.Frontiers.Query.{modify_index, add_work}
use camonanowallet.Frontiers.Search.{total-set, set-Distinct}
use camonanowallet.Frontiers.Invariant.{IsValid}

module _ (n : Nano) where
  pub set_block-IsValid :
      (db : FrontiersDb n) (i : ℕ) (old new : FrontierInfo n)
      → IsValid n db
      → get_elem? db.frontiers i ≡ some old
      → new.block ≡ old.block
      → IsValid n (record db { frontiers = set db.frontiers i new })
  set_block-IsValid db i old new v g same =
      let acct : old.block.account ≡ new.block.account = rw same in
      let bal : new.block.balance ≡ old.block.balance = rw same in
      record {
        distinct = set-Distinct n db.frontiers i old new v.distinct g acct;
        balanced = omega (arith, total-set n db.frontiers i old new g);
        bounded = v.bounded;
      }

  cache_work-block :
      (config : CoreClientConfig n) (work : Bytes8) (info : FrontierInfo n)
      → (cache_work n config work info).block ≡ info.block
  unfolding cache_work
  cache_work-block config work info =
      elim (Bool-cases (has_valid_work n config (record info { cached_work = some work }))) [
        | inl good ↦ rw (good, cache_work)
        | inr bad ↦ rw (bad, cache_work)
      ]

  pub add_work-IsValid :
      (config : CoreClientConfig n) (hash : Bytes32) (work : Bytes8) (db db' : FrontiersDb n)
      → IsValid n db
      → add_work n config hash work db ≡ ok db'
      → IsValid n db'
  unfolding add_work position
  add_work-IsValid config hash work db db' v = go (search_work_hash n db.frontiers hash)
    where
      go : (o : Option ℕ) → modify_index n db o (cache_work n config work) ≡ ok db' → IsValid n db'
      go none e = cc
      go (some i) e = elim (Option-cases (get_elem? db.frontiers i)) [
        | inl g ↦ absurd (ground arith)
        | inr (old, g) ↦
            let q : record db { frontiers = set db.frontiers i (cache_work n config work old) }
                ≡ db' =
              ground arith in
            rw (← q) (set_block-IsValid db i old _ v g (cache_work-block config work old))
      ]
