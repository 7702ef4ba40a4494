-- ===== src/Frontiers/Work.antt =====
-- Cached proof of work: only work that passes the difficulty test is ever kept, and caching touches
-- nothing else.
use camonanowallet.Base.{
  ℕ, zero, suc, ◌≡◌, ◌⊎◌, ◌∙◌, refl, inl, inr, Bool, true, none, some, List, [], ◌∷◌, arith, eqb,
  Bool-cases, Option-cases, All, find, find-set-position, set, get_elem?, map, position,
  position-some, position-none, Result, ok, err, panic, ℕ_discrete,
}
use camonanowallet.Nano.{Nano, Bytes8, Bytes32}
use camonanowallet.Error.{CoreClientError}
use camonanowallet.Config.{CoreClientConfig}
use camonanowallet.Frontiers.Info.{FrontierInfo, work_hash, has_valid_work, cache_work}
use camonanowallet.Frontiers.Db.{FrontiersDb, is_of}
use camonanowallet.Frontiers.Query.{add_work, set_account_work, modify_index}
use camonanowallet.Frontiers.Invariant.{IsValid}
use camonanowallet.Frontiers.Rewrite.{set_block-IsValid}

module _ (n : Nano) (config : CoreClientConfig n) where
  -- no work is cached, or work that passes the test
  abbrev pub WorkIsValid : FrontierInfo n → Type 0
  WorkIsValid info = (info.cached_work ≡ none) ⊎ (has_valid_work n config info ≡ true)

  -- `cache_work` keeps the block, and whatever work is offered, the work that is cached afterwards
  -- passes the difficulty test or there is none.
  pub cache_work-WorkIsValid :
      (work : Bytes8) (info : FrontierInfo n)
      → WorkIsValid (cache_work n config work info)
        × ((cache_work n config work info).block ≡ info.block)
  unfolding cache_work
  cache_work-WorkIsValid work info =
      elim (Bool-cases (has_valid_work n config (record info { cached_work = some work }))) [
        | inl good ↦ (inr (rw (good, cache_work) good), rw (good, cache_work))
        | inr bad ↦ (inl (rw (bad, cache_work)), rw (bad, cache_work))
      ]

  set-All :
      (P : FrontierInfo n → Type 0) (fs : List (FrontierInfo n)) (i : ℕ) (new : FrontierInfo n)
      → All P fs
      → P new
      → All P (set fs i new)
  set-All P [] i new h p = h
  set-All P (f ∷ fs) zero new h p = (p, h.1)
  set-All P (f ∷ fs) (suc i) new h p = (h.0, set-All P fs i new h.1 p)

  map-set_block :
      (fs : List (FrontierInfo n)) (i : ℕ) (old new : FrontierInfo n)
      → get_elem? fs i ≡ some old
      → new.block ≡ old.block
      → map (λ f. f.block) (set fs i new) ≡ map (λ f. f.block) fs
  map-set_block [] i old new h e = cc
  map-set_block (f ∷ fs) zero old new h e = ground arith
  map-set_block (f ∷ fs) (suc i) old new h e = ground (arith, map-set_block fs i old new h e)

  -- the database after a write of cached work: still valid, and with the same blocks
  pub record Caches (db db' : FrontiersDb n) : Type 0 where
    pub valid : IsValid n db'
    pub works : All WorkIsValid db'.frontiers
    pub blocks : map (λ f. f.block) db'.frontiers ≡ map (λ f. f.block) db.frontiers

  modify_index-Caches :
      (db : FrontiersDb n) (i : ℕ) (old : FrontierInfo n) (work : Bytes8)
      → IsValid n db
      → All WorkIsValid db.frontiers
      → get_elem? db.frontiers i ≡ some old
      → Caches db (record db { frontiers = set db.frontiers i (cache_work n config work old) })
  modify_index-Caches db i old work v w g =
      let (good, same) = cache_work-WorkIsValid work old in
      let new = cache_work n config work old in
      record {
        valid = set_block-IsValid n db i old new v g same;
        works = set-All WorkIsValid db.frontiers i new w good;
        blocks = map-set_block db.frontiers i old new g same;
      }

  -- the outcome of caching `work` at the first frontier that passes the test `p`
  abbrev pub CacheResult :
      (FrontierInfo n → Bool)
      → Bytes8
      → FrontiersDb n
      → Result (CoreClientError n) (FrontiersDb n)
      → Type 0
  CacheResult p work db (ok db') =
      Caches db db'
      × ((old : FrontierInfo n) × (find p db.frontiers ≡ some old)
          × (find p db'.frontiers ≡ some (cache_work n config work old)))
  CacheResult p work db (err e) =
      (find p db.frontiers ≡ none) × (e ≡ CoreClientError.account_not_found)
  CacheResult p work db panic = ⊥

  modify_index-CacheResult :
      (p : FrontierInfo n → Bool) (db : FrontiersDb n) (work : Bytes8)
      → ((f : FrontierInfo n) → p (cache_work n config work f) ≡ p f)
      → IsValid n db
      → All WorkIsValid db.frontiers
      → CacheResult p work db
          (modify_index n db (position p db.frontiers) (cache_work n config work))
  modify_index-CacheResult p db work keeps v w = elim (Option-cases (position p db.frontiers)) [
    | inl e ↦ rw e (position-none p db.frontiers e, refl)
    | inr (i, e) ↦
        let (old, g, holds, found) = position-some p db.frontiers i e in
        rw (e, modify_index, g)
          (
            modify_index-Caches db i old work v w g,
            (
              old,
              found,
              find-set-position p db.frontiers i (cache_work n config work old) e
                  (keeps old ∙ holds),
            ),
          )
  ]

  -- On a valid database whose cached works all pass the difficulty test, `set_account_work` never
  -- panics. On success the database is valid, has the same blocks, all its cached works pass the
  -- test, and the frontier of the account is changed as `cache_work` does. The only error is an
  -- unknown account, where the database has no frontier of it.
  set_account_work-CacheResult :
      (db : FrontiersDb n) (a : n.Account) (work : Bytes8)
      → IsValid n db
      → All WorkIsValid db.frontiers
      → CacheResult (is_of n a) work db (set_account_work n config a work db)
  unfolding set_account_work
  set_account_work-CacheResult db a work =
      modify_index-CacheResult (is_of n a) db work (λ f. rw (cache_work-WorkIsValid work f).1)

  -- the work hash does not depend on the work that is cached
  work_hash-cache_work :
      (work : Bytes8) (f : FrontierInfo n)
      → work_hash n (cache_work n config work f) ≡ work_hash n f
  unfolding work_hash
  work_hash-cache_work work f = rw (cache_work-WorkIsValid work f).1

  -- On a valid database whose cached works all pass the difficulty test, `add_work` never panics.
  -- On success the database is valid, has the same blocks, all its cached works pass the test, and
  -- the first frontier with the work hash is changed as `cache_work` does. The only error is an
  -- unknown account, where no frontier has the work hash.
  pub add_work-CacheResult :
      (db : FrontiersDb n) (hash : Bytes32) (work : Bytes8)
      → IsValid n db
      → All WorkIsValid db.frontiers
      → CacheResult
          (λ f. eqb ℕ_discrete (work_hash n f) hash)
          work
          db
          (add_work n config hash work db)
  unfolding add_work
  add_work-CacheResult db hash work =
      modify_index-CacheResult (λ f. eqb ℕ_discrete (work_hash n f) hash) db work
        (λ f. rw (work_hash-cache_work work f))
