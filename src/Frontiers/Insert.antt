-- ===== src/Frontiers/Insert.antt =====
-- What `FrontiersDB::insert` does with a batch of downloaded frontiers.
use camonanowallet.Base.{
  ◌+◌, ◌≤◌, ◌<◌, ◌≡◌, ◌≢◌, refl, ap, fun_ext, ◌⊎◌, Result-cases, inl, inr, Option, none, some, List,
  [], ◌∷◌, ◌++◌, arith, Option-cases, find, find-none-position, position, position-some, Result, ok,
  err, panic, if◌then◌else◌,
}
use camonanowallet.Base.Word.{u128_mod, wrapping_add_exact}
use camonanowallet.Nano.{Nano}
use camonanowallet.Error.{CoreClientError}
use camonanowallet.Frontiers.Info.{FrontierInfo}
use camonanowallet.Frontiers.Db.{
  FrontiersDb, is_of, account_frontier, could_insert, could_insert_many, check_new, insert_one,
  insert_all, insert,
}
use camonanowallet.Frontiers.Search.{find-append_new}
use camonanowallet.Frontiers.Invariant.{
  IsValid, Refuses, Returns, insert_one-Returns, added, insert_one-new,
}

module _ (n : Nano) where
  -- the map from accounts to frontiers after each frontier of a list is stored in turn
  abbrev pub latest :
      (n.Account → Option (FrontierInfo n))
      → List (FrontierInfo n)
      → n.Account
      → Option (FrontierInfo n)
  latest view [] a = view a
  latest view (f ∷ fs) a = latest (λ b. if is_of n b f then some f else view b) fs a

  -- The database is valid, and as a map it is the old one with `fs` stored.
  pub record Holds (db : FrontiersDb n) (fs : List (FrontierInfo n)) (db' : FrontiersDb n)
      : Type 0 where
    pub valid : IsValid n db'
    pub view : (a : n.Account) → account_frontier n db' a ≡ latest (account_frontier n db) fs a

  -- Why a batch is refused: the frontier `f` of the batch is. Either the check before the loop finds
  -- it against the database as it was, or the loop does, which then has stored those before `f`.
  abbrev pub Stops :
      FrontiersDb n
      → List (FrontierInfo n)
      → FrontiersDb n
      → CoreClientError n
      → List (FrontierInfo n)
      → FrontierInfo n
      → List (FrontierInfo n)
      → Type 0
  Stops db new db' e done f rest =
      (new ≡ done ++ f ∷ rest)
      × ((Holds db done db' × Refuses n db' f e) ⊎ ((db' ≡ db) × Refuses n db f e))

  abbrev pub Inserts :
      FrontiersDb n
      → List (FrontierInfo n)
      → FrontiersDb n × Result (CoreClientError n) (Unit {0})
      → Type 0
  Inserts db new (db', ok _) = Holds db new db'
  Inserts db new (db', err e) =
      (done : List (FrontierInfo n)) × (f : FrontierInfo n) × (rest : List (FrontierInfo n)) × Stops
        db new db' e done f rest
  Inserts db new (db', panic) = ⊥

  -- the same of the loop, in which the frontiers before the refused one are always stored
  abbrev LoopInserts :
      FrontiersDb n
      → List (FrontierInfo n)
      → FrontiersDb n × Result (CoreClientError n) (Unit {0})
      → Type 0
  LoopInserts db new (db', ok _) = Holds db new db'
  LoopInserts db new (db', err e) =
      (done : List (FrontierInfo n)) × (f : FrontierInfo n) × (rest : List (FrontierInfo n)) × (new
        ≡ done ++ f ∷ rest)
      × Holds db done db'
      × Refuses n db' f e
  LoopInserts db new (db', panic) = ⊥

  Holds-cons :
      (db db' db'' : FrontiersDb n) (f : FrontierInfo n) (fs : List (FrontierInfo n))
      → ((a : n.Account)
          → account_frontier n db' a ≡ (if is_of n a f then some f else account_frontier n db a))
      → Holds db' fs db''
      → Holds db (f ∷ fs) db''
  Holds-cons db db' db'' f fs e h = record {
    valid = h.valid;
    view = λ a. rw (← fun_ext e) (h.view a);
  }

  LoopInserts-cons :
      (db db' : FrontiersDb n) (f : FrontierInfo n) (fs : List (FrontierInfo n))
      (r : FrontiersDb n × Result (CoreClientError n) (Unit {0}))
      → ((a : n.Account)
          → account_frontier n db' a ≡ (if is_of n a f then some f else account_frontier n db a))
      → LoopInserts db' fs r
      → LoopInserts db (f ∷ fs) r
  LoopInserts-cons db db' f fs (db'', ok _) e h = Holds-cons db db' db'' f fs e h
  LoopInserts-cons db db' f fs (db'', err _) e (done, g, rest, split, h, why) =
      (f ∷ done, g, rest, rw split, Holds-cons db db' db'' f done e h, why)
  LoopInserts-cons db db' f fs (db'', panic) e h = h

  LoopInserts-step :
      (db : FrontiersDb n) (f : FrontierInfo n) (fs : List (FrontierInfo n))
      → IsValid n db
      → (r : Result (CoreClientError n) (FrontiersDb n)) → Returns n db f r
      → ((db' : FrontiersDb n) → IsValid n db' → LoopInserts db' fs (insert_all n db' fs))
      → LoopInserts db
          (f ∷ fs)
          (elim r [ ok db' ↦ insert_all n db' fs | err e ↦ (db, err e) | panic ↦ (db, panic) ])
  LoopInserts-step db f fs v (ok db') s rec = LoopInserts-cons db db' f fs _ s.1 (rec db' s.0)
  LoopInserts-step db f fs v (err e) s rec =
      ([], f, fs, refl, record { valid = v; view = λ a. refl }, s)
  LoopInserts-step db f fs v panic s rec = s

  insert_all-LoopInserts :
      (db : FrontiersDb n) (new : List (FrontierInfo n))
      → IsValid n db
      → LoopInserts db new (insert_all n db new)
  unfolding insert_all
  insert_all-LoopInserts db [] v = record { valid = v; view = λ a. refl }
  insert_all-LoopInserts db (f ∷ fs) v =
      LoopInserts-step db f fs v (insert_one n db f) (insert_one-Returns n db f v)
        (λ db' v'. insert_all-LoopInserts db' fs v')

  could_insert-ne-panic : (db : FrontiersDb n) (f : FrontierInfo n) → could_insert n db f ≢ panic
  unfolding could_insert
  could_insert-ne-panic db f =
      elim (Option-cases (position (is_of n f.block.account) db.frontiers)) [
        | inl e ↦ ground arith
        | inr (i, e) ↦
            let (old, g, _, _) = position-some (is_of n f.block.account) db.frontiers i e in
            ground arith
      ]

  could_insert_many-ne-panic :
      (db : FrontiersDb n) (fs : List (FrontierInfo n)) → could_insert_many n db fs ≢ panic
  unfolding could_insert_many
  could_insert_many-ne-panic db [] = ground arith
  could_insert_many-ne-panic db (f ∷ fs) =
      ground (arith, could_insert-ne-panic db f, could_insert_many-ne-panic db fs)

  insert_one-refused :
      (db : FrontiersDb n) (f : FrontierInfo n) (e : CoreClientError n)
      → could_insert n db f ≡ err e
      → insert_one n db f ≡ err e
  unfolding insert_one
  insert_one-refused db f e h = rw (h, insert_one)

  could_insert-Refuses :
      (db : FrontiersDb n) (f : FrontierInfo n) (e : CoreClientError n)
      → IsValid n db
      → could_insert n db f ≡ err e
      → Refuses n db f e
  could_insert-Refuses db f e v h =
      rw (insert_one-refused db f e h) at (insert_one-Returns n db f v)

  could_insert_many-Refuses :
      (db : FrontiersDb n) (fs : List (FrontierInfo n)) (e : CoreClientError n)
      → IsValid n db
      → could_insert_many n db fs ≡ err e
      → (done : List (FrontierInfo n)) × (f : FrontierInfo n) × (rest : List (FrontierInfo n)) × (fs
          ≡ done ++ f ∷ rest)
        × Refuses n db f e
  unfolding could_insert_many
  could_insert_many-Refuses db [] e v h = cc
  could_insert_many-Refuses db (f ∷ fs) e v h = elim (Result-cases (could_insert n db f)) [
    | inl (i, p) ↦
        let (done, g, rest, split, why) = could_insert_many-Refuses db fs e v (ground arith) in
        (f ∷ done, g, rest, rw split, why)
    | inr (inl (e', p)) ↦
        let q : e' ≡ e = ground arith in
        ([], f, fs, refl, could_insert-Refuses db f e v (rw p (ap err q)))
    | inr (inr p) ↦ absurd (could_insert-ne-panic db f p)
  ]

  LoopInserts-Inserts :
      (db : FrontiersDb n) (new : List (FrontierInfo n))
      (r : FrontiersDb n × Result (CoreClientError n) (Unit {0}))
      → LoopInserts db new r
      → Inserts db new r
  LoopInserts-Inserts db new (db', ok _) h = h
  LoopInserts-Inserts db new (db', err e) (done, f, rest, split, h, why) =
      (done, f, rest, (split, inl (h, why)))
  LoopInserts-Inserts db new (db', panic) h = h

  -- Inserting a batch into a valid database never panics and leaves it valid. On success the
  -- database is, as a map from accounts, the old one with the frontiers of the batch stored in
  -- their order. On an error some frontier of the batch is refused for the reason that the error
  -- names: against the old database, which is then unchanged, or against the database that holds
  -- the frontiers before it.
  pub insert-Inserts :
      (db : FrontiersDb n) (new : List (FrontierInfo n))
      → IsValid n db
      → Inserts db new (insert n db new)
  unfolding insert
  insert-Inserts db new v = elim (Result-cases (could_insert_many n db new)) [
    | inl (_, p) ↦ rw (p, insert) (LoopInserts-Inserts db new _ (insert_all-LoopInserts db new v))
    | inr (inl (e, p)) ↦
        let (done, f, rest, split, why) = could_insert_many-Refuses db new e v p in
        rw (p, insert) (done, f, rest, (split, inr (refl, why)))
    | inr (inr p) ↦ absurd (could_insert_many-ne-panic db new p)
  ]

  could_insert_two :
      (db : FrontiersDb n) (f g : FrontierInfo n)
      → position (is_of n f.block.account) db.frontiers ≡ none
      → position (is_of n g.block.account) db.frontiers ≡ none
      → db.frontiers_balance + f.block.balance < u128_mod
      → db.frontiers_balance + g.block.balance < u128_mod
      → could_insert_many n db (f ∷ g ∷ []) ≡ ok (none ∷ none ∷ [])
  unfolding could_insert_many
  could_insert_two db f g pf pg fitf fitg = ground arith

  -- Two frontiers of two different accounts that the database does not have, whose balances fit a
  -- `u128` with the database's sum one by one but not together, pass `check_new`, while `insert`
  -- stores the first and fails on the second with a balance overflow.
  pub check_new_overflow :
      (db : FrontiersDb n) (f g : FrontierInfo n)
      → find (is_of n f.block.account) db.frontiers ≡ none
      → find (is_of n g.block.account) db.frontiers ≡ none
      → f.block.account ≢ g.block.account
      → db.frontiers_balance + f.block.balance < u128_mod
      → db.frontiers_balance + g.block.balance < u128_mod
      → u128_mod ≤ db.frontiers_balance + f.block.balance + g.block.balance
      → (check_new n db (f ∷ g ∷ []) ≡ ok tt)
        × (insert n db (f ∷ g ∷ []) ≡ (added n db f, err CoreClientError.frontier_balance_overflow))
  unfolding check_new insert insert_all
  check_new_overflow db f g ef eg ne fitf fitg over =
      let pf = find-none-position (is_of n f.block.account) db.frontiers ef in
      let pg = find-none-position (is_of n g.block.account) db.frontiers eg in
      let one = insert_one-new n db f pf in
      let pg' =
        find-none-position (is_of n g.block.account) (added n db f).frontiers
          (rw (find-append_new n db.frontiers f g.block.account ef) (ground arith)) in
      let two = insert_one-new n (added n db f) g pg' in
      let many = could_insert_two db f g pf pg fitf fitg in
      (
        rw (many, check_new) refl,
        rw (many, insert)
            (ground
              (arith, one, two, wrapping_add_exact db.frontiers_balance f.block.balance fitf)),
      )
