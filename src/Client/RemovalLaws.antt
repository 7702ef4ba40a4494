-- ===== src/Client/RemovalLaws.antt =====
-- What the removal of an account leaves: valid databases, and no frontier of the account.
use camonanowallet.Base.{
  ℕ, zero, suc, ◌≡◌, ◌⊎◌, ◌∙◌, refl, inl, inr, Bool, true, false, ◌||◌, none, some, List, [], ◌∷◌,
  Option-cases, All, erase_idx, eqb_self, position, position-some, position-none, Result, ok, err,
  panic, ◌>>◌,
}
use camonanowallet.Nano.{Nano}
use camonanowallet.Error.{CoreClientError}
use camonanowallet.Frontiers.Info.{FrontierInfo}
use camonanowallet.Frontiers.Db.{FrontiersDb, account_frontier}
use camonanowallet.Frontiers.Invariant
use camonanowallet.Frontiers.Remove.{RemoveResult, remove-Removes}
use camonanowallet.Wallet.Db.{GenericInfo, GenericInfoDb}
use camonanowallet.Wallet.Db as Accounts
use camonanowallet.Wallet.Derived
use camonanowallet.Wallet.Derived.{DerivedAccountInfo, DerivedAccountDb}
use camonanowallet.Wallet.Validity.{IsOwn, IsOwnDerived, IsValid}
use camonanowallet.Client.State.{CoreClient}
use camonanowallet.Client.Removal.{after, value_of, forget, or_result, remove_account}

erase_idx-All :
    {A : Type 0} (P : A → Type 0) (xs : List A) (i : ℕ) → All P xs → All P (erase_idx xs i)
erase_idx-All P [] i all = all
erase_idx-All P (x ∷ xs) zero all = all.1
erase_idx-All P (x ∷ xs) (suc i) all = (all.0, erase_idx-All P xs i all.1)

-- the result of a removal from a database of accounts, which knows the account or not
abbrev pub Drops : {E S A : Type 0} → E → (S → Type 0) → Bool → Result E (S × A) → Type 0
Drops e P known (ok (s, _)) = (known ≡ true) × P s
Drops e P known (err e') = (known ≡ false) × (e' ≡ e)
Drops e P known panic = ⊥

module _ {T : Type 0} (dec : Discrete T) (n : Nano) where
  pub remove_generic :
      (P : GenericInfo T → Type 0) (db : GenericInfoDb T) (a : T)
      → All P db.info
      → Drops CoreClientError.account_not_found
          (λ s. All P s.info)
          (Accounts.contains dec db a)
          (Accounts.remove dec n db a)
  unfolding Accounts.remove Accounts.contains Accounts.get_info
  remove_generic P db a all = elim (Option-cases (position (Accounts.is_account dec a) db.info)) [
    | inl e ↦
        rw (e, Accounts.remove, position-none (Accounts.is_account dec a) db.info e) (refl, refl)
    | inr (i, e) ↦
        let (x, got, _, found) = position-some (Accounts.is_account dec a) db.info i e in
        rw (e, Accounts.remove, found, got) (refl, erase_idx-All P db.info i all)
  ]

module _ (n : Nano) where
  pub remove_one_derived :
      (P : DerivedAccountInfo n → Type 0) (db : DerivedAccountDb n) (a : n.Account)
      → All P db.info
      → Drops CoreClientError.account_not_found
          (λ s. All P s.info)
          (Derived.contains n db a)
          (Derived.remove n db a)
  unfolding Derived.remove Derived.contains Derived.get_info
  remove_one_derived P db a all = elim (Option-cases (position (Derived.is_account n a) db.info)) [
    | inl e ↦ rw (e, Derived.remove, position-none (Derived.is_account n a) db.info e) (refl, refl)
    | inr (i, e) ↦
        let (x, got, _, found) = position-some (Derived.is_account n a) db.info i e in
        rw (e, Derived.remove, found, got) (refl, erase_idx-All P db.info i all)
  ]

  -- both databases of a client are valid
  pub record IsSound (client : CoreClient n) : Type 0 where
    pub wallet : IsValid n client.seed client.wallet_db
    pub frontiers : Invariant.IsValid n client.frontiers_db

  abbrev pub is_tracked : CoreClient n → n.Account → Bool
  is_tracked client a =
      Accounts.contains n.account_dec client.wallet_db.account_db a
      || Derived.contains n client.wallet_db.derived_account_db a

  -- The frontier of the account was there and is returned, or the account is unknown somewhere.
  abbrev pub RemovalOutcome :
      CoreClient n → n.Account → Bool → Result (CoreClientError n) (FrontierInfo n) → Type 0
  RemovalOutcome client a tracked (ok old) =
      (account_frontier n client.frontiers_db a ≡ some old) × (tracked ≡ true)
  RemovalOutcome client a tracked (err e) =
      (e ≡ CoreClientError.account_not_found)
      × ((tracked ≡ false) ⊎ (account_frontier n client.frontiers_db a ≡ none))
  RemovalOutcome client a tracked panic = ⊥

  abbrev pub RemovalResult :
      CoreClient n → n.Account → CoreClient n × Result (CoreClientError n) (FrontierInfo n) → Type 0
  RemovalResult client a (client', r) =
      IsSound client'
      × (account_frontier n client'.frontiers_db a ≡ none)
      × RemovalOutcome client a (is_tracked client a) r

  -- the database after a removal, in all outcomes
  pub after-Gone :
      (db : FrontiersDb n) (a : n.Account)
      (r : Result (CoreClientError n) (FrontiersDb n × FrontierInfo n))
      → Invariant.IsValid n db
      → RemoveResult n db a r
      → Invariant.IsValid n (after db r) × (account_frontier n (after db r) a ≡ none)
  after-Gone db a (ok (db', old)) v removes =
      (removes.valid, removes.view a ∙ (rw (eqb_self n.account_dec a) refl))
  after-Gone db a (err e) v (gone, _) = (v, gone)
  after-Gone db a panic v h = absurd h

  pub after-All :
      {S A : Type 0} (P : S → Type 0) (s : S) (known : Bool)
      (r : Result (CoreClientError n) (S × A))
      → P s
      → Drops CoreClientError.account_not_found P known r
      → P (after s r)
  after-All P s known (ok (s', _)) p (_, q) = q
  after-All P s known (err e) p h = p
  after-All P s known panic p h = p

  outcome :
      {S R A B : Type 0} (P : S → Type 0) (Q : R → Type 0) (client : CoreClient n) (a : n.Account)
      (b c : Bool) (normal : Result (CoreClientError n) (S × A))
      (derived : Result (CoreClientError n) (R × B))
      (frontier : Result (CoreClientError n) (FrontiersDb n × FrontierInfo n))
      → Drops CoreClientError.account_not_found P b normal
      → Drops CoreClientError.account_not_found Q c derived
      → RemoveResult n client.frontiers_db a frontier
      → RemovalOutcome client a
          (b || c)
          (or_result (forget (value_of normal)) (forget (value_of derived)) >> value_of frontier)
  outcome P Q client a b c (ok _) (ok _) (ok _) h k l = (l.present, rw h.0)
  outcome P Q client a b c (ok _) (err _) (ok _) h k l = (l.present, rw h.0)
  outcome P Q client a b c (err _) (ok _) (ok _) h k l = (l.present, rw (h.0, k.0))
  outcome P Q client a b c (ok _) (ok _) (err _) h k l = (l.1, inr l.0)
  outcome P Q client a b c (ok _) (err _) (err _) h k l = (l.1, inr l.0)
  outcome P Q client a b c (err _) (ok _) (err _) h k l = (l.1, inr l.0)
  outcome P Q client a b c (err _) (err _) frontier h k l = (k.1, inl (rw (h.0, k.0)))
  outcome P Q client a b c panic derived frontier h k l = absurd h
  outcome P Q client a b c (ok _) panic frontier h k l = absurd k
  outcome P Q client a b c (err _) panic frontier h k l = absurd k
  outcome P Q client a b c (ok _) (ok _) panic h k l = l
  outcome P Q client a b c (ok _) (err _) panic h k l = l
  outcome P Q client a b c (err _) (ok _) panic h k l = l

  -- For a client whose wallet has only accounts of the seed and whose frontier database is valid,
  -- `remove_account` never panics, and both still hold afterwards. In every outcome the account has
  -- no frontier afterwards. On success the account was tracked as a normal or a derived account and
  -- its old frontier is returned; the only error is an unknown account, where it was not tracked or
  -- had no frontier.
  pub remove_account-RemovalResult :
      (client : CoreClient n) (a : n.Account)
      → IsSound client
      → RemovalResult client a (remove_account n client a)
  unfolding remove_account
  remove_account-RemovalResult client a sound =
      let wallet = client.wallet_db in
      let normal =
        remove_generic n.account_dec n (IsOwn n client.seed) wallet.account_db a
          sound.wallet.accounts in
      let derived =
        remove_one_derived (IsOwnDerived n client.seed) wallet.derived_account_db a
          sound.wallet.derived_accounts in
      let frontier = remove-Removes n client.frontiers_db a sound.frontiers in
      let (valid, gone) = after-Gone client.frontiers_db a _ sound.frontiers frontier in
      (
        record {
          wallet = record {
            accounts =
                after-All (λ s. All (IsOwn n client.seed) s.info) wallet.account_db _ _
                  sound.wallet.accounts normal;
            camo_accounts = sound.wallet.camo_accounts;
            derived_accounts =
                after-All (λ s. All (IsOwnDerived n client.seed) s.info) wallet.derived_account_db _
                  _ sound.wallet.derived_accounts derived;
          };
          frontiers = valid;
        },
        gone,
        outcome _ _ client a _ _ _ _ _ normal derived frontier,
      )
