-- ===== src/Client/CamoRemovalLaws.antt =====
-- What the removal of a camo account leaves: valid databases, and no frontier of an account that was
-- derived from it.
use camonanowallet.Base.{
  eqb_self, true, false, ◌⊎◌, if◌then◌else◌, sym, ap, arith, ◌≡◌, ◌∙◌, refl, inl, inr, none, List,
  [], ◌∷◌, Bool-cases, All, Result, ok, err, panic,
}
use camonanowallet.Nano.{Nano}
use camonanowallet.Error.{CoreClientError}
use camonanowallet.Frontiers.Info.{FrontierInfo}
use camonanowallet.Frontiers.Db.{FrontiersDb, account_frontier}
use camonanowallet.Frontiers.Db
use camonanowallet.Frontiers.Remove.{RemoveResult, remove-Removes}
use camonanowallet.Wallet.Db.{GenericInfo, GenericInfoDb}
use camonanowallet.Wallet.Db as Accounts
use camonanowallet.Wallet.Validity.{IsOwnCamo}
use camonanowallet.Client.State.{contains, CoreClient, get_derived_accounts_from_master}
use camonanowallet.Client.Removal.{after, value_of, remove_derived, remove_camo_account}
use camonanowallet.Client.RemovalCounts.{
  TakesOne, TakeResult, remove-TakeResult, remove_derived-n_derived, derived-le, untracked-derived,
}
use camonanowallet.Client.DerivedRemovalLaws.{
  stays-Gone, IsGone, remove_derived-IsSound, after-view, remove_derived-view, remove_derived-same,
}
use camonanowallet.Client.Untracking.{Untracks, CamoRemovalOutcome}
use camonanowallet.Client.RemovalLaws.{Drops, remove_generic, IsSound, after-Gone}

module _ (n : Nano) where
  -- The frontiers of all accounts derived from the camo account are gone in every outcome.
  abbrev pub CamoRemovalResult :
      CoreClient n
      → n.CamoAccount
      → CoreClient n × Result (CoreClientError n) (FrontierInfo n)
      → Type 0
  CamoRemovalResult client account (client', r) =
      IsSound n client'
      × All (λ a. account_frontier n client'.frontiers_db a ≡ none)
          (get_derived_accounts_from_master n client account)
      × CamoRemovalOutcome n client client' account r

  All-map :
      {A : Type 0} (P Q : A → Type 0) (xs : List A) → ((x : A) → P x → Q x) → All P xs → All Q xs
  All-map P Q [] f all = tt
  All-map P Q (x ∷ xs) f all = (f x all.0, All-map P Q xs f all.1)

  module _ (account : n.CamoAccount) where
    -- the steps after the loop
    abbrev finished :
        CoreClient n
        → Result (CoreClientError n) (GenericInfoDb n.CamoAccount × GenericInfo n.CamoAccount)
        → CoreClient n × Result (CoreClientError n) (FrontierInfo n)
    finished client r = elim r [
      | ok (camo_account_db, _) ↦
          let frontier = Db.remove n client.frontiers_db (n.signer_account account) in
          (
            record client {
              wallet_db = record client.wallet_db { camo_account_db = camo_account_db };
              frontiers_db = after client.frontiers_db frontier;
            },
            value_of frontier,
          )
      | err e ↦ (client, err e)
      | panic ↦ (client, panic)
    ]

    finish :
        (client : CoreClient n) (accounts : List n.Account)
        (r : Result (CoreClientError n) (GenericInfoDb n.CamoAccount × GenericInfo n.CamoAccount))
        → IsSound n client
        → All (IsGone n client) accounts
        → Drops CoreClientError.account_not_found
            (λ s. All (IsOwnCamo n client.seed) s.info)
            (Accounts.contains n.camo_dec client.wallet_db.camo_account_db account)
            r
        → IsSound n (finished client r).0 × All (IsGone n (finished client r).0) accounts
    unfolding IsGone
    finish client accounts (ok (db, info)) sound gone (_, all) =
        let removes =
          remove-Removes n client.frontiers_db (n.signer_account account) sound.frontiers in
        let (valid, own_gone) =
          after-Gone n client.frontiers_db (n.signer_account account) _ sound.frontiers removes in
        (
          record {
            wallet = record {
              accounts = sound.wallet.accounts;
              camo_accounts = all;
              derived_accounts = sound.wallet.derived_accounts;
            };
            frontiers = valid;
          },
          All-map _ _ accounts
              (λ b g. stays-Gone n client.frontiers_db (n.signer_account account) b _ g removes)
              gone,
        )
    finish client accounts (err e) sound gone h = (sound, gone)
    finish client accounts panic sound gone h = absurd h

    remove_derived-none : (client : CoreClient n) → remove_derived n client [] ≡ client
    unfolding remove_derived
    remove_derived-none client = refl

    module _ (client : CoreClient n) (sound : IsSound n client) where
      abbrev accounts : List n.Account
      accounts = get_derived_accounts_from_master n client account

      -- the client after the loop
      abbrev looped : CoreClient n
      looped = remove_derived n client accounts

      view_after :
          (r : Result (CoreClientError n) (FrontiersDb n × FrontierInfo n)) (b : n.Account)
          → RemoveResult n looped.frontiers_db (n.signer_account account) r
          → account_frontier n (after looped.frontiers_db r) b ≡ (
              if contains n (n.signer_account account ∷ accounts) b
              then none
              else account_frontier n client.frontiers_db b)
      unfolding contains
      view_after r b h = ground (
        arith,
        after-view n looped.frontiers_db (n.signer_account account) b r h,
        remove_derived-view n client accounts b sound,
      )

      -- the client after the removal of the camo account and of its frontier
      abbrev ended :
          GenericInfoDb n.CamoAccount
          → Result (CoreClientError n) (FrontiersDb n × FrontierInfo n)
          → CoreClient n
      ended db r = record looped {
        wallet_db = record looped.wallet_db { camo_account_db = db };
        frontiers_db = after looped.frontiers_db r;
      }

      ended-Untracks :
          (db : GenericInfoDb n.CamoAccount)
          (r : Result (CoreClientError n) (FrontiersDb n × FrontierInfo n))
          → TakesOne n.camo_dec n account looped.wallet_db.camo_account_db.info db.info
          → RemoveResult n looped.frontiers_db (n.signer_account account) r
          → Untracks n account client (ended db r)
      ended-Untracks db r taken h =
          let (normal, camo, config) = remove_derived-same n client accounts in
          record {
            camo = rw camo at taken;
            derived = remove_derived-n_derived n client accounts (derived-le n client account);
            normal = normal;
            config = config;
            view = λ b. view_after r b h;
          }

      ended-Outcome :
          (db : GenericInfoDb n.CamoAccount)
          (r : Result (CoreClientError n) (FrontiersDb n × FrontierInfo n))
          → Untracks n account client (ended db r)
          → RemoveResult n looped.frontiers_db (n.signer_account account) r
          → CamoRemovalOutcome n client (ended db r) account (value_of r)
      ended-Outcome db (ok (frontiers, old)) untracks h = (
        untracks,
        ground (
          arith,
          h.present,
          remove_derived-view n client accounts (n.signer_account account) sound,
        ),
        h.view (n.signer_account account)
            ∙ (rw (eqb_self n.account_dec (n.signer_account account)) refl),
      )
      ended-Outcome db (err e) untracks (gone, same) = (same, inr (untracks, missing))
        where
          missing :
              (contains n accounts (n.signer_account account) ≡ true)
              ⊎ (account_frontier n client.frontiers_db (n.signer_account account) ≡ none)
          missing = elim (Bool-cases (contains n accounts (n.signer_account account))) [
            | inl has ↦ inl has
            | inr not_has ↦ inr (
                ground (
                  arith,
                  gone,
                  remove_derived-view n client accounts (n.signer_account account) sound,
                ))
          ]
      ended-Outcome db panic untracks h = h

      finished-Outcome :
          (r : Result (CoreClientError n) (GenericInfoDb n.CamoAccount × GenericInfo n.CamoAccount))
          → TakeResult n.camo_dec n looped.wallet_db.camo_account_db account r
          → CamoRemovalOutcome n client (finished looped r).0 account (finished looped r).1
      finished-Outcome (ok (db, _)) taken =
          let r = Db.remove n looped.frontiers_db (n.signer_account account) in
          let h =
            remove-Removes n looped.frontiers_db (n.signer_account account)
              (remove_derived-IsSound n client accounts sound).0.frontiers in
          ended-Outcome db r (ended-Untracks db r taken h) h
      finished-Outcome (err e) (unknown, same) = (same, inl (unknown', unchanged))
        where
          unknown' : Accounts.contains n.camo_dec client.wallet_db.camo_account_db account ≡ false
          unknown' =
              ap (λ db. Accounts.contains n.camo_dec db account)
                (sym (remove_derived-same n client accounts).1)
              ∙ unknown

          unchanged : looped ≡ client
          unchanged =
              ap (remove_derived n client) (untracked-derived n client account unknown')
              ∙ remove_derived-none client
      finished-Outcome panic h = h

  -- For a client whose wallet has only accounts of the seed and whose frontier database is valid,
  -- `remove_camo_account` never panics, both still hold afterwards, and no account that was derived
  -- from the camo account has a frontier afterwards. On success one record of the camo account is
  -- gone, and each of its derived accounts once; every other record is there as often as before,
  -- the normal accounts and the configuration are the same, and the frontiers are those of before
  -- without the derived accounts' and the notification account's, whose old frontier is returned.
  -- The only error is an unknown account: either the camo account was not tracked, and the client
  -- is as before; or the same was removed, and the notification account had no frontier or was
  -- among the derived accounts.
  pub remove_camo_account-CamoRemovalResult :
      (client : CoreClient n) (account : n.CamoAccount)
      → IsSound n client
      → CamoRemovalResult client account (remove_camo_account n client account)
  unfolding remove_camo_account IsGone
  remove_camo_account-CamoRemovalResult client account sound =
      let accounts = get_derived_accounts_from_master n client account in
      let client' = remove_derived n client accounts in
      let (sound', gone, same) = remove_derived-IsSound n client accounts sound in
      let drops =
        remove_generic n.camo_dec n (IsOwnCamo n client'.seed) client'.wallet_db.camo_account_db
          account sound'.wallet.camo_accounts in
      let (last, all_gone) = finish account client' accounts _ sound' gone drops in
      (
        last,
        all_gone,
        finished-Outcome account client sound _
            (remove-TakeResult n.camo_dec n client'.wallet_db.camo_account_db account),
      )
