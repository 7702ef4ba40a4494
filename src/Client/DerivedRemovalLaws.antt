-- ===== src/Client/DerivedRemovalLaws.antt =====
-- What the loop of `remove_camo_account` over the derived accounts leaves: valid databases, no frontier
-- of these accounts, and all else as it was.
use camonanowallet.Base.{
  if◌then◌else◌, eqb→eq, sym, ap, arith, ◌≡◌, ◌∙◌, refl, inl, inr, none, List, [], ◌∷◌, Bool-cases,
  All, eqb, Result, ok, err, panic,
}
use camonanowallet.Nano.{Nano}
use camonanowallet.Error.{CoreClientError}
use camonanowallet.Frontiers.Info.{FrontierInfo}
use camonanowallet.Frontiers.Db.{FrontiersDb, account_frontier}
use camonanowallet.Frontiers.Db
use camonanowallet.Frontiers.Remove.{RemoveResult, remove-Removes}
use camonanowallet.Wallet.Validity.{IsOwnDerived}
use camonanowallet.Client.State.{contains, CoreClient}
use camonanowallet.Client.Removal.{after, remove_derived}
use camonanowallet.Client.RemovalCounts.{dropped}
use camonanowallet.Client.RemovalLaws.{remove_one_derived, IsSound, after-Gone, after-All}

module _ (n : Nano) where
  pub stays-Gone :
      (db : FrontiersDb n) (a b : n.Account)
      (r : Result (CoreClientError n) (FrontiersDb n × FrontierInfo n))
      → account_frontier n db b ≡ none
      → RemoveResult n db a r
      → account_frontier n (after db r) b ≡ none
  stays-Gone db a b (ok (db', old)) gone removes =
      removes.view b
      ∙ elim (Bool-cases (eqb n.account_dec a b)) [ inl e ↦ rw e refl | inr e ↦ rw e gone ]
  stays-Gone db a b (err e) gone h = gone
  stays-Gone db a b panic gone h = gone

  unfoldable pub IsGone : CoreClient n → n.Account → Type 0
  IsGone client a = account_frontier n client.frontiers_db a ≡ none

  pub dropped-IsSound :
      (client : CoreClient n) (a : n.Account)
      → IsSound n client
      → IsSound n (dropped n client a) × IsGone (dropped n client a) a
  unfolding IsGone
  dropped-IsSound client a sound =
      let derived =
        remove_one_derived n (IsOwnDerived n client.seed) client.wallet_db.derived_account_db a
          sound.wallet.derived_accounts in
      let (valid, gone) =
        after-Gone n client.frontiers_db a _ sound.frontiers
          (remove-Removes n client.frontiers_db a sound.frontiers) in
      (
        record {
          wallet = record {
            accounts = sound.wallet.accounts;
            camo_accounts = sound.wallet.camo_accounts;
            derived_accounts =
                after-All n (λ s. All (IsOwnDerived n client.seed) s.info)
                  client.wallet_db.derived_account_db _ _ sound.wallet.derived_accounts derived;
          };
          frontiers = valid;
        },
        gone,
      )

  remove_derived-keeps :
      (client : CoreClient n) (accounts : List n.Account) (b : n.Account)
      → IsSound n client
      → IsGone client b
      → IsGone (remove_derived n client accounts) b
  unfolding remove_derived IsGone
  remove_derived-keeps client [] b sound gone = gone
  remove_derived-keeps client (a ∷ accounts) b sound gone =
      remove_derived-keeps (dropped n client a) accounts b (dropped-IsSound client a sound).0 (
        stays-Gone client.frontiers_db a b _ gone
          (remove-Removes n client.frontiers_db a sound.frontiers))

  pub remove_derived-IsSound :
      (client : CoreClient n) (accounts : List n.Account)
      → IsSound n client
      → IsSound n (remove_derived n client accounts)
        × All (IsGone (remove_derived n client accounts)) accounts
        × ((remove_derived n client accounts).seed ≡ client.seed)
  unfolding remove_derived
  remove_derived-IsSound client [] sound = (sound, tt, refl)
  remove_derived-IsSound client (a ∷ accounts) sound =
      let (sound', gone) = dropped-IsSound client a sound in
      let (last, rest, same) = remove_derived-IsSound (dropped n client a) accounts sound' in
      (last, (remove_derived-keeps (dropped n client a) accounts a sound' gone, rest), same)

  -- the database after a removal, as a map from accounts
  pub after-view :
      (db : FrontiersDb n) (a b : n.Account)
      (r : Result (CoreClientError n) (FrontiersDb n × FrontierInfo n))
      → RemoveResult n db a r
      → account_frontier n (after db r) b
        ≡ (if eqb n.account_dec a b then none else account_frontier n db b)
  after-view db a b (ok (db', old)) removes = removes.view b
  after-view db a b (err e) (gone, _) = elim (Bool-cases (eqb n.account_dec a b)) [
    | inl same ↦ rw same (ap (account_frontier n db) (sym (eqb→eq n.account_dec a b same)) ∙ gone)
    | inr differ ↦ rw differ refl
  ]
  after-view db a b panic h = absurd h

  pub remove_derived-view :
      (client : CoreClient n) (accounts : List n.Account) (b : n.Account)
      → IsSound n client
      → account_frontier n (remove_derived n client accounts).frontiers_db b
        ≡ (if contains n accounts b then none else account_frontier n client.frontiers_db b)
  unfolding remove_derived contains
  remove_derived-view client [] b sound = refl
  remove_derived-view client (a ∷ accounts) b sound = ground (
    arith,
    remove_derived-view (dropped n client a) accounts b (dropped-IsSound client a sound).0,
    after-view client.frontiers_db a b (Db.remove n client.frontiers_db a)
        (remove-Removes n client.frontiers_db a sound.frontiers),
  )

  -- the loop changes no other database
  pub remove_derived-same :
      (client : CoreClient n) (accounts : List n.Account)
      → ((remove_derived n client accounts).wallet_db.account_db ≡ client.wallet_db.account_db)
        × ((remove_derived n client accounts).wallet_db.camo_account_db
            ≡ client.wallet_db.camo_account_db)
        × ((remove_derived n client accounts).config ≡ client.config)
  unfolding remove_derived
  remove_derived-same client [] = (refl, refl, refl)
  remove_derived-same client (a ∷ accounts) = remove_derived-same (dropped n client a) accounts
