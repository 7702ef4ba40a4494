-- ===== src/Client/Untracking.antt =====
-- What `remove_camo_account` of client/core/src/client/mod.rs takes out of a client.
use camonanowallet.Base.{
  Bool, true, false, some, ◌⊎◌, if◌then◌else◌, ◌+◌, ◌≡◌, none, ◌∷◌, Result, ok, err, panic,
}
use camonanowallet.Nano.{Nano}
use camonanowallet.Error.{CoreClientError}
use camonanowallet.Frontiers.Info.{FrontierInfo}
use camonanowallet.Frontiers.Db.{account_frontier}
use camonanowallet.Wallet.Db.{GenericInfo, GenericInfoDb}
use camonanowallet.Wallet.Db as Accounts
use camonanowallet.Client.State.{contains, CoreClient, get_derived_accounts_from_master}
use camonanowallet.Client.RemovalCounts.{count, n_derived, TakesOne}

module _ (n : Nano) where
  -- One record of the camo account is gone, and its derived accounts are, each as often as it was
  -- found; other records are there as before. As a map from accounts, the frontiers are those of before
  -- without these accounts and the camo account's notification account.
  pub record Untracks (account : n.CamoAccount) (client client' : CoreClient n) : Type 0 where
    pub camo :
        TakesOne n.camo_dec n account client.wallet_db.camo_account_db.info
          client'.wallet_db.camo_account_db.info
    pub derived :
        (p : n.Account → Bool)
        → n_derived n p client.wallet_db.derived_account_db
          ≡ count p (get_derived_accounts_from_master n client account)
            + n_derived n p client'.wallet_db.derived_account_db
    pub normal : client'.wallet_db.account_db ≡ client.wallet_db.account_db
    pub config : client'.config ≡ client.config
    pub view :
        (b : n.Account)
        → account_frontier n client'.frontiers_db b ≡ (
            if contains n
              (n.signer_account account ∷ get_derived_accounts_from_master n client account)
              b
            then none
            else account_frontier n client.frontiers_db b)

  -- Success returns the frontier of the notification account. The error is an unknown camo account,
  -- and nothing has changed; or a notification account without a frontier that the loop left.
  abbrev pub CamoRemovalOutcome :
      CoreClient n
      → CoreClient n
      → n.CamoAccount
      → Result (CoreClientError n) (FrontierInfo n)
      → Type 0
  CamoRemovalOutcome client client' account (ok old) =
      Untracks account client client'
      × (account_frontier n client.frontiers_db (n.signer_account account) ≡ some old)
      × (account_frontier n client'.frontiers_db (n.signer_account account) ≡ none)
  CamoRemovalOutcome client client' account (err e) =
      (e ≡ CoreClientError.account_not_found)
      × (((Accounts.contains n.camo_dec client.wallet_db.camo_account_db account ≡ false)
            × (client' ≡ client))
          ⊎ (Untracks account client client'
              × ((contains n (get_derived_accounts_from_master n client account)
                      (n.signer_account account)
                    ≡ true)
                  ⊎ (account_frontier n client.frontiers_db (n.signer_account account) ≡ none))))
  CamoRemovalOutcome client client' account panic = ⊥
