-- ===== src/Client/Removal.antt =====
-- The removal of accounts, of client/core/src/client/mod.rs. What was removed stays removed where the
-- result is an error.
use camonanowallet.Base.{List, [], ◌∷◌, Result, ok, err, panic, ◌>>◌}
use camonanowallet.Nano.{Nano}
use camonanowallet.Error.{CoreClientError}
use camonanowallet.Frontiers.Info.{FrontierInfo}
use camonanowallet.Frontiers.Db.{FrontiersDb}
use camonanowallet.Frontiers.Db
use camonanowallet.Wallet.Db.{GenericInfo, GenericInfoDb}
use camonanowallet.Wallet.Derived.{DerivedAccountInfo, DerivedAccountDb}
use camonanowallet.Wallet.Db as Accounts
use camonanowallet.Wallet.Derived
use camonanowallet.Client.State.{CoreClient, get_derived_accounts_from_master}

-- the object after a method that returns it beside its result; an error leaves it as it was
abbrev pub after {ℓ κ} : {E S : Type ℓ} {A : Type κ} → S → Result E (S × A) → S
after s (ok (s', a)) = s'
after s (err e) = s
after s panic = s

abbrev pub value_of {ℓ κ} : {E S : Type ℓ} {A : Type κ} → Result E (S × A) → Result E A
value_of (ok (s, a)) = ok a
value_of (err e) = err e
value_of panic = panic

-- `map(|_| ())`
abbrev pub forget {ℓ κ} : {E : Type ℓ} {A : Type κ} → Result E A → Result E (Unit {0})
forget (ok a) = ok tt
forget (err e) = err e
forget panic = panic

-- `Result::or` of two results that are both computed first
abbrev pub or_result {κ} :
    {E : Type κ} → Result E (Unit {0}) → Result E (Unit {0}) → Result E (Unit {0})
or_result panic r = panic
or_result (err e) r = r
or_result (ok a) panic = panic
or_result (ok a) (ok b) = ok a
or_result (ok a) (err e) = ok a

module _ (n : Nano) where
  unfoldable pub remove_account :
      CoreClient n → n.Account → CoreClient n × Result (CoreClientError n) (FrontierInfo n)
  unfolding Accounts.remove Derived.remove Db.remove
  remove_account client account =
      let wallet = client.wallet_db in
      let normal = Accounts.remove n.account_dec n wallet.account_db account in
      let derived = Derived.remove n wallet.derived_account_db account in
      let frontier = Db.remove n client.frontiers_db account in
      (
        record client {
          wallet_db = record wallet {
            account_db = after wallet.account_db normal;
            derived_account_db = after wallet.derived_account_db derived;
          };
          frontiers_db = after client.frontiers_db frontier;
        },
        or_result (forget (value_of normal)) (forget (value_of derived)) >> value_of frontier,
      )

  -- the loop of `remove_camo_account`: errors are only logged
  unfoldable pub remove_derived : CoreClient n → List n.Account → CoreClient n
  unfolding Derived.remove Db.remove
  remove_derived client [] = client
  remove_derived client (a ∷ rest) =
      remove_derived
        (record client {
          wallet_db = record client.wallet_db {
            derived_account_db =
                after client.wallet_db.derived_account_db
                  (Derived.remove n client.wallet_db.derived_account_db a);
          };
          frontiers_db = after client.frontiers_db (Db.remove n client.frontiers_db a);
        })
        rest

  unfoldable pub remove_camo_account :
      CoreClient n → n.CamoAccount → CoreClient n × Result (CoreClientError n) (FrontierInfo n)
  unfolding get_derived_accounts_from_master remove_derived Accounts.remove Db.remove
  remove_camo_account client account =
      let client' = remove_derived client (get_derived_accounts_from_master n client account) in
      elim (Accounts.remove n.camo_dec n client'.wallet_db.camo_account_db account) [
        | ok (camo_account_db, _) ↦
            let frontier = Db.remove n client'.frontiers_db (n.signer_account account) in
            (
              record client' {
                wallet_db = record client'.wallet_db { camo_account_db = camo_account_db };
                frontiers_db = after client'.frontiers_db frontier;
              },
              value_of frontier,
            )
        | err e ↦ (client', err e)
        | panic ↦ (client', panic)
      ]
