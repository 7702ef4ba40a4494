-- ===== src/App/Keeps/Accounts.antt =====
-- The commands on the wallet's accounts keep the session sound.
use camonanowallet.Base.{
  ℕ, ◌≡◌, arith, inl, inr, Option-cases, Result-cases, true, Option, none, some, List, [], ◌∷◌, All,
  find-All, Result, ok, ok_or,
}
use camonanowallet.Nano.{Nano, Bytes32, Receivable}
use camonanowallet.Error.{CoreClientError}
use camonanowallet.Wallet.Db
use camonanowallet.Wallet.Db.{GenericInfo, GenericInfoDb}
use camonanowallet.Wallet.Derived.{DerivedAccountInfo, insert_many}
use camonanowallet.Wallet.Seed.{WalletSeed, get_key, get_camo_key, derive_key}
use camonanowallet.Wallet.Validity.{KeyLaws, IsOwnCamo, IsOwnDerived}
use camonanowallet.Wallet.Grow.{
  insert_account-IsValid, insert_camo_account-IsValid, DeriveResult, derive_key-DeriveResult,
  insert_many-IsValid,
}
use camonanowallet.Client.State.{CoreClient}
use camonanowallet.Client.History.{download_unknown_frontiers}
use camonanowallet.Client.RemovalLaws
use camonanowallet.Client.RemovalLaws.{remove_account-RemovalResult}
use camonanowallet.App.Error.{Externals, ClientError}
use camonanowallet.App.State.{
  Client, not_to, remove_receivable, remove_receivables, insert_receivable, with_derived,
}
use camonanowallet.App.Entries.{select-IsKeyed, insert_each-IsKeyed}
use camonanowallet.App.Session.{Session, Outside, pure, fail}
use camonanowallet.App.Sound.{
  IsSoundCore, IsSound, Keeps, Keeps-pure, Keeps-fail, Keeps-modify_core, Keeps-if, Keeps-bind,
  Keeps-get, Keeps-lift, store_frontiers-Keeps,
}
use camonanowallet.App.Commands.Accounts.{
  AccountArgs, add_camo_account, add_account, account, chosen_versions,
}
use camonanowallet.App.Commands.Notifications.{AckNotificationArgs, account_of, ack_notification}

module _ (n : Nano) (seed : WalletSeed) (x : Externals) where
  pub remove_receivable-IsSound :
      (client : Client n) (a : n.Account)
      → IsSound n seed client
      → IsSound n seed (remove_receivable n client a)
  unfolding remove_receivable
  remove_receivable-IsSound client a h = record {
    core = h.core;
    keyed = select-IsKeyed n (not_to n a) client.receivable h.keyed;
  }

  pub remove_receivables-IsSound :
      (client : Client n) (accounts : List n.Account)
      → IsSound n seed client
      → IsSound n seed (remove_receivables n client accounts)
  unfolding remove_receivables
  remove_receivables-IsSound client [] h = h
  remove_receivables-IsSound client (a ∷ rest) h =
      remove_receivables-IsSound (remove_receivable n client a) rest
        (remove_receivable-IsSound client a h)

  pub insert_receivable-IsSound :
      (client : Client n) (rs : List (Receivable n))
      → IsSound n seed client
      → IsSound n seed (insert_receivable n client rs)
  unfolding insert_receivable
  insert_receivable-IsSound client rs h = record {
    core = h.core;
    keyed = insert_each-IsKeyed n client.receivable rs h.keyed;
  }

  pub with_derived-IsSoundCore :
      (core : CoreClient n) (infos : List (DerivedAccountInfo n))
      → IsSoundCore n seed core
      → All (IsOwnDerived n seed) infos
      → IsSoundCore n seed (with_derived n core infos)
  with_derived-IsSoundCore core infos h own = record {
    same = h.same;
    wallet = insert_many-IsValid n seed core.wallet_db infos h.wallet own;
    frontiers = h.frontiers;
  }

  -- a core client as the theorems on removals see it
  pub sound_of : (core : CoreClient n) → IsSoundCore n seed core → RemovalLaws.IsSound n core
  sound_of core h = record { wallet = rw h.same h.wallet; frontiers = h.frontiers }

  pub of_sound :
      (core : CoreClient n)
      → core.seed ≡ seed
      → RemovalLaws.IsSound n core
      → IsSoundCore n seed core
  of_sound core same h = record {
    same = same;
    wallet = rw same at h.wallet;
    frontiers = h.frontiers;
  }

  pub account_of-Keeps : (bytes : Bytes32) → Keeps n seed x (account_of n x bytes)
  account_of-Keeps bytes = record { at = λ s h. go s (n.from_bytes bytes) h }
    where
      go :
          (s : Session n) (o : Option n.Account)
          → IsSound n seed s.client
          → IsSound n seed
              (elim o as (λ _. Session n × Result (ClientError n x) n.Account) [
                | none ↦ fail (ClientError.nano_error n.invalid_account) s
                | some a ↦ pure a s
              ]).0.client
      go s none h = h
      go s (some a) h = h

  module _ (laws : KeyLaws n) where
    add_account-Keeps :
        (index : ℕ) (versions : Option (List n.CamoVersion))
        → Keeps n seed x (add_account n x index versions)
    unfolding add_account
    add_account-Keeps index (some v) = Keeps-fail n seed x ClientError.invalid_arguments
    add_account-Keeps index none = record {
      at = λ s h.
          let core = s.client.core in
          elim (Result-cases (
            Db.insert n.account_dec n core.config core.wallet_db.account_db
              (get_key n core.seed index).1)) [
                | inl ((db, known), e) ↦
                    rw (add_account, e)
                      (record {
                        core = record {
                          same = h.core.same;
                          wallet =
                              insert_account-IsValid n seed core.config core.wallet_db index db
                                known h.core.wallet (rw h.core.same at e);
                          frontiers = h.core.frontiers;
                        };
                        keyed = h.keyed;
                      })
                | inr (inl (e', e)) ↦ rw (add_account, e) h
                | inr (inr e) ↦ rw (add_account, e) h
              ];
    }

    add_camo_account-Keeps :
        (index : ℕ) (versions : Option (List n.CamoVersion))
        → Keeps n seed x (add_camo_account n x index versions)
    unfolding add_camo_account
    add_camo_account-Keeps index versions = record {
      at = λ s h.
          let core = s.client.core in
          let chosen = n.new_versions (chosen_versions n x core.config versions) in
          elim (Option-cases (get_camo_key n core.seed index chosen)) [
            | inl e ↦ rw (add_camo_account, e) h
            | inr ((key, info), e) ↦
                elim (Result-cases
                  (Db.insert n.camo_dec n core.config core.wallet_db.camo_account_db info)) [
                    | inl ((db, known), f) ↦
                        rw (add_camo_account, e, f)
                          (record {
                            core = record {
                              same = h.core.same;
                              wallet =
                                  insert_camo_account-IsValid n seed core.config core.wallet_db
                                    index chosen key info db known laws h.core.wallet
                                    (rw h.core.same at e) f;
                              frontiers = h.core.frontiers;
                            };
                            keyed = h.keyed;
                          })
                    | inr (inl (e', f)) ↦ rw (add_camo_account, e, f) h
                    | inr (inr f) ↦ rw (add_camo_account, e, f) h
                  ]
          ];
    }

    pub account-Keeps :
        (outside : Outside n) (args : AccountArgs n) → Keeps n seed x (account n x outside args)
    unfolding account
    account-Keeps outside args =
        Keeps-bind n seed x _ _
          (Keeps-if n seed x args.camo _ _ (add_camo_account-Keeps args.index args.versions)
            (add_account-Keeps args.index args.versions))
          (λ _. Keeps-get n seed x _ (λ client sound.
            Keeps-lift n seed x (download_unknown_frontiers n outside.reads client.core) _
              (λ downloaded _.
                Keeps-bind n seed x _ _ (store_frontiers-Keeps n seed x outside.clock downloaded)
                  (λ _. Keeps-pure n seed x true))))

    tracked :
        (client : Client n)
        → IsSound n seed client
        → (account : n.CamoAccount) (info : GenericInfo n.CamoAccount)
        → ◌≡◌ {A = Result (CoreClientError n) (GenericInfo n.CamoAccount)}
            (ok_or
              (Db.get_info n.camo_dec client.core.wallet_db.camo_account_db account)
              CoreClientError.account_not_found)
            (ok info)
        → IsOwnCamo n seed info
    unfolding Db.get_info
    tracked client sound account info h =
        elim (Option-cases (Db.get_info n.camo_dec client.core.wallet_db.camo_account_db account)) [
          | inl e ↦ absurd (ground arith)
          | inr (info', e) ↦
              let q : info' ≡ info = ground arith in
              rw q at (
                find-All (IsOwnCamo n seed) (Db.is_account n.camo_dec account)
                  client.core.wallet_db.camo_account_db.info info' sound.core.wallet.camo_accounts
                  e)
        ]

    derived-own :
        (info : GenericInfo n.CamoAccount)
        (r : Result (CoreClientError n) (n.Key × DerivedAccountInfo n)) (key : n.Key)
        (derived : DerivedAccountInfo n)
        → DeriveResult n seed info r
        → r ≡ ok (key, derived)
        → IsOwnDerived n seed derived
    derived-own info r key derived h e = (rw e at h).0

    pub ack_notification-Keeps :
        (args : AckNotificationArgs n) → Keeps n seed x (ack_notification n x args)
    unfolding ack_notification insert_many
    ack_notification-Keeps args = Keeps-get n seed x _ (λ client sound.
        Keeps-lift n seed x
          (ok_or (Db.get_info n.camo_dec client.core.wallet_db.camo_account_db args.recipient)
            CoreClientError.account_not_found)
          _
          (λ info known.
            Keeps-bind n seed x (account_of n x args.notification) _
              (account_of-Keeps args.notification)
              (λ payload.
                Keeps-lift n seed x
                  (derive_key n client.core.seed info
                    (n.notification_v1 (n.signer_account args.recipient) payload))
                  _
                  (λ out made.
                    Keeps-bind n seed x _ _
                      (Keeps-modify_core n seed x _ (λ core h.
                        with_derived-IsSoundCore core (out.1 ∷ []) h (
                          own client sound info known
                              (n.notification_v1 (n.signer_account args.recipient) payload) out
                              made,
                          tt,
                        )))
                      (λ _. Keeps-pure n seed x true)))))
      where
        own :
            (client : Client n)
            → IsSound n seed client
            → (info : GenericInfo n.CamoAccount)
            → ◌≡◌ {A = Result (CoreClientError n) (GenericInfo n.CamoAccount)}
                (ok_or
                  (Db.get_info n.camo_dec client.core.wallet_db.camo_account_db args.recipient)
                  CoreClientError.account_not_found)
                (ok info)
            → (note : n.NotificationV1) (out : n.Key × DerivedAccountInfo n)
            → derive_key n client.core.seed info note ≡ ok out
            → IsOwnDerived n seed out.1
        own client sound info known note (key, derived) made =
            derived-own info _ key derived
              (derive_key-DeriveResult n seed info note laws
                (tracked client sound args.recipient info known))
              (rw sound.core.same at made)
