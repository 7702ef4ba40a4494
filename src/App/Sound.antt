-- ===== src/App/Sound.antt =====
-- What the commands keep: the wallet and the frontiers of the core client are valid, and the
-- receivables stand under their hashes. One rule for each way to build a step.
use camonanowallet.Base.{
  ℕ, ◌≡◌, refl, arith, inl, inr, Result-cases, Bool, true, false, List, Result, ok, err, panic,
  if◌then◌else◌,
}
use camonanowallet.Nano.{Nano}
use camonanowallet.Error.{CoreClientError}
use camonanowallet.Config.{CoreClientConfig}
use camonanowallet.Frontiers.Info.{FrontierInfo}
use camonanowallet.Frontiers.Db.{FrontiersDb}
use camonanowallet.Frontiers.Db
use camonanowallet.Frontiers.Invariant
use camonanowallet.Frontiers.Insert.{Inserts, insert-Inserts}
use camonanowallet.Wallet.Seed.{WalletSeed}
use camonanowallet.Wallet.Validity.{IsValid}
use camonanowallet.Rpc.Types.{RpcFailures, RpcSuccess}
use camonanowallet.Rpc.World.{Action}
use camonanowallet.Rpc.Manager.{handle_failures}
use camonanowallet.Client.State.{CoreClient, set_new_frontiers}
use camonanowallet.Client.WorkResults.{handle_rpc_failures}
use camonanowallet.App.Error.{Externals, ClientError}
use camonanowallet.App.State.{Client}
use camonanowallet.App.Entries.{IsKeyed}
use camonanowallet.App.Session.{
  Session, Step, ◌>>=◌, pure, fail, get_client, modify, modify_core, change, change_core, lift, run,
  handle_rpc_success, store_frontiers,
}

-- a core client of the seed with valid databases
pub record IsSoundCore (n : Nano) (seed : WalletSeed) (core : CoreClient n) : Type 0 where
  pub same : core.seed ≡ seed
  pub wallet : IsValid n seed core.wallet_db
  pub frontiers : Invariant.IsValid n core.frontiers_db

pub record IsSound (n : Nano) (seed : WalletSeed) (client : Client n) : Type 0 where
  pub core : IsSoundCore n seed client.core
  pub keyed : IsKeyed n client.receivable

module _ (n : Nano) (seed : WalletSeed) (x : Externals) where
  -- the step keeps a session sound, whether or not it fails
  pub record Keeps {A : Type 0} (m : Step n x A) : Type 0 where
    pub at : (s : Session n) → IsSound n seed s.client → IsSound n seed (m s).0.client

  pub Keeps-same :
      {A : Type 0} (m : Step n x A) → ((s : Session n) → (m s).0.client ≡ s.client) → Keeps m
  Keeps-same m e = record { at = λ s h. rw (e s) h }

  pub Keeps-pure : {A : Type 0} (a : A) → Keeps (pure a)
  Keeps-pure a = record { at = λ s h. h }

  pub Keeps-fail : {A : Type 0} (e : ClientError n x) → Keeps {A = A} (fail e)
  Keeps-fail e = record { at = λ s h. h }

  pub Keeps-run : {A : Type 0} (action : CoreClient n → Action n A) → Keeps (run action)
  Keeps-run action = record { at = λ s h. h }

  pub Keeps-modify :
      (f : Client n → Client n)
      → ((client : Client n) → IsSound n seed client → IsSound n seed (f client))
      → Keeps (modify f)
  Keeps-modify f k = record { at = λ s h. k s.client h }

  pub Keeps-modify_core :
      (f : CoreClient n → CoreClient n)
      → ((core : CoreClient n) → IsSoundCore n seed core → IsSoundCore n seed (f core))
      → Keeps (modify_core f)
  Keeps-modify_core f k = record {
    at = λ s h. record { core = k s.client.core h.core; keyed = h.keyed };
  }

  pub Keeps-change :
      (f : Client n → Client n × Result (CoreClientError n) (Unit {0}))
      → ((client : Client n) → IsSound n seed client → IsSound n seed (f client).0)
      → Keeps (change f)
  Keeps-change f k = record { at = λ s h. k s.client h }

  pub Keeps-change_core :
      (f : CoreClient n → CoreClient n × Result (CoreClientError n) (Unit {0}))
      → ((core : CoreClient n) → IsSoundCore n seed core → IsSoundCore n seed (f core).0)
      → Keeps (change_core f)
  Keeps-change_core f k = record {
    at = λ s h. record { core = k s.client.core h.core; keyed = h.keyed };
  }

  pub Keeps-if :
      {A : Type 0} (b : Bool) (m k : Step n x A) → Keeps m → Keeps k → Keeps (if b then m else k)
  Keeps-if true m k h g = h
  Keeps-if false m k h g = g

  -- after a step, from the state and the result that it leaves
  Keeps-after :
      {A B : Type 0} (f : A → Step n x B) (s' : Session n) (r : Result (ClientError n x) A)
      → IsSound n seed s'.client
      → ((a : A) → r ≡ ok a → Keeps (f a))
      → IsSound n seed
          (elim r as (λ _. Session n × Result (ClientError n x) B) [
            | ok a ↦ f a s'
            | err e ↦ (s', err e)
            | panic ↦ (s', panic)
          ]).0.client
  Keeps-after f s' (ok a) h k = (k a refl).at s' h
  Keeps-after f s' (err e) h k = h
  Keeps-after f s' panic h k = h

  pub Keeps-bind :
      {A B : Type 0} (m : Step n x A) (f : A → Step n x B)
      → Keeps m
      → ((a : A) → Keeps (f a))
      → Keeps (m >>= f)
  Keeps-bind m f km kf = record {
    at = λ s h. Keeps-after f (m s).0 (m s).1 (km.at s h) (λ a _. kf a);
  }

  -- the rest may use that the client that it gets is sound
  pub Keeps-get :
      {B : Type 0} (f : Client n → Step n x B)
      → ((client : Client n) → IsSound n seed client → Keeps (f client))
      → Keeps (get_client >>= f)
  Keeps-get f k = record { at = λ s h. (k s.client h).at s h }

  -- the rest may use what the result is
  pub Keeps-lift :
      {A B : Type 0} (r : Result (CoreClientError n) A) (f : A → Step n x B)
      → ((a : A) → r ≡ ok a → Keeps (f a))
      → Keeps (lift r >>= f)
  Keeps-lift (ok a) f k = record { at = λ s h. (k a refl).at s h }
  Keeps-lift (err e) f k = record { at = λ s h. h }
  Keeps-lift panic f k = record { at = λ s h. h }

  -- the failures of nodes change the configuration only
  failures-IsSoundCore :
      (core : CoreClient n) (r : Result (CoreClientError n) (CoreClientConfig n))
      → IsSoundCore n seed core
      → (core' : CoreClient n)
      → (elim r as (λ _. Result (CoreClientError n) (CoreClient n)) [
        | ok config ↦ ok (record core { config = config })
        | err e ↦ err e
        | panic ↦ panic
      ])
        ≡ ok core'
      → IsSoundCore n seed core'
  failures-IsSoundCore core (ok config) h core' e =
      let q : record core { config = config } ≡ core' = ground arith in
      rw (← q) (record { same = h.same; wallet = h.wallet; frontiers = h.frontiers })
  failures-IsSoundCore core (err e') h core' e = cc
  failures-IsSoundCore core panic h core' e = cc

  pub handle_rpc_failures-IsSoundCore :
      (clock : ℕ → ℕ) (core core' : CoreClient n) (failures : RpcFailures n)
      → IsSoundCore n seed core
      → handle_rpc_failures n clock core failures ≡ ok core'
      → IsSoundCore n seed core'
  unfolding handle_rpc_failures
  handle_rpc_failures-IsSoundCore clock core core' failures h =
      failures-IsSoundCore core (handle_failures n clock core.config failures) h core'

  pub set_new_frontiers-IsSoundCore :
      (core : CoreClient n) (new : List (FrontierInfo n))
      → IsSoundCore n seed core
      → IsSoundCore n seed (set_new_frontiers n core new).0
  unfolding set_new_frontiers
  set_new_frontiers-IsSoundCore core new h = record {
    same = h.same;
    wallet = h.wallet;
    frontiers =
        go (Db.insert n core.frontiers_db new) (insert-Inserts n core.frontiers_db new h.frontiers);
  }
    where
      go :
          (r : FrontiersDb n × Result (CoreClientError n) (Unit {0}))
          → Inserts n core.frontiers_db new r
          → Invariant.IsValid n r.0
      go (db', ok _) k = k.valid
      go (db', err e) (done, f, rest, (split, inl (holds, why))) = holds.valid
      go (db', err e) (done, f, rest, (split, inr (same, why))) = rw same h.frontiers
      go (db', panic) k = absurd k

  -- the outcome of `handle_rpc_success`
  abbrev RpcHandled : {A : Type 0} → A → Session n × Result (ClientError n x) A → Type 0
  RpcHandled item (s', ok a) = IsSound n seed s'.client × (item ≡ a)
  RpcHandled item (s', err e) = IsSound n seed s'.client
  RpcHandled item (s', panic) = IsSound n seed s'.client

  handle_rpc_success-RpcHandled :
      {A : Type 0} (clock : ℕ → ℕ) (success : RpcSuccess n A) (s : Session n)
      → IsSound n seed s.client
      → RpcHandled success.item (handle_rpc_success {x = x} clock success s)
  unfolding handle_rpc_success
  handle_rpc_success-RpcHandled clock success s h =
      elim (Result-cases (handle_rpc_failures n clock s.client.core success.failures)) [
        | inl (core', e) ↦
            rw (e, handle_rpc_success)
              (
                record {
                  core =
                      handle_rpc_failures-IsSoundCore clock s.client.core core' success.failures
                        h.core e;
                  keyed = h.keyed;
                },
                refl,
              )
        | inr (inl (e', e)) ↦ rw (e, handle_rpc_success) h
        | inr (inr e) ↦ rw (e, handle_rpc_success) h
      ]

  after-RpcHandled :
      {A B : Type 0} (item : A) (f : A → Step n x B) (out : Session n × Result (ClientError n x) A)
      → RpcHandled item out
      → Keeps (f item)
      → IsSound n seed
          (elim out.1 as (λ _. Session n × Result (ClientError n x) B) [
            | ok a ↦ f a out.0
            | err e ↦ (out.0, err e)
            | panic ↦ (out.0, panic)
          ]).0.client
  after-RpcHandled item f (s', ok a) (h, is) k = (rw is at k).at s' h
  after-RpcHandled item f (s', err e) h k = h
  after-RpcHandled item f (s', panic) h k = h

  -- the rest of the block gets the item
  pub Keeps-rpc :
      {A B : Type 0} (clock : ℕ → ℕ) (success : RpcSuccess n A) (f : A → Step n x B)
      → Keeps (f success.item)
      → Keeps (handle_rpc_success clock success >>= f)
  Keeps-rpc clock success f k = record {
    at = λ s h.
        after-RpcHandled success.item f (handle_rpc_success clock success s)
          (handle_rpc_success-RpcHandled clock success s h) k;
  }

  pub store_frontiers-Keeps :
      (clock : ℕ → ℕ) (success : RpcSuccess n (List (FrontierInfo n)))
      → Keeps (store_frontiers clock success)
  unfolding store_frontiers
  store_frontiers-Keeps clock success =
      Keeps-rpc clock success
        (λ frontiers. change_core (λ core. set_new_frontiers n core frontiers))
        (Keeps-change_core (λ core. set_new_frontiers n core success.item)
          (λ core h. set_new_frontiers-IsSoundCore core success.item h))
