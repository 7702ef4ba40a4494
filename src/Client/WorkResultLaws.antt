-- ===== src/Client/WorkResultLaws.antt =====
-- Finished work jobs leave a valid database behind.
use camonanowallet.Base.{
  ℕ, eqb, ℕ_discrete, ◌≡◌, ◌∙◌, refl, map, All, List, [], ◌∷◌, Result, ok, err, panic,
}
use camonanowallet.Nano.{Nano, Bytes8, Bytes32}
use camonanowallet.Error.{CoreClientError}
use camonanowallet.Config.{CoreClientConfig}
use camonanowallet.Frontiers.Info.{has_valid_work, work_hash}
use camonanowallet.Frontiers.Db.{FrontiersDb}
use camonanowallet.Frontiers.Query.{add_work}
use camonanowallet.Frontiers.Invariant.{IsValid}
use camonanowallet.Frontiers.Work.{WorkIsValid, CacheResult, add_work-CacheResult}
use camonanowallet.Rpc.Types.{RpcFailures}
use camonanowallet.Rpc.World.{RpcResult}
use camonanowallet.Rpc.BanLaws.{FailuresResult, handle_failures-FailuresResult}
use camonanowallet.Client.State.{CoreClient}
use camonanowallet.Client.WorkResults.{
  WorkResult, handle_rpc_failures, keep_work, handle_result, handle_each,
}

module _ (n : Nano) (clock : ℕ → ℕ) where
  -- a valid database in which all cached work passes the difficulty test
  abbrev pub HasValidWork : CoreClient n → Type 0
  HasValidWork client =
      IsValid n client.frontiers_db
      × All (WorkIsValid n client.config) client.frontiers_db.frontiers

  -- the blocks of all frontiers stay, and the database stays valid
  abbrev pub WorkKept : CoreClient n → Result (CoreClientError n) (CoreClient n) → Type 0
  WorkKept client (ok client') =
      HasValidWork client'
      × (map (λ f. f.block) client'.frontiers_db.frontiers
          ≡ map (λ f. f.block) client.frontiers_db.frontiers)
      × (client'.wallet_db ≡ client.wallet_db)
  WorkKept client (err e) = ⊥
  WorkKept client panic = Unit

  keep_work-WorkKept :
      (client : CoreClient n) (hash : Bytes32) (work : Bytes8)
      → HasValidWork client
      → WorkKept client (keep_work n clock client hash work)
  unfolding keep_work
  keep_work-WorkKept client hash work valid =
      go (add_work n client.config hash work client.frontiers_db)
        (add_work-CacheResult n client.config client.frontiers_db hash work valid.0 valid.1)
    where
      go :
          (r : Result (CoreClientError n) (FrontiersDb n))
          → CacheResult n client.config
              (λ f. eqb ℕ_discrete (work_hash n f) hash)
              work
              client.frontiers_db
              r
          → WorkKept client (elim r [
            | ok frontiers_db ↦ ok (record client { frontiers_db = frontiers_db })
            | err e ↦ ok client
            | panic ↦ panic
          ])
      go (ok db) (caches, _) = ((caches.valid, caches.works), caches.blocks, refl)
      go (err e) h = (valid, refl, refl)
      go panic h = tt

  after_failures :
      (client : CoreClient n) (failures : RpcFailures n)
      (r : Result (CoreClientError n) (CoreClientConfig n))
      → HasValidWork client
      → FailuresResult n client.config clock failures r
      → WorkKept client (elim r [
        | ok config ↦ ok (record client { config = config })
        | err e ↦ err e
        | panic ↦ panic
      ])
  unfolding has_valid_work
  after_failures client failures (ok config) valid (_, _, same) = rw same (valid, refl, refl)
  after_failures client failures (err e) valid h = h
  after_failures client failures panic valid h = tt

  -- one step after another
  then_kept :
      (client : CoreClient n) (r : Result (CoreClientError n) (CoreClient n))
      (next : CoreClient n → Result (CoreClientError n) (CoreClient n))
      → WorkKept client r
      → ((client' : CoreClient n) → HasValidWork client' → WorkKept client' (next client'))
      → WorkKept client (elim r [ ok client' ↦ next client' | err e ↦ err e | panic ↦ panic ])
  then_kept client (ok client') next (valid, same, wallet) step =
      go (next client') (step client' valid)
    where
      go : (r : Result (CoreClientError n) (CoreClient n)) → WorkKept client' r → WorkKept client r
      go (ok _) (v, s, k) = (v, s ∙ same, k ∙ wallet)
      go (err e) h = h
      go panic h = tt
  then_kept client (err e) next h step = h
  then_kept client panic next h step = tt

  handle_result-WorkKept :
      (client : CoreClient n) (hash : Bytes32) (r : RpcResult n Bytes8)
      → HasValidWork client
      → WorkKept client (handle_result n clock client hash r)
  unfolding handle_rpc_failures
  handle_result-WorkKept client hash (ok s) valid =
      then_kept client (handle_rpc_failures n clock client s.failures)
        (λ client'. keep_work n clock client' hash s.item)
        (after_failures client s.failures _ valid
          (handle_failures-FailuresResult n client.config clock s.failures))
        (λ client' v. keep_work-WorkKept client' hash s.item v)
  handle_result-WorkKept client hash (err e) valid = (valid, refl, refl)
  handle_result-WorkKept client hash panic valid = tt

  pub handle_each-WorkKept :
      (client : CoreClient n) (results : List (WorkResult n))
      → HasValidWork client
      → WorkKept client (handle_each n clock client results)
  unfolding handle_each
  handle_each-WorkKept client [] valid = (valid, refl, refl)
  handle_each-WorkKept client (result ∷ results) valid =
      then_kept client (handle_result n clock client result.work_hash result.rpc_result)
        (λ client'. handle_each n clock client' results)
        (handle_result-WorkKept client result.work_hash result.rpc_result valid)
        (λ client' v. handle_each-WorkKept client' results v)
