-- ===== src/Client/WorkResults.antt =====
-- The results of finished work jobs: `WorkManager::get_results` of client/core/src/rpc/work.rs, and
-- `CoreClient::handle_work_results` of client/core/src/client/mod.rs.
use camonanowallet.Base.{
  ℕ, Bool, true, false, not, List, [], ◌∷◌, ◌==◌, select, Result, ok, err, panic, if◌then◌else◌,
}
use camonanowallet.Nano.{Nano, Bytes8, Bytes32}
use camonanowallet.Error.{CoreClientError}
use camonanowallet.Frontiers.Query.{add_work}
use camonanowallet.Rpc.Types.{RpcFailures}
use camonanowallet.Rpc.World.{Env, RpcResult, Action, ◌>>=◌, ◌>>◌, pure}
use camonanowallet.Rpc.Work.{contains_key}
use camonanowallet.Rpc.Manager.{handle_failures}
use camonanowallet.Client.State.{CoreClient}

pub record WorkResult (n : Nano) : Type 0 where
  pub work_hash : Bytes32
  pub rpc_result : RpcResult n Bytes8

module _ (n : Nano) (env : Env n) where
  -- `handles.remove(&work_hash).expect(..)`
  abbrev pub take_handle : Bytes32 → Action n (Unit {0})
  take_handle hash w =
      if contains_key w.handles hash
      then (record w { handles = select (λ h. not (h == hash)) w.handles }, ok tt)
      else (w, panic)

  unfoldable pub resolve_each : List Bytes32 → Action n (List (WorkResult n))
  resolve_each [] = pure []
  resolve_each (hash ∷ hashes) =
      take_handle hash
      >> (resolve_each hashes >>= λ rest.
          pure (record { work_hash = hash; rpc_result = env.work hash } ∷ rest))

  -- `finished` tells which jobs are finished
  unfoldable pub get_results : (Bytes32 → Bool) → Action n (List (WorkResult n))
  unfolding resolve_each
  get_results finished w = resolve_each (select finished w.handles) w

module _ (n : Nano) (clock : ℕ → ℕ) where
  -- `handle_rpc_success` without its item
  unfoldable pub handle_rpc_failures :
      CoreClient n → RpcFailures n → Result (CoreClientError n) (CoreClient n)
  unfolding handle_failures
  handle_rpc_failures client failures = elim (handle_failures n clock client.config failures) [
    | ok config ↦ ok (record client { config = config })
    | err e ↦ err e
    | panic ↦ panic
  ]

  -- an error of `add_work` is only logged
  unfoldable pub keep_work :
      CoreClient n → Bytes32 → Bytes8 → Result (CoreClientError n) (CoreClient n)
  unfolding add_work
  keep_work client hash work = elim (add_work n client.config hash work client.frontiers_db) [
    | ok frontiers_db ↦ ok (record client { frontiers_db = frontiers_db })
    | err e ↦ ok client
    | panic ↦ panic
  ]

  -- the body of the loop of `handle_work_results`
  abbrev pub handle_result :
      CoreClient n → Bytes32 → RpcResult n Bytes8 → Result (CoreClientError n) (CoreClient n)
  handle_result client hash (ok s) = elim (handle_rpc_failures client s.failures) [
    | ok client' ↦ keep_work client' hash s.item
    | err e ↦ err e
    | panic ↦ panic
  ]
  handle_result client hash (err e) = ok client
  handle_result client hash panic = panic

  unfoldable pub handle_each :
      CoreClient n → List (WorkResult n) → Result (CoreClientError n) (CoreClient n)
  unfolding handle_rpc_failures keep_work
  handle_each client [] = ok client
  handle_each client (result ∷ results) =
      elim (handle_result client result.work_hash result.rpc_result) [
        | ok client' ↦ handle_each client' results
        | err e ↦ err e
        | panic ↦ panic
      ]

  -- the result tells whether anything is to be saved
  unfoldable pub handle_work_results :
      Env n → (Bytes32 → Bool) → CoreClient n → Action n (CoreClient n × Bool)
  unfolding get_results handle_each
  handle_work_results env finished client = get_results n env finished >>= λ results. λ w.
      elim (handle_each client results) [
        | ok client' ↦ (w, ok (client', elim results [ [] ↦ false | (_ ∷ _) ↦ true ]))
        | err e ↦ (w, err e)
        | panic ↦ (w, panic)
      ]
