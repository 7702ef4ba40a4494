-- ===== src/App/Session.antt =====
-- The state that a command changes, and the steps that commands are made of. What is printed is not
-- modelled.
use camonanowallet.Base.{ℕ, Bool, List, [], ◌∷◌, leb, Result, ok, err, panic, if◌then◌else◌}
use camonanowallet.Nano.{Nano, Bytes32}
use camonanowallet.Error.{CoreClientError}
use camonanowallet.Frontiers.Info.{FrontierInfo}
use camonanowallet.Frontiers.Query.{needs_work}
use camonanowallet.Rpc.Types.{RpcSuccess}
use camonanowallet.Rpc.World.{World, Env, Action}
use camonanowallet.Rpc.Reads.{Reads}
use camonanowallet.Rpc.Work.{n_requests, request_work}
use camonanowallet.Client.State.{CoreClient, set_new_frontiers}
use camonanowallet.Client.WorkResults.{handle_rpc_failures, handle_work_results}
use camonanowallet.App.Error.{Externals, ClientError}
use camonanowallet.App.State.{Client}

pub record Session (n : Nano) : Type 0 where
  pub client : Client n
  pub world : World n

-- what a command finds outside: nodes, work jobs, the clock, and which jobs are finished
pub record Outside (n : Nano) : Type 0 where
  pub env : Env n
  pub reads : Reads n
  pub clock : ℕ → ℕ
  pub finished : Bytes32 → Bool

-- what the execution of a command finds outside: at the update of the work cache before it, while the
-- command runs, and at the update after it
pub record Moments (n : Nano) : Type 0 where
  pub before : Outside n
  pub during : Outside n
  pub after : Outside n

-- a step that changes the session and may fail; the changes stay
abbrev pub Step : Nano → Externals → Type 0 → Type 0
Step n x A = Session n → Session n × Result (ClientError n x) A

infixl 5 ◌>>=◌ ◌>>◌
abbrev pub ◌>>=◌ :
    {n : Nano} {x : Externals} {A B : Type 0} → Step n x A → (A → Step n x B) → Step n x B
◌>>=◌ m f s =
    let (s', r) = m s in elim r [ ok a ↦ f a s' | err e ↦ (s', err e) | panic ↦ (s', panic) ]

abbrev pub ◌>>◌ : {n : Nano} {x : Externals} {A B : Type 0} → Step n x A → Step n x B → Step n x B
m >> k = m >>= λ _. k

module _ {n : Nano} {x : Externals} where
  abbrev pub pure : {A : Type 0} → A → Step n x A
  pure a s = (s, ok a)

  abbrev pub fail : {A : Type 0} → ClientError n x → Step n x A
  fail e s = (s, err e)

  abbrev pub get_client : Step n x (Client n)
  get_client s = (s, ok s.client)

  abbrev pub modify : (Client n → Client n) → Step n x (Unit {0})
  modify f s = (record s { client = f s.client }, ok tt)

  abbrev pub modify_core : (CoreClient n → CoreClient n) → Step n x (Unit {0})
  modify_core f = modify (λ client. record client { core = f client.core })

  -- the operator `?` on a result of the core client
  abbrev pub from_core : {A : Type 0} → Result (CoreClientError n) A → Result (ClientError n x) A
  from_core (ok a) = ok a
  from_core (err e) = err (ClientError.core_client_error e)
  from_core panic = panic

  abbrev pub lift : {A : Type 0} → Result (CoreClientError n) A → Step n x A
  lift r s = (s, from_core r)

  -- an asynchronous method of the core client
  abbrev pub run : {A : Type 0} → (CoreClient n → Action n A) → Step n x A
  run action s = let (w, r) = action s.client.core s.world in (record s { world = w }, from_core r)

  -- the same of a method of the client that changes it and may fail
  abbrev pub change :
      (Client n → Client n × Result (CoreClientError n) (Unit {0})) → Step n x (Unit {0})
  change f s = let (client, r) = f s.client in (record s { client = client }, from_core r)

  abbrev pub change_core :
      (CoreClient n → CoreClient n × Result (CoreClientError n) (Unit {0})) → Step n x (Unit {0})
  change_core f =
      change (λ client. let (core, r) = f client.core in (record client { core = core }, r))

  -- `handle_rpc_success`, which gives the item
  unfoldable pub handle_rpc_success : {A : Type 0} → (ℕ → ℕ) → RpcSuccess n A → Step n x A
  unfolding handle_rpc_failures
  handle_rpc_success clock success s =
      elim (handle_rpc_failures n clock s.client.core success.failures) [
        | ok core ↦ (record s { client = record s.client { core = core } }, ok success.item)
        | err e ↦ (s, err (ClientError.core_client_error e))
        | panic ↦ (s, panic)
      ]

  -- what the commands do with the frontiers that they get
  unfoldable pub store_frontiers :
      (ℕ → ℕ) → RpcSuccess n (List (FrontierInfo n)) → Step n x (Unit {0})
  unfolding handle_rpc_success set_new_frontiers
  store_frontiers clock success = do
    frontiers ← handle_rpc_success clock success
    change_core (λ core. set_new_frontiers n core frontiers)

-- the loop over the hashes that need work, until two jobs run
unfoldable pub request_each : (n : Nano) → Env n → List Bytes32 → World n → World n
unfolding n_requests request_work
request_each n env [] w = w
request_each n env (hash ∷ hashes) w =
    let w' = request_each n env hashes (request_work n env hash w) in
    if leb 2 (n_requests n env w) then w else w'

-- `update_work_cache`: the result tells whether the wallet is to be saved
unfoldable pub update_work_cache : (n : Nano) (x : Externals) → Outside n → Step n x Bool
unfolding handle_work_results needs_work request_each
update_work_cache n x outside = do
  (core, should_save) ← run (handle_work_results n outside.clock outside.env outside.finished)
  modify_core (λ _. core)
  (λ s. (
    record s {
      world = request_each n outside.env (needs_work n s.client.core.frontiers_db) s.world;
    },
    ok should_save,
  ))
