-- ===== src/App/Commands/Receive.antt =====
-- The command `receive` of client/src/interface.rs. The list of receivables that it prints without
-- arguments is not modelled.
use camonanowallet.Base.{
  Bool, true, Option, none, some, List, [], ◌∷◌, map, select, ok, err, if◌then◌else◌,
}
use camonanowallet.Nano.{Nano, Bytes32, Receivable}
use camonanowallet.Error.{CoreClientError}
use camonanowallet.Client.State.{contains}
use camonanowallet.Client.Receive.{ReceiveFailure, receive}
use camonanowallet.Rpc.Download.{is_empty}
use camonanowallet.App.Error.{Externals, ClientError}
use camonanowallet.App.State.{lookup, delete, insert_receivable}
use camonanowallet.App.Session.{
  Outside, Step, ◌>>=◌, ◌>>◌, pure, fail, get_client, modify, run, store_frontiers,
}

pub record ReceiveArgs (n : Nano) : Type 0 where
  pub blocks : List Bytes32
  pub accounts : List n.Account

-- `Option::and_then` of the results of a collected iterator
abbrev pub cons_option {ℓ} : {A : Type ℓ} → Option A → Option (List A) → Option (List A)
cons_option none rest = none
cons_option (some a) none = none
cons_option (some a) (some rest) = some (a ∷ rest)

module _ (n : Nano) where
  -- `collect` of an iterator of removals, which stops at the first hash that is missing; what was
  -- removed before stays removed
  unfoldable pub take_each :
      List (Bytes32 × Receivable n)
      → List Bytes32
      → List (Bytes32 × Receivable n) × Option (List (Receivable n))
  unfolding lookup delete
  take_each entries [] = (entries, some [])
  take_each entries (hash ∷ hashes) =
      let (entries', taken) = take_each (delete entries hash) hashes in
      elim (lookup entries hash) [
        | none ↦ (entries, none)
        | some r ↦ (entries', cons_option (some r) taken)
      ]

  -- the hashes of the receivables of some accounts
  abbrev pub hashes_to : List n.Account → List (Bytes32 × Receivable n) → List Bytes32
  hashes_to accounts entries =
      map (λ (entry : Bytes32 × Receivable n). entry.0)
        (select (λ (entry : Bytes32 × Receivable n). contains n accounts entry.1.recipient) entries)

  -- the receivables that are to be received are taken from the client
  unfoldable pub take : (x : Externals) → List Bytes32 → Step n x (List (Receivable n))
  unfolding take_each
  take x hashes s =
      let (entries, taken) = take_each s.client.receivable hashes in
      (
        record s { client = record s.client { receivable = entries } },
        elim taken [
          | none ↦ err (ClientError.core_client_error CoreClientError.account_not_found)
          | some rs ↦ ok rs
        ],
      )

module _ (n : Nano) (x : Externals) where
  abbrev pub unreceived_in : Option (ReceiveFailure n) → List (Receivable n)
  unreceived_in none = []
  unreceived_in (some failure) = failure.unreceived

  abbrev pub outcome_of : Option (ReceiveFailure n) → Step n x Bool
  outcome_of none = pure true
  outcome_of (some failure) = fail (ClientError.core_client_error failure.error)

  -- what was not received goes back to the client
  unfoldable pub receive_taken : Outside n → List (Receivable n) → Step n x Bool
  unfolding receive store_frontiers insert_receivable
  receive_taken outside receivables = do
    result ← run (λ core. receive n outside.env core receivables)
    store_frontiers outside.clock result.successes
    modify (λ client. insert_receivable n client (unreceived_in result.failures))
    outcome_of result.failures

  unfoldable pub receive_command : Outside n → ReceiveArgs n → Step n x Bool
  unfolding take receive_taken
  receive_command outside args =
      if is_empty args.blocks
      then (if is_empty args.accounts then pure true else do
        client ← get_client
        receivables ← take n x (hashes_to n args.accounts client.receivable)
        receive_taken outside receivables)
      else do receivables ← take n x args.blocks; receive_taken outside receivables
