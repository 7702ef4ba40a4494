-- ===== src/Client/Receive.antt =====
-- client/core/src/client/receive.rs: the receipt of one block and of many. The map from accounts to
-- frontiers that `receive` keeps is an association list; the order in which a `HashMap` gives its
-- values is not modelled.
use camonanowallet.Base.{
  not, Option, none, some, List, [], ◌∷◌, ◌++◌, map, eqb, select, Result, ok, err, panic,
  if◌then◌else◌,
}
use camonanowallet.Nano.{Nano, Bytes32, Receivable}
use camonanowallet.Error.{CoreClientError}
use camonanowallet.Frontiers.Info.{FrontierInfo}
use camonanowallet.Frontiers.Db.{FrontiersDb, account_frontier}
use camonanowallet.Rpc.Types.{RpcFailures, RpcSuccess}
use camonanowallet.Rpc.World.{World, Env, Action, ◌>>=◌, pure, lift}
use camonanowallet.Rpc.Work.{contains_key}
use camonanowallet.Rpc.Publish.{auto_publish_unsynced}
use camonanowallet.Client.State.{CoreClient}
use camonanowallet.Client.Blocks.{create_receive_block}
use camonanowallet.Client.Camo.{known_frontier}

pub record ReceiveFailure (n : Nano) : Type 0 where
  pub error : CoreClientError n
  pub unreceived : List (Receivable n)

pub record ReceiveResult (n : Nano) : Type 0 where
  pub successes : RpcSuccess n (List (FrontierInfo n))
  pub failures : Option (ReceiveFailure n)

-- the local variables of `receive`
pub record Progress (n : Nano) : Type 0 where
  pub frontiers : List (n.Account × FrontierInfo n)
  pub rpc_failures : RpcFailures n
  pub last_error : Option (CoreClientError n)
  pub successfully_received : List Bytes32

module _ (n : Nano) where
  -- `HashMap::get` and `HashMap::insert`
  unfoldable pub lookup : List (n.Account × FrontierInfo n) → n.Account → Option (FrontierInfo n)
  lookup [] account = none
  lookup ((a, info) ∷ rest) account =
      let later = lookup rest account in if eqb n.account_dec a account then some info else later

  unfoldable pub put :
      List (n.Account × FrontierInfo n)
      → n.Account
      → FrontierInfo n
      → List (n.Account × FrontierInfo n)
  put [] account new = (account, new) ∷ []
  put ((a, info) ∷ rest) account new =
      let later = put rest account new in
      if eqb n.account_dec a account then (a, new) ∷ rest else (a, info) ∷ later

  -- the first loop; a recipient without a frontier is only logged
  unfoldable pub known_frontiers :
      FrontiersDb n
      → List (n.Account × FrontierInfo n)
      → List (Receivable n)
      → List (n.Account × FrontierInfo n)
  unfolding account_frontier put
  known_frontiers db known [] = known
  known_frontiers db known (r ∷ rs) = elim (account_frontier n db r.recipient) [
    | none ↦ known_frontiers db known rs
    | some info ↦ known_frontiers db (put known r.recipient info) rs
  ]

module _ (n : Nano) (env : Env n) where
  unfoldable pub receive_block :
      CoreClient n → Receivable n → Action n (RpcSuccess n (List (FrontierInfo n)))
  unfolding account_frontier create_receive_block auto_publish_unsynced
  receive_block client receivable = do
    frontier ← lift (known_frontier n client receivable.recipient)
    block ← lift (create_receive_block n env client receivable frontier none)
    info ← auto_publish_unsynced n env client.config frontier block
    pure (record { item = info.item ∷ []; failures = info.failures })

  unfoldable pub receive_block_unsynced :
      CoreClient n → Receivable n → FrontierInfo n → Action n (RpcSuccess n (FrontierInfo n))
  unfolding create_receive_block auto_publish_unsynced
  receive_block_unsynced client receivable frontier = do
    block ← lift (create_receive_block n env client receivable frontier none)
    auto_publish_unsynced n env client.config frontier block

  -- the body of the second loop: an error is kept, and the loop goes on
  abbrev pub record_result :
      Progress n
      → World n × Result (CoreClientError n) (RpcSuccess n (FrontierInfo n))
      → World n × Result (CoreClientError n) (Progress n)
  record_result progress (w, ok s) = (
    w,
    ok (record {
      frontiers = put n progress.frontiers s.item.block.account s.item;
      rpc_failures = progress.rpc_failures ++ s.failures;
      last_error = progress.last_error;
      successfully_received = progress.successfully_received ++ s.item.block.link ∷ [];
    }),
  )
  record_result progress (w, err e) = (w, ok (record progress { last_error = some e }))
  record_result progress (w, panic) = (w, panic)

  unfoldable pub receive_one : CoreClient n → Progress n → Receivable n → Action n (Progress n)
  unfolding lookup put receive_block_unsynced
  receive_one client progress receivable w =
      elim (lookup n progress.frontiers receivable.recipient) [
        | none ↦ (w, panic)
        | some frontier ↦
            record_result progress (receive_block_unsynced client receivable frontier w)
      ]

  unfoldable pub receive_each :
      CoreClient n → Progress n → List (Receivable n) → Action n (Progress n)
  unfolding receive_one
  receive_each client progress [] = pure progress
  receive_each client progress (r ∷ rs) =
      receive_one client progress r >>= λ progress'. receive_each client progress' rs

  -- the receivables whose block no success names
  abbrev pub unreceived_of : Progress n → List (Receivable n) → List (Receivable n)
  unreceived_of progress receivables =
      select (λ r. not (contains_key progress.successfully_received r.block_hash)) receivables

  -- the last steps, with the assertion that there is an error exactly if something was not received
  abbrev pub finish : List (Receivable n) → Progress n → Action n (ReceiveResult n)
  finish receivables progress w = elim progress.last_error [
    | none ↦ elim (unreceived_of progress receivables) [
      | [] ↦ (
        w,
        ok (record {
          successes = record {
            item = map (λ entry. entry.1) progress.frontiers;
            failures = progress.rpc_failures;
          };
          failures = none;
        }),
      )
      | (r ∷ rs) ↦ (w, panic)
    ]
    | some e ↦ elim (unreceived_of progress receivables) [
      | [] ↦ (w, panic)
      | (r ∷ rs) ↦ (
        w,
        ok (record {
          successes = record {
            item = map (λ entry. entry.1) progress.frontiers;
            failures = progress.rpc_failures;
          };
          failures = some (record { error = e; unreceived = r ∷ rs });
        }),
      )
    ]
  ]

  unfoldable pub receive : CoreClient n → List (Receivable n) → Action n (ReceiveResult n)
  unfolding known_frontiers receive_each
  receive client receivables =
      receive_each client
        (record {
          frontiers = known_frontiers n client.frontiers_db [] receivables;
          rpc_failures = [];
          last_error = none;
          successfully_received = [];
        })
        receivables
      >>= finish receivables
