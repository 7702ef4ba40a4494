-- ===== src/Rpc/Publish.antt =====
-- `ClientRpc` of client/core/src/rpc/client.rs: getting work for a block and publishing it.
use camonanowallet.Base.{none, some, [], ◌∷◌, ◌++◌, ok_or, if◌then◌else◌}
use camonanowallet.Nano.{Nano, Block, Bytes32, Bytes8}
use camonanowallet.Error.{CoreClientError}
use camonanowallet.Config.{CoreClientConfig}
use camonanowallet.Rpc.Types.{RpcSuccess}
use camonanowallet.Rpc.World.{World, Env, Action, ◌>>=◌, ◌>>◌, pure, lift, modify}
use camonanowallet.Rpc.Work.{request_work, wait_on}
use camonanowallet.Frontiers.Info.{FrontierInfo, work_hash}
use camonanowallet.Frontiers.Db.{FrontiersDb, account_frontier}

module _ (n : Nano) (env : Env n) (config : CoreClientConfig n) where
  -- `RpcManager::process`: the block is handed to a node, which answers
  abbrev pub process : Block n → Action n (RpcSuccess n Bytes32)
  process block w =
      (record w { published = w.published ++ block ∷ [] }, env.process w.published block)

  unfoldable pub get_work : FrontierInfo n → Action n (RpcSuccess n Bytes8)
  unfolding work_hash request_work wait_on
  get_work frontier = elim frontier.cached_work [
    | some work ↦ pure (record { item = work; failures = [] })
    | none ↦ do
      modify (request_work n env (work_hash n frontier))
      wait_on n env (work_hash n frontier)
  ]

  unfoldable pub publish : Block n → Action n (RpcSuccess n (FrontierInfo n))
  publish block = do
    success ← process block
    pure (record {
      item = record { block = block; cached_work = none };
      failures = success.failures;
    })

  unfoldable pub get_work_and_publish_unsynced :
      FrontierInfo n → Block n → Action n (RpcSuccess n (FrontierInfo n))
  unfolding get_work publish
  get_work_and_publish_unsynced frontier block = do
    work ← get_work frontier
    info ← publish (record block { work = work.item })
    pure (record { item = info.item; failures = work.failures ++ info.failures })

  unfoldable pub get_work_and_publish :
      FrontiersDb n → Block n → Action n (RpcSuccess n (FrontierInfo n))
  unfolding get_work_and_publish_unsynced account_frontier
  get_work_and_publish db block = do
    frontier ← lift (ok_or (account_frontier n db block.account) CoreClientError.account_not_found)
    get_work_and_publish_unsynced frontier block

  abbrev pub cache_next : Bytes32 → World n → World n
  cache_next hash w = if config.enable_work_cache then request_work n env hash w else w

  -- work for the next block is requested whether or not the block was published
  unfoldable pub auto_publish_unsynced :
      FrontierInfo n → Block n → Action n (RpcSuccess n (FrontierInfo n))
  unfolding get_work_and_publish_unsynced request_work
  auto_publish_unsynced frontier block w =
      let (w', result) = get_work_and_publish_unsynced frontier block w in
      (cache_next (n.hash block) w', result)

  unfoldable pub auto_publish : FrontiersDb n → Block n → Action n (RpcSuccess n (FrontierInfo n))
  unfolding auto_publish_unsynced account_frontier
  auto_publish db block = do
    frontier ← lift (ok_or (account_frontier n db block.account) CoreClientError.account_not_found)
    auto_publish_unsynced frontier block
