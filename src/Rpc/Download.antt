-- ===== src/Rpc/Download.antt =====
-- `ClientRpc::download_frontiers` of client/core/src/rpc/client.rs. A `NewFrontiers` is its list.
use camonanowallet.Base.{
  Bool, true, false, Option, none, some, List, [], ◌∷◌, ◌++◌, map, eqb, ok, ◌>>=◌, if◌then◌else◌,
}
use camonanowallet.Nano.{Nano, BlockInfo, Bytes32}
use camonanowallet.Frontiers.Info.{FrontierInfo, new_unopened}
use camonanowallet.Frontiers.Db.{FrontiersDb, account_frontier, check_new}
use camonanowallet.Frontiers.Query.{filter_known_hashes}
use camonanowallet.Rpc.World.{RpcResult}
use camonanowallet.Rpc.Reads.{Reads}

abbrev pub is_empty {ℓ} : {A : Type ℓ} → List A → Bool
is_empty [] = true
is_empty (x ∷ xs) = false

-- `into_iter().flatten()` of options, and of lists
abbrev pub flatten {ℓ} : {A : Type ℓ} → List (Option A) → List A
flatten [] = []
flatten (none ∷ os) = flatten os
flatten (some a ∷ os) = a ∷ flatten os

abbrev pub concat {ℓ} : {A : Type ℓ} → List (List A) → List A
concat [] = []
concat (xs ∷ xss) = xs ++ concat xss

module _ (n : Nano) where
  -- `existing_block != Some(&new.block)`
  abbrev pub differs_from : FrontierInfo n → Option (FrontierInfo n) → Bool
  differs_from new none = true
  differs_from new (some old) = if eqb n.block_dec old.block new.block then false else true

  -- an account without blocks, unless the database has it as such
  unfoldable pub add_unopened :
      FrontiersDb n → n.Account → List (FrontierInfo n) → List (FrontierInfo n)
  unfolding account_frontier new_unopened
  add_unopened db account new =
      if differs_from (new_unopened n account) (account_frontier n db account)
      then new_unopened n account ∷ new
      else new

  -- the loop over the accounts and their hashes: the hashes, and the frontiers of unopened accounts
  unfoldable pub sort_hashes :
      FrontiersDb n → List (Option Bytes32) → List n.Account → List Bytes32 × List (FrontierInfo n)
  unfolding add_unopened
  sort_hashes db [] accounts = ([], [])
  sort_hashes db (h ∷ hs) [] = ([], [])
  sort_hashes db (some hash ∷ hs) (a ∷ as_) =
      let (hashes, new) = sort_hashes db hs as_ in (hash ∷ hashes, new)
  sort_hashes db (none ∷ hs) (a ∷ as_) =
      let (hashes, new) = sort_hashes db hs as_ in (hashes, add_unopened db a new)

  -- `NewFrontiers::from` of block infos
  abbrev pub from_infos : List (BlockInfo n) → List (FrontierInfo n)
  from_infos infos = map (λ info. record { block = info.block; cached_work = none }) infos

  unfoldable pub download_blocks : Reads n → List Bytes32 → RpcResult n (List (FrontierInfo n))
  download_blocks reads hashes =
      if is_empty hashes
      then ok (record { item = []; failures = [] })
      else (reads.blocks_info hashes >>= λ s.
          ok (record { item = from_infos (flatten s.item); failures = s.failures }))

  unfoldable pub download_frontiers :
      Reads n → FrontiersDb n → List n.Account → RpcResult n (List (FrontierInfo n))
  unfolding sort_hashes filter_known_hashes download_blocks check_new
  download_frontiers reads db accounts =
      if is_empty accounts then ok (record { item = []; failures = [] }) else do
        raw ← reads.accounts_frontiers accounts
        let (hashes, unopened) = sort_hashes db raw.item accounts
        blocks ← download_blocks reads (filter_known_hashes n db hashes)
        _ ← check_new n db (unopened ++ blocks.item)
        ok (record { item = unopened ++ blocks.item; failures = raw.failures ++ blocks.failures })
