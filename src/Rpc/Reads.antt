-- ===== src/Rpc/Reads.antt =====
-- What the nodes answer to the commands that change nothing: the methods of `RpcManager` that the
-- downloads call, after their retries.
use camonanowallet.Base.{ℕ, Option, List}
use camonanowallet.Nano.{Nano, Block, BlockInfo, Bytes32, Receivable}
use camonanowallet.Rpc.World.{RpcResult}

pub record Reads (n : Nano) : Type 0 where
  pub accounts_frontiers : List n.Account → RpcResult n (List (Option Bytes32))
  pub blocks_info : List Bytes32 → RpcResult n (List (Option (BlockInfo n)))
  pub block_info : Bytes32 → RpcResult n (Option (BlockInfo n))
  -- with `count` and `threshold`
  pub accounts_receivable : List n.Account → ℕ → ℕ → RpcResult n (List (List (Receivable n)))
  -- with `count`, `head` and `offset`
  pub account_history : n.Account → ℕ → Option Bytes32 → Option ℕ → RpcResult n (List (Block n))
