-- ===== src/Rpc/Types.antt =====
-- The data of client/core/src/rpc/wrapped.rs and result.rs.
use Prim.Native.String.{String}
use camonanowallet.Base.{ℕ, Bool, List}
use camonanowallet.Nano.{Nano}

pub record RpcCommands : Type 0 where
  pub account_balance : Bool
  pub account_history : Bool
  pub account_info : Bool
  pub account_representative : Bool
  pub accounts_balances : Bool
  pub accounts_frontiers : Bool
  pub accounts_receivable : Bool
  pub accounts_representatives : Bool
  pub block_info : Bool
  pub blocks_info : Bool
  pub process : Bool
  pub work_generate : Bool

pub record Rpc (n : Nano) : Type 0 where
  pub commands : RpcCommands
  pub banned_until : ℕ
  pub rpc : n.DebugRpc

pub record RpcFailure (n : Nano) : Type 0 where
  pub error : n.RpcError
  pub url : String

abbrev pub RpcFailures : Nano → Type 0
RpcFailures n = List (RpcFailure n)

pub record RpcSuccess (n : Nano) (A : Type 0) : Type 0 where
  pub item : A
  pub failures : RpcFailures n
