-- ===== src/Config.antt =====
-- `CoreClientConfig` of client/core/src/config.rs.
use camonanowallet.Base.{ℕ, Bool, List}
use camonanowallet.Nano.{Nano}
use camonanowallet.Rpc.Types.{Rpc}

pub record CoreClientConfig (n : Nano) : Type 0 where
  pub normal_dust_threshold : ℕ
  pub db_number_of_accounts_limit : ℕ
  pub rpc_invalid_data_ban_time : ℕ
  pub rpc_failure_ban_time : ℕ
  pub rpc_use_banned_nodes_as_backup : Bool
  pub rpc_retry_limit : ℕ
  pub work_difficulty : ℕ
  pub rpc_accounts_receivable_batch_size : ℕ
  pub rpc_account_history_batch_size : ℕ
  pub rpc_receive_transactions_batch_size : ℕ
  pub enable_work_cache : Bool
  pub default_camo_versions : List n.CamoVersion
  pub representatives : List n.Account
  pub rpcs : List (Rpc n)
