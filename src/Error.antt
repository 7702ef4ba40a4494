-- ===== src/Error.antt =====
-- `CoreClientError` of client/core/src/error.rs.
use camonanowallet.Nano.{Nano}

pub data CoreClientError (n : Nano) : Type 0 where
  nano_error : n.NanoError → CoreClientError n
  rpc_error : n.RpcError → CoreClientError n
  join_error : n.JoinError → CoreClientError n
  rpc_command_failed : CoreClientError n
  no_usable_rpcs : CoreClientError n
  invalid_seed : CoreClientError n
  account_not_found : CoreClientError n
  db_account_limit_reached : CoreClientError n
  not_enough_coins : CoreClientError n
  below_dust_threshold : CoreClientError n
  invalid_payment : CoreClientError n
  frontier_balance_overflow : CoreClientError n
  invalid_epoch_block : CoreClientError n
