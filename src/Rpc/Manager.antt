-- ===== src/Rpc/Manager.antt =====
-- The nodes: which of them a command may use and in which order, the retries of a command, and the
-- bans. client/core/src/rpc/manager.rs, and the methods of wrapped.rs and mod.rs that it calls. A
-- command is a constructor in place of its name; the macro makes one method for each.
use Prim.Native.String.{String}
use text.Mathlib.Text.{◌==◌ as str_eq}
use camonanowallet.Base.{
  ℕ, zero, suc, ◌+◌, ◌%◌, Bool, not, Option, none, some, List, [], ◌∷◌, ◌++◌, ltb, leb, select, ◌⊎◌,
  inl, inr, Result, ok, err, panic, if◌then◌else◌,
}
use camonanowallet.Base.Word.{u64_mod}
use camonanowallet.Base.Sort.{sort_by_key}
use camonanowallet.Nano.{Nano}
use camonanowallet.Error.{CoreClientError}
use camonanowallet.Config.{CoreClientConfig}
use camonanowallet.Rpc.Types.{RpcCommands, Rpc, RpcFailures}
use camonanowallet.Rpc.World.{RpcResult}

pub data Command : Type 0 where
  account_balance account_history account_info account_representative : Command
  accounts_balances accounts_frontiers accounts_receivable accounts_representatives : Command
  block_info blocks_info process work_generate : Command

abbrev pub supports : RpcCommands → Command → Bool
supports commands account_balance = commands.account_balance
supports commands account_history = commands.account_history
supports commands account_info = commands.account_info
supports commands account_representative = commands.account_representative
supports commands accounts_balances = commands.accounts_balances
supports commands accounts_frontiers = commands.accounts_frontiers
supports commands accounts_receivable = commands.accounts_receivable
supports commands accounts_representatives = commands.accounts_representatives
supports commands block_info = commands.block_info
supports commands blocks_info = commands.blocks_info
supports commands process = commands.process
supports commands work_generate = commands.work_generate

-- the time is in seconds, and is read before the call
abbrev pub get_ban_expiration : ℕ → ℕ → ℕ
get_ban_expiration now seconds = (now + seconds) % u64_mod

-- `std::cmp::max`
abbrev pub max_of : ℕ → ℕ → ℕ
max_of a b = if leb a b then b else a

module _ (n : Nano) where
  abbrev pub is_banned : Rpc n → ℕ → Bool
  is_banned rpc now = ltb now rpc.banned_until

  abbrev pub ban_for_seconds : ℕ → ℕ → Rpc n → Rpc n
  ban_for_seconds now seconds rpc = record rpc {
    banned_until = max_of rpc.banned_until (get_ban_expiration now seconds);
  }

  -- the seconds that an error costs
  abbrev pub ban_seconds : CoreClientConfig n → n.RpcError → ℕ
  ban_seconds config e =
      if n.is_invalid_data e then config.rpc_invalid_data_ban_time else config.rpc_failure_ban_time

  abbrev pub handle_err : CoreClientConfig n → ℕ → n.RpcError → Rpc n → Rpc n
  handle_err config now e rpc = ban_for_seconds now (ban_seconds config e) rpc

  abbrev pub has_url : String → Rpc n → Bool
  has_url url rpc = str_eq (n.get_url rpc.rpc) url

  -- `iter_mut().find(..)`, and the change of what it finds
  abbrev pub cons_rest : Rpc n → Option (List (Rpc n)) → Option (List (Rpc n))
  cons_rest r none = none
  cons_rest r (some rs) = some (r ∷ rs)

  unfoldable pub change_first :
      (Rpc n → Bool) → (Rpc n → Rpc n) → List (Rpc n) → Option (List (Rpc n))
  change_first p f [] = none
  change_first p f (r ∷ rs) =
      let rest = change_first p f rs in if p r then some (f r ∷ rs) else cons_rest r rest

  -- the loop of `handle_failures`; `clock k` is the time when the failure `k` is handled
  unfoldable pub handle_all :
      CoreClientConfig n
      → (ℕ → ℕ)
      → ℕ
      → RpcFailures n
      → List (Rpc n)
      → Result (CoreClientError n) (List (Rpc n))
  unfolding change_first
  handle_all config clock k [] rpcs = ok rpcs
  handle_all config clock k (failure ∷ failures) rpcs =
      elim (change_first (has_url failure.url) (handle_err config (clock k) failure.error) rpcs) [
        | none ↦ panic
        | some rpcs' ↦ handle_all config clock (suc k) failures rpcs'
      ]

  unfoldable pub handle_failures :
      (ℕ → ℕ) → CoreClientConfig n → RpcFailures n → Result (CoreClientError n) (CoreClientConfig n)
  unfolding handle_all
  handle_failures clock config failures = elim (handle_all config clock 0 failures config.rpcs) [
    | ok rpcs ↦ ok (record config { rpcs = rpcs })
    | err e ↦ err e
    | panic ↦ panic
  ]

  abbrev pub ban_key : ℕ → Rpc n → ℕ
  ban_key now rpc = if is_banned rpc now then rpc.banned_until else 0

  unfoldable pub get_usable_rpcs :
      (List (Rpc n) → List (Rpc n)) → ℕ → CoreClientConfig n → Command → List (Rpc n)
  unfolding sort_by_key
  get_usable_rpcs shuffle now config command =
      let rpcs = sort_by_key (ban_key now) (shuffle config.rpcs) in
      let supported = select (λ rpc. supports rpc.commands command) rpcs in
      if config.rpc_use_banned_nodes_as_backup
      then supported
      else select (λ rpc. not (is_banned rpc now)) supported

-- the nodes during a command with results of type `A`: in each round of retries the shuffle, the time
-- and the answers
pub record Nodes (n : Nano) (A : Type 0) : Type 0 where
  pub shuffle : ℕ → List (Rpc n) → List (Rpc n)
  pub now : ℕ → ℕ
  pub answer : ℕ → Rpc n → n.RpcError ⊎ A

module _ (n : Nano) {A : Type 0} where
  -- the inner loop of the macro `wrap_rpc_methods!`
  unfoldable pub try_nodes :
      (Rpc n → n.RpcError ⊎ A) → RpcFailures n → List (Rpc n) → Option (A × RpcFailures n)
  try_nodes answer failures [] = none
  try_nodes answer failures (r ∷ rs) = elim (answer r) [
    | inr item ↦ some (item, failures)
    | inl e ↦ try_nodes answer (failures ++ record { error = e; url = n.get_url r.rpc } ∷ []) rs
  ]

  -- its rounds, from the round `k` on; the failures of a round without success are dropped
  unfoldable pub retry : Nodes n A → CoreClientConfig n → Command → ℕ → ℕ → RpcResult n A
  unfolding try_nodes get_usable_rpcs
  retry nodes config command zero k = err CoreClientError.rpc_command_failed
  retry nodes config command (suc rounds) k =
      elim (try_nodes (nodes.answer k) []
        (get_usable_rpcs n (nodes.shuffle k) (nodes.now k) config command)) [
          | some (item, failures) ↦ ok (record { item = item; failures = failures })
          | none ↦ retry nodes config command rounds (suc k)
        ]

  unfoldable pub run_command : Nodes n A → CoreClientConfig n → Command → RpcResult n A
  unfolding retry
  run_command nodes config command = retry nodes config command config.rpc_retry_limit 0
