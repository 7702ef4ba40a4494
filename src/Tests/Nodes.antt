-- ===== src/Tests/Nodes.antt =====
-- Runs of the choice of nodes, of the retries and of the bans, and their properties on concrete data.
use camonanowallet.Base.{
  ℕ, ◌≡◌, refl, Bool, true, false, [], ◌∷◌, ◌==◌, inl, inr, ok, panic, if◌then◌else◌,
}
use camonanowallet.Config.{CoreClientConfig}
use camonanowallet.Rpc.Types.{RpcCommands, Rpc}
use camonanowallet.Rpc.Manager.{Command, get_usable_rpcs, Nodes, run_command, handle_failures}
use camonanowallet.Rpc.UsableLaws.{Usable, get_usable_rpcs-Usable}
use camonanowallet.Rpc.RetryLaws.{CommandResult, run_command-CommandResult}
use camonanowallet.Rpc.BanLaws.{FailuresResult, handle_failures-FailuresResult}
use camonanowallet.Tests.Toy.{toy, config}

abbrev all_commands : Bool → RpcCommands
all_commands process = record {
  account_balance = true;
  account_history = true;
  account_info = true;
  account_representative = true;
  accounts_balances = true;
  accounts_frontiers = true;
  accounts_receivable = true;
  accounts_representatives = true;
  block_info = true;
  blocks_info = true;
  process = process;
  work_generate = true;
}

-- a node that is banned until 50, one that is not banned, and one that takes no blocks
abbrev banned : Rpc toy
banned = record { commands = all_commands true; banned_until = 50; rpc = "banned" }

abbrev free : Rpc toy
free = record { commands = all_commands true; banned_until = 0; rpc = "free" }

abbrev reader : Rpc toy
reader = record { commands = all_commands false; banned_until = 0; rpc = "reader" }

abbrev three : CoreClientConfig toy
three = record config { rpcs = banned ∷ free ∷ reader ∷ [] }

-- the answers of the nodes: in the first round all fail, then the banned node answers
abbrev nodes : Nodes toy ℕ
nodes = record {
  shuffle = λ k rpcs. rpcs;
  now = λ k. 10;
  answer = λ k r. if k == 0 then inl 1 else if r.banned_until == 0 then inl 2 else inr 7;
}

usable_run : get_usable_rpcs toy (λ rpcs. rpcs) 10 three Command.process ≡ free ∷ banned ∷ []
unfolding get_usable_rpcs
usable_run = refl

-- the failures of the first round are not reported
command_run :
    run_command toy nodes three Command.process
    ≡ ok (record { item = 7; failures = record { error = 2; url = "free" } ∷ [] })
unfolding run_command
command_run = refl

failures_run :
    handle_failures toy (λ k. 10) three (record { error = 2; url = "free" } ∷ [])
    ≡ ok (record three { rpcs = banned ∷ record free { banned_until = 70 } ∷ reader ∷ [] })
unfolding handle_failures
failures_run = refl

failures_unknown :
    handle_failures toy (λ k. 10) three (record { error = 2; url = "other" } ∷ []) ≡ panic
unfolding handle_failures
failures_unknown = refl

get_usable_rpcs-Usable_example :
    Usable toy three 10 Command.process
      (get_usable_rpcs toy (λ rpcs. rpcs) 10 three Command.process)
get_usable_rpcs-Usable_example =
    get_usable_rpcs-Usable toy (λ rpcs. rpcs) 10 three Command.process (λ p rpcs. refl)

run_command-CommandResult_example :
    CommandResult toy nodes three Command.process 3 0 (run_command toy nodes three Command.process)
run_command-CommandResult_example = run_command-CommandResult toy nodes three Command.process

handle_failures-FailuresResult_example :
    FailuresResult toy three
      (λ k. 10)
      (record { error = 2; url = "free" } ∷ [])
      (handle_failures toy (λ k. 10) three (record { error = 2; url = "free" } ∷ []))
handle_failures-FailuresResult_example =
    handle_failures-FailuresResult toy three (λ k. 10) (record { error = 2; url = "free" } ∷ [])
