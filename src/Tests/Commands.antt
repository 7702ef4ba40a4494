-- ===== src/Tests/Commands.antt =====
-- Runs of the wallet's commands, and their properties on concrete data.
use camonanowallet.Base.{
  All, ℕ, ◌≡◌, refl, true, false, none, some, List, [], ◌∷◌, map, ok, ℕ_discrete,
}
use camonanowallet.Nano.{Receivable}
use camonanowallet.Rpc.Reads.{Reads}
use camonanowallet.Client.State.{Payment, get_derived_accounts_from_master}
use camonanowallet.App.Error.{Externals}
use camonanowallet.App.State.{lookup}
use camonanowallet.App.Session.{Session, Outside, Moments, request_each}
use camonanowallet.App.WorkLaws.{Requested, request_each-Requested}
use camonanowallet.App.Sound.{IsSound}
use camonanowallet.App.Keeps.Commands.{after_all, execute_all-IsSound}
use camonanowallet.Amount.Text.{fmt}
use camonanowallet.App.Commands.Balance.{Line, balance}
use camonanowallet.App.ReceivableLaws.{occurrences}
use camonanowallet.App.BalanceLines.{wallet_accounts}
use camonanowallet.App.BalanceLaws.{amounts, TotalShown, balance_total}
use camonanowallet.App.Commands.Payments.{SendCamoArgs, plan_payment}
use camonanowallet.App.Commands.Receive.{ReceiveArgs, take_each, receive_command}
use camonanowallet.App.Commands.Execute.{CommandType, execute}
use camonanowallet.App.TakeLaws.{TakeResult, take_each-TakeResult}
use camonanowallet.App.PlanLaws.{PlanResult, plan_payment-PlanResult}
use camonanowallet.Tests.Toy.{toy, toy_laws, config, two_entries, seed, env, world}
use camonanowallet.Tests.Wallet.{wallet, wallet-IsValid}
use camonanowallet.Tests.Frontiers.{two_entries-IsValid}

abbrev pub plain : Externals
plain = record {
  HexError = ℕ;
  BincodeError = ℕ;
  Argon2Error = ℕ;
  AesError = ℕ;
  aes_error = 0;
  ConfyError = ℕ;
  Message = ℕ;
}

-- nodes that know of no blocks
abbrev reads : Reads toy
reads = record {
  accounts_frontiers = λ accounts. ok (record { item = map (λ _. none) accounts; failures = [] });
  blocks_info = λ hashes. ok (record { item = map (λ _. none) hashes; failures = [] });
  block_info = λ hash. ok (record { item = none; failures = [] });
  accounts_receivable =
      λ accounts count threshold. ok (record { item = map (λ _. []) accounts; failures = [] });
  account_history = λ account count head offset. ok (record { item = []; failures = [] });
}

abbrev pub outside : Outside toy
outside = record { env = env; reads = reads; clock = λ k. k; finished = λ hash. true }

-- no work job has ended before the command
abbrev pub moments : Moments toy
moments = record {
  before = record outside { finished = λ hash. false };
  during = outside;
  after = outside;
}

abbrev waiting : Receivable toy
waiting = record { recipient = 101; block_hash = 77; amount = 5 }

abbrev session : Session toy
session = record {
  client = record {
    core = record { seed = seed; config = config; wallet_db = wallet; frontiers_db = two_entries };
    receivable = (77, waiting) ∷ [];
    camo_history = [];
  };
  world = world;
}

session-IsSound : IsSound toy seed session.client
unfolding lookup
session-IsSound = record {
  core = record { same = refl; wallet = wallet-IsValid; frontiers = two_entries-IsValid };
  keyed = record { distinct = (refl, tt); keys = (refl, tt) };
}

abbrev send_args : Payment toy
send_args = record { sender = 101; amount = 10; recipient = 9; new_representative = none }

abbrev receive_args : ReceiveArgs toy
receive_args = record { blocks = 77 ∷ []; accounts = [] }

abbrev three_commands : List (Moments toy × CommandType toy plain)
three_commands =
    (moments, CommandType.receive_of receive_args)
    ∷ (moments, CommandType.send_of send_args)
    ∷ (moments, CommandType.account_of (record { index = 1; camo = false; versions = none }))
    ∷ []

execute_all-IsSound_example :
    IsSound toy seed (after_all toy seed plain three_commands session).client
execute_all-IsSound_example =
    execute_all-IsSound toy seed plain three_commands session toy_laws session-IsSound

-- the receivable is received, and no longer waits
receive_run :
    (execute toy plain moments (CommandType.receive_of receive_args) session).0.client.receivable
    ≡ []
unfolding execute ℕ_discrete
receive_run = refl

-- with an unknown hash after it, the receivable is lost
receive_lost :
    (receive_command toy plain outside
      (record { blocks = 77 ∷ 78 ∷ []; accounts = [] })
      session).0.client.receivable
    ≡ []
unfolding receive_command ℕ_discrete
receive_lost = refl

take_each-TakeResult_example :
    TakeResult toy session.client.receivable
      (77 ∷ 78 ∷ [])
      (take_each toy session.client.receivable (77 ∷ 78 ∷ []))
take_each-TakeResult_example = take_each-TakeResult toy session.client.receivable (77 ∷ 78 ∷ [])

abbrev camo_args : SendCamoArgs toy
camo_args = record {
  sender = 101;
  amount = 10;
  recipient = 900;
  auto = true;
  notifier = none;
  notifier_amount = none;
}

plan_payment-PlanResult_example :
    PlanResult toy plain session.client.core camo_args
      (plan_payment toy plain session.client.core camo_args)
plan_payment-PlanResult_example = plan_payment-PlanResult toy plain session.client.core camo_args

-- no other account can pay, so the sender notifies
plan_run :
    plan_payment toy plain session.client.core camo_args
    ≡ ok (record {
      sender = 101;
      sender_amount = 9;
      notifier = 101;
      notification_amount = 1;
      recipient = 900;
    })
unfolding plan_payment ℕ_discrete
plan_run = refl

-- of three hashes that need work, two get a job
request_each_run : (request_each toy env (1 ∷ 2 ∷ 3 ∷ []) world).handles ≡ 2 ∷ 1 ∷ []
unfolding request_each
request_each_run = refl

request_each-Requested_example :
    Requested toy env (1 ∷ 2 ∷ 3 ∷ []) world (request_each toy env (1 ∷ 2 ∷ 3 ∷ []) world)
request_each-Requested_example = request_each-Requested toy env (1 ∷ 2 ∷ 3 ∷ []) world

-- what the command `balance` prints, where one Nano is one raw
balance_run :
    balance toy 1 session.client
    ≡ Line.total_line (fmt 1 30) (some (fmt 1 5))
      ∷ Line.account_line 101 0 (fmt 1 30) (some (fmt 1 5))
      ∷ Line.camo_account_line 600 0
      ∷ Line.main_line 601 (fmt 1 0) none
      ∷ Line.derived_line 608 (fmt 1 0) none
      ∷ []
unfolding balance fmt ℕ_discrete
balance_run = refl

-- the account 101, which the receivable is for, is one of the wallet's three accounts
one_recipient :
    All
      (λ r. occurrences toy 1 r.recipient (wallet_accounts toy session.client.core) ≡ 1)
      (amounts toy 1 session.client)
unfolding get_derived_accounts_from_master ℕ_discrete
one_recipient = (refl, tt)

balance_total_example : TotalShown toy 1 session.client (balance toy 1 session.client)
balance_total_example = balance_total toy 1 session.client one_recipient
