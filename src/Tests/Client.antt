-- ===== src/Tests/Client.antt =====
-- Runs of the client's payments, and their properties on concrete data. The wallet owns 101 with a
-- balance of 30, and 600 is its camo account.
use camonanowallet.Base.{◌≡◌, refl, find, arith, none, [], ◌∷◌, ok, panic, All, ℕ_discrete}
use camonanowallet.Rpc.Publish.{get_work, auto_publish_unsynced}
use camonanowallet.Nano.{Receivable}
use camonanowallet.Client.State.{
  CoreClient, Payment, CamoPayment, wallet_balance, accounts_with_balance,
}
use camonanowallet.Client.Blocks.{create_send_block, create_receive_block}
use camonanowallet.Client.BlockLaws.{
  SendBlockResult, ReceiveBlockResult, create_send_block-SendBlockResult,
  create_receive_block-ReceiveBlockResult,
}
use camonanowallet.Client.Camo.{camo_same_blocks}
use camonanowallet.Client.Send.{send}
use camonanowallet.Client.PublishLaws.{
  work_answer, get_work-answer, PublishResult, auto_publish-PublishResult,
}
use camonanowallet.Client.SendLaws.{SendResult, send-SendResult}
use camonanowallet.Base.Sort.{IsSorted}
use camonanowallet.Client.BalanceLaws.{CanPay, accounts_with_balance-CanPay}
use camonanowallet.Client.Removal.{remove_account, remove_camo_account}
use camonanowallet.Client.RemovalLaws.{IsSound, RemovalResult, remove_account-RemovalResult}
use camonanowallet.Client.CamoRemovalLaws.{CamoRemovalResult, remove_camo_account-CamoRemovalResult}
use camonanowallet.Tests.Frontiers.{two_entries-IsValid}
use camonanowallet.Frontiers.Db.{account_frontier}
use camonanowallet.Client.Receive.{receive}
use camonanowallet.Client.ReceiveLaws.{receive-unknown}
use camonanowallet.Client.CamoPublishLaws.{ForkResult, send_camo_same-ForkResult}
use camonanowallet.Client.Send.{send_camo_same}
use camonanowallet.Tests.Toy.{toy, toy_laws, config, entry, two_entries, seed, env, world}
use camonanowallet.Tests.Wallet.{wallet, wallet-IsValid}

abbrev client : CoreClient toy
client = record { seed = seed; config = config; wallet_db = wallet; frontiers_db = two_entries }

abbrev payment : Payment toy
payment = record { sender = 101; amount = 10; recipient = 9; new_representative = none }

abbrev camo_payment : CamoPayment toy
camo_payment = record {
  sender = 101;
  sender_amount = 10;
  notifier = 101;
  notification_amount = 1;
  recipient = 900;
}

abbrev receivable : Receivable toy
receivable = record { recipient = 101; block_hash = 77; amount = 5 }

wallet_balance_run : wallet_balance toy client ≡ 30
unfolding wallet_balance ℕ_discrete
wallet_balance_run = refl

accounts_with_balance_run : accounts_with_balance toy client 20 [] ≡ entry 101 30 ∷ []
unfolding accounts_with_balance ℕ_discrete
accounts_with_balance_run = refl

-- one block goes out, and a job for the work of the next one runs
send_run : (send toy env client payment world).0.handles ≡ 1121 ∷ []
unfolding send ℕ_discrete
send_run = refl

-- the two blocks of a camo payment from one account have the same block before them
camo_same_run :
    camo_same_blocks toy env client camo_payment
    ≡ ok (
      entry 101 30,
      record {
        block_type = 2;
        account = 101;
        previous = 1131;
        representative = 900;
        balance = 29;
        link = 901;
        signature = 129;
        work = 0;
      },
      record {
        block_type = 2;
        account = 101;
        previous = 1131;
        representative = 42;
        balance = 20;
        link = 908;
        signature = 120;
        work = 0;
      },
    )
unfolding camo_same_blocks ℕ_discrete
camo_same_run = refl

create_send_block-SendBlockResult_example :
    SendBlockResult toy env client payment
      (entry 101 30)
      (create_send_block toy env client payment (entry 101 30))
create_send_block-SendBlockResult_example =
    create_send_block-SendBlockResult toy env client payment (entry 101 30) toy_laws wallet-IsValid

create_receive_block-ReceiveBlockResult_example :
    ReceiveBlockResult toy env client receivable
      (entry 101 30)
      (create_receive_block toy env client receivable (entry 101 30) none)
create_receive_block-ReceiveBlockResult_example =
    create_receive_block-ReceiveBlockResult toy env client receivable (entry 101 30) none toy_laws
      wallet-IsValid

get_work-answer_example :
    (get_work toy env config (entry 101 30) world).1 ≡ work_answer toy env (entry 101 30)
get_work-answer_example = get_work-answer toy env config (entry 101 30) world

auto_publish-PublishResult_example :
    PublishResult toy env
      (entry 101 20).block
      world
      (auto_publish_unsynced toy env config (entry 101 30) (entry 101 20).block world)
auto_publish-PublishResult_example =
    auto_publish-PublishResult toy env config (entry 101 30) (entry 101 20).block world

send-SendResult_example :
    SendResult toy env client payment world (send toy env client payment world)
send-SendResult_example = send-SendResult toy env client payment world toy_laws wallet-IsValid

accounts_with_balance-CanPay_example :
    IsSorted (λ info. info.block.balance) (accounts_with_balance toy client 20 [])
    × All (CanPay toy two_entries 20 []) (accounts_with_balance toy client 20 [])
accounts_with_balance-CanPay_example = accounts_with_balance-CanPay toy client 20 []

client-IsSound : IsSound toy client
client-IsSound = record { wallet = wallet-IsValid; frontiers = two_entries-IsValid }

remove_account_run : (remove_account toy client 101).1 ≡ ok (entry 101 30)
unfolding remove_account ℕ_discrete
remove_account_run = refl

remove_account-RemovalResult_example : RemovalResult toy client 101 (remove_account toy client 101)
remove_account-RemovalResult_example = remove_account-RemovalResult toy client 101 client-IsSound

-- the camo account 600 has frontiers of its notification account and of a derived account
abbrev camo_client : CoreClient toy
camo_client = record client {
  frontiers_db = record {
    frontiers = entry 101 30 ∷ entry 601 5 ∷ entry 608 7 ∷ [];
    frontiers_balance = 42;
  };
}

camo_client-IsSound : IsSound toy camo_client
unfolding find ℕ_discrete
camo_client-IsSound = record {
  wallet = wallet-IsValid;
  frontiers = record {
    distinct = (refl, (refl, (refl, tt)));
    balanced = refl;
    bounded = omega arith;
  };
}

-- its notification account's frontier is returned, and the account 101 stays
remove_camo_account_run : remove_camo_account toy camo_client 600 ≡ (
  record camo_client {
    wallet_db = record wallet {
      camo_account_db = record { info = [] };
      derived_account_db = record { info = [] };
    };
    frontiers_db = record { frontiers = entry 101 30 ∷ []; frontiers_balance = 30 };
  },
  ok (entry 601 5),
)
unfolding remove_camo_account ℕ_discrete
remove_camo_account_run = refl

remove_camo_account-CamoRemovalResult_example :
    CamoRemovalResult toy camo_client 600 (remove_camo_account toy camo_client 600)
remove_camo_account-CamoRemovalResult_example =
    remove_camo_account-CamoRemovalResult toy camo_client 600 camo_client-IsSound

abbrev stranger : Receivable toy
stranger = record { recipient = 999; block_hash = 77; amount = 5 }

stranger_unknown : account_frontier toy two_entries 999 ≡ none
unfolding account_frontier ℕ_discrete
stranger_unknown = refl

receive-unknown_example : receive toy env client (stranger ∷ receivable ∷ []) world ≡ (world, panic)
receive-unknown_example =
    receive-unknown toy env client stranger (receivable ∷ []) world stranger_unknown

-- one block is received, and follows the frontier of its account
receive_run : (receive toy env client (receivable ∷ []) world).0.handles ≡ 1136 ∷ []
unfolding receive ℕ_discrete
receive_run = refl

send_camo_same-ForkResult_example :
    ForkResult toy env client camo_payment world (send_camo_same toy env client camo_payment world)
send_camo_same-ForkResult_example =
    send_camo_same-ForkResult toy env client camo_payment world toy_laws wallet-IsValid
