-- ===== src/Client/Camo.antt =====
-- The steps of client/core/src/client/send.rs that make the two blocks of a camo payment, before
-- anything is handed to a node.
use camonanowallet.Base.{none, some, eqb, ltb, Result, ok, ◌>>=◌, ◌>>◌, ok_or, fail_if, assert}
use camonanowallet.Base.Word.{wrapping_add}
use camonanowallet.Nano.{Nano, Block, Bytes8, Bytes32}
use camonanowallet.Error.{CoreClientError}
use camonanowallet.Frontiers.Info.{FrontierInfo}
use camonanowallet.Frontiers.Db.{account_frontier}
use camonanowallet.Wallet.Keys.{find_key}
use camonanowallet.Rpc.World.{Env}
use camonanowallet.Client.State.{CoreClient, Payment, CamoPayment}
use camonanowallet.Client.Blocks.{create_send_block}

module _ (n : Nano) where
  -- `account_frontier(account).ok_or(AccountNotFound)?`
  abbrev pub known_frontier : CoreClient n → n.Account → Result (CoreClientError n) (FrontierInfo n)
  known_frontier client account =
      ok_or (account_frontier n client.frontiers_db account) CoreClientError.account_not_found

  unfoldable pub sender_ecdh :
      CoreClient n → n.CamoAccount → n.Key → Result (CoreClientError n) (Bytes32 × n.NotificationV1)
  unfolding account_frontier
  sender_ecdh client recipient sender_key = do
    frontier ← known_frontier client (n.to_account sender_key)
    ok (n.sender_ecdh recipient sender_key (n.hash frontier.block))

  -- `camo_transaction_memo`, and the same steps of the two functions below: the account that the
  -- payment goes to, and the notification
  unfoldable pub camo_transaction_memo :
      CoreClient n → CamoPayment n → Result (CoreClientError n) (n.Account × n.NotificationV1)
  unfolding find_key sender_ecdh
  camo_transaction_memo client payment = do
    found ← find_key n client.wallet_db client.seed payment.sender
    sender_key ← ok_or found CoreClientError.account_not_found
    (shared_secret, notification) ← sender_ecdh client payment.recipient sender_key
    ok (n.derive_account payment.recipient shared_secret, notification)

  -- the payment of the send block, and that of the notification block
  abbrev pub derived_payment : CamoPayment n → n.Account → Payment n
  derived_payment payment derived = record {
    sender = payment.sender;
    amount = payment.sender_amount;
    recipient = derived;
    new_representative = none;
  }

  abbrev pub notify_payment : CamoPayment n → n.NotificationV1 → Payment n
  notify_payment payment notification = record {
    sender = payment.notifier;
    amount = payment.notification_amount;
    recipient = n.recipient notification;
    new_representative = some (n.representative_payload notification);
  }

module _ (n : Nano) (env : Env n) where
  -- `_send_camo_same` up to its two blocks: the sender's frontier, the notification block and the
  -- send block
  unfoldable pub camo_same_blocks :
      CoreClient n → CamoPayment n → Result (CoreClientError n) (FrontierInfo n × Block n × Block n)
  unfolding account_frontier camo_transaction_memo create_send_block wrapping_add
  camo_same_blocks client payment = do
    assert (eqb n.account_dec payment.sender payment.notifier)
    sender_frontier ← known_frontier n client payment.sender
    let total_amount = wrapping_add payment.notification_amount payment.sender_amount
    fail_if (ltb sender_frontier.block.balance total_amount) CoreClientError.not_enough_coins
    (derived, notification) ← camo_transaction_memo n client payment
    send_block ← create_send_block n env client (derived_payment n payment derived) sender_frontier
    notify_block ←
        create_send_block n env client (notify_payment n payment notification) sender_frontier
    ok (sender_frontier, notify_block, send_block)

  -- the notification block and the send block of `send_camo`, with their work
  unfoldable pub camo_distinct_blocks :
      CoreClient n
      → CamoPayment n
      → FrontierInfo n
      → FrontierInfo n
      → Bytes8
      → Bytes8
      → Result (CoreClientError n) (Block n × Block n)
  unfolding camo_transaction_memo create_send_block
  camo_distinct_blocks client payment sender_frontier notifier_frontier notification_work
        send_work =
      do
        (derived, notification) ← camo_transaction_memo n client payment
        send_block ←
            create_send_block n env client (derived_payment n payment derived) sender_frontier
        notification_block ←
            create_send_block n env client (notify_payment n payment notification) notifier_frontier
        ok (
          record notification_block { work = notification_work },
          record send_block { work = send_work },
        )
