-- ===== src/Client/Send.antt =====
-- client/core/src/client/send.rs: payments to normal and to camo accounts.
use camonanowallet.Base.{◌||◌, List, [], ◌∷◌, ◌++◌, eqb, err, fail_if, if◌then◌else◌}
use camonanowallet.Nano.{Nano, Block}
use camonanowallet.Error.{CoreClientError}
use camonanowallet.Frontiers.Info.{FrontierInfo}
use camonanowallet.Frontiers.Db.{account_frontier}
use camonanowallet.Rpc.Types.{RpcSuccess}
use camonanowallet.Rpc.World.{Env, Action, ◌>>=◌, ◌>>◌, pure, lift, modify}
use camonanowallet.Rpc.Work.{request_work}
use camonanowallet.Rpc.Publish.{get_work, publish, auto_publish_unsynced}
use camonanowallet.Client.State.{CoreClient, Payment, CamoPayment}
use camonanowallet.Client.Blocks.{create_send_block}
use camonanowallet.Client.Camo.{known_frontier, camo_same_blocks, camo_distinct_blocks}

module _ (n : Nano) (env : Env n) where
  unfoldable pub send : CoreClient n → Payment n → Action n (RpcSuccess n (List (FrontierInfo n)))
  unfolding account_frontier create_send_block auto_publish_unsynced
  send client payment = do
    lift (
        fail_if (eqb n.account_dec payment.sender payment.recipient)
          CoreClientError.invalid_payment)
    frontier ← lift (known_frontier n client payment.sender)
    send_block ← lift (create_send_block n env client payment frontier)
    info ← auto_publish_unsynced n env client.config frontier send_block
    pure (record { item = info.item ∷ []; failures = info.failures })

  -- the notification block goes first
  unfoldable pub camo_auto_publish_blocks :
      CoreClient n → Block n → Block n → Action n (RpcSuccess n (FrontierInfo n × FrontierInfo n))
  unfolding publish
  camo_auto_publish_blocks client notification_block send_block = do
    notification ← publish n env client.config notification_block
    sent ← publish n env client.config send_block
    pure (record {
      item = (notification.item, sent.item);
      failures = notification.failures ++ sent.failures;
    })

  -- the two publications of `_send_camo_same`: each gets the work of the frontier before it
  unfoldable pub publish_same :
      CoreClient n
      → FrontierInfo n × Block n × Block n
      → Action n (RpcSuccess n (List (FrontierInfo n)))
  unfolding auto_publish_unsynced
  publish_same client (sender_frontier, notify_block, send_block) = do
    notified ← auto_publish_unsynced n env client.config sender_frontier notify_block
    sent ← auto_publish_unsynced n env client.config notified.item send_block
    pure (record { item = sent.item ∷ []; failures = notified.failures ++ sent.failures })

  -- `_send_camo_same`
  unfoldable pub send_camo_same :
      CoreClient n → CamoPayment n → Action n (RpcSuccess n (List (FrontierInfo n)))
  unfolding camo_same_blocks publish_same
  send_camo_same client payment = do
    blocks ← lift (camo_same_blocks n env client payment)
    publish_same client blocks

  -- the branch of `send_camo` for two different accounts
  unfoldable pub send_camo_distinct :
      CoreClient n → CamoPayment n → Action n (RpcSuccess n (List (FrontierInfo n)))
  unfolding account_frontier get_work request_work camo_distinct_blocks camo_auto_publish_blocks
  send_camo_distinct client payment = do
    sender_frontier ← lift (known_frontier n client payment.sender)
    notifier_frontier ← lift (known_frontier n client payment.notifier)
    notification_work ← get_work n env client.config notifier_frontier
    send_work ← get_work n env client.config sender_frontier
    (notification_block, send_block) ← lift (
        camo_distinct_blocks n env client payment sender_frontier notifier_frontier
          notification_work.item send_work.item)
    modify (λ w.
        if client.config.enable_work_cache
        then request_work n env (n.hash send_block)
            (request_work n env (n.hash notification_block) w)
        else w)
    published ← camo_auto_publish_blocks client notification_block send_block
    pure (record {
      item = published.item.0 ∷ published.item.1 ∷ [];
      failures = (notification_work.failures ++ send_work.failures) ++ published.failures;
    })

  unfoldable pub send_camo :
      CoreClient n → CamoPayment n → Action n (RpcSuccess n (List (FrontierInfo n)))
  unfolding send_camo_same send_camo_distinct
  send_camo client payment =
      let signer = n.signer_account payment.recipient in
      if eqb n.account_dec payment.sender signer || eqb n.account_dec payment.notifier signer
      then lift (err CoreClientError.invalid_payment)
      else if eqb n.account_dec payment.notifier payment.sender
      then send_camo_same client payment
      else send_camo_distinct client payment
