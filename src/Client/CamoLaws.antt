-- ===== src/Client/CamoLaws.antt =====
-- What a camo payment hands to the network.
use camonanowallet.Base.{
  ◌+◌, ◌≡◌, ◌∙◌, refl, sym, inl, inr, Bool, true, false, Option, none, some, eqb, eqb→eq, ltb,
  Bool-cases, Result, ok, err, panic, ◌>>=◌, ◌>>◌, ok_or, fail_if,
}
use camonanowallet.Base.Word.{wrapping_add}
use camonanowallet.Nano.{Nano, Block}
use camonanowallet.Error.{CoreClientError}
use camonanowallet.Frontiers.Info.{FrontierInfo}
use camonanowallet.Frontiers.Db.{account_frontier}
use camonanowallet.Wallet.Validity.{KeyLaws, IsValid}
use camonanowallet.Rpc.World.{Env}
use camonanowallet.Client.State.{CoreClient, CamoPayment}
use camonanowallet.Client.Blocks.{previous_of, create_send_block}
use camonanowallet.Client.BlockLaws.{Sends, SendBlockResult, create_send_block-SendBlockResult}
use camonanowallet.Client.Camo.{
  camo_transaction_memo, derived_payment, notify_payment, camo_same_blocks,
}

module _ (n : Nano) (env : Env n) where
  -- the two blocks of `_send_camo_same`, both made from one frontier of the sender
  pub record SameBlocks (client : CoreClient n) (payment : CamoPayment n)
      (frontier : FrontierInfo n) (notify_block : Block n) (send_block : Block n) : Type 0 where
    pub known : account_frontier n client.frontiers_db payment.sender ≡ some frontier
    pub notify_previous : notify_block.previous ≡ previous_of n frontier
    pub send_previous : send_block.previous ≡ previous_of n frontier
    pub notify_balance : notify_block.balance + payment.notification_amount ≡ frontier.block.balance
    pub send_balance : send_block.balance + payment.sender_amount ≡ frontier.block.balance
    pub send_account : send_block.account ≡ payment.sender
    pub notify_account : notify_block.account ≡ payment.sender

  abbrev pub SameResult :
      CoreClient n
      → CamoPayment n
      → Result (CoreClientError n) (FrontierInfo n × Block n × Block n)
      → Type 0
  SameResult client payment (ok (frontier, notify_block, send_block)) =
      SameBlocks client payment frontier notify_block send_block
  SameResult client payment (err e) = Unit
  SameResult client payment panic = Unit

  -- one lemma for each step, from the last to the first
  step_notify :
      (client : CoreClient n) (payment : CamoPayment n) (derived : n.Account)
      (notification : n.NotificationV1) (frontier : FrontierInfo n) (send_block : Block n)
      (r : Result (CoreClientError n) (Block n))
      → account_frontier n client.frontiers_db payment.sender ≡ some frontier
      → payment.sender ≡ payment.notifier
      → Sends n env (derived_payment n payment derived) frontier send_block
      → SendBlockResult n env client (notify_payment n payment notification) frontier r
      → SameResult client payment (do notify_block ← r; ok (frontier, notify_block, send_block))
  step_notify client payment derived notification frontier send_block (ok notify_block) known same
        sends (notifies, _, _) =
      record {
        known = known;
        notify_previous = notifies.previous;
        send_previous = sends.previous;
        notify_balance = notifies.balance;
        send_balance = sends.balance;
        send_account = sends.account;
        notify_account = notifies.account ∙ sym same;
      }
  step_notify client payment derived notification frontier send_block (err e) known same sends h =
      tt
  step_notify client payment derived notification frontier send_block panic known same sends h = tt

  step_send :
      (client : CoreClient n) (payment : CamoPayment n) (derived : n.Account)
      (notification : n.NotificationV1) (frontier : FrontierInfo n)
      (r s : Result (CoreClientError n) (Block n))
      → account_frontier n client.frontiers_db payment.sender ≡ some frontier
      → payment.sender ≡ payment.notifier
      → SendBlockResult n env client (derived_payment n payment derived) frontier r
      → SendBlockResult n env client (notify_payment n payment notification) frontier s
      → SameResult client payment
          (do send_block ← r; notify_block ← s; ok (frontier, notify_block, send_block))
  step_send client payment derived notification frontier (ok send_block) s known same (sends, _, _)
        h =
      step_notify client payment derived notification frontier send_block s known same sends h
  step_send client payment derived notification frontier (err e) s known same sends h = tt
  step_send client payment derived notification frontier panic s known same sends h = tt

  -- the steps after the frontier is known to hold enough
  abbrev make_blocks :
      CoreClient n
      → CamoPayment n
      → FrontierInfo n
      → n.Account × n.NotificationV1
      → Result (CoreClientError n) (FrontierInfo n × Block n × Block n)
  make_blocks client payment frontier (derived, notification) = do
    send_block ← create_send_block n env client (derived_payment n payment derived) frontier
    notify_block ← create_send_block n env client (notify_payment n payment notification) frontier
    ok (frontier, notify_block, send_block)

  module _ (client : CoreClient n) (payment : CamoPayment n) (laws : KeyLaws n)
      (v : IsValid n client.seed client.wallet_db) (same : payment.sender ≡ payment.notifier) where
    step_memo :
        (frontier : FrontierInfo n) (r : Result (CoreClientError n) (n.Account × n.NotificationV1))
        → account_frontier n client.frontiers_db payment.sender ≡ some frontier
        → SameResult client payment (r >>= make_blocks client payment frontier)
    step_memo frontier (ok (derived, notification)) known =
        step_send client payment derived notification frontier _ _ known same
          (create_send_block-SendBlockResult n env client (derived_payment n payment derived)
            frontier laws v)
          (create_send_block-SendBlockResult n env client (notify_payment n payment notification)
            frontier laws v)
    step_memo frontier (err e) known = tt
    step_memo frontier panic known = tt

    step_enough :
        (frontier : FrontierInfo n) (short : Bool)
        → account_frontier n client.frontiers_db payment.sender ≡ some frontier
        → SameResult client payment (
            fail_if short CoreClientError.not_enough_coins
            >> (camo_transaction_memo n client payment >>= make_blocks client payment frontier))
    step_enough frontier true known = tt
    step_enough frontier false known =
        step_memo frontier (camo_transaction_memo n client payment) known

    step_known :
        (o : Option (FrontierInfo n))
        → account_frontier n client.frontiers_db payment.sender ≡ o
        → SameResult client payment (
            ok_or o CoreClientError.account_not_found >>= λ frontier.
            fail_if
              (ltb frontier.block.balance
                (wrapping_add payment.notification_amount payment.sender_amount))
              CoreClientError.not_enough_coins
            >> (camo_transaction_memo n client payment >>= make_blocks client payment frontier))
    step_known none e = tt
    step_known (some frontier) e = step_enough frontier _ e

  -- For a wallet of the seed's own accounts and a key derivation that keeps its laws: where
  -- `_send_camo_same` makes its two blocks, both are blocks of the sender and both name the
  -- sender's frontier as the block before them, and each has the frontier's balance less its own
  -- amount alone. Nothing is said of the outcomes without blocks.
  pub camo_same_blocks-SameResult :
      (client : CoreClient n) (payment : CamoPayment n)
      → KeyLaws n
      → IsValid n client.seed client.wallet_db
      → SameResult client payment (camo_same_blocks n env client payment)
  unfolding camo_same_blocks
  camo_same_blocks-SameResult client payment laws v =
      elim (Bool-cases (eqb n.account_dec payment.sender payment.notifier)) [
        | inr differ ↦ rw (camo_same_blocks, differ) tt
        | inl same ↦
            rw (camo_same_blocks, same)
              (step_known client payment laws v (eqb→eq n.account_dec _ _ same)
                (account_frontier n client.frontiers_db payment.sender) refl)
      ]
