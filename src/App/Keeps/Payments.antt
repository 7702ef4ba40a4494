-- ===== src/App/Keeps/Payments.antt =====
-- The commands `notify`, `send`, `send_camo` and `receive` keep the session sound.
use camonanowallet.Base.{
  refl, true, Option, none, some, List, [], ◌∷◌, Option-cases, inl, inr, ok_or,
}
use camonanowallet.Nano.{Nano, Bytes32, Receivable}
use camonanowallet.Wallet.Seed.{WalletSeed}
use camonanowallet.Error.{CoreClientError}
use camonanowallet.Wallet.Keys.{find_key}
use camonanowallet.Client.State.{Payment, CamoPayment}
use camonanowallet.Client.Camo.{camo_transaction_memo}
use camonanowallet.Client.Send.{send, send_camo}
use camonanowallet.Client.Receive.{ReceiveFailure, receive}
use camonanowallet.Rpc.Download.{is_empty}
use camonanowallet.App.Error.{Externals, ClientError}
use camonanowallet.App.State.{lookup, delete}
use camonanowallet.App.Entries.{IsKeyed, delete-IsKeyed}
use camonanowallet.App.Session.{Outside, ◌>>=◌, pure, lift}
use camonanowallet.App.Sound.{
  Keeps, Keeps-same, Keeps-pure, Keeps-fail, Keeps-run, Keeps-modify, Keeps-if, Keeps-bind,
  Keeps-get, Keeps-lift, store_frontiers-Keeps,
}
use camonanowallet.App.Commands.Notifications.{
  NotifyArgs, RecoverNotificationArgs, account_of, notify_again, notify, recover_notification,
}
use camonanowallet.App.Commands.Payments.{
  SendCamoArgs, plan_payment, add_summary, summary_of, send_command, record_and_send, send_planned,
  send_camo_command,
}
use camonanowallet.App.Commands.Receive.{
  ReceiveArgs, take_each, take, hashes_to, unreceived_in, outcome_of, receive_taken,
  receive_command,
}
use camonanowallet.App.Keeps.Accounts.{insert_receivable-IsSound, account_of-Keeps}

module _ (n : Nano) (seed : WalletSeed) (x : Externals) where
  pub send_command-Keeps :
      (outside : Outside n) (payment : Payment n)
      → Keeps n seed x (send_command n x outside payment)
  unfolding send_command
  send_command-Keeps outside payment =
      Keeps-bind n seed x _ _ (Keeps-run n seed x (λ core. send n outside.env core payment))
        (λ success.
          Keeps-bind n seed x _ _ (store_frontiers-Keeps n seed x outside.clock success)
            (λ _. Keeps-pure n seed x true))

  pub notify-Keeps :
      (outside : Outside n) (args : NotifyArgs n) → Keeps n seed x (notify n x outside args)
  unfolding notify send_command
  notify-Keeps outside args =
      Keeps-if n seed x _ _ _ (Keeps-fail n seed x ClientError.amount_below_dust_threshold) (
        Keeps-bind n seed x (account_of n x args.notification) _
          (account_of-Keeps n seed x args.notification)
          (λ payload. send_command-Keeps outside (notify_again n x args payload)))

  pub recover_notification-Keeps :
      (args : RecoverNotificationArgs n) → Keeps n seed x (recover_notification n x args)
  unfolding recover_notification
  recover_notification-Keeps args =
      Keeps-get n seed x
        (λ client. do
          found ← lift (find_key n client.core.wallet_db client.core.seed args.sender)
          key ← lift (ok_or found CoreClientError.account_not_found)
          pure (payload_of key))
        (λ client sound.
          Keeps-lift n seed x (find_key n client.core.wallet_db client.core.seed args.sender)
            (λ found. do
              key ← lift (ok_or found CoreClientError.account_not_found)
              pure (payload_of key))
            (λ found _.
              Keeps-lift n seed x (ok_or found CoreClientError.account_not_found)
                (λ key. pure (payload_of key)) (λ key _. Keeps-pure n seed x (payload_of key))))
    where
      payload_of : n.Key → Bytes32
      payload_of key =
          n.to_bytes (n.representative_payload (n.sender_ecdh args.recipient key args.frontier).1)

  record_and_send-Keeps :
      (outside : Outside n) (args : SendCamoArgs n) (payment : CamoPayment n)
      (notification : n.NotificationV1)
      → Keeps n seed x (record_and_send n x outside args payment notification)
  unfolding record_and_send
  record_and_send-Keeps outside args payment notification =
      Keeps-bind n seed x _ _
        (Keeps-modify n seed x
          (λ client. record client {
            camo_history =
                add_summary n x (summary_of n x args payment notification) client.camo_history;
          })
          (λ client h. record { core = h.core; keyed = h.keyed }))
        (λ _.
          Keeps-bind n seed x _ _
            (Keeps-run n seed x (λ core. send_camo n outside.env core payment))
            (λ success.
              Keeps-bind n seed x _ _ (store_frontiers-Keeps n seed x outside.clock success)
                (λ _. Keeps-pure n seed x true)))

  pub send_camo_command-Keeps :
      (outside : Outside n) (args : SendCamoArgs n)
      → Keeps n seed x (send_camo_command n x outside args)
  unfolding send_camo_command send_planned
  send_camo_command-Keeps outside args =
      Keeps-get n seed x
        (λ client.
          (λ s. (s, plan_payment n x client.core args))
          >>= send_planned n x outside args client.core)
        (λ client sound.
          Keeps-bind n seed x (λ s. (s, plan_payment n x client.core args)) _
            (Keeps-same n seed x _ (λ s. refl))
            (λ payment.
              Keeps-lift n seed x (camo_transaction_memo n client.core payment)
                (λ memo. record_and_send n x outside args payment memo.1)
                (λ memo _. record_and_send-Keeps outside args payment memo.1)))

  take_each-IsKeyed :
      (entries : List (Bytes32 × Receivable n)) (hashes : List Bytes32)
      → IsKeyed n entries
      → IsKeyed n (take_each n entries hashes).0
  unfolding take_each
  take_each-IsKeyed entries [] keyed = keyed
  take_each-IsKeyed entries (hash ∷ hashes) keyed = elim (Option-cases (lookup entries hash)) [
    | inl e ↦ rw (take_each, e) keyed
    | inr (r, e) ↦
        rw (take_each, e)
          (take_each-IsKeyed (delete entries hash) hashes (delete-IsKeyed n entries hash keyed))
  ]

  take-Keeps : (hashes : List Bytes32) → Keeps n seed x (take n x hashes)
  unfolding take
  take-Keeps hashes = record {
    at = λ s h. record {
      core = h.core;
      keyed = take_each-IsKeyed s.client.receivable hashes h.keyed;
    };
  }

  outcome_of-Keeps : (o : Option (ReceiveFailure n)) → Keeps n seed x (outcome_of n x o)
  outcome_of-Keeps none = Keeps-pure n seed x true
  outcome_of-Keeps (some failure) =
      Keeps-fail n seed x (ClientError.core_client_error failure.error)

  receive_taken-Keeps :
      (outside : Outside n) (receivables : List (Receivable n))
      → Keeps n seed x (receive_taken n x outside receivables)
  unfolding receive_taken
  receive_taken-Keeps outside receivables =
      Keeps-bind n seed x _ _ (Keeps-run n seed x (λ core. receive n outside.env core receivables))
        (λ result.
          Keeps-bind n seed x _ _ (store_frontiers-Keeps n seed x outside.clock result.successes)
            (λ _.
              Keeps-bind n seed x _ _
                (Keeps-modify n seed x _ (λ client h.
                  insert_receivable-IsSound n seed x client (unreceived_in n x result.failures) h))
                (λ _. outcome_of-Keeps result.failures)))

  pub receive_command-Keeps :
      (outside : Outside n) (args : ReceiveArgs n)
      → Keeps n seed x (receive_command n x outside args)
  unfolding receive_command
  receive_command-Keeps outside args =
      Keeps-if n seed x (is_empty args.blocks) _ _
        (Keeps-if n seed x (is_empty args.accounts) _ _ (Keeps-pure n seed x true) (
          Keeps-get n seed x _ (λ client sound.
            Keeps-bind n seed x _ _ (take-Keeps (hashes_to n args.accounts client.receivable))
              (λ receivables. receive_taken-Keeps outside receivables))))
        (Keeps-bind n seed x _ _ (take-Keeps args.blocks)
          (λ receivables. receive_taken-Keeps outside receivables))
