-- ===== src/App/Commands/Payments.antt =====
-- The commands `send` and `send_camo` of client/src/interface.rs.
use camonanowallet.Base.{
  ℕ, ◌-◌, Bool, true, Option, none, some, List, [], ◌∷◌, ltb, eqb, ◌==◌, ◌&&◌, Result, ok, err,
  panic, if◌then◌else◌,
}
use camonanowallet.Nano.{Nano}
use camonanowallet.Frontiers.Info.{FrontierInfo}
use camonanowallet.Client.State.{CoreClient, Payment, CamoPayment, accounts_with_balance}
use camonanowallet.Client.Camo.{camo_transaction_memo}
use camonanowallet.Client.Send.{send, send_camo}
use camonanowallet.App.Error.{Externals, ClientError}
use camonanowallet.App.State.{CamoTxSummary}
use camonanowallet.App.Session.{
  Outside, Step, ◌>>=◌, ◌>>◌, pure, get_client, modify, lift, run, store_frontiers,
}
use camonanowallet.App.Commands.Notifications.{notification_payload_bytes}

pub record SendCamoArgs (n : Nano) : Type 0 where
  pub sender : n.Account
  pub amount : ℕ
  pub recipient : n.CamoAccount
  pub auto : Bool
  pub notifier : Option n.Account
  pub notifier_amount : Option ℕ

-- `std::cmp::max`
abbrev pub max : ℕ → ℕ → ℕ
max a b = if ltb b a then a else b

module _ (n : Nano) (x : Externals) where
  -- the command `send`, whose arguments are the fields of the payment
  unfoldable pub send_command : Outside n → Payment n → Step n x Bool
  unfolding send store_frontiers
  send_command outside payment = do
    success ← run (λ core. send n outside.env core payment)
    store_frontiers outside.clock success
    pure true

  -- the amount that the notifier sends: the given one, or the least one
  abbrev pub choose_amount : SendCamoArgs n → Result (ClientError n x) ℕ
  choose_amount args = elim args.notifier_amount [
    | some amount ↦ ok amount
    | none ↦
        if args.auto then ok n.camo_sender_dust_threshold else err ClientError.invalid_arguments
  ]

  -- the two tests of the amounts
  abbrev pub is_below_dust : SendCamoArgs n → ℕ → Bool
  is_below_dust args notifier_amount =
      if ltb notifier_amount n.camo_sender_dust_threshold
      then true
      else ltb args.amount (max notifier_amount n.camo_sender_dust_threshold)

  -- the first of the accounts that can pay, or the sender
  abbrev pub first_account : n.Account → List (FrontierInfo n) → n.Account
  first_account sender [] = sender
  first_account sender (info ∷ infos) = info.block.account

  unfoldable pub choose_notifier :
      CoreClient n → SendCamoArgs n → ℕ → Result (ClientError n x) n.Account
  unfolding accounts_with_balance
  choose_notifier core args notifier_amount = elim args.notifier [
    | some notifier ↦ ok notifier
    | none ↦
        if args.auto
        then ok (
            first_account args.sender (
              accounts_with_balance n core notifier_amount
                (args.sender ∷ n.signer_account args.recipient ∷ [])))
        else err ClientError.invalid_arguments
  ]

  abbrev pub payment_of : SendCamoArgs n → ℕ → n.Account → CamoPayment n
  payment_of args notifier_amount notifier = record {
    sender = args.sender;
    sender_amount = args.amount - notifier_amount;
    notifier = notifier;
    notification_amount = notifier_amount;
    recipient = args.recipient;
  }

  -- the payment that the arguments ask for, once the notifier's amount is chosen
  unfoldable pub plan_with :
      CoreClient n → SendCamoArgs n → ℕ → Result (ClientError n x) (CamoPayment n)
  unfolding choose_notifier
  plan_with core args notifier_amount =
      if is_below_dust args notifier_amount
      then err ClientError.amount_below_dust_threshold
      else (elim (choose_notifier core args notifier_amount) [
        | ok notifier ↦ ok (payment_of args notifier_amount notifier)
        | err e ↦ err e
        | panic ↦ panic
      ])

  unfoldable pub plan_payment :
      CoreClient n → SendCamoArgs n → Result (ClientError n x) (CamoPayment n)
  unfolding plan_with
  plan_payment core args = elim (choose_amount args) [
    | ok notifier_amount ↦ plan_with core args notifier_amount
    | err e ↦ err e
    | panic ↦ panic
  ]

  abbrev pub summary_of : SendCamoArgs n → CamoPayment n → n.NotificationV1 → CamoTxSummary n
  summary_of args payment notification = record {
    recipient = args.recipient;
    camo_amount = payment.sender_amount;
    total_amount = args.amount;
    notification = notification_payload_bytes n x notification;
  }

  abbrev pub same_summary : CamoTxSummary n → CamoTxSummary n → Bool
  same_summary a b =
      eqb n.camo_dec a.recipient b.recipient
      && a.camo_amount == b.camo_amount
      && a.total_amount == b.total_amount
      && a.notification == b.notification

  -- a summary is not repeated if it is the last one already
  abbrev pub add_summary : CamoTxSummary n → List (CamoTxSummary n) → List (CamoTxSummary n)
  add_summary summary [] = summary ∷ []
  add_summary summary (first ∷ rest) =
      if same_summary first summary then first ∷ rest else summary ∷ first ∷ rest

  -- the summary is kept, and the payment is sent
  unfoldable pub record_and_send :
      Outside n → SendCamoArgs n → CamoPayment n → n.NotificationV1 → Step n x Bool
  unfolding send_camo store_frontiers
  record_and_send outside args payment notification = do
    modify (λ client. record client {
      camo_history = add_summary (summary_of args payment notification) client.camo_history;
    })
    success ← run (λ core. send_camo n outside.env core payment)
    store_frontiers outside.clock success
    pure true

  unfoldable pub send_planned :
      Outside n → SendCamoArgs n → CoreClient n → CamoPayment n → Step n x Bool
  unfolding camo_transaction_memo record_and_send
  send_planned outside args core payment = do
    (_, notification) ← lift (camo_transaction_memo n core payment)
    record_and_send outside args payment notification

  unfoldable pub send_camo_command : Outside n → SendCamoArgs n → Step n x Bool
  unfolding plan_payment send_planned
  send_camo_command outside args = do
    client ← get_client
    payment ← (λ s. (s, plan_payment client.core args))
    send_planned outside args client.core payment
