-- ===== src/App/PlanLaws.antt =====
-- The payment that the command `send_camo` plans.
use camonanowallet.Base.{
  ℕ, ◌+◌, ◌≤◌, ◌<◌, ◌≡◌, refl, ◌⊎◌, inl, inr, Bool, true, false, Bool-cases, Option-cases, Option,
  none, some, List, [], ◌∷◌, arith, tests, All, Result, ok, err, panic, if◌then◌else◌,
}
use camonanowallet.Nano.{Nano}
use camonanowallet.Frontiers.Info.{FrontierInfo}
use camonanowallet.Client.State.{CoreClient, CamoPayment, accounts_with_balance}
use camonanowallet.Client.BalanceLaws.{CanPay, accounts_with_balance-CanPay}
use camonanowallet.App.Error.{Externals, ClientError}
use camonanowallet.App.Commands.Payments.{
  SendCamoArgs, choose_amount, is_below_dust, first_account, choose_notifier, payment_of, plan_with,
  plan_payment,
}

module _ (n : Nano) (x : Externals) (core : CoreClient n) (args : SendCamoArgs n) where
  -- the notifier of a payment with `auto`: one that can pay and is neither the sender nor the
  -- recipient's notification account; or the sender, if the wallet has no such account
  abbrev pub AutoNotifier : ℕ → n.Account → Type 0
  AutoNotifier amount notifier =
      ((info : FrontierInfo n) × (info.block.account ≡ notifier)
        × CanPay n core.frontiers_db amount (args.sender ∷ n.signer_account args.recipient ∷ [])
            info)
      ⊎ ((accounts_with_balance n core amount (args.sender ∷ n.signer_account args.recipient ∷ [])
            ≡ [])
          × (notifier ≡ args.sender))

  -- a given notifier is the one; only without one, and with `auto`, another is found
  abbrev pub NotifierChosen : Option n.Account → ℕ → n.Account → Type 0
  NotifierChosen (some given) amount notifier = notifier ≡ given
  NotifierChosen none amount notifier = (args.auto ≡ true) × AutoNotifier amount notifier

  -- a given amount is the notification's; only without one, and with `auto`, it is the threshold
  abbrev pub AmountChosen : Option ℕ → ℕ → Type 0
  AmountChosen (some given) amount = amount ≡ given
  AmountChosen none amount = (args.auto ≡ true) × (amount ≡ n.camo_sender_dust_threshold)

  pub record Planned (payment : CamoPayment n) : Type 0 where
    pub sender : payment.sender ≡ args.sender
    pub recipient : payment.recipient ≡ args.recipient
    pub total : payment.sender_amount + payment.notification_amount ≡ args.amount
    pub above_dust : n.camo_sender_dust_threshold ≤ payment.notification_amount
    pub amount : AmountChosen args.notifier_amount payment.notification_amount
    pub notifier : NotifierChosen args.notifier payment.notification_amount payment.notifier

  abbrev NotifierResult : ℕ → Result (ClientError n x) n.Account → Type 0
  NotifierResult amount (ok notifier) = NotifierChosen args.notifier amount notifier
  NotifierResult amount (err e) =
      (e ≡ ClientError.invalid_arguments) × (args.auto ≡ false) × (args.notifier ≡ none)
  NotifierResult amount panic = ⊥

  -- the plan, or why there is none: a missing argument, or amounts below the threshold
  abbrev pub PlanResult : Result (ClientError n x) (CamoPayment n) → Type 0
  PlanResult (ok payment) = Planned payment
  PlanResult (err e) =
      ((e ≡ ClientError.invalid_arguments)
        × (args.auto ≡ false)
        × ((args.notifier ≡ none) ⊎ (args.notifier_amount ≡ none)))
      ⊎ ((e ≡ ClientError.amount_below_dust_threshold)
          × ((amount : ℕ) × AmountChosen args.notifier_amount amount
              × ((amount < n.camo_sender_dust_threshold)
                  ⊎ (args.amount < amount)
                  ⊎ (args.amount < n.camo_sender_dust_threshold))))
  PlanResult panic = ⊥

  first-Chosen :
      (amount : ℕ) (infos : List (FrontierInfo n))
      → accounts_with_balance n core amount (args.sender ∷ n.signer_account args.recipient ∷ [])
        ≡ infos
      → All
          (CanPay n core.frontiers_db amount (args.sender ∷ n.signer_account args.recipient ∷ []))
          infos
      → AutoNotifier amount (first_account n x args.sender infos)
  first-Chosen amount [] e all = inr (e, refl)
  first-Chosen amount (info ∷ infos) e all = inl (info, refl, all.0)

  choose_notifier-NotifierResult :
      (amount : ℕ) → NotifierResult amount (choose_notifier n x core args amount)
  unfolding choose_notifier
  choose_notifier-NotifierResult amount = go args.notifier refl args.auto refl
    where
      rich : List (FrontierInfo n)
      rich =
          accounts_with_balance n core amount (args.sender ∷ n.signer_account args.recipient ∷ [])

      go :
          (given : Option n.Account)
          → args.notifier ≡ given
          → (auto : Bool) → args.auto ≡ auto
          → NotifierResult amount (elim given [
            | some notifier ↦ ok notifier
            | none ↦
                if auto
                then ok (first_account n x args.sender rich)
                else err ClientError.invalid_arguments
          ])
      go (some notifier) e auto f = rw e refl
      go none e true f = rw e (
        f,
        first-Chosen amount rich refl
            (accounts_with_balance-CanPay n core amount
              (args.sender ∷ n.signer_account args.recipient ∷ [])).1,
      )
      go none e false f = (refl, f, e)

  below :
      (amount : ℕ)
      → is_below_dust n x args amount ≡ true
      → (amount < n.camo_sender_dust_threshold)
        ⊎ (args.amount < amount)
        ⊎ (args.amount < n.camo_sender_dust_threshold)
  below amount e = grind tests

  not_below :
      (amount : ℕ)
      → is_below_dust n x args amount ≡ false
      → (n.camo_sender_dust_threshold ≤ amount) × (amount ≤ args.amount)
  not_below amount e = (ground arith, ground arith)

  planned :
      (amount : ℕ) (r : Result (ClientError n x) n.Account)
      → AmountChosen args.notifier_amount amount
      → NotifierResult amount r
      → (n.camo_sender_dust_threshold ≤ amount) × (amount ≤ args.amount)
      → PlanResult (elim r [
        | ok notifier ↦ ok (payment_of n x args amount notifier)
        | err e ↦ err e
        | panic ↦ panic
      ])
  planned amount (ok notifier) chosen h (least, enough) = record {
    sender = refl;
    recipient = refl;
    total = omega arith;
    above_dust = least;
    amount = chosen;
    notifier = h;
  }
  planned amount (err e) chosen (is, auto, given) bounds = inl (is, auto, inl given)
  planned amount panic chosen h bounds = h

  plan_with-PlanResult :
      (amount : ℕ)
      → AmountChosen args.notifier_amount amount
      → PlanResult (plan_with n x core args amount)
  unfolding plan_with
  plan_with-PlanResult amount chosen = elim (Bool-cases (is_below_dust n x args amount)) [
    | inl e ↦ rw (plan_with, e) (inr (refl, (amount, chosen, below amount e)))
    | inr e ↦
        rw (plan_with, e)
          (planned amount (choose_notifier n x core args amount) chosen
            (choose_notifier-NotifierResult amount) (not_below amount e))
  ]

  AmountResult-cases :
      ((amount : ℕ) × (choose_amount n x args ≡ ok amount)
        × AmountChosen args.notifier_amount amount)
      ⊎ ((choose_amount n x args ≡ err ClientError.invalid_arguments)
          × (args.auto ≡ false)
          × (args.notifier_amount ≡ none))
  AmountResult-cases = elim (Option-cases args.notifier_amount) [
    | inr (amount, e) ↦ inl (amount, ground arith, rw e refl)
    | inl e ↦ elim (Bool-cases args.auto) [
      | inl f ↦ inl (n.camo_sender_dust_threshold, ground arith, rw e (f, refl))
      | inr f ↦ inr (ground arith, f, e)
    ]
  ]

  -- A plan of `send_camo` sends the whole amount in two parts, of which the notification's is at
  -- least the threshold, from the sender to the recipient. The notification's amount is the given
  -- one; only where none is given, and with `auto`, it is the threshold. The notifier is the given
  -- one; only where none is given, and with `auto`, it is one whose frontier has the notification's
  -- amount and who is neither the sender nor the recipient's notification account, or the sender
  -- where the wallet has no such account. It never panics; the errors are a missing argument
  -- without `auto`, and an amount that is below the threshold or below the notification's.
  pub plan_payment-PlanResult : PlanResult (plan_payment n x core args)
  unfolding plan_payment
  plan_payment-PlanResult = elim AmountResult-cases [
    | inl (amount, e, chosen) ↦ rw (plan_payment, e) (plan_with-PlanResult amount chosen)
    | inr (e, auto, given) ↦ rw (plan_payment, e) (inl (refl, auto, inr given))
  ]
