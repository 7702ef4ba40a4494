-- ===== src/Tests/Payments.antt =====
-- A camo payment from one wallet to another, whose seed is 300: its camo account is 800, and 801 is the
-- notification account.
use camonanowallet.Base.{◌≡◌, refl, some, [], ◌∷◌, ok, ℕ_discrete}
use camonanowallet.Nano.{Block}
use camonanowallet.Wallet.Db.{GenericInfo}
use camonanowallet.Wallet.Seed.{WalletSeed}
use camonanowallet.Wallet.Keys.{WalletDb, get_info_from_notification_account}
use camonanowallet.Wallet.Validity.{IsValid}
use camonanowallet.Client.State.{CoreClient, CamoPayment}
use camonanowallet.Client.Blocks.{create_send_block}
use camonanowallet.Client.Camo.{camo_transaction_memo, notify_payment}
use camonanowallet.Client.History.{get_camo_destinations_from_blocks}
use camonanowallet.Client.DestinationLaws.{
  DestinationsResult, get_camo_destinations-DestinationsResult,
}
use camonanowallet.Client.PaymentLaws.{PaymentLaws, Arrives, camo_payment-Arrives}
use camonanowallet.Tests.Toy.{toy, toy_laws, config, entry, two_entries, seed, env}
use camonanowallet.Tests.Wallet.{wallet, wallet-IsValid}

toy_pay : PaymentLaws toy
toy_pay = record {
  derive = λ k s. refl;
  ecdh = λ k key f. refl;
  recipient = λ c key f. refl;
  fields = λ note. refl;
  link = λ b a h. (rw h refl, rw h refl);
}

abbrev their_seed : WalletSeed
their_seed = record { bytes = 300 }

abbrev their_camo : GenericInfo toy.CamoAccount
their_camo = record { index = 0; account = 800 }

abbrev their_wallet : WalletDb toy
their_wallet = record {
  account_db = record { info = [] };
  camo_account_db = record { info = their_camo ∷ [] };
  derived_account_db = record { info = [] };
}

their_wallet-IsValid : IsValid toy their_seed their_wallet
their_wallet-IsValid = record {
  accounts = tt;
  camo_accounts = ((800, refl, refl), tt);
  derived_accounts = tt;
}

abbrev our_client : CoreClient toy
our_client = record { seed = seed; config = config; wallet_db = wallet; frontiers_db = two_entries }

abbrev their_payment : CamoPayment toy
their_payment = record {
  sender = 101;
  sender_amount = 10;
  notifier = 101;
  notification_amount = 1;
  recipient = 800;
}

abbrev notify_block : Block toy
notify_block = record {
  block_type = 2;
  account = 101;
  previous = 1131;
  representative = 800;
  balance = 29;
  link = 801;
  signature = 129;
  work = 0;
}

memo_run : camo_transaction_memo toy our_client their_payment ≡ ok (808, (801, 800))
unfolding camo_transaction_memo ℕ_discrete
memo_run = refl

notify_run :
    create_send_block toy env our_client
      (notify_payment toy their_payment (801, 800))
      (entry 101 30)
    ≡ ok notify_block
unfolding create_send_block ℕ_discrete
notify_run = refl

known_run :
    get_info_from_notification_account toy their_wallet.camo_account_db 801 ≡ some their_camo
unfolding get_info_from_notification_account ℕ_discrete
known_run = refl

-- of two blocks only the second one is a notification to the wallet
destinations_run :
    get_camo_destinations_from_blocks toy their_wallet their_seed
      ((entry 9 1).block ∷ notify_block ∷ [])
    ≡ ok (record { versions = 1; secret = 7; master_index = 0; index = 0; account = 808 } ∷ [])
unfolding get_camo_destinations_from_blocks ℕ_discrete
destinations_run = refl

get_camo_destinations-DestinationsResult_example :
    DestinationsResult toy their_seed
      (get_camo_destinations_from_blocks toy their_wallet their_seed (notify_block ∷ []))
get_camo_destinations-DestinationsResult_example =
    get_camo_destinations-DestinationsResult toy their_seed their_wallet (notify_block ∷ [])
      toy_laws their_wallet-IsValid

camo_payment-Arrives_example :
    Arrives toy toy_laws toy_pay their_seed their_wallet their_wallet-IsValid their_payment
      their_camo known_run refl 808
      (get_camo_destinations_from_blocks toy their_wallet their_seed
        ((entry 9 1).block ∷ record notify_block { work = 4 } ∷ []))
camo_payment-Arrives_example =
    camo_payment-Arrives toy toy_laws toy_pay their_seed their_wallet their_wallet-IsValid
      their_payment their_camo known_run refl env our_client (entry 101 30) 808 (801, 800)
      notify_block 4 ((entry 9 1).block ∷ []) [] wallet-IsValid memo_run notify_run
