-- ===== src/App/Commands/Notifications.antt =====
-- The commands `notify`, `dev_recover_notification` and `dev_ack_notification` of
-- client/src/interface.rs. A notification is given by the bytes of its payload.
use camonanowallet.Base.{ℕ, Bool, true, none, some, ltb, ok_or, if◌then◌else◌}
use camonanowallet.Nano.{Nano, Bytes32}
use camonanowallet.Error.{CoreClientError}
use camonanowallet.Wallet.Db.{get_info}
use camonanowallet.Wallet.Derived.{insert}
use camonanowallet.Wallet.Seed.{derive_key}
use camonanowallet.Wallet.Keys.{find_key}
use camonanowallet.Client.State.{Payment}
use camonanowallet.Client.Send.{send}
use camonanowallet.App.Error.{Externals, ClientError}
use camonanowallet.App.Session.{
  Outside, Step, ◌>>=◌, ◌>>◌, pure, fail, get_client, modify_core, lift, run, store_frontiers,
}

pub record NotifyArgs (n : Nano) : Type 0 where
  pub notifier : n.Account
  pub recipient : n.CamoAccount
  pub notification : Bytes32
  pub amount : ℕ

pub record RecoverNotificationArgs (n : Nano) : Type 0 where
  pub sender : n.Account
  pub recipient : n.CamoAccount
  pub frontier : Bytes32

pub record AckNotificationArgs (n : Nano) : Type 0 where
  pub recipient : n.CamoAccount
  pub notification : Bytes32

module _ (n : Nano) (x : Externals) where
  abbrev pub notification_payload_bytes : n.NotificationV1 → Bytes32
  notification_payload_bytes notification = n.to_bytes (n.representative_payload notification)

  -- `Account::from_bytes(..)?`
  abbrev pub account_of : Bytes32 → Step n x n.Account
  account_of bytes s = elim (n.from_bytes bytes) [
    | none ↦ fail (ClientError.nano_error n.invalid_account) s
    | some a ↦ pure a s
  ]

  -- the payment that carries the notification again
  abbrev pub notify_again : NotifyArgs n → n.Account → Payment n
  notify_again args payload = record {
    sender = args.notifier;
    amount = args.amount;
    recipient = n.signer_account args.recipient;
    new_representative = some payload;
  }

  unfoldable pub notify : Outside n → NotifyArgs n → Step n x Bool
  unfolding send store_frontiers
  notify outside args =
      if ltb args.amount n.camo_sender_dust_threshold
      then fail ClientError.amount_below_dust_threshold
      else do
        payload ← account_of args.notification
        success ← run (λ core. send n outside.env core (notify_again args payload))
        store_frontiers outside.clock success
        pure true

  -- the payload that is printed
  unfoldable pub recover_notification : RecoverNotificationArgs n → Step n x Bytes32
  unfolding find_key
  recover_notification args = do
    client ← get_client
    found ← lift (find_key n client.core.wallet_db client.core.seed args.sender)
    key ← lift (ok_or found CoreClientError.account_not_found)
    pure (notification_payload_bytes (n.sender_ecdh args.recipient key args.frontier).1)

  -- the account that the notification tells of is added to the wallet
  unfoldable pub ack_notification : AckNotificationArgs n → Step n x Bool
  unfolding get_info derive_key insert
  ack_notification args = do
    client ← get_client
    info ← lift (
        ok_or (get_info n.camo_dec client.core.wallet_db.camo_account_db args.recipient)
          CoreClientError.account_not_found)
    payload ← account_of args.notification
    (_, derived) ← lift (
        derive_key n client.core.seed info
          (n.notification_v1 (n.signer_account args.recipient) payload))
    modify_core (λ core. record core {
      wallet_db = record core.wallet_db {
        derived_account_db = (insert n core.wallet_db.derived_account_db derived).0;
      };
    })
    pure true
