-- ===== src/App/Commands/Execute.antt =====
-- `Command::execute` of client/src/interface.rs: the work cache is brought up to date before and after
-- the command. The commands `balance`, `clear` and `seed` only print (Balance has what `balance`
-- prints); `seed` asks for the password.
use camonanowallet.Base.{Bool, true, false, Result}
use camonanowallet.Nano.{Nano}
use camonanowallet.Client.State.{Payment}
use camonanowallet.App.Error.{Externals, ClientError}
use camonanowallet.App.Session.{Outside, Moments, Step, ◌>>=◌, ◌>>◌, pure, update_work_cache}
use camonanowallet.App.Commands.Accounts.{
  AccountArgs, ClearCacheArgs, CamoHistoryArgs, ParsedAccount, account, clear_cache, remove,
  camo_history,
}
use camonanowallet.App.Commands.Notifications.{
  NotifyArgs, RecoverNotificationArgs, AckNotificationArgs, notify, recover_notification,
  ack_notification,
}
use camonanowallet.App.Commands.Payments.{SendCamoArgs, send_command, send_camo_command}
use camonanowallet.App.Commands.Receive.{ReceiveArgs, receive_command}
use camonanowallet.App.Commands.Downloads.{RescanArgs, refresh, rescan}

pub data CommandType (n : Nano) (x : Externals) : Type 0 where
  recover_notification_of : RecoverNotificationArgs n → CommandType n x
  ack_notification_of : AckNotificationArgs n → CommandType n x
  account_of : AccountArgs n → CommandType n x
  balance_of : CommandType n x
  camo_history_of : CamoHistoryArgs → CommandType n x
  clear_of : CommandType n x
  clear_cache_of : ClearCacheArgs n → CommandType n x
  notify_of : NotifyArgs n → CommandType n x
  receive_of : ReceiveArgs n → CommandType n x
  refresh_of : CommandType n x
  remove_of : ParsedAccount n → CommandType n x
  rescan_of : RescanArgs n → CommandType n x
  seed_of : Result (ClientError n x) (Unit {0}) → CommandType n x
  send_of : Payment n → CommandType n x
  send_camo_of : SendCamoArgs n → CommandType n x
  quit_of : CommandType n x

module _ (n : Nano) (x : Externals) (outside : Outside n) where
  -- the argument of `seed` is what `WalletFrontend::authenticate` gives
  unfoldable pub execute_command : CommandType n x → Step n x Bool
  unfolding recover_notification ack_notification account camo_history clear_cache notify
      receive_command refresh remove rescan send_command send_camo_command
  execute_command (CommandType.recover_notification_of args) =
      recover_notification n x args >>= λ _. pure true
  execute_command (CommandType.ack_notification_of args) = ack_notification n x args
  execute_command (CommandType.account_of args) = account n x outside args
  execute_command CommandType.balance_of = pure true
  execute_command (CommandType.camo_history_of args) = camo_history n x args
  execute_command CommandType.clear_of = pure true
  execute_command (CommandType.clear_cache_of args) = clear_cache n x args
  execute_command (CommandType.notify_of args) = notify n x outside args
  execute_command (CommandType.receive_of args) = receive_command n x outside args
  execute_command CommandType.refresh_of = refresh n x outside
  execute_command (CommandType.remove_of account) = remove n x account
  execute_command (CommandType.rescan_of args) = rescan n x outside args
  execute_command (CommandType.seed_of result) = (λ s. (s, result)) >> pure true
  execute_command (CommandType.send_of payment) = send_command n x outside payment
  execute_command (CommandType.send_camo_of args) = send_camo_command n x outside args
  execute_command CommandType.quit_of = pure false

module _ (n : Nano) (x : Externals) (outside : Moments n) where
  unfoldable pub execute : CommandType n x → Step n x Bool
  unfolding execute_command update_work_cache
  execute command = do
    _ ← update_work_cache n x outside.before
    result ← execute_command n x outside.during command
    _ ← update_work_cache n x outside.after
    pure result
