-- ===== src/App/Keeps/Commands.antt =====
-- Every command, from beginning to end, keeps the session sound.
use camonanowallet.Base.{true, false, List, [], ◌∷◌}
use camonanowallet.Nano.{Nano}
use camonanowallet.Wallet.Seed.{WalletSeed}
use camonanowallet.Wallet.Validity.{KeyLaws}
use camonanowallet.App.Error.{Externals}
use camonanowallet.App.Session.{Session, Outside, Moments}
use camonanowallet.App.Sound.{IsSound, Keeps, Keeps-pure, Keeps-modify, Keeps-if, Keeps-bind}
use camonanowallet.App.Commands.Accounts.{CamoHistoryArgs, camo_history}
use camonanowallet.App.Commands.Execute.{CommandType, execute_command, execute}
use camonanowallet.App.Keeps.Work.{update_work_cache-Keeps}
use camonanowallet.App.Keeps.Accounts.{account-Keeps, ack_notification-Keeps}
use camonanowallet.App.Keeps.Removal.{clear_cache-Keeps, remove-Keeps}
use camonanowallet.App.Keeps.Payments.{
  send_command-Keeps, notify-Keeps, recover_notification-Keeps, send_camo_command-Keeps,
  receive_command-Keeps,
}
use camonanowallet.App.Keeps.Downloads.{refresh-Keeps, rescan-Keeps}

module _ (n : Nano) (seed : WalletSeed) (x : Externals) where
  camo_history-Keeps : (args : CamoHistoryArgs) → Keeps n seed x (camo_history n x args)
  unfolding camo_history
  camo_history-Keeps args =
      Keeps-if n seed x args.clear _ _
        (Keeps-bind n seed x _ _
          (Keeps-modify n seed x (λ client. record client { camo_history = [] })
            (λ client h. record { core = h.core; keyed = h.keyed }))
          (λ _. Keeps-pure n seed x true))
        (Keeps-pure n seed x true)

  module _ (laws : KeyLaws n) (outside : Outside n) where
    execute_command-Keeps :
        (command : CommandType n x) → Keeps n seed x (execute_command n x outside command)
    unfolding execute_command
    execute_command-Keeps (CommandType.recover_notification_of args) =
        Keeps-bind n seed x _ _ (recover_notification-Keeps n seed x args)
          (λ _. Keeps-pure n seed x true)
    execute_command-Keeps (CommandType.ack_notification_of args) =
        ack_notification-Keeps n seed x laws args
    execute_command-Keeps (CommandType.account_of args) = account-Keeps n seed x laws outside args
    execute_command-Keeps CommandType.balance_of = Keeps-pure n seed x true
    execute_command-Keeps (CommandType.camo_history_of args) = camo_history-Keeps args
    execute_command-Keeps CommandType.clear_of = Keeps-pure n seed x true
    execute_command-Keeps (CommandType.clear_cache_of args) = clear_cache-Keeps n seed x args
    execute_command-Keeps (CommandType.notify_of args) = notify-Keeps n seed x outside args
    execute_command-Keeps (CommandType.receive_of args) =
        receive_command-Keeps n seed x outside args
    execute_command-Keeps CommandType.refresh_of = refresh-Keeps n seed x laws outside
    execute_command-Keeps (CommandType.remove_of account) = remove-Keeps n seed x account
    execute_command-Keeps (CommandType.rescan_of args) = rescan-Keeps n seed x laws outside args
    execute_command-Keeps (CommandType.seed_of result) =
        Keeps-bind n seed x (λ s. (s, result)) _ (record { at = λ s h. h })
          (λ _. Keeps-pure n seed x true)
    execute_command-Keeps (CommandType.send_of payment) =
        send_command-Keeps n seed x outside payment
    execute_command-Keeps (CommandType.send_camo_of args) =
        send_camo_command-Keeps n seed x outside args
    execute_command-Keeps CommandType.quit_of = Keeps-pure n seed x false

  pub execute-Keeps :
      (outside : Moments n) (command : CommandType n x)
      → KeyLaws n
      → Keeps n seed x (execute n x outside command)
  unfolding execute
  execute-Keeps outside command laws =
      Keeps-bind n seed x _ _ (update_work_cache-Keeps n seed x outside.before) (λ _.
        Keeps-bind n seed x _ _ (execute_command-Keeps laws outside.during command) (λ result.
          Keeps-bind n seed x _ _ (update_work_cache-Keeps n seed x outside.after)
            (λ _. Keeps-pure n seed x result)))

  -- the client after a list of commands, each with what it finds outside
  abbrev pub after_all : List (Moments n × CommandType n x) → Session n → Session n
  after_all [] s = s
  after_all ((outside, command) ∷ rest) s = after_all rest (execute n x outside command s).0

  -- With a key derivation that keeps its laws, every list of commands, whatever nodes, work jobs
  -- and the clock answer at each and whether or not a command fails or panics, keeps the client
  -- sound: its seed stays, the wallet tracks only accounts of the seed, the frontier database is
  -- valid, and each waiting receivable stands once, under the hash of its block.
  pub execute_all-IsSound :
      (commands : List (Moments n × CommandType n x)) (s : Session n)
      → KeyLaws n
      → IsSound n seed s.client
      → IsSound n seed (after_all commands s).client
  execute_all-IsSound [] s laws h = h
  execute_all-IsSound ((outside, command) ∷ rest) s laws h =
      execute_all-IsSound rest (execute n x outside command s).0 laws
        ((execute-Keeps outside command laws).at s h)
