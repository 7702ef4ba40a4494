-- ===== src/Client/Blocks.antt =====
-- The blocks that the client makes: `choose_representatives` of client/core/src/client/mod.rs,
-- `create_send_block` of send.rs and `create_receive_block` of receive.rs.
use camonanowallet.Base.{
  ◌-◌, Option, none, some, eqb, ltb, Result, ok, ◌>>=◌, ◌>>◌, fail_if, expect, ok_or, if◌then◌else◌,
}
use camonanowallet.Base.Word.{wrapping_add, checked_add}
use camonanowallet.Nano.{Nano, Block, Bytes8, Bytes32, Receivable}
use camonanowallet.Error.{CoreClientError}
use camonanowallet.Config.{CoreClientConfig}
use camonanowallet.Frontiers.Info.{FrontierInfo, is_unopened}
use camonanowallet.Wallet.Keys.{sign_block}
use camonanowallet.Rpc.World.{Env}
use camonanowallet.Client.State.{CoreClient, Payment, contains}

-- `cached_work().unwrap_or([0; 8])`
abbrev pub work_or_zero : Option Bytes8 → Bytes8
work_or_zero none = 0
work_or_zero (some work) = work

-- the `previous` field of the block after a frontier
abbrev pub previous_of : (n : Nano) → FrontierInfo n → Bytes32
previous_of n frontier = if is_unopened n frontier then 0 else n.hash frontier.block

module _ (n : Nano) (env : Env n) where
  -- panics where the configuration has no representative to choose from
  unfoldable pub choose_representatives :
      CoreClientConfig n → n.Account → Option n.Account → Result (CoreClientError n) n.Account
  unfolding contains
  choose_representatives config current (some rep) = ok rep
  choose_representatives config current none =
      if contains n config.representatives current
      then ok current
      else expect (env.choose config.representatives)

  unfoldable pub create_send_block :
      CoreClient n → Payment n → FrontierInfo n → Result (CoreClientError n) (Block n)
  unfolding choose_representatives is_unopened sign_block
  create_send_block client payment sender_frontier = do
    fail_if (eqb n.account_dec payment.sender payment.recipient) CoreClientError.invalid_payment
    let frontier = sender_frontier.block
    fail_if (ltb frontier.balance payment.amount) CoreClientError.not_enough_coins
    representative ←
        choose_representatives client.config frontier.representative payment.new_representative
    sign_block n client.wallet_db client.seed (record {
      block_type = n.send;
      account = payment.sender;
      previous = previous_of n sender_frontier;
      representative = representative;
      balance = frontier.balance - payment.amount;
      link = n.to_bytes payment.recipient;
      signature = n.default_signature;
      work = work_or_zero sender_frontier.cached_work;
    })

  unfoldable pub create_receive_block :
      CoreClient n
      → Receivable n
      → FrontierInfo n
      → Option n.Account
      → Result (CoreClientError n) (Block n)
  unfolding choose_representatives is_unopened sign_block checked_add wrapping_add
  create_receive_block client receivable recipient_frontier new_representative = do
    let frontier = recipient_frontier.block
    _ ←
        ok_or (checked_add frontier.balance receivable.amount)
          CoreClientError.frontier_balance_overflow
    representative ← choose_representatives client.config frontier.representative new_representative
    sign_block n client.wallet_db client.seed (record {
      block_type = n.receive;
      account = receivable.recipient;
      previous = previous_of n recipient_frontier;
      representative = representative;
      balance = wrapping_add frontier.balance receivable.amount;
      link = receivable.block_hash;
      signature = n.default_signature;
      work = work_or_zero recipient_frontier.cached_work;
    })
