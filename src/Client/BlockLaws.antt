-- ===== src/Client/BlockLaws.antt =====
-- What the blocks that the client signs say: which account, which balance, after which block.
use camonanowallet.Base.{
  ◌+◌, ◌-◌, ◌≤◌, ◌<◌, ◌≡◌, ◌≢◌, ◌⊎◌, refl, inl, inr, false, Option, none, some, arith, eqb, eqb→eq,
  ltb, ltb→lt, true, Bool-cases, Option-cases, Result, ok, err, panic,
}
use camonanowallet.Base.Word.{u128_mod, wrapping_add, wrapping_add_exact}
use camonanowallet.Nano.{Nano, Block, Receivable}
use camonanowallet.Error.{CoreClientError}
use camonanowallet.Config.{CoreClientConfig}
use camonanowallet.Frontiers.Info.{FrontierInfo}
use camonanowallet.Wallet.Keys.{contains_account}
use camonanowallet.Wallet.Validity.{KeyLaws, IsValid, SignResult, sign_block-SignResult}
use camonanowallet.Rpc.World.{Env}
use camonanowallet.Client.State.{CoreClient, Payment, contains}
use camonanowallet.Client.Blocks.{
  choose_representatives, previous_of, work_or_zero, create_send_block, create_receive_block,
}

module _ (n : Nano) (env : Env n) where
  -- The block is signed with the key of the account.
  abbrev pub IsSigned : Block n → Type 0
  IsSigned block =
      (k : n.Key) × (n.to_account k ≡ block.account)
      × (block.signature ≡ n.signature_by (record block { signature = n.default_signature }) k)

  pub record Sends (payment : Payment n) (frontier : FrontierInfo n) (block : Block n)
      : Type 0 where
    pub account : block.account ≡ payment.sender
    pub link : block.link ≡ n.to_bytes payment.recipient
    pub previous : block.previous ≡ previous_of n frontier
    pub balance : block.balance + payment.amount ≡ frontier.block.balance
    pub kind : block.block_type ≡ n.send
    pub signed : IsSigned block

  -- the representative of a new block: the given one, or the current one if the configuration has it,
  -- or else one of the configuration's
  abbrev pub IsChosen : CoreClientConfig n → n.Account → Option n.Account → n.Account → Type 0
  IsChosen config current (some given) rep = rep ≡ given
  IsChosen config current none rep =
      ((contains n config.representatives current ≡ true) × (rep ≡ current))
      ⊎ ((contains n config.representatives current ≡ false)
          × (env.choose config.representatives ≡ some rep))

  -- a representative is neither given nor kept, and there is none to choose
  abbrev pub NoneToChoose : CoreClientConfig n → n.Account → Option n.Account → Type 0
  NoneToChoose config current option =
      (option ≡ none)
      × (contains n config.representatives current ≡ false)
      × (env.choose config.representatives ≡ none)

  abbrev pub SendBlockResult :
      CoreClient n → Payment n → FrontierInfo n → Result (CoreClientError n) (Block n) → Type 0
  SendBlockResult client payment frontier (ok block) =
      Sends payment frontier block
      × (payment.sender ≢ payment.recipient)
      × IsChosen client.config frontier.block.representative payment.new_representative
          block.representative
  SendBlockResult client payment frontier (err e) =
      ((payment.sender ≡ payment.recipient) × (e ≡ CoreClientError.invalid_payment))
      ⊎ ((frontier.block.balance < payment.amount) × (e ≡ CoreClientError.not_enough_coins))
      ⊎ ((contains_account n client.wallet_db payment.sender ≡ false)
          × (e ≡ CoreClientError.account_not_found))
  SendBlockResult client payment frontier panic =
      NoneToChoose client.config frontier.block.representative payment.new_representative

  -- a choice of a representative fails only by a panic, where the configuration has none
  choose-panics :
      (config : CoreClientConfig n) (current : n.Account) (option : Option n.Account)
      → ((rep : n.Account) × (choose_representatives n env config current option ≡ ok rep)
          × IsChosen config current option rep)
        ⊎ ((choose_representatives n env config current option ≡ panic)
            × NoneToChoose config current option)
  unfolding choose_representatives
  choose-panics config current (some rep) = inl (rep, refl, refl)
  choose-panics config current none =
      elim (Bool-cases (contains n config.representatives current)) [
        | inl keep ↦ inl (current, rw keep, inl (keep, refl))
        | inr other ↦ elim (Option-cases (env.choose config.representatives)) [
          | inl e ↦ inr (rw (other, e), (refl, other, e))
          | inr (rep, e) ↦ inl (rep, rw (other, e), inr (other, e))
        ]
      ]

  abbrev unsigned_send : Payment n → FrontierInfo n → n.Account → Block n
  unsigned_send payment frontier rep = record {
    block_type = n.send;
    account = payment.sender;
    previous = previous_of n frontier;
    representative = rep;
    balance = frontier.block.balance - payment.amount;
    link = n.to_bytes payment.recipient;
    signature = n.default_signature;
    work = work_or_zero frontier.cached_work;
  }

  signed-send :
      (client : CoreClient n) (payment : Payment n) (frontier : FrontierInfo n) (rep : n.Account)
      (r : Result (CoreClientError n) (Block n))
      → payment.sender ≢ payment.recipient
      → payment.amount ≤ frontier.block.balance
      → IsChosen client.config frontier.block.representative payment.new_representative rep
      → SignResult n client.seed client.wallet_db (unsigned_send payment frontier rep) r
      → SendBlockResult client payment frontier r
  signed-send client payment frontier rep (ok block) differ enough chosen (k, own, made, known) = (
    record {
      account = rw made;
      link = rw made;
      previous = rw made;
      balance = rw made (omega arith);
      kind = rw made;
      signed = rw made (k, own, refl);
    },
    differ,
    rw made chosen,
  )
  signed-send client payment frontier rep (err e) differ enough chosen (e', unknown) =
      inr (inr (unknown, e'))
  signed-send client payment frontier rep panic differ enough chosen h = absurd h

  -- For a wallet of the seed's own accounts and a key derivation that keeps its laws: a block that
  -- `create_send_block` returns is a send block of the sender to the recipient, who are two
  -- accounts, follows the given frontier, has the frontier's balance less exactly the amount, names
  -- the given representative, or without one the frontier's if it is in the configuration and else
  -- one chosen from there, and is signed with the sender's key. Its errors are an invalid payment
  -- where sender and recipient are one account, too few coins where the balance is below the
  -- amount, and an unknown account where the wallet does not contain the sender. It panics only
  -- where no representative is given, the configuration does not have the frontier's, and none can
  -- be chosen from it.
  pub create_send_block-SendBlockResult :
      (client : CoreClient n) (payment : Payment n) (frontier : FrontierInfo n)
      → KeyLaws n
      → IsValid n client.seed client.wallet_db
      → SendBlockResult client payment frontier (create_send_block n env client payment frontier)
  unfolding create_send_block
  create_send_block-SendBlockResult client payment frontier laws v =
      elim (Bool-cases (eqb n.account_dec payment.sender payment.recipient)) [
        | inl same ↦ rw (create_send_block, same) (inl (eqb→eq n.account_dec _ _ same, refl))
        | inr differ ↦ elim (Bool-cases (ltb frontier.block.balance payment.amount)) [
          | inl short ↦ rw (create_send_block, differ, short) (inr (inl (ltb→lt _ _ short, refl)))
          | inr enough ↦
              elim (choose-panics client.config frontier.block.representative
                payment.new_representative) [
                  | inl (rep, e, chosen) ↦
                      rw (create_send_block, differ, enough, e)
                        (signed-send client payment frontier rep _ (ground arith) (ground arith)
                          chosen
                          (sign_block-SignResult n client.seed client.wallet_db
                            (unsigned_send payment frontier rep) laws v))
                  | inr (e, none_left) ↦ rw (create_send_block, differ, enough, e) none_left
                ]
        ]
      ]

  pub record Receives (receivable : Receivable n) (frontier : FrontierInfo n) (block : Block n)
      : Type 0 where
    pub account : block.account ≡ receivable.recipient
    pub link : block.link ≡ receivable.block_hash
    pub previous : block.previous ≡ previous_of n frontier
    pub balance : block.balance ≡ frontier.block.balance + receivable.amount
    pub bounded : block.balance < u128_mod
    pub signed : IsSigned block

  abbrev pub ReceiveBlockResult :
      CoreClient n → Receivable n → FrontierInfo n → Result (CoreClientError n) (Block n) → Type 0
  ReceiveBlockResult client receivable frontier (ok block) = Receives receivable frontier block
  ReceiveBlockResult client receivable frontier (err e) =
      ((u128_mod ≤ frontier.block.balance + receivable.amount)
        × (e ≡ CoreClientError.frontier_balance_overflow))
      ⊎ ((contains_account n client.wallet_db receivable.recipient ≡ false)
          × (e ≡ CoreClientError.account_not_found))
  ReceiveBlockResult client receivable frontier panic =
      env.choose client.config.representatives ≡ none

  abbrev unsigned_receive : Receivable n → FrontierInfo n → n.Account → Block n
  unsigned_receive receivable frontier rep = record {
    block_type = n.receive;
    account = receivable.recipient;
    previous = previous_of n frontier;
    representative = rep;
    balance = wrapping_add frontier.block.balance receivable.amount;
    link = receivable.block_hash;
    signature = n.default_signature;
    work = work_or_zero frontier.cached_work;
  }

  signed-receive :
      (client : CoreClient n) (receivable : Receivable n) (frontier : FrontierInfo n)
      (rep : n.Account) (r : Result (CoreClientError n) (Block n))
      → frontier.block.balance + receivable.amount < u128_mod
      → SignResult n client.seed client.wallet_db (unsigned_receive receivable frontier rep) r
      → ReceiveBlockResult client receivable frontier r
  signed-receive client receivable frontier rep (ok block) fits (k, own, made, known) =
      let sum = wrapping_add_exact frontier.block.balance receivable.amount fits in
      record {
        account = rw made;
        link = rw made;
        previous = rw made;
        balance = rw made sum;
        bounded = rw made (omega (arith, sum));
        signed = rw made (k, own, refl);
      }
  signed-receive client receivable frontier rep (err e) fits (e', unknown) = inr (unknown, e')
  signed-receive client receivable frontier rep panic fits h = absurd h

  -- For a wallet of the seed's own accounts and a key derivation that keeps its laws: a block that
  -- `create_receive_block` returns is one of the recipient that names the received block and
  -- follows the given frontier, has the frontier's balance plus exactly the amount, which fits a
  -- `u128`, and is signed with the recipient's key. Its errors are an overflow where the sum does
  -- not fit a `u128` and an unknown account where the wallet does not contain the recipient. It
  -- panics only where no representative can be chosen from the configuration.
  pub create_receive_block-ReceiveBlockResult :
      (client : CoreClient n) (receivable : Receivable n) (frontier : FrontierInfo n)
      (option : Option n.Account)
      → KeyLaws n
      → IsValid n client.seed client.wallet_db
      → ReceiveBlockResult client receivable frontier
          (create_receive_block n env client receivable frontier option)
  unfolding create_receive_block
  create_receive_block-ReceiveBlockResult client receivable frontier option laws v =
      elim (Bool-cases (ltb (frontier.block.balance + receivable.amount) u128_mod)) [
        | inr over ↦ rw (create_receive_block, over) (inl (ground arith, refl))
        | inl fits ↦ elim (choose-panics client.config frontier.block.representative option) [
          | inl (rep, e, _) ↦
              rw (create_receive_block, fits, e)
                (signed-receive client receivable frontier rep _ (ltb→lt _ _ fits) (
                  sign_block-SignResult n client.seed client.wallet_db
                    (unsigned_receive receivable frontier rep) laws v))
          | inr (e, none_left) ↦ rw (create_receive_block, fits, e) none_left.2
        ]
      ]
