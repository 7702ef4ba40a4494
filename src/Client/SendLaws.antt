-- ===== src/Client/SendLaws.antt =====
-- What a payment to a normal account does.
use camonanowallet.Base.{
  ◌≡◌, ◌⊎◌, refl, ap, inl, inr, Bool, true, false, Option, none, some, List, [], ◌∷◌, ◌++◌, eqb,
  Result, ok, err, panic, ok_or, fail_if,
}
use camonanowallet.Nano.{Nano, Block, Bytes8}
use camonanowallet.Error.{CoreClientError}
use camonanowallet.Frontiers.Info.{FrontierInfo}
use camonanowallet.Frontiers.Db.{account_frontier}
use camonanowallet.Wallet.Validity.{KeyLaws, IsValid}
use camonanowallet.Rpc.Types.{RpcSuccess}
use camonanowallet.Rpc.World.{World, Env, Action, ◌>>=◌, pure, lift}
use camonanowallet.Rpc.Publish.{auto_publish_unsynced}
use camonanowallet.Client.State.{CoreClient, Payment}
use camonanowallet.Client.Blocks.{create_send_block}
use camonanowallet.Client.BlockLaws.{Sends, SendBlockResult, create_send_block-SendBlockResult}
use camonanowallet.Client.Camo.{known_frontier}
use camonanowallet.Client.Send.{send}
use camonanowallet.Client.PublishLaws.{PublishResult, auto_publish-PublishResult}

module _ (n : Nano) (env : Env n) where
  -- What `send` did. A success: the frontier of the sender was known, and one block of it went out,
  -- which moves exactly the amount to the recipient and comes back as the new frontier. A failure:
  -- nothing went out, or one block of the sender that a node did not accept.
  abbrev pub SendResult :
      CoreClient n
      → Payment n
      → World n
      → World n × Result (CoreClientError n) (RpcSuccess n (List (FrontierInfo n)))
      → Type 0
  SendResult client payment w (w', ok s) =
      (frontier : FrontierInfo n) × (account_frontier n client.frontiers_db payment.sender
        ≡ some frontier)
      × (block : Block n) × Sends n env payment frontier block
      × (work : Bytes8) × (s.item
          ≡ record { block = record block { work = work }; cached_work = none } ∷ [])
      × (w'.published ≡ w.published ++ record block { work = work } ∷ [])
  SendResult client payment w (w', err e) =
      (w'.published ≡ w.published)
      ⊎ ((block : Block n) × (block.account ≡ payment.sender)
          × (w'.published ≡ w.published ++ block ∷ []))
  SendResult client payment w (w', panic) =
      (w'.published ≡ w.published)
      ⊎ ((block : Block n) × (block.account ≡ payment.sender)
          × (w'.published ≡ w.published ++ block ∷ []))

  -- the last step of `send`
  abbrev wrap_info : RpcSuccess n (FrontierInfo n) → Action n (RpcSuccess n (List (FrontierInfo n)))
  wrap_info info = pure (record { item = info.item ∷ []; failures = info.failures })

  send-published :
      (client : CoreClient n) (payment : Payment n) (frontier : FrontierInfo n) (block : Block n)
      (w : World n) (r : World n × Result (CoreClientError n) (RpcSuccess n (FrontierInfo n)))
      → account_frontier n client.frontiers_db payment.sender ≡ some frontier
      → Sends n env payment frontier block
      → PublishResult n env block w r
      → SendResult client payment w
          (elim r.1 [ ok info ↦ wrap_info info r.0 | err e ↦ (r.0, err e) | panic ↦ (r.0, panic) ])
  send-published client payment frontier block w (v, ok s) known sends (work, item, out) =
      (frontier, known, block, sends, work, ap (λ i. i ∷ []) item, out)
  send-published client payment frontier block w (v, err e) known sends (inl same) = inl same
  send-published client payment frontier block w (v, err e) known sends (inr (work, out)) =
      inr (record block { work = work }, sends.account, out)
  send-published client payment frontier block w (v, panic) known sends (inl same) = inl same
  send-published client payment frontier block w (v, panic) known sends (inr (work, out)) =
      inr (record block { work = work }, sends.account, out)

  send-with_block :
      (client : CoreClient n) (payment : Payment n) (frontier : FrontierInfo n) (w : World n)
      (r : Result (CoreClientError n) (Block n))
      → account_frontier n client.frontiers_db payment.sender ≡ some frontier
      → SendBlockResult n env client payment frontier r
      → SendResult client payment w (
          (lift r >>= λ block.
          auto_publish_unsynced n env client.config frontier block >>= wrap_info)
            w)
  send-with_block client payment frontier w (ok block) known (sends, _, _) =
      send-published client payment frontier block w _ known sends
        (auto_publish-PublishResult n env client.config frontier block w)
  send-with_block client payment frontier w (err e) known _ = inl refl
  send-with_block client payment frontier w panic known _ = inl refl

  -- the steps of `send` after its first test, and after the frontier of the sender is found
  abbrev pay_from :
      CoreClient n → Payment n → FrontierInfo n → Action n (RpcSuccess n (List (FrontierInfo n)))
  pay_from client payment frontier = do
    block ← lift (create_send_block n env client payment frontier)
    info ← auto_publish_unsynced n env client.config frontier block
    wrap_info info

  send-with_frontier :
      (client : CoreClient n) (payment : Payment n) (w : World n)
      → KeyLaws n
      → IsValid n client.seed client.wallet_db
      → (o : Option (FrontierInfo n)) → account_frontier n client.frontiers_db payment.sender ≡ o
      → SendResult client payment w
          ((lift (ok_or o CoreClientError.account_not_found) >>= pay_from client payment) w)
  send-with_frontier client payment w laws v none e = inl refl
  send-with_frontier client payment w laws v (some frontier) e =
      send-with_block client payment frontier w (create_send_block n env client payment frontier) e
        (create_send_block-SendBlockResult n env client payment frontier laws v)

  send-checked :
      (client : CoreClient n) (payment : Payment n) (w : World n)
      → KeyLaws n
      → IsValid n client.seed client.wallet_db
      → (same : Bool)
      → SendResult client payment w (
          (lift (fail_if same CoreClientError.invalid_payment) >>= λ _.
          lift (known_frontier n client payment.sender) >>= pay_from client payment)
            w)
  send-checked client payment w laws v true = inl refl
  send-checked client payment w laws v false =
      send-with_frontier client payment w laws v
        (account_frontier n client.frontiers_db payment.sender) refl

  -- What `send` did, for a wallet of the seed's own accounts and a key derivation that keeps its
  -- laws. On success the sender has a known frontier, and exactly one block went out: a block
  -- signed with the sender's key that follows this frontier, names the recipient and takes exactly
  -- the amount from the balance; it comes back as the new frontier, with no cached work. On an
  -- error or a panic nothing went out, or one block of the sender.
  pub send-SendResult :
      (client : CoreClient n) (payment : Payment n) (w : World n)
      → KeyLaws n
      → IsValid n client.seed client.wallet_db
      → SendResult client payment w (send n env client payment w)
  unfolding send
  send-SendResult client payment w laws v =
      send-checked client payment w laws v (eqb n.account_dec payment.sender payment.recipient)
