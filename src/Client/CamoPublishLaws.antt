-- ===== src/Client/CamoPublishLaws.antt =====
-- What a camo payment from one account hands to the network.
use camonanowallet.Base.{
  ◌≡◌, ◌⊎◌, ◌∙◌, refl, ap, inl, inr, List, [], ◌∷◌, ◌++◌, Result, ok, err, panic,
}
use mathlib.Core.List.{append_assoc}
use camonanowallet.Nano.{Nano, Block, Bytes8}
use camonanowallet.Error.{CoreClientError}
use camonanowallet.Frontiers.Info.{FrontierInfo}
use camonanowallet.Wallet.Validity.{KeyLaws, IsValid}
use camonanowallet.Rpc.Types.{RpcSuccess}
use camonanowallet.Rpc.World.{World, Env, Action, ◌>>=◌, pure, lift}
use camonanowallet.Rpc.Publish.{auto_publish_unsynced}
use camonanowallet.Client.State.{CoreClient, CamoPayment}
use camonanowallet.Client.CamoLaws.{SameBlocks, SameResult, camo_same_blocks-SameResult}
use camonanowallet.Client.PublishLaws.{PublishResult, auto_publish-PublishResult}
use camonanowallet.Client.Send.{publish_same, send_camo_same}

module _ (n : Nano) (env : Env n) where
  abbrev with_work : Block n → Bytes8 → Block n
  with_work block work = record block { work = work }

  -- the notification block, and after it the send block
  abbrev pub BothOut : Block n → Block n → World n → World n → Type 0
  BothOut notify_block send_block w w' =
      (x : Bytes8) × (y : Bytes8) × (w'.published
        ≡ w.published ++ with_work notify_block x ∷ with_work send_block y ∷ [])

  -- a prefix of the two
  abbrev pub SomeOut : Block n → Block n → World n → World n → Type 0
  SomeOut notify_block send_block w w' =
      (w'.published ≡ w.published)
      ⊎ ((x : Bytes8) × (w'.published ≡ w.published ++ with_work notify_block x ∷ []))
      ⊎ BothOut notify_block send_block w w'

  abbrev pub TwoResult :
      Block n
      → Block n
      → World n
      → World n × Result (CoreClientError n) (RpcSuccess n (List (FrontierInfo n)))
      → Type 0
  TwoResult notify_block send_block w (w', ok s) = BothOut notify_block send_block w w'
  TwoResult notify_block send_block w (w', err e) = SomeOut notify_block send_block w w'
  TwoResult notify_block send_block w (w', panic) = SomeOut notify_block send_block w w'

  both :
      (b c : Block n) (w v u : World n) (x y : Bytes8)
      → v.published ≡ w.published ++ with_work b x ∷ []
      → u.published ≡ v.published ++ with_work c y ∷ []
      → BothOut b c w u
  both b c w v u x y h k = (
    x,
    y,
    k
        ∙ ap (λ p. p ++ with_work c y ∷ []) h
        ∙ append_assoc w.published (with_work b x ∷ []) (with_work c y ∷ []),
  )

  second :
      (b c : Block n) (w v : World n) (x : Bytes8)
      (r : World n × Result (CoreClientError n) (RpcSuccess n (FrontierInfo n)))
      (last : RpcSuccess n (FrontierInfo n) → RpcSuccess n (List (FrontierInfo n)))
      → v.published ≡ w.published ++ with_work b x ∷ []
      → PublishResult n env c v r
      → TwoResult b c w
          (elim r.1 [ ok s ↦ pure (last s) r.0 | err e ↦ (r.0, err e) | panic ↦ (r.0, panic) ])
  second b c w v x (u, ok s) last h (y, _, out) = both b c w v u x y h out
  second b c w v x (u, err e) last h (inl same) = inr (inl (x, same ∙ h))
  second b c w v x (u, err e) last h (inr (y, out)) = inr (inr (both b c w v u x y h out))
  second b c w v x (u, panic) last h (inl same) = inr (inl (x, same ∙ h))
  second b c w v x (u, panic) last h (inr (y, out)) = inr (inr (both b c w v u x y h out))

  module _ (client : CoreClient n) (b c : Block n) where
    -- the second publication, after the first
    abbrev then_send :
        RpcSuccess n (FrontierInfo n) → Action n (RpcSuccess n (List (FrontierInfo n)))
    then_send notified = do
      sent ← auto_publish_unsynced n env client.config notified.item c
      pure (record { item = sent.item ∷ []; failures = notified.failures ++ sent.failures })

    first :
        (w : World n) (r : World n × Result (CoreClientError n) (RpcSuccess n (FrontierInfo n)))
        → PublishResult n env b w r
        → TwoResult b c w
            (elim r.1 [ ok s ↦ then_send s r.0 | err e ↦ (r.0, err e) | panic ↦ (r.0, panic) ])
    first w (v, ok s) (x, _, out) =
        second b c w v x _
          (λ sent. record { item = sent.item ∷ []; failures = s.failures ++ sent.failures }) out
          (auto_publish-PublishResult n env client.config s.item c v)
    first w (v, err e) (inl same) = inl same
    first w (v, err e) (inr one) = inr (inl one)
    first w (v, panic) (inl same) = inl same
    first w (v, panic) (inr one) = inr (inl one)

    publish_same-TwoResult :
        (frontier : FrontierInfo n) (w : World n)
        → TwoResult b c w (publish_same n env client (frontier, b, c) w)
    unfolding publish_same
    publish_same-TwoResult frontier w =
        first w _ (auto_publish-PublishResult n env client.config frontier b w)

  -- What `_send_camo_same` did: nothing went out, or blocks made from one frontier.
  abbrev pub ForkResult :
      CoreClient n
      → CamoPayment n
      → World n
      → World n × Result (CoreClientError n) (RpcSuccess n (List (FrontierInfo n)))
      → Type 0
  ForkResult client payment w (w', ok s) =
      (frontier : FrontierInfo n) × (notify_block : Block n) × (send_block : Block n) × SameBlocks n
        env client payment frontier notify_block send_block
      × BothOut notify_block send_block w w'
  ForkResult client payment w (w', err e) =
      (w'.published ≡ w.published)
      ⊎ ((frontier : FrontierInfo n) × (notify_block : Block n) × (send_block : Block n)
          × SameBlocks n env client payment frontier notify_block send_block
          × SomeOut notify_block send_block w w')
  ForkResult client payment w (w', panic) =
      (w'.published ≡ w.published)
      ⊎ ((frontier : FrontierInfo n) × (notify_block : Block n) × (send_block : Block n)
          × SameBlocks n env client payment frontier notify_block send_block
          × SomeOut notify_block send_block w w')

  with_blocks :
      (client : CoreClient n) (payment : CamoPayment n) (w : World n) (frontier : FrontierInfo n)
      (b c : Block n)
      (r : World n × Result (CoreClientError n) (RpcSuccess n (List (FrontierInfo n))))
      → SameBlocks n env client payment frontier b c
      → TwoResult b c w r
      → ForkResult client payment w r
  with_blocks client payment w frontier b c (v, ok s) same out = (frontier, b, c, same, out)
  with_blocks client payment w frontier b c (v, err e) same out = inr (frontier, b, c, same, out)
  with_blocks client payment w frontier b c (v, panic) same out = inr (frontier, b, c, same, out)

  from_blocks :
      (client : CoreClient n) (payment : CamoPayment n) (w : World n)
      (r : Result (CoreClientError n) (FrontierInfo n × Block n × Block n))
      → SameResult n env client payment r
      → ForkResult client payment w ((lift r >>= publish_same n env client) w)
  from_blocks client payment w (ok (frontier, b, c)) same =
      with_blocks client payment w frontier b c (publish_same n env client (frontier, b, c) w) same
        (publish_same-TwoResult client b c frontier w)
  from_blocks client payment w (err e) h = inl refl
  from_blocks client payment w panic h = inl refl

  -- For a wallet of the seed's own accounts and a key derivation that keeps its laws: where
  -- `_send_camo_same` succeeds, exactly two blocks went out, the notification block and then the
  -- send block, both of the sender; both name the sender's frontier as the block before them, and
  -- each takes its own amount alone from the frontier's balance. On an error or a panic nothing
  -- went out, or none, the first or both of two such blocks.
  pub send_camo_same-ForkResult :
      (client : CoreClient n) (payment : CamoPayment n) (w : World n)
      → KeyLaws n
      → IsValid n client.seed client.wallet_db
      → ForkResult client payment w (send_camo_same n env client payment w)
  unfolding send_camo_same
  send_camo_same-ForkResult client payment w laws v =
      from_blocks client payment w _ (camo_same_blocks-SameResult n env client payment laws v)
