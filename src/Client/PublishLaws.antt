-- ===== src/Client/PublishLaws.antt =====
-- What a publication does: the work it gets, and the block that goes out.
use camonanowallet.Base.{
  ◌≡◌, ◌⊎◌, ◌∙◌, refl, ap, inl, inr, true, none, some, [], ◌∷◌, ◌++◌, arith, Option-cases, Result,
  ok, err, panic,
}
use camonanowallet.Nano.{Nano, Block, Bytes8, Bytes32}
use camonanowallet.Error.{CoreClientError}
use camonanowallet.Config.{CoreClientConfig}
use camonanowallet.Frontiers.Info.{FrontierInfo, work_hash}
use camonanowallet.Rpc.Types.{RpcSuccess}
use camonanowallet.Rpc.World.{World, Env, RpcResult, Action, ◌>>=◌, pure}
use camonanowallet.Rpc.Work.{contains_key, request_work, wait_on}
use camonanowallet.Rpc.Publish.{cache_next, get_work, publish, auto_publish_unsynced}

module _ (n : Nano) (env : Env n) where
  request_work-published :
      (hash : Bytes32) (w : World n) → (request_work n env hash w).published ≡ w.published
  unfolding request_work
  request_work-published hash w = ground arith

  cache_next-published :
      (config : CoreClientConfig n) (hash : Bytes32) (w : World n)
      → (cache_next n env config hash w).published ≡ w.published
  cache_next-published config hash w = ground (arith, request_work-published hash w)

  wait_on-published :
      (hash : Bytes32) (w : World n) → (wait_on n env hash w).0.published ≡ w.published
  unfolding wait_on
  wait_on-published hash w = ground arith

  get_work-published :
      (config : CoreClientConfig n) (f : FrontierInfo n) (w : World n)
      → (get_work n env config f w).0.published ≡ w.published
  unfolding get_work
  get_work-published config f w = elim (Option-cases f.cached_work) [
    | inr (work, e) ↦ rw (e, get_work) refl
    | inl e ↦
        rw (e, get_work)
          (wait_on-published (work_hash n f) (request_work n env (work_hash n f) w)
            ∙ request_work-published (work_hash n f) w)
  ]

  contains_key-request :
      (hash : Bytes32) (w : World n) → contains_key (request_work n env hash w).handles hash ≡ true
  unfolding request_work
  contains_key-request hash w = ground arith

  -- the cached work of a frontier, or what the job for its work hash answers
  abbrev pub work_answer : FrontierInfo n → RpcResult n Bytes8
  work_answer f = elim f.cached_work [
    | some work ↦ ok (record { item = work; failures = [] })
    | none ↦ env.work (work_hash n f)
  ]

  -- `get_work` answers with the work cached in the frontier, or with what the work job of the
  -- frontier's hash answers, whatever jobs run: the job that it waits for always runs.
  pub get_work-answer :
      (config : CoreClientConfig n) (f : FrontierInfo n) (w : World n)
      → (get_work n env config f w).1 ≡ work_answer f
  unfolding get_work wait_on
  get_work-answer config f w = elim (Option-cases f.cached_work) [
    | inr (work, e) ↦ rw (e, get_work) refl
    | inl e ↦ rw (e, get_work, contains_key-request (work_hash n f) w) refl
  ]

  -- What a publication did: the block went out once, with some work, and its own frontier comes
  -- back; or it failed, and nothing but that block can have gone out.
  abbrev pub PublishResult :
      Block n
      → World n
      → World n × Result (CoreClientError n) (RpcSuccess n (FrontierInfo n))
      → Type 0
  PublishResult block w (w', ok s) =
      (work : Bytes8) × (s.item
        ≡ record { block = record block { work = work }; cached_work = none })
      × (w'.published ≡ w.published ++ record block { work = work } ∷ [])
  PublishResult block w (w', err e) =
      (w'.published ≡ w.published)
      ⊎ ((work : Bytes8) × (w'.published ≡ w.published ++ record block { work = work } ∷ []))
  PublishResult block w (w', panic) =
      (w'.published ≡ w.published)
      ⊎ ((work : Bytes8) × (w'.published ≡ w.published ++ record block { work = work } ∷ []))

  -- the continuation of `get_work_and_publish_unsynced` after its work has come
  abbrev publish_with :
      CoreClientConfig n → Block n → RpcSuccess n Bytes8 → Action n (RpcSuccess n (FrontierInfo n))
  publish_with config block work = do
    info ← publish n env config (record block { work = work.item })
    pure (record { item = info.item; failures = work.failures ++ info.failures })

  publish_with-PublishResult :
      (config : CoreClientConfig n) (block : Block n) (work : RpcSuccess n Bytes8) (w v : World n)
      → v.published ≡ w.published
      → PublishResult block w (publish_with config block work v)
  unfolding publish
  publish_with-PublishResult config block work w v same = go (env.process v.published out)
    where
      out : Block n
      out = record block { work = work.item }

      sent : World n
      sent = record v { published = v.published ++ out ∷ [] }

      answer : RpcResult n Bytes32 → Action n (RpcSuccess n Bytes32)
      answer r _ = (sent, r)

      reply : RpcSuccess n Bytes32 → Action n (RpcSuccess n (FrontierInfo n))
      reply success = pure (record {
        item = record { block = out; cached_work = none };
        failures = success.failures;
      })

      with_work : RpcSuccess n (FrontierInfo n) → Action n (RpcSuccess n (FrontierInfo n))
      with_work info = pure (record { item = info.item; failures = work.failures ++ info.failures })

      -- the same steps with the reply `r` of the node
      go : (r : RpcResult n Bytes32) → PublishResult block w ((answer r >>= reply >>= with_work) v)
      go (ok s) = (work.item, refl, ap (λ p. p ++ out ∷ []) same)
      go (err e) = inr (work.item, ap (λ p. p ++ out ∷ []) same)
      go panic = inr (work.item, ap (λ p. p ++ out ∷ []) same)

  after_work :
      (config : CoreClientConfig n) (block : Block n) (w : World n)
      (r : World n × Result (CoreClientError n) (RpcSuccess n Bytes8))
      → r.0.published ≡ w.published
      → PublishResult block w (elim r.1 [
        | ok work ↦ publish_with config block work r.0
        | err e ↦ (r.0, err e)
        | panic ↦ (r.0, panic)
      ])
  after_work config block w (v, ok work) same =
      publish_with-PublishResult config block work w v same
  after_work config block w (v, err e) same = inl same
  after_work config block w (v, panic) same = inl same

  -- a later request of work does not change what went out
  PublishResult-cache :
      (config : CoreClientConfig n) (hash : Bytes32) (block : Block n) (w : World n)
      (r : World n × Result (CoreClientError n) (RpcSuccess n (FrontierInfo n)))
      → PublishResult block w r
      → PublishResult block w (cache_next n env config hash r.0, r.1)
  PublishResult-cache config hash block w (v, ok s) (work, item, out) =
      (work, item, cache_next-published config hash v ∙ out)
  PublishResult-cache config hash block w (v, err e) (inl same) =
      inl (cache_next-published config hash v ∙ same)
  PublishResult-cache config hash block w (v, err e) (inr (work, out)) =
      inr (work, cache_next-published config hash v ∙ out)
  PublishResult-cache config hash block w (v, panic) (inl same) =
      inl (cache_next-published config hash v ∙ same)
  PublishResult-cache config hash block w (v, panic) (inr (work, out)) =
      inr (work, cache_next-published config hash v ∙ out)

  -- What `auto_publish_unsynced` did, in every outcome. On success the block went out once, with
  -- some work in it and otherwise unchanged, and that block comes back as a frontier with no cached
  -- work. On an error or a panic nothing went out, or that block once.
  pub auto_publish-PublishResult :
      (config : CoreClientConfig n) (f : FrontierInfo n) (block : Block n) (w : World n)
      → PublishResult block w (auto_publish_unsynced n env config f block w)
  unfolding auto_publish_unsynced
  auto_publish-PublishResult config f block w =
      PublishResult-cache config (n.hash block) block w _
        (after_work config block w (get_work n env config f w) (get_work-published config f w))
