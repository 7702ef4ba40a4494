-- ===== src/Rpc/RetryLaws.antt =====
-- Which nodes a command tries, when it retries, and what it reports.
use camonanowallet.Base.{
  ℕ, zero, suc, ◌+◌, ◌≤◌, ◌<◌, ◌≡◌, ◌∙◌, refl, arith, Option, none, some, List, [], ◌∷◌, ◌++◌, map,
  sym, ap, Option-cases, ℕ_discrete, All, All-append, ◌⊎◌, inl, inr, ok, err, panic,
}
use mathlib.Core.List.{map-append, append_assoc}
use camonanowallet.Nano.{Nano}
use camonanowallet.Error.{CoreClientError}
use camonanowallet.Config.{CoreClientConfig}
use camonanowallet.Rpc.Types.{Rpc, RpcFailures, RpcSuccess}
use camonanowallet.Rpc.World.{RpcResult}
use camonanowallet.Rpc.Manager.{Command, get_usable_rpcs, Nodes, try_nodes, retry, run_command}

answer-cases : {E A : Type 0} (a : E ⊎ A) → ((e : E) × (a ≡ inl e)) ⊎ ((x : A) × (a ≡ inr x))
answer-cases (inl e) = inl (e, refl)
answer-cases (inr x) = inr (x, refl)

some-pair :
    {A B : Type 0} (a a' : A) (b b' : B)
    → (◌≡◌ {A = Option (A × B)} (some (a, b)) (some (a', b')))
    → (a ≡ a') × (b ≡ b')
some-pair a a' b b' h = ground arith

none-some : {A : Type 0} (a : A) → ¬ (some a ≡ none)
none-some a h = cc

module _ (n : Nano) {A : Type 0} (nodes : Nodes n A) (config : CoreClientConfig n)
    (command : Command) where
  -- the nodes that a round tries, in their order
  abbrev pub round_nodes : ℕ → List (Rpc n)
  round_nodes k = get_usable_rpcs n (nodes.shuffle k) (nodes.now k) config command

  abbrev pub AllFail : ℕ → List (Rpc n) → Type 0
  AllFail k = All (λ r. (e : n.RpcError) × (nodes.answer k r ≡ inl e))

  -- The node `node` of the round `k` answered, after the nodes `before` it failed. The reported
  -- failures are those of these nodes alone.
  pub record AnswersAt (s : RpcSuccess n A) (k : ℕ) : Type 0 where
    pub before : List (Rpc n)
    pub node : Rpc n
    pub rest : List (Rpc n)
    pub order : round_nodes k ≡ before ++ node ∷ rest
    pub failed : AllFail k before
    pub answered : nodes.answer k node ≡ inr s.item
    pub reported : map (λ f. f.url) s.failures ≡ map (λ r. n.get_url r.rpc) before

  abbrev pub CommandResult : ℕ → ℕ → RpcResult n A → Type 0
  CommandResult rounds first (ok s) =
      (k : ℕ) × (first ≤ k)
      × (k < first + rounds)
      × AnswersAt s k
      × ((j : ℕ) → first ≤ j → j < k → AllFail j (round_nodes j))
  CommandResult rounds first (err e) =
      (e ≡ CoreClientError.rpc_command_failed)
      × ((j : ℕ) → first ≤ j → j < first + rounds → AllFail j (round_nodes j))
  CommandResult rounds first panic = ⊥

  try_nodes-Some :
      (k : ℕ) (failures : RpcFailures n) (tried rs : List (Rpc n)) (item : A) (fs : RpcFailures n)
      → AllFail k tried
      → map (λ f. f.url) failures ≡ map (λ r. n.get_url r.rpc) tried
      → round_nodes k ≡ tried ++ rs
      → try_nodes n (nodes.answer k) failures rs ≡ some (item, fs)
      → AnswersAt (record { item = item; failures = fs }) k
  unfolding try_nodes
  try_nodes-Some k failures tried [] item fs fail urls order h = cc
  try_nodes-Some k failures tried (r ∷ rs) item fs fail urls order h =
      elim (answer-cases (nodes.answer k r)) [
        | inr (item', e) ↦
            let (same, kept) = some-pair _ _ _ _ (rw (try_nodes, e) at h) in
            record {
              before = tried;
              node = r;
              rest = rs;
              order = order;
              failed = fail;
              answered = e ∙ ap inr same;
              reported = ap (map (λ f. f.url)) (sym kept) ∙ urls;
            }
        | inl (e', e) ↦
            try_nodes-Some k (failures ++ record { error = e'; url = n.get_url r.rpc } ∷ [])
              (tried ++ r ∷ []) rs item fs (All-append _ tried (r ∷ []) fail ((e', e), tt))
              (map-append (λ f. f.url) failures _
                ∙ ap (λ us. us ++ n.get_url r.rpc ∷ []) urls
                ∙ sym (map-append (λ r. n.get_url r.rpc) tried (r ∷ [])))
              (order ∙ sym (append_assoc tried (r ∷ []) rs)) (rw (try_nodes, e) at h)
      ]

  try_nodes-None :
      (k : ℕ) (failures : RpcFailures n) (rs : List (Rpc n))
      → try_nodes n (nodes.answer k) failures rs ≡ none
      → AllFail k rs
  unfolding try_nodes
  try_nodes-None k failures [] h = tt
  try_nodes-None k failures (r ∷ rs) h = elim (answer-cases (nodes.answer k r)) [
    | inr (item', e) ↦ absurd (none-some _ (rw (try_nodes, e) at h))
    | inl (e', e) ↦ (
      (e', e),
      try_nodes-None k (failures ++ record { error = e'; url = n.get_url r.rpc } ∷ []) rs
          (rw (try_nodes, e) at h),
    )
  ]

  all_rounds :
      (first : ℕ) (j rounds : ℕ)
      → AllFail first (round_nodes first)
      → ((j : ℕ) → suc first ≤ j → j < rounds → AllFail j (round_nodes j))
      → first ≤ j
      → j < rounds
      → AllFail j (round_nodes j)
  all_rounds first j rounds fails later le lt = elim (ℕ_discrete first j) [
    | yes e ↦ rw e at fails
    | no ne ↦ later j (omega arith) lt
  ]

  -- a round without success, before the others
  later :
      (rounds first : ℕ)
      → AllFail first (round_nodes first)
      → (r : RpcResult n A) → CommandResult rounds (suc first) r
      → CommandResult (suc rounds) first r
  later rounds first fails (ok s) (k, le, lt, answers, failed) =
      (k, omega arith, omega arith, answers, λ j le' lt'. all_rounds first j k fails failed le' lt')
  later rounds first fails (err e) (same, failed) = (
    same,
    λ j le' lt'.
        all_rounds first j (first + suc rounds) fails (λ i l m. failed i l (omega arith)) le' lt',
  )
  later rounds first fails panic h = h

  retry-CommandResult :
      (rounds first : ℕ) → CommandResult rounds first (retry n nodes config command rounds first)
  unfolding retry
  retry-CommandResult zero first = (refl, λ j le lt. absurd (omega arith))
  retry-CommandResult (suc rounds) first =
      elim (Option-cases (try_nodes n (nodes.answer first) [] (round_nodes first))) [
        | inr ((item, fs), e) ↦
            rw (retry, e)
              (
                first,
                omega arith,
                omega arith,
                try_nodes-Some first [] [] _ item fs tt refl refl e,
                λ j le lt. absurd (omega arith),
              )
        | inl e ↦
            rw (retry, e)
              (later rounds first (try_nodes-None first [] _ e)
                (retry n nodes config command rounds (suc first))
                (retry-CommandResult rounds (suc first)))
      ]

  -- What a command over the nodes returns; it never panics. On success, in some round below the
  -- limit on retries, a node answered the item after all nodes before it in the round's order
  -- failed, and all nodes of all earlier rounds failed; the reported failures are those of that
  -- round alone, with the URLs of the failed nodes in order. The only error is a failed command,
  -- where all nodes of all rounds below the limit failed.
  pub run_command-CommandResult :
      CommandResult config.rpc_retry_limit 0 (run_command n nodes config command)
  unfolding run_command
  run_command-CommandResult = retry-CommandResult config.rpc_retry_limit 0
