-- ===== src/Rpc/BanLaws.antt =====
-- What the handling of failures changes: the nodes that failed are banned, and no ban gets shorter.
use Prim.Native.String.{String}
use camonanowallet.Base.{
  ℕ, suc, ◌≤◌, ◌≡◌, ◌∙◌, refl, ap, sym, arith, Bool, true, false, Bool-cases, Option-cases, none,
  some, List, [], ◌∷◌, ◌++◌, find, inl, inr, Result, ok, err, panic,
}
use camonanowallet.Nano.{Nano}
use camonanowallet.Error.{CoreClientError}
use camonanowallet.Config.{CoreClientConfig}
use camonanowallet.Rpc.Types.{Rpc, RpcFailure, RpcFailures}
use camonanowallet.Rpc.Manager.{
  get_ban_expiration, ban_seconds, handle_err, has_url, change_first, handle_all, handle_failures,
}

module _ (n : Nano) where
  -- the node of a URL is banned up to a time at least
  abbrev pub BannedUntil : String → ℕ → List (Rpc n) → Type 0
  BannedUntil url time rpcs =
      (rpc : Rpc n) × (find (has_url n url) rpcs ≡ some rpc) × (time ≤ rpc.banned_until)

  -- a change of one node that keeps the node and its commands and shortens no ban
  abbrev Lengthens : (Rpc n → Rpc n) → Type 0
  Lengthens f =
      (rpc : Rpc n)
      → ((f rpc).rpc ≡ rpc.rpc)
        × ((f rpc).commands ≡ rpc.commands)
        × (rpc.banned_until ≤ (f rpc).banned_until)

  -- two lists of the same nodes, with the bans of the second no shorter
  abbrev pub Follows : List (Rpc n) → List (Rpc n) → Type 0
  Follows [] [] = Unit
  Follows [] (y ∷ ys) = ⊥
  Follows (x ∷ xs) [] = ⊥
  Follows (x ∷ xs) (y ∷ ys) =
      (y.rpc ≡ x.rpc)
      × (y.commands ≡ x.commands)
      × (x.banned_until ≤ y.banned_until)
      × Follows xs ys

  Follows-refl : (rs : List (Rpc n)) → Follows rs rs
  Follows-refl [] = tt
  Follows-refl (r ∷ rs) = (refl, refl, omega arith, Follows-refl rs)

  Follows-trans : (xs ys zs : List (Rpc n)) → Follows xs ys → Follows ys zs → Follows xs zs
  Follows-trans [] [] [] h k = tt
  Follows-trans [] [] (z ∷ zs) h k = k
  Follows-trans [] (y ∷ ys) zs h k = absurd h
  Follows-trans (x ∷ xs) [] zs h k = absurd h
  Follows-trans (x ∷ xs) (y ∷ ys) [] h k = k
  Follows-trans (x ∷ xs) (y ∷ ys) (z ∷ zs) (a, b, c, h) (d, e, f, k) =
      (d ∙ a, e ∙ b, omega arith, Follows-trans xs ys zs h k)

  change_first-Follows :
      (p : Rpc n → Bool) (f : Rpc n → Rpc n) (rs rs' : List (Rpc n))
      → Lengthens f
      → change_first n p f rs ≡ some rs'
      → Follows rs rs'
  unfolding change_first
  change_first-Follows p f [] rs' l h = cc
  change_first-Follows p f (r ∷ rs) rs' l h = elim (Bool-cases (p r)) [
    | inl e ↦
        let q : f r ∷ rs ≡ rs' = ground arith in
        let (a, b, c) = l r in rw (← q) (a, b, c, Follows-refl rs)
    | inr e ↦ elim (Option-cases (change_first n p f rs)) [
      | inl none_left ↦ absurd (ground arith)
      | inr (rest, found) ↦
          let q : r ∷ rest ≡ rs' = ground arith in
          rw (← q) (refl, refl, omega arith, change_first-Follows p f rs rest l found)
    ]
  ]

  -- a ban that holds goes on to hold
  Follows-BannedUntil :
      (url : String) (time : ℕ) (xs ys : List (Rpc n))
      → Follows xs ys
      → BannedUntil url time xs
      → BannedUntil url time ys
  unfolding find
  Follows-BannedUntil url time [] [] h (rpc, found, le) = cc
  Follows-BannedUntil url time [] (y ∷ ys) h b = absurd h
  Follows-BannedUntil url time (x ∷ xs) [] h b = absurd h
  Follows-BannedUntil url time (x ∷ xs) (y ∷ ys) (same, _, le, h) (rpc, found, long) =
      elim (Bool-cases (has_url n url x)) [
        | inl e ↦
            let q : x ≡ rpc = ground arith in
            let same_url : has_url n url y ≡ true = rw same e in
            let until : rpc.banned_until ≡ x.banned_until = ap (λ r. r.banned_until) (sym q) in
            (y, rw same_url refl, omega arith)
        | inr e ↦
            let other : has_url n url y ≡ false = rw same e in
            let (rpc', found', long') =
              Follows-BannedUntil url time xs ys h (rpc, ground arith, long) in
            (rpc', rw other found', long')
      ]

  Follows-unknown :
      (url : String) (xs ys : List (Rpc n))
      → Follows xs ys
      → find (has_url n url) ys ≡ none
      → find (has_url n url) xs ≡ none
  unfolding find
  Follows-unknown url [] [] h e = refl
  Follows-unknown url [] (y ∷ ys) h e = absurd h
  Follows-unknown url (x ∷ xs) [] h e = absurd h
  Follows-unknown url (x ∷ xs) (y ∷ ys) (same, _, le, h) e = elim (Bool-cases (has_url n url y)) [
    | inl there ↦ absurd (ground arith)
    | inr other ↦
        let other' : has_url n url x ≡ false = rw (← same) other in
        rw other' (Follows-unknown url xs ys h (ground arith))
  ]

  change_first-BannedUntil :
      (url : String) (time : ℕ) (f : Rpc n → Rpc n) (rs rs' : List (Rpc n))
      → Lengthens f
      → ((r : Rpc n) → time ≤ (f r).banned_until)
      → change_first n (has_url n url) f rs ≡ some rs'
      → BannedUntil url time rs'
  unfolding change_first find
  change_first-BannedUntil url time f [] rs' l t h = cc
  change_first-BannedUntil url time f (r ∷ rs) rs' l t h = elim (Bool-cases (has_url n url r)) [
    | inl e ↦
        let q : f r ∷ rs ≡ rs' = ground arith in
        let here : has_url n url (f r) ≡ true = rw (l r).0 e in rw (← q) (f r, rw here refl, t r)
    | inr e ↦ elim (Option-cases (change_first n (has_url n url) f rs)) [
      | inl none_left ↦ absurd (ground arith)
      | inr (rest, found) ↦
          let q : r ∷ rest ≡ rs' = ground arith in
          let (rpc, there, long) = change_first-BannedUntil url time f rs rest l t found in
          rw (← q) (rpc, rw e there, long)
    ]
  ]

  change_first-none :
      (p : Rpc n → Bool) (f : Rpc n → Rpc n) (rs : List (Rpc n))
      → change_first n p f rs ≡ none
      → find p rs ≡ none
  unfolding change_first find
  change_first-none p f [] h = refl
  change_first-none p f (r ∷ rs) h = elim (Option-cases (change_first n p f rs)) [
    | inl e ↦ ground (arith, change_first-none p f rs e)
    | inr (rest, e) ↦ absurd (ground arith)
  ]

  module _ (config : CoreClientConfig n) (clock : ℕ → ℕ) where
    handle_err-Lengthens : (now : ℕ) (e : n.RpcError) → Lengthens (handle_err n config now e)
    handle_err-Lengthens now e rpc = (refl, refl, ground arith)

    abbrev pub expiration : ℕ → RpcFailure n → ℕ
    expiration k failure = get_ban_expiration (clock k) (ban_seconds n config failure.error)

    -- the node of each failure is banned, for as long as the failure costs at the time it is handled
    abbrev pub AllBanned : ℕ → RpcFailures n → List (Rpc n) → Type 0
    AllBanned k [] rpcs = Unit
    AllBanned k (failure ∷ failures) rpcs =
        BannedUntil failure.url (expiration k failure) rpcs × AllBanned (suc k) failures rpcs

    abbrev pub HandleResult :
        ℕ → RpcFailures n → List (Rpc n) → Result (CoreClientError n) (List (Rpc n)) → Type 0
    HandleResult k failures rpcs (ok rpcs') = Follows rpcs rpcs' × AllBanned k failures rpcs'
    HandleResult k failures rpcs (err e) = ⊥
    HandleResult k failures rpcs panic =
        (before : RpcFailures n) × (failure : RpcFailure n) × (rest : RpcFailures n) × (failures
          ≡ before ++ failure ∷ rest)
        × (find (has_url n failure.url) rpcs ≡ none)

    handled :
        (k : ℕ) (failure : RpcFailure n) (failures : RpcFailures n) (rpcs rpcs' : List (Rpc n))
        (r : Result (CoreClientError n) (List (Rpc n)))
        → Follows rpcs rpcs'
        → BannedUntil failure.url (expiration k failure) rpcs'
        → HandleResult (suc k) failures rpcs' r
        → HandleResult k (failure ∷ failures) rpcs r
    handled k failure failures rpcs rpcs' (ok out) follows banned (h, all) = (
      Follows-trans rpcs rpcs' out follows h,
      (Follows-BannedUntil failure.url (expiration k failure) rpcs' out h banned, all),
    )
    handled k failure failures rpcs rpcs' (err e) follows banned h = h
    handled k failure failures rpcs rpcs' panic follows banned (before, f, rest, split, unknown) =
        (failure ∷ before, f, rest, rw split, Follows-unknown f.url rpcs rpcs' follows unknown)

    handle_all-HandleResult :
        (k : ℕ) (failures : RpcFailures n) (rpcs : List (Rpc n))
        → HandleResult k failures rpcs (handle_all n config clock k failures rpcs)
    unfolding handle_all
    handle_all-HandleResult k [] rpcs = (Follows-refl rpcs, tt)
    handle_all-HandleResult k (failure ∷ failures) rpcs =
        let f = handle_err n config (clock k) failure.error in
        let long = handle_err-Lengthens (clock k) failure.error in
        elim (Option-cases (change_first n (has_url n failure.url) f rpcs)) [
          | inl e ↦ rw (handle_all, e) ([], failure, failures, refl, change_first-none _ f rpcs e)
          | inr (rpcs', e) ↦
              rw (handle_all, e)
                (handled k failure failures rpcs rpcs' _
                  (change_first-Follows (has_url n failure.url) f rpcs rpcs' long e)
                  (change_first-BannedUntil failure.url (expiration k failure) f rpcs rpcs' long
                    (λ r. ground arith) e)
                  (handle_all-HandleResult (suc k) failures rpcs'))
        ]

    abbrev pub FailuresResult :
        RpcFailures n → Result (CoreClientError n) (CoreClientConfig n) → Type 0
    FailuresResult failures (ok config') =
        Follows config.rpcs config'.rpcs
        × AllBanned 0 failures config'.rpcs
        × (config' ≡ record config { rpcs = config'.rpcs })
    FailuresResult failures (err e) = ⊥
    FailuresResult failures panic =
        (before : RpcFailures n) × (failure : RpcFailure n) × (rest : RpcFailures n) × (failures
          ≡ before ++ failure ∷ rest)
        × (find (has_url n failure.url) config.rpcs ≡ none)

    with_rpcs :
        (failures : RpcFailures n) (r : Result (CoreClientError n) (List (Rpc n)))
        → HandleResult 0 failures config.rpcs r
        → FailuresResult failures (elim r [
          | ok rpcs ↦ ok (record config { rpcs = rpcs })
          | err e ↦ err e
          | panic ↦ panic
        ])
    with_rpcs failures (ok rpcs) h = (h.0, h.1, refl)
    with_rpcs failures (err e) h = h
    with_rpcs failures panic h = h

    -- `handle_failures` panics only for a failure whose URL no node of the configuration has, and
    -- gives no error. Otherwise nothing but the nodes changes, they stay the same in number and
    -- order with the same commands and no shorter bans, and the first node with the URL of each
    -- failure is banned at least up to the time when that failure is handled plus the seconds that
    -- its error costs, in `u64` arithmetic.
    pub handle_failures-FailuresResult :
        (failures : RpcFailures n)
        → FailuresResult failures (handle_failures n clock config failures)
    unfolding handle_failures
    handle_failures-FailuresResult failures =
        with_rpcs failures _ (handle_all-HandleResult 0 failures config.rpcs)
