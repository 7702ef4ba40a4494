-- ===== src/App/Keeps/Work.antt =====
-- The update of the work cache keeps the session sound.
use camonanowallet.Base.{
  ℕ, inl, inr, Result-cases, Bool, true, false, List, [], ◌∷◌, Result, ok, err, panic,
}
use camonanowallet.Nano.{Nano, Bytes8, Bytes32}
use camonanowallet.Error.{CoreClientError}
use camonanowallet.Frontiers.Query.{add_work, needs_work}
use camonanowallet.Frontiers.Rewrite.{add_work-IsValid}
use camonanowallet.Wallet.Seed.{WalletSeed}
use camonanowallet.Rpc.Types.{RpcFailures}
use camonanowallet.Rpc.World.{World, RpcResult}
use camonanowallet.Client.State.{CoreClient}
use camonanowallet.Client.WorkResults.{
  WorkResult, handle_rpc_failures, keep_work, handle_result, handle_each, get_results,
  handle_work_results,
}
use camonanowallet.App.Error.{Externals}
use camonanowallet.App.Session.{
  Session, Outside, ◌>>=◌, ◌>>◌, modify_core, from_core, update_work_cache, request_each,
}
use camonanowallet.App.Sound.{IsSoundCore, IsSound, Keeps, handle_rpc_failures-IsSoundCore}

module _ (n : Nano) (seed : WalletSeed) (x : Externals) where
  -- a result that is a sound core client
  abbrev Gives : Result (CoreClientError n) (CoreClient n) → Type 0
  Gives (ok core) = IsSoundCore n seed core
  Gives (err e) = Unit
  Gives panic = Unit

  Gives-then :
      (r : Result (CoreClientError n) (CoreClient n))
      (next : CoreClient n → Result (CoreClientError n) (CoreClient n))
      → Gives r
      → ((core : CoreClient n) → IsSoundCore n seed core → Gives (next core))
      → Gives (elim r [ ok core ↦ next core | err e ↦ err e | panic ↦ panic ])
  Gives-then (ok core) next h step = step core h
  Gives-then (err e) next h step = h
  Gives-then panic next h step = h

  module _ (clock : ℕ → ℕ) where
    keep_work-Gives :
        (core : CoreClient n) (hash : Bytes32) (work : Bytes8)
        → IsSoundCore n seed core
        → Gives (keep_work n clock core hash work)
    unfolding keep_work
    keep_work-Gives core hash work h =
        elim (Result-cases (add_work n core.config hash work core.frontiers_db)) [
          | inl (db, e) ↦
              rw (keep_work, e)
                (record {
                  same = h.same;
                  wallet = h.wallet;
                  frontiers =
                      add_work-IsValid n core.config hash work core.frontiers_db db h.frontiers e;
                })
          | inr (inl (e', e)) ↦ rw (keep_work, e) h
          | inr (inr e) ↦ rw (keep_work, e) tt
        ]

    failures-Gives :
        (core : CoreClient n) (s : RpcFailures n)
        → IsSoundCore n seed core
        → Gives (handle_rpc_failures n clock core s)
    failures-Gives core s h = elim (Result-cases (handle_rpc_failures n clock core s)) [
      | inl (core', e) ↦ rw e (handle_rpc_failures-IsSoundCore n seed x clock core core' s h e)
      | inr (inl (e', e)) ↦ rw e tt
      | inr (inr e) ↦ rw e tt
    ]

    handle_result-Gives :
        (core : CoreClient n) (hash : Bytes32) (r : RpcResult n Bytes8)
        → IsSoundCore n seed core
        → Gives (handle_result n clock core hash r)
    handle_result-Gives core hash (ok s) h =
        Gives-then (handle_rpc_failures n clock core s.failures)
          (λ core'. keep_work n clock core' hash s.item) (failures-Gives core s.failures h)
          (λ core' k. keep_work-Gives core' hash s.item k)
    handle_result-Gives core hash (err e) h = h
    handle_result-Gives core hash panic h = tt

    handle_each-Gives :
        (core : CoreClient n) (results : List (WorkResult n))
        → IsSoundCore n seed core
        → Gives (handle_each n clock core results)
    unfolding handle_each
    handle_each-Gives core [] h = h
    handle_each-Gives core (result ∷ results) h =
        Gives-then (handle_result n clock core result.work_hash result.rpc_result)
          (λ core'. handle_each n clock core' results)
          (handle_result-Gives core result.work_hash result.rpc_result h)
          (λ core' k. handle_each-Gives core' results k)

  module _ (outside : Outside n) where
    -- what `handle_work_results` returns beside the flag
    abbrev core_of :
        World n × Result (CoreClientError n) (CoreClient n × Bool)
        → Result (CoreClientError n) (CoreClient n)
    core_of (w, ok (core, save)) = ok core
    core_of (w, err e) = err e
    core_of (w, panic) = panic

    handle_work_results-Gives :
        (core : CoreClient n) (w : World n)
        → IsSoundCore n seed core
        → Gives (core_of (handle_work_results n outside.clock outside.env outside.finished core w))
    unfolding handle_work_results
    handle_work_results-Gives core w h = go (get_results n outside.env outside.finished w)
      where
        go_each :
            (w' : World n) (results : List (WorkResult n))
            (r : Result (CoreClientError n) (CoreClient n))
            → Gives r
            → Gives (
                core_of (elim r [
                  | ok client' ↦ (w', ok (client', elim results [ [] ↦ false | (_ ∷ _) ↦ true ]))
                  | err e ↦ (w', err e)
                  | panic ↦ (w', panic)
                ]))
        go_each w' results (ok core') k = k
        go_each w' results (err e) k = k
        go_each w' results panic k = k

        go :
            (out : World n × Result (CoreClientError n) (List (WorkResult n)))
            → Gives (
                core_of (elim out.1 [
                  | ok results ↦ (elim (handle_each n outside.clock core results) [
                    | ok client' ↦
                        (out.0, ok (client', elim results [ [] ↦ false | (_ ∷ _) ↦ true ]))
                    | err e ↦ (out.0, err e)
                    | panic ↦ (out.0, panic)
                  ])
                  | err e ↦ (out.0, err e)
                  | panic ↦ (out.0, panic)
                ]))
        go (w', ok results) = go_each w' results _ (handle_each-Gives outside.clock core results h)
        go (w', err e) = tt
        go (w', panic) = tt

    pub update_work_cache-Keeps : Keeps n seed x (update_work_cache n x outside)
    unfolding update_work_cache
    update_work_cache-Keeps = record {
      at = λ s h.
          go s
            (handle_work_results n outside.clock outside.env outside.finished s.client.core s.world)
            (handle_work_results-Gives s.client.core s.world h.core) h;
    }
      where
        go :
            (s : Session n) (out : World n × Result (CoreClientError n) (CoreClient n × Bool))
            → Gives (core_of out)
            → IsSound n seed s.client
            → IsSound n seed
                (((λ (_ : Session n). (record s { world = out.0 }, from_core {x = x} out.1))
                    >>= (λ found. modify_core (λ _. found.0) >> (λ s. (
                      record s {
                        world =
                            request_each n outside.env
                              (needs_work n s.client.core.frontiers_db)
                              s.world;
                      },
                      ok found.1,
                    ))))
                  s).0.client
        go s (w, ok (core, save)) k h = record { core = k; keyed = h.keyed }
        go s (w, err e) k h = h
        go s (w, panic) k h = h
