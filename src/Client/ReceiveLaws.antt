-- ===== src/Client/ReceiveLaws.antt =====
-- What `receive` does with a block of an account that the frontier database does not have.
use camonanowallet.Base.{
  ◌≡◌, ◌≢◌, ◌∙◌, refl, ap, arith, Option-cases, Option, none, some, List, [], ◌∷◌, inl, inr, Result,
  ok, err, panic,
}
use camonanowallet.Nano.{Nano, Receivable}
use camonanowallet.Error.{CoreClientError}
use camonanowallet.Frontiers.Info.{FrontierInfo}
use camonanowallet.Frontiers.Db.{FrontiersDb, account_frontier}
use camonanowallet.Rpc.World.{World, Env, Action, ◌>>=◌}
use camonanowallet.Client.State.{CoreClient}
use camonanowallet.Client.Receive.{
  Progress, finish, lookup, put, known_frontiers, receive_one, receive_each, receive,
}

module _ (n : Nano) where
  lookup-put_other :
      (known : List (n.Account × FrontierInfo n)) (a b : n.Account) (new : FrontierInfo n)
      → a ≢ b
      → lookup n (put n known a new) b ≡ lookup n known b
  unfolding lookup put
  lookup-put_other [] a b new ne = ground arith
  lookup-put_other ((c, info) ∷ rest) a b new ne = ground (arith, lookup-put_other rest a b new ne)

  known_frontiers-unknown :
      (db : FrontiersDb n) (known : List (n.Account × FrontierInfo n)) (rs : List (Receivable n))
      (a : n.Account)
      → account_frontier n db a ≡ none
      → lookup n known a ≡ none
      → lookup n (known_frontiers n db known rs) a ≡ none
  unfolding known_frontiers
  known_frontiers-unknown db known [] a gone e = e
  known_frontiers-unknown db known (r ∷ rs) a gone e =
      elim (Option-cases (account_frontier n db r.recipient)) [
        | inl p ↦ rw (known_frontiers, p) (known_frontiers-unknown db known rs a gone e)
        | inr (info, p) ↦
            rw (known_frontiers, p)
              (known_frontiers-unknown db (put n known r.recipient info) rs a gone (
                lookup-put_other known r.recipient a info
                  (λ same. absurd (some-none info (rw same at p) gone))
                ∙ e))
      ]
    where
      some-none :
          {o : Option (FrontierInfo n)} (info : FrontierInfo n) → o ≡ some info → o ≡ none → ⊥
      some-none info p q = cc

  bind-panic :
      {A B : Type 0} (m : Action n A) (k : A → Action n B) (w : World n)
      → m w ≡ (w, panic)
      → (m >>= k) w ≡ (w, panic)
  bind-panic {B} m k w h =
      let next : World n × Result (CoreClientError n) _ → World n × Result (CoreClientError n) B =
        λ out. elim out.1 [ ok a ↦ k a out.0 | err e ↦ (out.0, err e) | panic ↦ (out.0, panic) ] in
      ap next h

  module _ (env : Env n) (client : CoreClient n) (r : Receivable n) (rs : List (Receivable n))
      (w : World n) where
    receive_one-unknown :
        (progress : Progress n)
        → lookup n progress.frontiers r.recipient ≡ none
        → receive_one n env client progress r w ≡ (w, panic)
    unfolding receive_one
    receive_one-unknown progress e = rw (receive_one, e) refl

    receive_each-unknown :
        (progress : Progress n)
        → lookup n progress.frontiers r.recipient ≡ none
        → receive_each n env client progress (r ∷ rs) w ≡ (w, panic)
    unfolding receive_each
    receive_each-unknown progress e =
        bind-panic (receive_one n env client progress r)
          (λ progress'. receive_each n env client progress' rs) w (receive_one-unknown progress e)

    -- If the database has no frontier of the recipient of the first receivable of a batch,
    -- `receive` panics before any work is requested and any block goes out, whatever the other
    -- receivables are.
    pub receive-unknown :
        account_frontier n client.frontiers_db r.recipient ≡ none
        → receive n env client (r ∷ rs) w ≡ (w, panic)
    unfolding receive lookup
    receive-unknown gone =
        let progress : Progress n = record {
          frontiers = known_frontiers n client.frontiers_db [] (r ∷ rs);
          rpc_failures = [];
          last_error = none;
          successfully_received = [];
        } in
        bind-panic (receive_each n env client progress (r ∷ rs)) (finish n env (r ∷ rs)) w (
          receive_each-unknown progress
            (known_frontiers-unknown client.frontiers_db [] (r ∷ rs) r.recipient gone refl))
