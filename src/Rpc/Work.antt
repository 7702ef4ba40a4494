-- ===== src/Rpc/Work.antt =====
-- `WorkManager` of client/core/src/rpc/work.rs: work jobs, one at most for a hash.
use camonanowallet.Base.{
  ℕ, Bool, false, List, [], ◌∷◌, ◌==◌, ◌||◌, length, select, not, panic, if◌then◌else◌,
}
use camonanowallet.Nano.{Nano, Bytes32, Bytes8}
use camonanowallet.Rpc.World.{World, Env, RpcResult}

abbrev pub contains_key : List Bytes32 → Bytes32 → Bool
contains_key [] hash = false
contains_key (h ∷ hs) hash = h == hash || contains_key hs hash

module _ (n : Nano) (env : Env n) where
  unfoldable pub request_work : Bytes32 → World n → World n
  request_work hash w =
      if contains_key w.handles hash then w else record w { handles = hash ∷ w.handles }

  -- `wait_on` panics if no job runs for the hash
  unfoldable pub wait_on : Bytes32 → World n → World n × RpcResult n Bytes8
  wait_on hash w =
      if contains_key w.handles hash
      then (record w { handles = select (λ h. not (h == hash)) w.handles }, env.work hash)
      else (w, panic)

  unfoldable pub n_requests : World n → ℕ
  n_requests w = length w.handles
