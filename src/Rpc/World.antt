-- ===== src/Rpc/World.antt =====
-- The effects of the asynchronous code: the work jobs that run (`WorkManager::handles`, by their work
-- hashes) and the blocks that were handed to a node, in order. What a node, a work job or the random
-- choice of a representative answers is given by `Env`.
use camonanowallet.Base.{Option, List, Result, ok, err, panic}
use camonanowallet.Nano.{Nano, Block, Bytes8, Bytes32}
use camonanowallet.Error.{CoreClientError}
use camonanowallet.Rpc.Types.{RpcSuccess}

pub record World (n : Nano) : Type 0 where
  pub handles : List Bytes32
  pub published : List (Block n)

abbrev pub RpcResult : Nano → Type 0 → Type 0
RpcResult n A = Result (CoreClientError n) (RpcSuccess n A)

pub record Env (n : Nano) : Type 0 where
  -- the reply to `RpcManager::process`, after the blocks handed over before
  pub process : List (Block n) → Block n → RpcResult n Bytes32
  -- the result of the work job for a hash
  pub work : Bytes32 → RpcResult n Bytes8
  -- `choose` of the crate rand
  pub choose : List n.Account → Option n.Account

-- a step that changes the world and may fail; the changes stay
abbrev pub Action : Nano → Type 0 → Type 0
Action n A = World n → World n × Result (CoreClientError n) A

infixl 5 ◌>>=◌ ◌>>◌
abbrev pub ◌>>=◌ : {n : Nano} {A B : Type 0} → Action n A → (A → Action n B) → Action n B
◌>>=◌ m f w =
    let (w', r) = m w in elim r [ ok a ↦ f a w' | err e ↦ (w', err e) | panic ↦ (w', panic) ]

abbrev pub ◌>>◌ : {n : Nano} {A B : Type 0} → Action n A → Action n B → Action n B
m >> k = m >>= λ _. k

abbrev pub pure : {n : Nano} {A : Type 0} → A → Action n A
pure a w = (w, ok a)

abbrev pub lift : {n : Nano} {A : Type 0} → Result (CoreClientError n) A → Action n A
lift r w = (w, r)

abbrev pub modify : {n : Nano} → (World n → World n) → Action n (Unit {0})
modify f w = (f w, ok tt)
