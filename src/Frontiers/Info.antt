-- ===== src/Frontiers/Info.antt =====
-- `FrontierInfo`: a block with its cached proof of work.
use camonanowallet.Base.{Bool, false, Option, none, some, eqb, if◌then◌else◌}
use camonanowallet.Nano.{Nano, Block, Bytes8, Bytes32}
use camonanowallet.Config.{CoreClientConfig}

pub record FrontierInfo (n : Nano) : Type 0 where
  pub block : Block n
  pub cached_work : Option Bytes8

module _ (n : Nano) where
  unfoldable pub new_unopened : n.Account → FrontierInfo n
  new_unopened account = record {
    block = record {
      block_type = n.change;
      account = account;
      previous = 0;
      representative = n.genesis_account;
      balance = 0;
      link = 0;
      signature = n.default_signature;
      work = 0;
    };
    cached_work = none;
  }

  unfoldable pub is_unopened : FrontierInfo n → Bool
  unfolding new_unopened
  is_unopened info = eqb n.block_dec (new_unopened info.block.account).block info.block

  unfoldable pub work_hash : FrontierInfo n → Bytes32
  unfolding is_unopened
  work_hash info = if is_unopened info then n.to_bytes info.block.account else n.hash info.block

  unfoldable pub has_valid_work : CoreClientConfig n → FrontierInfo n → Bool
  unfolding work_hash
  has_valid_work config info = elim info.cached_work [
    | some work ↦ n.check_work (work_hash info) config.work_difficulty work
    | none ↦ false
  ]

  unfoldable pub clear_work : FrontierInfo n → FrontierInfo n
  clear_work info = record info { cached_work = none }

  unfoldable pub cache_work : CoreClientConfig n → Bytes8 → FrontierInfo n → FrontierInfo n
  unfolding has_valid_work clear_work
  cache_work config work info =
      let info' : FrontierInfo n = record info { cached_work = some work } in
      if has_valid_work config info' then info' else clear_work info'
