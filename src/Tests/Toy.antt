-- ===== src/Tests/Toy.antt =====
-- A small instance of `Nano`, with numbers for accounts and keys. The key of an index of a seed is
-- their sum, and the account of a key is the key plus one.
use Prim.Native.String.{String}
use camonanowallet.Base.{ℕ, ◌+◌, ◌%◌, refl, true, ok, none, some, [], ◌∷◌, ◌==◌, ℕ_discrete}
use camonanowallet.Nano.{Nano, BlockOf}
use camonanowallet.Config.{CoreClientConfig}
use camonanowallet.Frontiers.Info.{FrontierInfo}
use camonanowallet.Frontiers.Db.{FrontiersDb}
use camonanowallet.Wallet.Seed.{WalletSeed}
use camonanowallet.Wallet.Validity.{KeyLaws}
use camonanowallet.Rpc.World.{World, Env}

abbrev pub block_discrete : Discrete (BlockOf ℕ ℕ ℕ)
block_discrete = hlevel ℕ_discrete

abbrev pub toy : Nano
toy = record {
  Account = ℕ;
  account_dec = ℕ_discrete;
  to_bytes = λ a. a;
  from_bytes = λ b. some b;
  genesis_account = 0;
  BlockType = ℕ;
  change = 0;
  receive = 1;
  send = 2;
  is_epoch = λ t. t == 3;
  Signature = ℕ;
  default_signature = 0;
  block_dec = block_discrete;
  hash = λ b. 1000 + b.account + b.balance;
  follows_epoch_rules = λ b p. b.balance == p.balance;
  check_work = λ hash difficulty work. hash % 10 == work;
  Key = ℕ;
  key_from_seed = λ seed i. seed + i;
  to_account = λ k. k + 1;
  signature_by = λ b k. b.balance + k;
  CamoAccount = ℕ;
  camo_dec = ℕ_discrete;
  CamoVersion = ℕ;
  CamoVersions = ℕ;
  new_versions = λ vs. 1;
  camo_versions = λ a. 1;
  signer_account = λ a. a + 1;
  CamoKeys = ℕ;
  camo_from_seed = λ seed i v. some (seed + i + 500);
  to_camo_account = λ k. k;
  keys_versions = λ k. 1;
  signer_key = λ k. k;
  derive_key = λ k s. k + s;
  derive_account = λ a s. a + s + 1;
  NotificationV1 = ℕ × ℕ;
  notification_v1 = λ a r. (a, r);
  recipient = λ m. m.0;
  representative_payload = λ m. m.1;
  link_as_account = λ b. some b.link;
  from_v1 = λ b. (b.link, b.representative);
  receiver_ecdh = λ k m. 7;
  sender_ecdh = λ a k frontier. (7, (a + 1, a));
  camo_sender_dust_threshold = 1;
  camo_recipient_dust_threshold = 1;
  NanoError = ℕ;
  invalid_account = 0;
  RpcError = ℕ;
  is_invalid_data = λ e. e == 1;
  JoinError = ℕ;
  DebugRpc = String;
  get_url = λ r. r;
}

pub toy_laws : KeyLaws toy
toy_laws = record { signer = λ k. refl; versions = λ k. refl; rederive = λ seed i v k h. h }

abbrev pub config : CoreClientConfig toy
config = record {
  normal_dust_threshold = 0;
  db_number_of_accounts_limit = 2;
  rpc_invalid_data_ban_time = 60;
  rpc_failure_ban_time = 60;
  rpc_use_banned_nodes_as_backup = true;
  rpc_retry_limit = 3;
  work_difficulty = 0;
  rpc_accounts_receivable_batch_size = 10;
  rpc_account_history_batch_size = 10;
  rpc_receive_transactions_batch_size = 10;
  enable_work_cache = true;
  default_camo_versions = 1 ∷ [];
  representatives = 42 ∷ [];
  rpcs = [];
}

-- a frontier of an account, with a balance
abbrev pub entry : ℕ → ℕ → FrontierInfo toy
entry a b = record {
  block = record {
    block_type = 1;
    account = a;
    previous = 5;
    representative = 42;
    balance = b;
    link = 6;
    signature = 0;
    work = 0;
  };
  cached_work = none;
}

abbrev pub two_entries : FrontiersDb toy
two_entries = record { frontiers = entry 101 30 ∷ entry 102 12 ∷ []; frontiers_balance = 42 }

abbrev pub seed : WalletSeed
seed = record { bytes = 100 }

-- nodes accept every block, and every work job finds the work
abbrev pub env : Env toy
env = record {
  process = λ sent b. ok (record { item = 1; failures = [] });
  work = λ hash. ok (record { item = hash % 10; failures = [] });
  choose = λ reps. some 42;
}

abbrev pub world : World toy
world = record { handles = []; published = [] }
