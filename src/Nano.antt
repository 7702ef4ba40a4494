-- ===== src/Nano.antt =====
-- What the wallet uses of the crate nanopyrs: its types, with decided equality, and its functions.
-- A `[u8; 32]` or `[u8; 8]` stands as the number that its bytes spell, big end first.
use Prim.Native.String.{String}
use camonanowallet.Base.{ℕ, Bool, Option, List}

abbrev pub Bytes32 : Type 0
Bytes32 = ℕ

abbrev pub Bytes8 : Type 0
Bytes8 = ℕ

-- the public fields of nanopyrs' `Block`
pub record BlockOf (Account BlockType Signature : Type 0) : Type 0 where
  pub block_type : BlockType
  pub account : Account
  pub previous : Bytes32
  pub representative : Account
  pub balance : ℕ
  pub link : Bytes32
  pub signature : Signature
  pub work : Bytes8

pub record Nano : Type 1 where
  pub Account : Type 0
  pub account_dec : Discrete Account
  -- `account.compressed.to_bytes()`, `Account::from_bytes`
  pub to_bytes : Account → Bytes32
  pub from_bytes : Bytes32 → Option Account
  pub genesis_account : Account
  pub BlockType : Type 0
  pub change : BlockType
  pub receive : BlockType
  pub send : BlockType
  pub is_epoch : BlockType → Bool
  pub Signature : Type 0
  pub default_signature : Signature
  pub block_dec : Discrete (BlockOf Account BlockType Signature)
  -- `block.hash()`, `block.follows_epoch_rules(previous)`, `check_work(work_hash, difficulty, work)`
  pub hash : BlockOf Account BlockType Signature → Bytes32
  pub follows_epoch_rules :
      BlockOf Account BlockType Signature → BlockOf Account BlockType Signature → Bool
  pub check_work : Bytes32 → Bytes8 → Bytes8 → Bool
  pub Key : Type 0
  pub key_from_seed : Bytes32 → ℕ → Key
  pub to_account : Key → Account
  -- the signature that `block.sign(key)` stores in the block
  pub signature_by : BlockOf Account BlockType Signature → Key → Signature
  pub CamoAccount : Type 0
  pub camo_dec : Discrete CamoAccount
  pub CamoVersion : Type 0
  pub CamoVersions : Type 0
  -- `CamoVersions::new`
  pub new_versions : List CamoVersion → CamoVersions
  pub camo_versions : CamoAccount → CamoVersions
  pub signer_account : CamoAccount → Account
  pub CamoKeys : Type 0
  pub camo_from_seed : Bytes32 → ℕ → CamoVersions → Option CamoKeys
  pub to_camo_account : CamoKeys → CamoAccount
  pub keys_versions : CamoKeys → CamoVersions
  pub signer_key : CamoKeys → Key
  -- `camo_keys.derive_key(secret)`, `camo_account.derive_account(secret)`
  pub derive_key : CamoKeys → Bytes32 → Key
  pub derive_account : CamoAccount → Bytes32 → Account
  -- a `NotificationV1`, which is made of its two fields
  pub NotificationV1 : Type 0
  pub notification_v1 : Account → Account → NotificationV1
  pub recipient : NotificationV1 → Account
  pub representative_payload : NotificationV1 → Account
  -- `block.link_as_account()`, `Notification::from_v1(block)`
  pub link_as_account : BlockOf Account BlockType Signature → Option Account
  pub from_v1 : BlockOf Account BlockType Signature → NotificationV1
  pub receiver_ecdh : CamoKeys → NotificationV1 → Bytes32
  -- `camo_account.sender_ecdh(key, frontier)`: the shared secret and the notification
  pub sender_ecdh : CamoAccount → Key → Bytes32 → Bytes32 × NotificationV1
  pub camo_sender_dust_threshold : ℕ
  pub camo_recipient_dust_threshold : ℕ
  pub NanoError : Type 0
  -- the error of `Account::from_bytes`
  pub invalid_account : NanoError
  pub RpcError : Type 0
  -- the test `err == RpcError::InvalidData`
  pub is_invalid_data : RpcError → Bool
  -- tokio's error of a task that was not joined
  pub JoinError : Type 0
  pub DebugRpc : Type 0
  pub get_url : DebugRpc → String

abbrev pub Block : Nano → Type 0
Block n = BlockOf n.Account n.BlockType n.Signature

pub record Receivable (n : Nano) : Type 0 where
  pub recipient : n.Account
  pub block_hash : Bytes32
  pub amount : ℕ

-- the fields of nanopyrs' `BlockInfo` that are read
pub record BlockInfo (n : Nano) : Type 0 where
  pub block : Block n
  pub height : ℕ
