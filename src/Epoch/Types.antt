-- ===== src/Epoch/Types.antt =====
-- include/Queries_Receiving.h, include/MultiRingORAM_Servers.h, include/RingORAM.h: the operations
-- and transactions that the proxy handles. Strings are bytes; `int` is ℤ; uint32_t values are ℕ,
-- and each computation that can leave the range wraps.
use de_part.Prelude.{ℕ, Bool, true, false, List, Option, Bytes, ℤ, Key, pair_key, int_key, nat_key}

pub data OpType : Type 0 where
  read update insert : OpType

pub record Operat : Type 0 where
  pub type : OpType
  pub data_primary_key : ℕ
  pub data_value : Bytes
  pub server_id : ℤ
  pub last_one : Bool
  pub read_marker : Bool
  pub txn_timestamp_id : ℕ
  pub is_dummy : Bool
  pub global_op_id : ℕ

pub record Txn : Type 0 where
  pub operations : List Operat
  pub timestamp_id : ℕ
  pub is_committed : Bool

-- `VersionCache::Key`, and the key of a version chain
abbrev pub VcKey : Type 0
VcKey = ℤ × ℕ

instance abbrev pub vc_key_order : Key VcKey
vc_key_order = pair_key

abbrev pub vc_key : Operat → VcKey
vc_key op = (op.server_id, op.data_primary_key)

abbrev pub is_read : OpType → Bool
is_read OpType.read = true
is_read OpType.update = false
is_read OpType.insert = false

abbrev pub is_update : OpType → Bool
is_update OpType.read = false
is_update OpType.update = true
is_update OpType.insert = false

-- `type == UPDATE || type == INSERT`
abbrev pub is_write : OpType → Bool
is_write OpType.read = false
is_write OpType.update = true
is_write OpType.insert = true

-- The messages of failed calls: sendBatchToServer's, then executeOramOps's, which name the batch and
-- the server.
pub data SendError : Type 0 where
  no_process : ℤ → SendError
  header_failed : SendError
  pipe_failed : ℤ → SendError
  child_failed : ℤ → SendError

pub data ExecutionError : Type 0 where
  batch_size_zero : ExecutionError
  size_mismatch : ExecutionError
  batch_failed : ℕ → ℤ → Option SendError → ExecutionError

pub record ExecutionResult : Type 0 where
  pub per_slot_results : List Bytes
  pub success : Bool
  pub error_message : Option ExecutionError
  pub total_real_ops_sent : ℕ
  pub total_dummy_ops_sent : ℕ
  pub total_batches_sent : ℕ
