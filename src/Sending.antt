-- ===== src/Sending.antt =====
-- src/MultiRingORAM_Servers.cpp: lookupBlockId, child_event_loop and sendBatchToServer. A pipe's round
-- trip is a parameter, since it can break; `working_pipe` is one that does not, with the child's
-- event loop at its other end.
use de_part.Prelude.{
  ℕ, zero, suc, ◌+◌, Bool, true, false, List, [], ◌∷◌, ◌++◌, Option, none, some, min, if◌then◌else◌,
  ℤ, int_key, nat_key, Bytes, lookup, insert, length, take, drop, inc32,
}
use de_part.Epoch.Types.{OpType, Operat, SendError}

-- `pk_to_blockid_`
abbrev pub PkMap : Type 0
PkMap = List (ℤ × List (ℕ × ℕ))

-- UINT32_MAX, the answer for a key that has no block
abbrev pub no_block : ℕ
no_block = 4294967295

abbrev pub block_or_none : Option ℕ → ℕ
block_or_none none = no_block
block_or_none (some bid) = bid

abbrev pub find_block : ℕ → Option (List (ℕ × ℕ)) → ℕ
find_block pk none = no_block
find_block pk (some pks) = block_or_none (lookup pk pks)

unfoldable pub lookup_block_id : PkMap → ℤ → ℕ → ℕ
unfolding lookup
lookup_block_id ids server pk = find_block pk (lookup server ids)

-- What the proxy reads of one round trip: nothing written, broken off after what has been read,
-- `ok == 0`, or the number of real operations with a result for each operation.
pub data Reply : Type 0 where
  unsent : Reply
  broken : ℕ → List Bytes → Reply
  refused : Reply
  answered : ℕ → List Bytes → Reply

-- `oram->access(key, op_type, val)`; `none` where it aborts or exits, which ends the child.
abbrev pub Access : Type 0 → Type 0
Access S = ℕ → OpType → Bytes → S → Option (Bytes × S)

abbrev pub Pipe : Type 0 → Type 0
Pipe S = ℤ → List Operat → S → Reply × S

-- What the child is left with after a list of operations: the count, the answers and the ORAM.
abbrev Done : Type 0 → Type 0
Done S = ℕ × (List Bytes) × S

abbrev pub after_answer : {S : Type 0} → Bytes → Option (Done S) → Option (Done S)
after_answer r none = none
after_answer r (some (n, rs, s)) = some (n, r ∷ rs, s)

abbrev pub go_on_with : {S : Type 0} → Option (Bytes × S) → (S → Option (Done S)) → Option (Done S)
go_on_with none rest = none
go_on_with (some (r, s)) rest = after_answer r (rest s)

-- What the proxy hears of a child: nothing where it has died.
abbrev pub reply_of : {S : Type 0} → Option (Done S) → Reply × Option S
reply_of none = (broken 0 [], none)
reply_of (some (n, rs, s)) = (answered n rs, some s)

module _ {S : Type 0} (access : Access S) where
  -- The child executes every operation, dummies too; `real_ops` counts those that are not.
  unfoldable pub child_ops : List Operat → ℕ → S → Option (Done S)
  child_ops [] real_ops s = some (real_ops, [], s)
  child_ops (op ∷ ops) real_ops s =
      go_on_with (access op.data_primary_key op.type op.data_value s)
        (λ s'. child_ops ops (if op.is_dummy then real_ops else inc32 real_ops) s')

  -- A child is its ORAM, or `none` once it has died: then nothing can be written to it.
  unfoldable pub working_pipe : Pipe (Option S)
  unfolding child_ops
  working_pipe id ops none = (unsent, none)
  working_pipe id ops (some s) = reply_of (child_ops ops 0 s)

pub record TransmissionResult : Type 0 where
  pub server_id : ℤ
  pub success : Bool
  pub records_sent : ℕ
  pub error_message : Option SendError
  pub per_op_results : List Bytes

abbrev pub new_result : ℤ → TransmissionResult
new_result id = record {
  server_id = id;
  success = false;
  records_sent = 0;
  error_message = none;
  per_op_results = [];
}

abbrev pub is_answer : Reply → Bool
is_answer unsent = false
is_answer (broken n rs) = false
is_answer refused = false
is_answer (answered n rs) = true

-- What a reply adds to the result.
unfoldable pub hear : ℤ → Reply → TransmissionResult → TransmissionResult
hear id unsent r = record r { error_message = some SendError.header_failed }
hear id (broken n rs) r = record r {
  records_sent = r.records_sent + n;
  error_message = some (SendError.pipe_failed id);
  per_op_results = r.per_op_results ++ rs;
}
hear id refused r = record r { error_message = some (SendError.child_failed id) }
hear id (answered n rs) r = record r {
  records_sent = r.records_sent + n;
  per_op_results = r.per_op_results ++ rs;
}

-- FIXED_BATCH_SIZE
abbrev pub fixed_batch_size : ℕ
fixed_batch_size = 64

-- `server_processes_`, each with the state of its ORAM
abbrev pub Processes : Type 0 → Type 0
Processes S = List (ℤ × S)

module _ {S : Type 0} (pipe : Pipe S) where
  -- the `while (offset < total_ops)`: `ops` are those from `offset` on
  unfoldable pub send_chunks : ℕ → ℤ → List Operat → TransmissionResult → S → TransmissionResult × S
  unfolding hear
  send_chunks zero id ops r s = (r, s)
  send_chunks (suc fuel) id [] r s = (record r { success = true }, s)
  send_chunks (suc fuel) id (op ∷ ops) r s =
      let n = min fixed_batch_size (length (op ∷ ops)) in
      let reply = pipe id (take n (op ∷ ops)) s in
      let r' = hear id reply.0 r in
      let later = send_chunks fuel id (drop n (op ∷ ops)) r' reply.1 in
      if is_answer reply.0 then later else (r', reply.1)

  unfoldable pub send_known :
      ℤ → List Operat → Processes S → Option S → TransmissionResult × Processes S
  unfolding send_chunks insert
  send_known id ops processes none =
      (record (new_result id) { error_message = some (SendError.no_process id) }, processes)
  send_known id ops processes (some s) =
      let sent = send_chunks (length ops + 1) id ops (new_result id) s in
      (sent.0, insert id sent.1 processes)

  unfoldable pub send_batch_to_server :
      ℤ → List Operat → Processes S → TransmissionResult × Processes S
  unfolding send_known lookup
  send_batch_to_server id [] processes = (record (new_result id) { success = true }, processes)
  send_batch_to_server id (op ∷ ops) processes =
      send_known id (op ∷ ops) processes (lookup id processes)
