-- ===== src/Epoch/Dedup.antt =====
-- src/Queries_Receiving.cpp: QueriesReceiving::Dedup, which decides for each operation of the version
-- chains whether it goes to an ORAM, and assembleResults, which reads the answers back. Counters
-- that are only printed are left out.
pub mod Serial
pub mod Plan
pub mod LastWrite
pub mod Writes
pub mod Inputs
pub mod Ids
use de_part.Prelude.{
  ℕ, ◌≡◌, Bool, true, false, not, ◌&&◌, ◌||◌, List, [], ◌∷◌, ◌++◌, Option, none, some, ltb, ◌==◌,
  if◌then◌else◌, lookup, insert, nat_key, Bytes, length, get_or, to_u32,
}
use de_part.Epoch.Types.{OpType, Operat, Txn, VcKey, is_write, ExecutionResult}
use de_part.Epoch.Conflict.{Chains}

pub data Kind : Type 0 where
  to_oram buffered_from_write coalesced_read dropped : Kind

pub record OpDecision : Type 0 where
  pub kind : Kind
  pub slot_id : ℕ
  pub buffered_value : Bytes
  pub leader_slot_id : ℕ

-- `OpDecision d;`
abbrev pub new_decision : OpDecision
new_decision = record { kind = Kind.dropped; slot_id = 0; buffered_value = []; leader_slot_id = 0 }

pub record DedupPlan : Type 0 where
  pub oram_bound_ops : List Operat
  pub per_op_decision : List (ℕ × OpDecision)

abbrev pub new_plan : DedupPlan
new_plan = record { oram_bound_ops = []; per_op_decision = [] }

-- The first pass: timestamp and id of the last write so far; `none` is `!has_update`.
abbrev pub newer : Operat → Option (ℕ × ℕ) → Option (ℕ × ℕ)
newer op none = some (op.txn_timestamp_id, op.global_op_id)
newer op (some (ts, id)) =
    if ltb ts op.txn_timestamp_id || ltb id op.global_op_id
    then some (op.txn_timestamp_id, op.global_op_id)
    else some (ts, id)

pub last_update : Option (ℕ × ℕ) → List Operat → Option (ℕ × ℕ)
last_update acc [] = acc
last_update acc (op ∷ vc) = last_update (if is_write op.type then newer op acc else acc) vc

abbrev pub last_update_op_id : Option (ℕ × ℕ) → ℕ
last_update_op_id none = 0
last_update_op_id (some (ts, id)) = id

-- The second pass; `buffer` is `most_recent_write_value` under `has_buffer`, `leader` is
-- `leader_read_slot_id` under `leader_read_assigned`.
pub record Pass : Type 0 where
  pub plan : DedupPlan
  pub buffer : Option Bytes
  pub leader : Option ℕ

abbrev pub next_slot : Pass → ℕ
next_slot s = to_u32 (length s.plan.oram_bound_ops)

abbrev read_decision : ℕ → Option Bytes → Option ℕ → OpDecision
read_decision slot (some v) leader = record new_decision {
  kind = Kind.buffered_from_write;
  buffered_value = v;
}
read_decision slot none none = record new_decision { kind = Kind.to_oram; slot_id = slot }
read_decision slot none (some l) = record new_decision {
  kind = Kind.coalesced_read;
  leader_slot_id = l;
}

abbrev write_decision : ℕ → ℕ → Operat → OpDecision
write_decision last slot op =
    if op.global_op_id == last
    then record new_decision { kind = Kind.to_oram; slot_id = slot }
    else new_decision

-- `d` at the end of the `switch`
pub decision : ℕ → Operat → Pass → OpDecision
decision last op s =
    if is_write op.type
    then write_decision last (next_slot s) op
    else read_decision (next_slot s) s.buffer s.leader

-- Each branch that chooses TO_ORAM pushes the operation.
abbrev pub push_if : Kind → Operat → List Operat → List Operat
push_if Kind.to_oram op ops = ops ++ op ∷ []
push_if Kind.buffered_from_write op ops = ops
push_if Kind.coalesced_read op ops = ops
push_if Kind.dropped op ops = ops

abbrev lead : Kind → ℕ → Option ℕ → Option ℕ
lead Kind.to_oram slot leader = some slot
lead Kind.buffered_from_write slot leader = leader
lead Kind.coalesced_read slot leader = leader
lead Kind.dropped slot leader = leader

pub decide : ℕ → Operat → Pass → Pass
unfolding decision
decide last op s =
    let d = decision last op s in
    record {
      plan = record {
        oram_bound_ops = push_if d.kind op s.plan.oram_bound_ops;
        per_op_decision = insert op.global_op_id d s.plan.per_op_decision;
      };
      buffer = if is_write op.type then some op.data_value else s.buffer;
      leader = if is_write op.type then s.leader else lead d.kind (next_slot s) s.leader;
    }

pub second_pass : ℕ → List Operat → Pass → Pass
unfolding decide
second_pass last [] s = s
second_pass last (op ∷ vc) s = second_pass last vc (decide last op s)

pub dedup_chain : List Operat → DedupPlan → DedupPlan
unfolding last_update second_pass
dedup_chain vc plan =
    (second_pass (last_update_op_id (last_update none vc)) vc
      (record { plan = plan; buffer = none; leader = none })).plan

pub dedup_chains : Chains → DedupPlan → DedupPlan
unfolding dedup_chain
dedup_chains [] plan = plan
dedup_chains ((k, vc) ∷ chains) plan = dedup_chains chains (dedup_chain vc plan)

unfoldable pub dedup : Chains → DedupPlan
unfolding dedup_chains insert
dedup chains = dedup_chains chains new_plan

pub record AssembledTxnResult : Type 0 where
  pub txn_timestamp_id : ℕ
  pub committed : Bool
  pub per_op_result : List Bytes

-- The `switch (d.kind)`: a slot out of range gives the empty string.
abbrev pub value_of : List Bytes → OpDecision → Kind → Bytes
value_of results d Kind.to_oram = get_or results d.slot_id []
value_of results d Kind.buffered_from_write = d.buffered_value
value_of results d Kind.coalesced_read = get_or results d.leader_slot_id []
value_of results d Kind.dropped = []

pub resolve : DedupPlan → List Bytes → Operat → Bytes
unfolding lookup
resolve plan results op = elim (lookup op.global_op_id plan.per_op_decision) [
  | none ↦ []
  | some d ↦ value_of results d d.kind
]

pub resolve_all : DedupPlan → List Bytes → List Operat → List Bytes
unfolding resolve
resolve_all plan results [] = []
resolve_all plan results (op ∷ ops) = resolve plan results op ∷ resolve_all plan results ops

unfoldable pub assemble_results : List Txn → DedupPlan → ExecutionResult → List AssembledTxnResult
unfolding resolve_all
assemble_results [] plan er = []
assemble_results (t ∷ txns) plan er =
    (if not t.is_committed || not er.success
      then record { txn_timestamp_id = t.timestamp_id; committed = false; per_op_result = [] }
      else record {
        txn_timestamp_id = t.timestamp_id;
        committed = true;
        per_op_result = resolve_all plan er.per_slot_results t.operations;
      })
    ∷ assemble_results txns plan er
