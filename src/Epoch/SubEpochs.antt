-- ===== src/Epoch/SubEpochs.antt =====
-- src/Queries_Receiving.cpp and include/Queries_Receiving.h: an epoch of R read batches and one batch
-- of writes: VersionCache, dedupReadsForBatch, dedupWritesAtEnd, assembleResultsRBRW and
-- runEpoch_RBR_W. executeOramOps is an argument, as are the clients' pushes in each sub-epoch; what
-- is only printed is left out.
pub mod Writes
pub mod Dirty
use de_part.Prelude.{
  ℕ, ◌+◌, ◌≡◌, Bool, true, false, not, ◌&&◌, ◌||◌, List, [], ◌∷◌, ◌++◌, Option, none, some, ◌==◌,
  if◌then◌else◌, lookup, insert, nat_key, Bytes, length, get_or, to_u32,
}
use de_part.Epoch.Types.{
  OpType, Operat, Txn, VcKey, vc_key, vc_key_order, is_write, ExecutionResult,
}
use de_part.Epoch.Intake.{Intake, start_epoch, collect_sub_epoch, end_intake}
use de_part.Epoch.Conflict.{assign_abort}
use de_part.Epoch.Dedup.{
  Kind, OpDecision, new_decision, DedupPlan, new_plan, AssembledTxnResult, value_of,
}

abbrev pub VersionCache : Type 0
VersionCache = List (VcKey × Bytes)

-- `cache_[k] = er.per_slot_results[slot]` for every slot that both have
absorb_slots : List Operat → List Bytes → VersionCache → VersionCache
unfolding insert
absorb_slots [] results cache = cache
absorb_slots (op ∷ ops) [] cache = cache
absorb_slots (op ∷ ops) (r ∷ results) cache = absorb_slots ops results (insert (vc_key op) r cache)

absorb : DedupPlan → ExecutionResult → VersionCache → VersionCache
unfolding absorb_slots
absorb plan er cache =
    if er.success then absorb_slots plan.oram_bound_ops er.per_slot_results cache else cache

-- The state of dedupReadsForBatch.
pub record Batch : Type 0 where
  pub plan : DedupPlan
  pub leader_slot_by_key : List (VcKey × ℕ)
  pub vcache : VersionCache

-- `vcache.contains(k)`, then the leader of the key in this batch
abbrev batch_decision : ℕ → Option Bytes → Option ℕ → OpDecision
batch_decision slot (some v) leader = record new_decision {
  kind = Kind.buffered_from_write;
  buffered_value = v;
}
batch_decision slot none none = record new_decision { kind = Kind.to_oram; slot_id = slot }
batch_decision slot none (some l) = record new_decision {
  kind = Kind.coalesced_read;
  leader_slot_id = l;
}

abbrev new_leader : VcKey → Kind → ℕ → List (VcKey × ℕ) → List (VcKey × ℕ)
new_leader k Kind.to_oram slot leaders = insert k slot leaders
new_leader k Kind.buffered_from_write slot leaders = leaders
new_leader k Kind.coalesced_read slot leaders = leaders
new_leader k Kind.dropped slot leaders = leaders

abbrev send_if : Kind → Operat → List Operat → List Operat
send_if Kind.to_oram op ops = ops ++ op ∷ []
send_if Kind.buffered_from_write op ops = ops
send_if Kind.coalesced_read op ops = ops
send_if Kind.dropped op ops = ops

abbrev read_choice : Operat → Batch → OpDecision
read_choice op s =
    batch_decision (to_u32 (length s.plan.oram_bound_ops)) (lookup (vc_key op) s.vcache)
      (lookup (vc_key op) s.leader_slot_by_key)

pub batch_read : Operat → Batch → Batch
unfolding lookup insert
batch_read op s =
    let d = read_choice op s in
    record s {
      plan = record {
        oram_bound_ops = send_if d.kind op s.plan.oram_bound_ops;
        per_op_decision = insert op.global_op_id d s.plan.per_op_decision;
      };
      leader_slot_by_key = new_leader (vc_key op) d.kind d.slot_id s.leader_slot_by_key;
    }

pub batch_op : Operat → Batch → Batch
unfolding batch_read insert
batch_op op s =
    if is_write op.type
    then record s { vcache = insert (vc_key op) op.data_value s.vcache }
    else batch_read op s

pub batch_ops : List Operat → Batch → Batch
unfolding batch_op
batch_ops [] s = s
batch_ops (op ∷ ops) s = batch_ops ops (batch_op op s)

pub batch_txns : List Txn → Batch → Batch
unfolding batch_ops
batch_txns [] s = s
batch_txns (t ∷ txns) s = batch_txns txns (batch_ops t.operations s)

-- The plan of a read batch, and the cache with the batch's writes.
pub dedup_reads_for_batch : List Txn → VersionCache → DedupPlan × VersionCache
unfolding batch_txns
dedup_reads_for_batch incoming cache =
    let s =
      batch_txns incoming (record { plan = new_plan; leader_slot_by_key = []; vcache = cache }) in
    (s.plan, s.vcache)

-- The first loop of dedupWritesAtEnd; an entry's pointer to the operation is not used.
pub last_writes_ops : List Operat → List (VcKey × ℕ) → List (VcKey × ℕ)
unfolding insert
last_writes_ops [] m = m
last_writes_ops (op ∷ ops) m =
    last_writes_ops ops (if is_write op.type then insert (vc_key op) op.global_op_id m else m)

pub last_writes : List Txn → List (VcKey × ℕ) → List (VcKey × ℕ)
unfolding last_writes_ops
last_writes [] m = m
last_writes (t ∷ txns) m =
    last_writes txns (if t.is_committed then last_writes_ops t.operations m else m)

abbrev pub is_last : Option ℕ → ℕ → Bool
is_last none id = false
is_last (some last) id = last == id

-- The second loop: a key that the first one missed is passed over, which cannot happen.
pub end_op : List (VcKey × ℕ) → Operat → DedupPlan → DedupPlan
unfolding lookup insert
end_op last op plan =
    if is_last (lookup (vc_key op) last) op.global_op_id
    then record {
      oram_bound_ops = plan.oram_bound_ops ++ op ∷ [];
      per_op_decision =
          insert op.global_op_id
            (record new_decision {
              kind = Kind.to_oram;
              slot_id = to_u32 (length plan.oram_bound_ops);
            })
            plan.per_op_decision;
    }
    else record plan { per_op_decision = insert op.global_op_id new_decision plan.per_op_decision }

pub end_ops : List (VcKey × ℕ) → List Operat → DedupPlan → DedupPlan
unfolding end_op
end_ops last [] plan = plan
end_ops last (op ∷ ops) plan =
    end_ops last ops (if is_write op.type then end_op last op plan else plan)

pub end_txns : List (VcKey × ℕ) → List Txn → DedupPlan → DedupPlan
unfolding end_ops
end_txns last [] plan = plan
end_txns last (t ∷ txns) plan =
    end_txns last txns (if t.is_committed then end_ops last t.operations plan else plan)

pub dedup_writes_at_end : List Txn → DedupPlan
unfolding last_writes end_txns
dedup_writes_at_end txns = end_txns (last_writes txns []) txns new_plan

-- A batch's plan with the results of its slots: PhaseAReadResult and PhaseBWriteResult.
pub record PhaseResult : Type 0 where
  pub plan : DedupPlan
  pub er : ExecutionResult

abbrev DecisionRef : Type 0
DecisionRef = ExecutionResult × OpDecision

-- Later entries overwrite earlier ones.
refer : ExecutionResult → List (ℕ × OpDecision) → List (ℕ × DecisionRef) → List (ℕ × DecisionRef)
unfolding insert
refer er [] m = m
refer er ((id, d) ∷ ds) m = refer er ds (insert id (er, d) m)

refer_all : List PhaseResult → List (ℕ × DecisionRef) → List (ℕ × DecisionRef)
unfolding refer
refer_all [] m = m
refer_all (p ∷ ps) m = refer_all ps (refer p.er p.plan.per_op_decision m)

abbrev all_success : List PhaseResult → Bool
all_success [] = true
all_success (p ∷ ps) = p.er.success && all_success ps

resolve_ref : List (ℕ × DecisionRef) → Operat → Bytes
unfolding lookup
resolve_ref refs op = elim (lookup op.global_op_id refs) [
  | none ↦ []
  | some ref ↦ value_of ref.0.per_slot_results ref.1 ref.1.kind
]

resolve_refs : List (ℕ × DecisionRef) → List Operat → List Bytes
unfolding resolve_ref
resolve_refs refs [] = []
resolve_refs refs (op ∷ ops) = resolve_ref refs op ∷ resolve_refs refs ops

assemble_refs : Bool → List (ℕ × DecisionRef) → List Txn → List AssembledTxnResult
unfolding resolve_refs
assemble_refs failure refs [] = []
assemble_refs failure refs (t ∷ txns) =
    (if not t.is_committed || failure
      then record { txn_timestamp_id = t.timestamp_id; committed = false; per_op_result = [] }
      else record {
        txn_timestamp_id = t.timestamp_id;
        committed = true;
        per_op_result = resolve_refs refs t.operations;
      })
    ∷ assemble_refs failure refs txns

assemble_results_rbrw : List Txn → List PhaseResult → PhaseResult → List AssembledTxnResult
unfolding refer_all refer assemble_refs
assemble_results_rbrw txns reads write =
    assemble_refs (not write.er.success || not (all_success reads))
      (refer write.er write.plan.per_op_decision (refer_all reads [])) txns

-- `execute_reads r` and `execute_writes` are executeOramOps, on the ORAMs as they then are.
module _ (execute_reads : ℕ → List Operat → ExecutionResult)
    (execute_writes : List Operat → ExecutionResult) where
  -- Phase A, one sub-epoch for each list of arrivals.
  read_phase : List (List Txn) → ℕ → VersionCache → Intake → List Txn × List PhaseResult × Intake
  unfolding collect_sub_epoch dedup_reads_for_batch absorb
  read_phase [] r cache s = ([], [], s)
  read_phase (arrivals ∷ rest) r cache s =
      let (incoming, s') = collect_sub_epoch arrivals s in
      let (plan, cache') = dedup_reads_for_batch incoming cache in
      let er = execute_reads r plan.oram_bound_ops in
      let (txns, results, s'') = read_phase rest (r + 1) (absorb plan er cache') s' in
      (incoming ++ txns, record { plan = plan; er = er } ∷ results, s'')

  unfoldable pub run_epoch : List (List Txn) → Intake → List AssembledTxnResult × Intake
  unfolding read_phase start_epoch end_intake assign_abort dedup_writes_at_end assemble_results_rbrw
  run_epoch arrivals s =
      let (all_txns, reads, s') = read_phase arrivals 0 [] (start_epoch s) in
      let (judged, chains) = assign_abort all_txns in
      let plan = dedup_writes_at_end judged in
      (
        assemble_results_rbrw judged reads
            (record { plan = plan; er = execute_writes plan.oram_bound_ops }),
        record (end_intake s') { version_chain_vector = chains },
      )
