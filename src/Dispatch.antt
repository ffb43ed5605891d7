-- ===== src/Dispatch.antt =====
-- src/MultiRingORAM_Servers.cpp: executeOramOps, the dispatch of an epoch's operations to the server
-- processes. The threads of executeOramOps, one a server, are run one after the other; Threads has
-- them run under a scheduler.
pub mod Child
pub mod Worker
pub mod Slots
pub mod Carried
pub mod Sent
pub mod Serves
pub mod Execute
pub mod Answered
pub mod EndToEnd
pub mod Client
pub mod Reads
pub mod Errors
pub mod Missing
pub mod Threads
use de_part.Prelude.{
  ℕ, zero, suc, ◌+◌, ◌-◌, ◌%◌, ◌≡◌, Bool, true, false, not, List, [], ◌∷◌, ◌++◌, Option, none, some,
  min, ◌==◌, if◌then◌else◌, ℤ, int_key, nat_key, Bytes, lookup, insert, length, get_or, set, take,
  drop, replicate, u32_mod, to_u32, inc32,
}
use de_part.Epoch.Types.{OpType, Operat, SendError, ExecutionError, ExecutionResult}
use de_part.Batch.{BatchInfo, BatchPlan, slot_dummy, Groups, group_by, build_batches_from_oram_ops}
use de_part.Sending.{
  PkMap, no_block, lookup_block_id, Pipe, TransmissionResult, Processes, send_batch_to_server,
  answered,
}

-- `for (i < n) if (slot_map[i] != kSlotDummy) per_slot_results[slot_map[i]] = per_op_results[i]`
pub place_results : List ℕ → List Bytes → List Bytes → List Bytes
place_results [] rs out = out
place_results (slot ∷ slots) [] out = out
place_results (slot ∷ slots) (r ∷ rs) out =
    place_results slots rs (if slot == slot_dummy then out else set out slot r)

-- Keys become block ids; a key that has none makes its operation a dummy.
pub translate : PkMap → ℤ → Operat → Operat
unfolding lookup_block_id
translate ids server op =
    if op.is_dummy
    then op
    else if lookup_block_id ids server op.data_primary_key == no_block
    then record op { is_dummy = true }
    else record op { data_primary_key = lookup_block_id ids server op.data_primary_key }

pub translate_all : PkMap → ℤ → List Operat → List Operat
unfolding translate
translate_all ids server [] = []
translate_all ids server (op ∷ ops) = translate ids server op ∷ translate_all ids server ops

pub record ServerOutcome : Type 0 where
  pub ok : Bool
  pub error_message : Option ExecutionError
  pub real_ops : ℕ
  pub dummy_ops : ℕ

abbrev pub new_outcome : ServerOutcome
new_outcome = record { ok = true; error_message = none; real_ops = 0; dummy_ops = 0 }

-- What the worker of one server works on.
pub record Job (S : Type 0) : Type 0 where
  pub outcome : ServerOutcome
  pub per_slot_results : List Bytes
  pub processes : Processes S

abbrev pub no_batch : BatchInfo
no_batch = record { server_id = ℤ.pos 0; batch_type = OpType.read; operations = [] }

module _ {S : Type 0} (pipe : Pipe S) where
  -- `oc.real_ops`, `oc.dummy_ops` and the slots after a batch that was answered
  abbrev pub count_ops : ServerOutcome → ℕ → ℕ → ServerOutcome
  count_ops oc size sent = record oc {
    real_ops = to_u32 (oc.real_ops + sent);
    dummy_ops = to_u32 (oc.dummy_ops + size + (u32_mod - to_u32 sent));
  }

  -- what becomes of the job when a batch's transmission is over
  pub settle : ℕ → ℤ → List ℕ → ℕ → TransmissionResult × Processes S → Job S → Job S
  unfolding place_results
  settle b id slot_map size sent job =
      if not sent.0.success
      then record {
        outcome = record job.outcome {
          ok = false;
          error_message = some (ExecutionError.batch_failed b id sent.0.error_message);
        };
        per_slot_results = job.per_slot_results;
        processes = sent.1;
      }
      else record {
        outcome = count_ops job.outcome size sent.0.records_sent;
        per_slot_results = place_results slot_map sent.0.per_op_results job.per_slot_results;
        processes = sent.1;
      }

  module _ (ids : PkMap) where
    pub run_batch : ℕ → BatchInfo → List ℕ → Job S → Job S
    unfolding translate_all send_batch_to_server settle
    run_batch b bi slot_map job =
        if not (length slot_map == length bi.operations)
        then record job {
          outcome = record job.outcome {
            ok = false;
            error_message = some ExecutionError.size_mismatch;
          };
        }
        else settle b bi.server_id slot_map (length bi.operations)
            (send_batch_to_server pipe bi.server_id (translate_all ids bi.server_id bi.operations)
              job.processes)
            job

    module _ (bp : BatchPlan) where
      -- the batches of one server, in order, up to the first that fails
      pub run_server : List ℕ → Job S → Job S
      unfolding run_batch
      run_server [] job = job
      run_server (b ∷ bs) job =
          let job' =
            run_batch b (get_or bp.batches b no_batch) (get_or bp.per_batch_op_to_slot b []) job in
          let later = run_server bs job' in if job'.outcome.ok then later else job'

      pub run_jobs :
          Groups → List Bytes → Processes S → (List ServerOutcome) × (List Bytes) × Processes S
      unfolding run_server
      run_jobs [] out processes = ([], out, processes)
      run_jobs ((id, bs) ∷ jobs) out processes =
          let job =
            run_server bs
              (record { outcome = new_outcome; per_slot_results = out; processes = processes }) in
          let later = run_jobs jobs job.per_slot_results job.processes in
          (job.outcome ∷ later.0, later.1, later.2)

abbrev pub or_first : Option ExecutionError → Option ExecutionError → Option ExecutionError
or_first none e = e
or_first (some e) e' = some e

-- One round of the loop that merges the outcomes.
pub merge : ServerOutcome → ExecutionResult → ExecutionResult
merge oc er = record er {
  success = if oc.ok then er.success else false;
  error_message = if oc.ok then er.error_message else or_first er.error_message oc.error_message;
  total_real_ops_sent = er.total_real_ops_sent + oc.real_ops;
  total_dummy_ops_sent = er.total_dummy_ops_sent + oc.dummy_ops;
}

pub merge_all : List ServerOutcome → ExecutionResult → ExecutionResult
unfolding merge
merge_all [] er = er
merge_all (oc ∷ ocs) er = merge_all ocs (merge oc er)

abbrev pub result_of : List Bytes → ℕ → ExecutionResult
result_of out batches = record {
  per_slot_results = out;
  success = true;
  error_message = none;
  total_real_ops_sent = 0;
  total_dummy_ops_sent = 0;
  total_batches_sent = batches;
}

module _ {S : Type 0} (pipe : Pipe S) (ids : PkMap) where
  -- everything but the two early returns
  pub execute_plan : BatchPlan → List Bytes → Processes S → ExecutionResult × Processes S
  unfolding run_jobs merge_all group_by
  execute_plan bp out processes =
      let jobs = group_by (λ (b : BatchInfo). b.server_id) 0 bp.batches [] in
      let ran = run_jobs pipe ids bp jobs out processes in
      (merge_all ran.0 (result_of ran.1 (length bp.batches)), ran.2)

  unfoldable pub execute_oram_ops :
      List Operat → ℕ → Bool → Processes S → ExecutionResult × Processes S
  unfolding execute_plan build_batches_from_oram_ops
  execute_oram_ops [] batch_size pad processes = (result_of [] 0, processes)
  execute_oram_ops (op ∷ ops) batch_size pad processes =
      let out = replicate (length (op ∷ ops)) [] in
      if batch_size == 0
      then (
        record (result_of out 0) {
          success = false;
          error_message = some ExecutionError.batch_size_zero;
        },
        processes,
      )
      else execute_plan (build_batches_from_oram_ops (op ∷ ops) batch_size pad) out processes
