-- ===== src/Dispatch/Threads.antt =====
-- src/MultiRingORAM_Servers.cpp: the threads of executeOramOps, one a server, under a scheduler that
-- picks which of them runs its next batch. A batch is one step: until its results are placed, a
-- worker touches nothing but its own process.
pub mod Effect
pub mod Commute
pub mod Schedules
pub mod Ends
pub mod Fair
use de_part.Prelude.{
  ℕ, zero, suc, ◌≡◌, List, [], ◌∷◌, ℤ, int_key, Bytes, if◌then◌else◌, get_or, length, replicate,
  Bool,
}
use de_part.Epoch.Types.{Operat, ExecutionResult}
use de_part.Batch.{BatchInfo, BatchPlan, Groups, group_by, build_batches_from_oram_ops}
use de_part.Sending.{PkMap, Pipe, Processes}
use de_part.Dispatch.{ServerOutcome, new_outcome, Job, no_batch, run_batch, merge_all, result_of}

-- A server, the batches that its worker has left, and its outcome so far.
abbrev pub Thread : Type 0
Thread = ℤ × (List ℕ) × ServerOutcome

-- `workers.emplace_back(run_server, j)`
unfoldable pub spawn : Groups → List Thread
spawn [] = []
spawn ((id, bs) ∷ jobs) = (id, bs, new_outcome) ∷ spawn jobs

-- what the threads share
abbrev pub Shared : Type 0 → Type 0
Shared S = (List Bytes) × Processes S

abbrev pub job_of : {S : Type 0} → ServerOutcome → Shared S → Job S
job_of oc s = record { outcome = oc; per_slot_results = s.0; processes = s.1 }

abbrev pub shared_of : {S : Type 0} → Job S → Shared S
shared_of job = (job.per_slot_results, job.processes)

abbrev pub outcomes_of : List Thread → List ServerOutcome
outcomes_of [] = []
outcomes_of ((id, bs, oc) ∷ ts) = oc ∷ outcomes_of ts

-- every worker has returned
abbrev pub AllJoined : List Thread → Type 0
AllJoined [] = Unit
AllJoined ((id, bs, oc) ∷ ts) = (bs ≡ []) × AllJoined ts

module _ {S : Type 0} (pipe : Pipe S) (ids : PkMap) (bp : BatchPlan) where
  abbrev pub batch_job : ℕ → ServerOutcome → Shared S → Job S
  batch_job b oc s =
      run_batch pipe ids b (get_or bp.batches b no_batch) (get_or bp.per_batch_op_to_slot b [])
        (job_of oc s)

  -- one round of a worker's loop
  pub run_next : Thread → Shared S → Thread × Shared S
  unfolding run_batch
  run_next (id, [], oc) s = ((id, [], oc), s)
  run_next (id, b ∷ bs, oc) s =
      let job = batch_job b oc s in
      ((id, (if job.outcome.ok then bs else []), job.outcome), shared_of job)

  -- The scheduler picks a thread.
  unfoldable pub pick : ℕ → List Thread → Shared S → (List Thread) × Shared S
  unfolding run_next
  pick n [] s = ([], s)
  pick zero (t ∷ ts) s = let r = run_next t s in (r.0 ∷ ts, r.1)
  pick (suc n) (t ∷ ts) s = let r = pick n ts s in (t ∷ r.0, r.1)

  pub run_schedule : List ℕ → List Thread → Shared S → (List Thread) × Shared S
  unfolding pick
  run_schedule [] ts s = (ts, s)
  run_schedule (n ∷ ns) ts s = let r = pick n ts s in run_schedule ns r.0 r.1

-- executeOramOps past its early returns, with the threads as the schedule has them run: the threads
-- in the end, the result, and the processes.
module _ {S : Type 0} (pipe : Pipe S) (ids : PkMap) where
  abbrev pub threads_of : BatchPlan → List Thread
  threads_of bp = spawn (group_by (λ (b : BatchInfo). b.server_id) 0 bp.batches [])

  unfoldable pub execute_scheduled :
      List ℕ → List Operat → ℕ → Bool → Processes S → (List Thread) × ExecutionResult × Processes S
  unfolding build_batches_from_oram_ops spawn group_by run_schedule merge_all
  execute_scheduled ns ops batch_size pad processes =
      let bp = build_batches_from_oram_ops ops batch_size pad in
      let ran =
        run_schedule pipe ids bp ns (threads_of bp) (replicate (length ops) [], processes) in
      (ran.0, merge_all (outcomes_of ran.0) (result_of ran.1.0 (length bp.batches)), ran.1.1)
