-- ===== src/Dispatch/Answered.antt =====
-- executeOramOps answers as the deduplication relies on, and with it, as a serial execution.
use de_part.Prelude.{
  ℕ, suc, ◌<◌, ◌≡◌, refl, sym, ap, subst, ◌∙◌, ◌≢◌, Bool, true, false, List, [], ◌∷◌, Option, none,
  some, arith, ◌==◌, if◌then◌else◌, ℤ, int_key, Bytes, length, length-replicate, replicate,
  get_elem?, get_or, All, u32_mod, lookup,
}
use de_part.Epoch.Types.{Operat, VcKey, ExecutionResult, ExecutionError}
use de_part.Epoch.Dedup.Serial.{Serves}
use de_part.Batch.{BatchInfo, BatchPlan, build_batches_from_oram_ops}
use de_part.Batch.Order.{build-order}
use de_part.Batch.Shape.{AllFit, build-AllFit}
use de_part.Sending.{PkMap, lookup_block_id, Access, Pipe, working_pipe, Processes}
use de_part.Dispatch.{
  ServerOutcome, result_of, run_jobs, merge, merge_all, execute_plan, execute_oram_ops,
}
use de_part.Dispatch.Child.{OramLaws, Runs}
use de_part.Dispatch.Worker.{ops_of}
use de_part.Dispatch.Carried.{own_batches}
use de_part.Dispatch.Sent.{Known, lt-length, Built, jobs_of, jobs_of-Distinct, jobs_of-own, own_job}
use de_part.Dispatch.Execute.{AllReady, run_jobs-AllServed}

AllFit-length :
    (ops : List Operat) (batch_size : ℕ) (pad : Bool) (batches : List BatchInfo)
    (maps : List (List ℕ))
    → AllFit ops batch_size pad batches maps
    → length batches ≡ length maps
AllFit-length ops batch_size pad [] [] f = refl
AllFit-length ops batch_size pad [] (m ∷ maps) f = absurd f
AllFit-length ops batch_size pad (b ∷ batches) [] f = absurd f
AllFit-length ops batch_size pad (b ∷ batches) (m ∷ maps) f =
    ap suc (AllFit-length ops batch_size pad batches maps f.1)

pub build-Built :
    (ops : List Operat) (batch_size : ℕ) (pad : Bool)
    → batch_size ≢ 0
    → length ops < u32_mod
    → Built ops (build_batches_from_oram_ops ops batch_size pad)
build-Built ops batch_size pad h small = record {
  batch_size = batch_size;
  pad = pad;
  fits = build-AllFit ops batch_size pad h small;
  same_length = AllFit-length ops batch_size pad _ _ (build-AllFit ops batch_size pad h small);
  order = λ id. build-order ops batch_size pad id h small;
}

merge_all_lem :
    (ocs : List ServerOutcome) (er : ExecutionResult)
    → ((merge_all ocs er).per_slot_results ≡ er.per_slot_results)
      × (All (λ (oc : ServerOutcome). oc.ok ≡ true) ocs
          → ((merge_all ocs er).success ≡ er.success)
            × ((merge_all ocs er).error_message ≡ er.error_message))
unfolding merge_all merge
merge_all_lem [] er = (refl, λ h. (refl, refl))
merge_all_lem (oc ∷ ocs) er =
    let (r, ok) = merge_all_lem ocs (merge oc er) in
    (r, λ h. let (a, b) = ok h.1 in (a ∙ ground (arith, h.0), b ∙ ground (arith, h.0)))

-- Past the early returns, the plan is executed.
pub execute_oram_ops-plan :
    {S : Type 0} (pipe : Pipe S) (ids : PkMap) (op : Operat) (ops : List Operat) (batch_size : ℕ)
    (pad : Bool) (processes : Processes S)
    → batch_size ≢ 0
    → execute_oram_ops pipe ids (op ∷ ops) batch_size pad processes
      ≡ execute_plan pipe ids
          (build_batches_from_oram_ops (op ∷ ops) batch_size pad)
          (replicate (length (op ∷ ops)) [])
          processes
unfolding execute_oram_ops
execute_oram_ops-plan pipe ids op ops batch_size pad processes h =
    ap
      (λ (b : Bool).
        if b
        then (
          record (result_of (replicate (length (op ∷ ops)) []) 0) {
            success = false;
            error_message = some ExecutionError.batch_size_zero;
          },
          processes,
        )
        else execute_plan pipe ids (build_batches_from_oram_ops (op ∷ ops) batch_size pad)
            (replicate (length (op ∷ ops)) []) processes)
      positive
  where
    positive : (batch_size == 0) ≡ false
    positive = ground arith

-- What goes to a server: its batches' operations, translated, with the dummies that pad them.
abbrev pub sent_of : PkMap → List Operat → ℕ → Bool → ℤ → List Operat
sent_of ids ops batch_size pad id =
    let bp = build_batches_from_oram_ops ops batch_size pad in
    ops_of bp ids id (own_batches ids ops id bp)

-- What is stored under a key of the program, where `contents` is what the servers' blocks hold.
unfoldable pub stored_in : PkMap → (ℤ → ℕ → Bytes) → VcKey → Bytes
unfolding lookup_block_id
stored_in ids contents k = contents k.0 (lookup_block_id ids k.0 k.1)

module _ {S : Type 0} (access : Access S) (laws : OramLaws access) (ids : PkMap)
    (contents : ℤ → ℕ → Bytes) where
  -- Every server that an operation names has a process whose ORAM holds the contents and gets
  -- through what it is sent without an abort.
  abbrev pub Up : List Operat → ℕ → Bool → Processes (Option S) → Type 0
  Up ops batch_size pad processes =
      (slot : ℕ) (op : Operat)
      → get_elem? ops slot ≡ some op
      → (s : S) × (lookup op.server_id processes ≡ some (some s))
        × laws.Holds (contents op.server_id) s
        × Runs access (sent_of ids ops batch_size pad op.server_id) s

  module _ (ops : List Operat) (small : length ops < u32_mod) (known : Known ids ops small)
      (processes : Processes (Option S)) where
    plan-Serves :
        (bp : BatchPlan) (built : Built ops bp)
        → AllReady access laws ids ops small known bp built contents processes
        → ((execute_plan
              (working_pipe access)
              ids
              bp
              (replicate (length ops) [])
              processes).0.success
            ≡ true)
          × ((execute_plan
                (working_pipe access)
                ids
                bp
                (replicate (length ops) [])
                processes).0.error_message
              ≡ none)
          × Serves
              (stored_in ids contents)
              ops
              (execute_plan
                (working_pipe access)
                ids
                bp
                (replicate (length ops) [])
                processes).0.per_slot_results
    unfolding execute_plan stored_in
    plan-Serves bp built ready =
        let jobs = jobs_of ids ops small bp built in
        let out : List Bytes = replicate (length ops) [] in
        let ran = run_jobs (working_pipe access) ids bp jobs out processes in
        let served =
          run_jobs-AllServed access laws ids ops small known bp built contents jobs out processes
            (jobs_of-Distinct ids ops small bp built) (jobs_of-own ids ops small bp built)
            (λ slot op f m. ready slot op f) in
        let (same, ok) = merge_all_lem ran.0 (result_of ran.1 (length bp.batches)) in
        let (success, no_error) = ok served.0 in
        (
          success,
          no_error,
          λ slot op f.
              ap (λ rs. get_or rs slot []) same
              ∙ served.2 slot op f (own_job ids ops small bp built slot op f) (
                  subst (λ n. slot < n) (sym (length-replicate (length ops) []))
                    (lt-length ops slot op f)),
        )

  empty-Serves :
      (batch_size : ℕ) (pad : Bool) (processes : Processes (Option S))
      → ((execute_oram_ops (working_pipe access) ids [] batch_size pad processes).0.success ≡ true)
        × ((execute_oram_ops (working_pipe access) ids [] batch_size pad processes).0.error_message
            ≡ none)
        × Serves
            (stored_in ids contents)
            []
            (execute_oram_ops
              (working_pipe access)
              ids
              []
              batch_size
              pad
              processes).0.per_slot_results
  unfolding execute_oram_ops
  empty-Serves batch_size pad processes = (refl, refl, λ slot op f. cc)

  -- If there are fewer than 2^32 operations, the batch size is not 0, every operation's key has a
  -- block on its server, and its server has a process whose ORAM keeps the laws, holds the
  -- contents and gets through what it is sent without an abort, then executeOramOps over pipes
  -- that do not break succeeds with no error, and its results answer each read by what was stored
  -- under its key before the call, whatever the same call writes, and each write by the empty
  -- string.
  pub execute_oram_ops-Serves :
      (ops : List Operat) (small : length ops < u32_mod) (batch_size : ℕ) (pad : Bool)
      (processes : Processes (Option S))
      → batch_size ≢ 0
      → Known ids ops small
      → Up ops batch_size pad processes
      → ((execute_oram_ops (working_pipe access) ids ops batch_size pad processes).0.success ≡ true)
        × ((execute_oram_ops (working_pipe access) ids ops batch_size pad processes).0.error_message
            ≡ none)
        × Serves
            (stored_in ids contents)
            ops
            (execute_oram_ops
              (working_pipe access)
              ids
              ops
              batch_size
              pad
              processes).0.per_slot_results
  execute_oram_ops-Serves [] small batch_size pad processes h known up =
      empty-Serves batch_size pad processes
  execute_oram_ops-Serves (op ∷ ops) small batch_size pad processes h known up =
      let bp = build_batches_from_oram_ops (op ∷ ops) batch_size pad in
      subst
        (λ (er : ExecutionResult × Processes (Option S)).
          (er.0.success ≡ true)
          × (er.0.error_message ≡ none)
          × Serves (stored_in ids contents) (op ∷ ops) er.0.per_slot_results)
        (sym (execute_oram_ops-plan (working_pipe access) ids op ops batch_size pad processes h))
        (plan-Serves (op ∷ ops) small known processes bp
          (build-Built (op ∷ ops) batch_size pad h small) up)
