-- ===== src/Dispatch/Missing.antt =====
-- executeOramOps where a server has no process.
use de_part.Prelude.{
  ℕ, suc, ◌≤◌, ◌<◌, ◌≡◌, refl, sym, ap, subst, ◌∙◌, ◌≢◌, inl, inr, ◌⊎◌, Bool, true, false, List, [],
  ◌∷◌, Option, none, some, arith, ◌==◌, Bool-cases, ℤ, int_key, Bytes, length, replicate, get_elem?,
  keep, length-keep-not, lookup, keys, Member, Distinct, All, u32_mod,
}
use de_part.Epoch.Types.{Operat, ExecutionError, ExecutionResult}
use de_part.Batch.{BatchInfo, BatchPlan, Groups, build_batches_from_oram_ops}
use de_part.Sending.{PkMap, Pipe, Processes, send_batch_to_server}
use de_part.Sending.{send_known}
use de_part.Dispatch.{
  ServerOutcome, new_outcome, Job, translate_all, settle, run_batch, run_server, run_jobs, or_first,
  merge, merge_all, result_of, execute_plan, execute_oram_ops,
}
use de_part.Dispatch.Answered.{execute_oram_ops-plan, build-Built}
use de_part.Dispatch.Worker.{Mine, batch_at, slots_at}
use de_part.Batch.Order.{is_real}
use de_part.Dispatch.Carried.{
  own_batches, own_batches-Carries, own_batches-real, Carries, Carries-Mine,
}
use de_part.Dispatch.Sent.{Built, own_none, jobs_of, jobs_of-Distinct, jobs_of-own, own_job}
use de_part.Dispatch.Errors.{batch_step, run_server-keeps, run_batch-frame}

-- A failed outcome says why.
abbrev Failed : ServerOutcome → Type 0
Failed oc = (oc.ok ≡ false) × (oc.error_message ≢ none)

or_first-some : (a b : Option ExecutionError) → (a ≢ none) ⊎ (b ≢ none) → or_first a b ≢ none
or_first-some none b (inl h) = absurd (h refl)
or_first-some none b (inr h) = h
or_first-some (some e) b h = cc

abbrev Bad : ExecutionResult → Type 0
Bad er = (er.success ≡ false) × (er.error_message ≢ none)

merge-keeps : (oc : ServerOutcome) (er : ExecutionResult) → Bad er → Bad (merge oc er)
unfolding merge
merge-keeps oc er (s, e) = elim (Bool-cases oc.ok) [
  | inl f ↦ rw f (s, e)
  | inr f ↦ rw f (refl, or_first-some er.error_message oc.error_message (inl e))
]

merge-fails : (oc : ServerOutcome) (er : ExecutionResult) → Failed oc → Bad (merge oc er)
unfolding merge
merge-fails oc er (f, e) = rw f (refl, or_first-some er.error_message oc.error_message (inr e))

merge_all-keeps :
    (ocs : List ServerOutcome) (er : ExecutionResult) → Bad er → Bad (merge_all ocs er)
unfolding merge_all
merge_all-keeps [] er b = b
merge_all-keeps (oc ∷ ocs) er b = merge_all-keeps ocs (merge oc er) (merge-keeps oc er b)

merge_all-fails :
    (ocs : List ServerOutcome) (er : ExecutionResult) (bad : ServerOutcome)
    → Member bad ocs
    → Failed bad
    → Bad (merge_all ocs er)
unfolding merge_all
merge_all-fails [] er bad m f = absurd m
merge_all-fails (oc ∷ ocs) er bad (inl e) f =
    merge_all-keeps ocs (merge oc er) (merge-fails oc er (subst Failed e f))
merge_all-fails (oc ∷ ocs) er bad (inr m) f = merge_all-fails ocs (merge oc er) bad m f

All-map :
    {A : Type 0} {P Q : A → Type 0} (xs : List A) → ((x : A) → P x → Q x) → All P xs → All Q xs
All-map [] h a = tt
All-map (x ∷ xs) h a = (h x a.0, All-map xs h a.1)

length-translate_all :
    (ids : PkMap) (id : ℤ) (ops : List Operat) → length (translate_all ids id ops) ≡ length ops
unfolding translate_all
length-translate_all ids id [] = refl
length-translate_all ids id (op ∷ ops) = ap suc (length-translate_all ids id ops)

module _ {S : Type 0} (pipe : Pipe S) (ids : PkMap) where
  send-missing :
      (id : ℤ) (ops : List Operat) (processes : Processes S)
      → 1 ≤ length ops
      → lookup id processes ≡ none
      → (send_batch_to_server pipe id ops processes).0.success ≡ false
  unfolding send_batch_to_server send_known
  send-missing id [] processes h e = absurd (omega arith)
  send-missing id (op ∷ ops) processes h e =
      ap (λ (o : Option S). (send_known pipe id (op ∷ ops) processes o).0.success) e

  run_batch-missing :
      (b : ℕ) (bi : BatchInfo) (slots : List ℕ) (job : Job S)
      → length slots ≡ length bi.operations
      → 1 ≤ length bi.operations
      → lookup bi.server_id job.processes ≡ none
      → Failed (run_batch pipe ids b bi slots job).outcome
  unfolding run_batch settle
  run_batch-missing b bi slots job same h e =
      let ops = translate_all ids bi.server_id bi.operations in
      let equal : (length slots == length bi.operations) ≡ true = ground arith in
      let fails =
        send-missing bi.server_id ops job.processes
          (omega (arith, length-translate_all ids bi.server_id bi.operations)) e in
      rw (equal, fails) (refl, λ n. cc)

  module _ (ops : List Operat) (small : length ops < u32_mod) (bp : BatchPlan)
      (built : Built ops bp) where
    own_first :
        (id : ℤ) (b : ℕ) (bs : List ℕ)
        → own_batches ids ops id bp ≡ b ∷ bs
        → ((batch_at bp b).server_id ≡ id)
          × (length (slots_at bp b) ≡ length (batch_at bp b).operations)
          × (1 ≤ length (batch_at bp b).operations)
    own_first id b bs e =
        let own = own_batches-Carries ids ops id bp built.batch_size built.pad built.fits in
        let carries = subst (All (Carries ids ops id bp)) e own in
        let mine =
          subst (All (Mine bp id)) e (Carries-Mine ids ops id bp (own_batches ids ops id bp) own) in
        let real =
          subst (All (λ k. 1 ≤ length (keep is_real (slots_at bp k)))) e
            (own_batches-real ids ops id bp built.batch_size built.pad built.fits) in
        (
          carries.0.0,
          mine.0.1,
          omega (arith, mine.0.1, real.0, length-keep-not is_real (slots_at bp b)),
        )

    server-missing :
        (id : ℤ) (bs : List ℕ) (job : Job S)
        → bs ≡ own_batches ids ops id bp
        → (slot : ℕ) (op : Operat) → get_elem? ops slot ≡ some op
        → op.server_id ≡ id
        → lookup id job.processes ≡ none
        → Failed (run_server pipe ids bp bs job).outcome
    unfolding run_server
    server-missing id [] job own slot op f e h =
        absurd (own_none ids ops small bp built id slot op (sym own) f e)
    server-missing id (b ∷ bs) job own slot op f e h =
        let (mine, same, full) = own_first id b bs (sym own) in
        let bad =
          run_batch-missing b (batch_at bp b) (slots_at bp b) job same full
            (subst (λ k. lookup k job.processes ≡ none) (sym mine) h) in
        rw bad.0 bad

    -- Other servers' jobs leave a missing process missing.
    server-keeps_missing :
        (j id : ℤ) (job : Job S)
        → j ≢ id
        → lookup id (run_server pipe ids bp (own_batches ids ops j bp) job).processes
          ≡ lookup id job.processes
    unfolding batch_step
    server-keeps_missing j id job h =
        run_server-keeps pipe ids bp (λ a b. lookup id b.processes ≡ lookup id a.processes)
          (λ a. refl) (λ a b c p q. q ∙ p) (own_batches ids ops j bp) job
          (All-map (own_batches ids ops j bp)
            (λ b carries a.
              run_batch-frame pipe ids b (batch_at bp b) (slots_at bp b) a id
                (λ e. h (sym carries.0 ∙ e)))
            (own_batches-Carries ids ops j bp built.batch_size built.pad built.fits))

    run_jobs-missing :
        (jobs : Groups) (out : List Bytes) (processes : Processes S) (slot : ℕ) (op : Operat)
        → Distinct (keys jobs)
        → ((id : ℤ) (bs : List ℕ) → Member (id, bs) jobs → bs ≡ own_batches ids ops id bp)
        → get_elem? ops slot ≡ some op
        → Member op.server_id (keys jobs)
        → lookup op.server_id processes ≡ none
        → (bad : ServerOutcome) × Member bad (run_jobs pipe ids bp jobs out processes).0
          × Failed bad
    unfolding run_jobs
    run_jobs-missing [] out processes slot op d own f m h = absurd m
    run_jobs-missing ((id, bs) ∷ jobs) out processes slot op d own f (inl e) h =
        let start : Job S = record {
          outcome = new_outcome;
          per_slot_results = out;
          processes = processes;
        } in
        (
          (run_server pipe ids bp bs start).outcome,
          inl refl,
          server-missing id bs start (own id bs (inl refl)) slot op f e
              (subst (λ k. lookup k processes ≡ none) e h),
        )
    run_jobs-missing ((id, bs) ∷ jobs) out processes slot op d own f (inr m) h =
        let start : Job S = record {
          outcome = new_outcome;
          per_slot_results = out;
          processes = processes;
        } in
        let job = run_server pipe ids bp bs start in
        let kept : lookup op.server_id job.processes ≡ none =
          ap (λ l. lookup op.server_id (run_server pipe ids bp l start).processes)
            (own id bs (inl refl))
          ∙ server-keeps_missing id op.server_id start
              (λ e. d.0 (subst (λ k. Member k (keys jobs)) (sym e) m))
          ∙ h in
        let (bad, n, failed) =
          run_jobs-missing jobs job.per_slot_results job.processes slot op d.1
            (λ j l q. own j l (inr q)) f m kept in
        (bad, inr n, failed)

  -- If an operation names a server that has no process, then for fewer than 2^32 operations and a
  -- batch size that is not 0, over any pipe, executeOramOps does not succeed and says why.
  pub execute_oram_ops-missing :
      (ops : List Operat) (batch_size : ℕ) (pad : Bool) (processes : Processes S) (slot : ℕ)
      (op : Operat)
      → length ops < u32_mod
      → batch_size ≢ 0
      → get_elem? ops slot ≡ some op
      → lookup op.server_id processes ≡ none
      → ((execute_oram_ops pipe ids ops batch_size pad processes).0.success ≡ false)
        × ((execute_oram_ops pipe ids ops batch_size pad processes).0.error_message ≢ none)
  unfolding execute_plan
  execute_oram_ops-missing [] batch_size pad processes slot op small h f e = cc
  execute_oram_ops-missing (o ∷ ops) batch_size pad processes slot op small h f e =
      let bp = build_batches_from_oram_ops (o ∷ ops) batch_size pad in
      let built = build-Built (o ∷ ops) batch_size pad h small in
      let out : List Bytes = replicate (length (o ∷ ops)) [] in
      let jobs = jobs_of ids (o ∷ ops) small bp built in
      let (bad, m, failed) =
        run_jobs-missing (o ∷ ops) small bp built jobs out processes slot op
          (jobs_of-Distinct ids (o ∷ ops) small bp built) (jobs_of-own ids (o ∷ ops) small bp built)
          f (own_job ids (o ∷ ops) small bp built slot op f) e in
      subst (λ (er : ExecutionResult × Processes S). Bad er.0)
        (sym (execute_oram_ops-plan pipe ids o ops batch_size pad processes h))
        (merge_all-fails (run_jobs pipe ids bp jobs out processes).0
          (result_of (run_jobs pipe ids bp jobs out processes).1 (length bp.batches)) bad m failed)
