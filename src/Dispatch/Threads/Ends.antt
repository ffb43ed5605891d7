-- ===== src/Dispatch/Threads/Ends.antt =====
-- The threads of executeOramOps under any schedule.
use de_part.Prelude.{
  ℕ, ◌<◌, ◌≡◌, refl, sym, ap, subst, ◌∙◌, inl, inr, ◌≢◌, Bool, List, [], ◌∷◌, ℤ, int_key, length,
  get_or, keep, keep-append, Member, Member-append_left, Member-append_right, All, Distinct, keys,
  u32_mod, replicate,
}
use de_part.Epoch.Types.{Operat}
use de_part.Batch.{BatchPlan, Groups, new_operat, build_batches_from_oram_ops}
use de_part.Batch.Order.{is_real, get_or-of_elem}
use de_part.Sending.{PkMap, Pipe, Processes}
use de_part.Dispatch.{ServerOutcome, run_jobs, merge_all, result_of, execute_plan, execute_oram_ops}
use de_part.Dispatch.Worker.{slots_of, slots_at}
use de_part.Dispatch.Carried.{Carries, own_batches, own_batches-Carries}
use de_part.Dispatch.Sent.{Built, own_real, slot-op, jobs_of, jobs_of-Distinct, jobs_of-own}
use de_part.Dispatch.Answered.{build-Built, execute_oram_ops-plan}
use de_part.Dispatch.Threads.{
  spawn, Shared, outcomes_of, AllJoined, run_schedule, threads_of, execute_scheduled,
}
use de_part.Dispatch.Threads.Commute.{Owns}
use de_part.Dispatch.Threads.Schedules.{
  servers, Apart, finish-run_schedule, finish-joined, finish-spawn,
}

servers-spawn : (jobs : Groups) → servers (spawn jobs) ≡ keys jobs
unfolding spawn
servers-spawn [] = refl
servers-spawn ((id, bs) ∷ jobs) = ap (λ l. id ∷ l) (servers-spawn jobs)

module _ {S : Type 0} (pipe : Pipe S) (ids : PkMap) (ops : List Operat)
    (small : length ops < u32_mod) (bp : BatchPlan) (built : Built ops bp) where
  -- the server of a slot's operation
  abbrev owner : ℕ → ℤ
  owner slot = (get_or ops slot new_operat).server_id

  Carries-Owns :
      (id : ℤ) (bs : List ℕ)
      → All (Carries ids ops id bp) bs
      → ((s : ℕ) → Member s (keep is_real (slots_of bp bs)) → owner s ≡ id)
      → All (Owns pipe ids bp owner id) bs
  unfolding slots_of
  Carries-Owns id [] c h = tt
  Carries-Owns id (b ∷ bs) c h =
      let split = keep-append is_real (slots_at bp b) (slots_of bp bs) in
      (
        record {
          server = c.0.0;
          slots = λ s m. h s (
              subst (λ l. Member s l) (sym split)
                (Member-append_left s (keep is_real (slots_at bp b)) _ m));
        },
        Carries-Owns id bs c.1 (λ s m. h s (
            subst (λ l. Member s l) (sym split)
              (Member-append_right s (keep is_real (slots_at bp b)) _ m))),
      )

  own-Owns : (id : ℤ) → All (Owns pipe ids bp owner id) (own_batches ids ops id bp)
  own-Owns id =
      Carries-Owns id (own_batches ids ops id bp)
        (own_batches-Carries ids ops id bp built.batch_size built.pad built.fits)
        (λ s m.
          let (op, f, own) =
            slot-op ids ops small id s
              (subst (λ l. Member s l) (own_real ids ops small bp built id) m) in
          ap (λ (o : Operat). o.server_id) (get_or-of_elem ops s op new_operat f) ∙ own)

  spawn-Apart :
      (jobs : Groups)
      → Distinct (keys jobs)
      → ((id : ℤ) (bs : List ℕ) → Member (id, bs) jobs → bs ≡ own_batches ids ops id bp)
      → Apart pipe ids bp owner (spawn jobs)
  unfolding spawn
  spawn-Apart [] d own = tt
  spawn-Apart ((id, bs) ∷ jobs) d own = (
    subst (All (Owns pipe ids bp owner id)) (sym (own id bs (inl refl))) (own-Owns id),
    subst (λ l. ¬ Member id l) (sym (servers-spawn jobs)) d.0,
    spawn-Apart jobs d.1 (λ j l m. own j l (inr m)),
  )

  joined_end :
      (ns : List ℕ) (s : Shared S)
      → AllJoined (run_schedule pipe ids bp ns (threads_of pipe ids bp) s).0
      → ◌≡◌ {A = (List ServerOutcome) × Shared S}
          (
            outcomes_of (run_schedule pipe ids bp ns (threads_of pipe ids bp) s).0,
            (run_schedule pipe ids bp ns (threads_of pipe ids bp) s).1,
          )
          (
            (run_jobs pipe ids bp (jobs_of ids ops small bp built) s.0 s.1).0,
            (
              (run_jobs pipe ids bp (jobs_of ids ops small bp built) s.0 s.1).1,
              (run_jobs pipe ids bp (jobs_of ids ops small bp built) s.0 s.1).2,
            ),
          )
  joined_end ns s joined =
      sym (finish-joined pipe ids bp owner _ _ joined)
      ∙ finish-run_schedule pipe ids bp owner ns (threads_of pipe ids bp) s (
          spawn-Apart (jobs_of ids ops small bp built) (jobs_of-Distinct ids ops small bp built)
            (jobs_of-own ids ops small bp built))
      ∙ finish-spawn pipe ids bp owner (jobs_of ids ops small bp built) s

-- For one to 2^32 - 1 operations and a batch size that is not 0, over any pipes, however the
-- scheduler picks which thread runs its next batch: once every thread has returned, the result and
-- the processes are those of executeOramOps with the threads run one after the other, errors
-- and the counts included.
pub execute_scheduled-serial :
    {S : Type 0} (pipe : Pipe S) (ids : PkMap) (ns : List ℕ) (op : Operat) (ops : List Operat)
    (batch_size : ℕ) (pad : Bool) (processes : Processes S)
    → length (op ∷ ops) < u32_mod
    → batch_size ≢ 0
    → AllJoined (execute_scheduled pipe ids ns (op ∷ ops) batch_size pad processes).0
    → execute_oram_ops pipe ids (op ∷ ops) batch_size pad processes ≡ (
      (execute_scheduled pipe ids ns (op ∷ ops) batch_size pad processes).1,
      (execute_scheduled pipe ids ns (op ∷ ops) batch_size pad processes).2,
    )
unfolding execute_scheduled execute_plan
execute_scheduled-serial {S = S} pipe ids ns op ops batch_size pad processes small h joined =
    let bp = build_batches_from_oram_ops (op ∷ ops) batch_size pad in
    execute_oram_ops-plan pipe ids op ops batch_size pad processes h
    ∙ sym (
        ap
          (λ (r : (List ServerOutcome) × Shared S).
            (merge_all r.0 (result_of r.1.0 (length bp.batches)), r.1.1))
          (joined_end pipe ids (op ∷ ops) small bp (build-Built (op ∷ ops) batch_size pad h small)
            ns (replicate (length (op ∷ ops)) [], processes) joined))
