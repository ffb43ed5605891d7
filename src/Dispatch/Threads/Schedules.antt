-- ===== src/Dispatch/Threads/Schedules.antt =====
-- Every schedule of the threads that lets them end has the same end.
use de_part.Prelude.{
  ℕ, zero, suc, ◌≡◌, refl, sym, ap, subst, ◌∙◌, inl, inr, Bool, true, false, List, [], ◌∷◌,
  if◌then◌else◌, ℤ, int_key, Member, All,
}
use de_part.Batch.{BatchPlan, Groups}
use de_part.Sending.{PkMap, Pipe}
use de_part.Dispatch.{ServerOutcome, new_outcome, Job, run_server, run_jobs}
use de_part.Dispatch.Threads.{
  Thread, spawn, Shared, job_of, shared_of, outcomes_of, AllJoined, batch_job, run_next, pick,
  run_schedule,
}
use de_part.Dispatch.Threads.Commute.{Owns, worker-batch}

abbrev pub servers : List Thread → List ℤ
servers [] = []
servers ((id, bs, oc) ∷ ts) = id ∷ servers ts

module _ {S : Type 0} (pipe : Pipe S) (ids : PkMap) (bp : BatchPlan) (owner : ℕ → ℤ) where
  -- The threads work for different servers, each on what belongs to its own.
  abbrev pub Apart : List Thread → Type 0
  Apart [] = Unit
  Apart ((id, bs, oc) ∷ ts) =
      All (Owns pipe ids bp owner id) bs × (¬ Member id (servers ts)) × Apart ts

  -- The threads that are left, one after the other.
  pub finish : List Thread → Shared S → (List ServerOutcome) × Shared S
  finish [] s = ([], s)
  finish ((id, bs, oc) ∷ ts) s =
      let job = run_server pipe ids bp bs (job_of oc s) in
      let later = finish ts (shared_of job) in (job.outcome ∷ later.0, later.1)

  servers-pick :
      (n : ℕ) (ts : List Thread) (s : Shared S) → servers (pick pipe ids bp n ts s).0 ≡ servers ts
  unfolding pick run_next
  servers-pick n [] s = refl
  servers-pick zero ((id, [], oc) ∷ ts) s = refl
  servers-pick zero ((id, b ∷ bs, oc) ∷ ts) s = refl
  servers-pick (suc n) ((id, bs, oc) ∷ ts) s = ap (λ l. id ∷ l) (servers-pick n ts s)

  All-if :
      {A : Type 0} (P : A → Type 0) (ok : Bool) (xs : List A)
      → All P xs
      → All P (if ok then xs else [])
  All-if P true xs h = h
  All-if P false xs h = tt

  pick-Apart :
      (n : ℕ) (ts : List Thread) (s : Shared S) → Apart ts → Apart (pick pipe ids bp n ts s).0
  unfolding pick run_next
  pick-Apart n [] s a = tt
  pick-Apart zero ((id, [], oc) ∷ ts) s a = a
  pick-Apart zero ((id, b ∷ bs, oc) ∷ ts) s a = (
    All-if (Owns pipe ids bp owner id) (batch_job pipe ids bp b oc s).outcome.ok bs a.0.1,
    a.1,
    a.2,
  )
  pick-Apart (suc n) ((id, bs, oc) ∷ ts) s a =
      (a.0, subst (λ l. ¬ Member id l) (sym (servers-pick n ts s)) a.1, pick-Apart n ts s a.2)

  -- A worker and a step of the threads of other servers commute.
  pick-worker :
      (n : ℕ) (id : ℤ) (bs : List ℕ) (oc : ServerOutcome) (ts : List Thread) (s : Shared S)
      → All (Owns pipe ids bp owner id) bs
      → (¬ Member id (servers ts))
      → Apart ts
      → ((run_server pipe ids bp bs (job_of oc (pick pipe ids bp n ts s).1)).outcome
          ≡ (run_server pipe ids bp bs (job_of oc s)).outcome)
        × (shared_of (run_server pipe ids bp bs (job_of oc (pick pipe ids bp n ts s).1))
            ≡ (pick pipe ids bp n ts (shared_of (run_server pipe ids bp bs (job_of oc s)))).1)
        × ((pick pipe ids bp n ts (shared_of (run_server pipe ids bp bs (job_of oc s)))).0
            ≡ (pick pipe ids bp n ts s).0)
  unfolding pick run_next
  pick-worker n id bs oc [] s own h a = (refl, refl, refl)
  pick-worker zero id bs oc ((j, [], oc') ∷ ts) s own h a = (refl, refl, refl)
  pick-worker zero id bs oc ((j, c ∷ cs, oc') ∷ ts) s own h a =
      let past = worker-batch pipe ids bp owner id j bs c oc oc' s (λ e. h (inl e)) own a.0.0 in
      (past.0, past.1, ap (λ (o : ServerOutcome). (j, (if o.ok then cs else []), o) ∷ ts) past.2)
  pick-worker (suc n) id bs oc (t ∷ ts) s own h a =
      let later = pick-worker n id bs oc ts s own (λ m. h (inr m)) a.2 in
      (later.0, later.1, ap (λ l. t ∷ l) later.2)

  work-if :
      (ok : Bool) (bs : List ℕ) (job : Job S)
      → run_server pipe ids bp (if ok then bs else []) job
        ≡ (if ok then run_server pipe ids bp bs job else job)
  unfolding run_server
  work-if true bs job = refl
  work-if false bs job = refl

  -- A step changes nothing of the end.
  finish-pick :
      (n : ℕ) (ts : List Thread) (s : Shared S)
      → Apart ts
      → finish (pick pipe ids bp n ts s).0 (pick pipe ids bp n ts s).1 ≡ finish ts s
  unfolding finish pick run_next run_server
  finish-pick n [] s a = refl
  finish-pick zero ((id, [], oc) ∷ ts) s a = refl
  finish-pick zero ((id, b ∷ bs, oc) ∷ ts) s a =
      let job = batch_job pipe ids bp b oc s in
      ap (λ (r : Job S). (r.outcome ∷ (finish ts (shared_of r)).0, (finish ts (shared_of r)).1))
        (work-if job.outcome.ok bs job)
  finish-pick (suc n) ((id, bs, oc) ∷ ts) s a =
      let now = shared_of (run_server pipe ids bp bs (job_of oc s)) in
      let swap = pick-worker n id bs oc ts s a.0 a.1 a.2 in
      (λ t. (swap.0 t ∷ (finish (sym swap.2 t) (swap.1 t)).0, (finish (sym swap.2 t) (swap.1 t)).1))
      ∙ ap
          (λ (r : (List ServerOutcome) × Shared S).
            ((run_server pipe ids bp bs (job_of oc s)).outcome ∷ r.0, r.1))
          (finish-pick n ts now a.2)

  pub finish-run_schedule :
      (ns : List ℕ) (ts : List Thread) (s : Shared S)
      → Apart ts
      → finish (run_schedule pipe ids bp ns ts s).0 (run_schedule pipe ids bp ns ts s).1
        ≡ finish ts s
  unfolding run_schedule
  finish-run_schedule [] ts s a = refl
  finish-run_schedule (n ∷ ns) ts s a =
      finish-run_schedule ns (pick pipe ids bp n ts s).0 (pick pipe ids bp n ts s).1
        (pick-Apart n ts s a)
      ∙ finish-pick n ts s a

  pub finish-joined :
      (ts : List Thread) (s : Shared S) → AllJoined ts → finish ts s ≡ (outcomes_of ts, s)
  unfolding finish run_server
  finish-joined [] s j = refl
  finish-joined ((id, [], oc) ∷ ts) s j =
      ap (λ (r : (List ServerOutcome) × Shared S). (oc ∷ r.0, r.1)) (finish-joined ts s j.1)
  finish-joined ((id, b ∷ bs, oc) ∷ ts) s j = cc (j.0)

  pub finish-spawn :
      (jobs : Groups) (s : Shared S)
      → finish (spawn jobs) s ≡ (
        (run_jobs pipe ids bp jobs s.0 s.1).0,
        ((run_jobs pipe ids bp jobs s.0 s.1).1, (run_jobs pipe ids bp jobs s.0 s.1).2),
      )
  unfolding finish spawn run_jobs
  finish-spawn [] s = refl
  finish-spawn ((id, bs) ∷ jobs) s =
      let job = run_server pipe ids bp bs (job_of new_outcome s) in
      ap (λ (r : (List ServerOutcome) × Shared S). (job.outcome ∷ r.0, r.1))
        (finish-spawn jobs (shared_of job))
