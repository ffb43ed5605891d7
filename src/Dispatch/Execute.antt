-- ===== src/Dispatch/Execute.antt =====
-- executeOramOps over pipes that work: all servers' jobs, and the whole call.
use de_part.Prelude.{
  ℕ, ◌≤◌, ◌<◌, ◌≡◌, refl, sym, ap, subst, ◌∙◌, inl, inr, ◌⊎◌, true, List, [], ◌∷◌, Option, some,
  arith, ℤ, int_key, Bytes, length, get_elem?, get_or, keep, keep-append, Distinct, All, Member,
  Member-append_left, u32_mod, lookup, keys,
}
use de_part.Epoch.Types.{Operat}
use de_part.Batch.{BatchPlan, Groups}
use de_part.Batch.Order.{is_real}
use de_part.Sending.{PkMap, Access, working_pipe, Processes}
use de_part.Dispatch.{ServerOutcome, new_outcome, Job, run_server, run_jobs}
use de_part.Dispatch.Child.{OramLaws, Runs}
use de_part.Dispatch.Worker.{ops_of, slots_of, slots_at, run_server-Ran}
use de_part.Dispatch.Carried.{own_batches, own_batches-Carries, own_batches-real, Carries-Mine}
use de_part.Dispatch.Sent.{Known, slot-op, Built, own_real, own_none}
use de_part.Dispatch.Serves.{expected, Served, Served-of_Ran}

first_of : {A : Type 0} (xs : List A) → 1 ≤ length xs → (x : A) × Member x xs
first_of [] h = absurd (omega arith)
first_of (x ∷ xs) h = (x, inl refl)

List-cases : {A : Type 0} (xs : List A) → (xs ≡ []) ⊎ ((x : A) × (ys : List A) × (xs ≡ x ∷ ys))
List-cases [] = inl refl
List-cases (x ∷ xs) = inr (x, xs, refl)

module _ {S : Type 0} (access : Access S) (laws : OramLaws access) (ids : PkMap) (ops : List Operat)
    (small : length ops < u32_mod) (known : Known ids ops small) (bp : BatchPlan)
    (built : Built ops bp) (contents : ℤ → ℕ → Bytes) where
  -- The server has a process whose ORAM holds the contents.
  abbrev pub Ready : Processes (Option S) → ℤ → Type 0
  Ready processes id =
      (s : S) × (lookup id processes ≡ some (some s))
      × laws.Holds (contents id) s
      × Runs access (ops_of bp ids id (own_batches ids ops id bp)) s

  -- Every server that an operation names is ready.
  abbrev pub AllReady : Processes (Option S) → Type 0
  AllReady processes =
      (slot : ℕ) (op : Operat) → get_elem? ops slot ≡ some op → Ready processes op.server_id

  start_job : List Bytes → Processes (Option S) → Job (Option S)
  start_job out processes = record {
    outcome = new_outcome;
    per_slot_results = out;
    processes = processes;
  }

  own-Ready :
      (id : ℤ) (b : ℕ) (bs : List ℕ) (processes : Processes (Option S))
      → ((slot : ℕ) (op : Operat)
          → get_elem? ops slot ≡ some op
          → op.server_id ≡ id
          → Ready processes id)
      → own_batches ids ops id bp ≡ b ∷ bs
      → Ready processes id
  unfolding slots_of start_job
  own-Ready id b bs processes ready e =
      let some_real =
        subst (All (λ k. 1 ≤ length (keep is_real (slots_at bp k)))) e
          (own_batches-real ids ops id bp built.batch_size built.pad built.fits) in
      let (slot, m) = first_of (keep is_real (slots_at bp b)) some_real.0 in
      let there : Member slot (keep is_real (slots_of bp (b ∷ bs))) =
        subst (λ l. Member slot l) (sym (keep-append is_real (slots_at bp b) (slots_of bp bs)))
          (Member-append_left slot (keep is_real (slots_at bp b)) _ m) in
      let (op, f, own) = slot-op ids ops small id slot (
        subst (λ l. Member slot l)
          (ap (λ l. keep is_real (slots_of bp l)) (sym e) ∙ own_real ids ops small bp built id)
          there) in
      ready slot op f own

  server-Served :
      (id : ℤ) (out : List Bytes) (processes : Processes (Option S))
      → ((slot : ℕ) (op : Operat)
          → get_elem? ops slot ≡ some op
          → op.server_id ≡ id
          → Ready processes id)
      → Served access laws ids ops small known bp built contents id (start_job out processes) (
          run_server
            (working_pipe access)
            ids
            bp
            (own_batches ids ops id bp)
            (start_job out processes))
  unfolding start_job run_server
  server-Served id out processes ready = elim (List-cases (own_batches ids ops id bp)) [
    | inr (b, bs, e) ↦
        let (s, found, good, runs) = own-Ready id b bs processes ready e in
        Served-of_Ran access laws ids ops small known bp built contents id s
          (start_job out processes)
          (run_server (working_pipe access) ids bp (own_batches ids ops id bp)
            (start_job out processes))
          good runs
          (run_server-Ran access ids bp id (own_batches ids ops id bp) (start_job out processes) s
            refl
            (Carries-Mine ids ops id bp (own_batches ids ops id bp)
              (own_batches-Carries ids ops id bp built.batch_size built.pad built.fits))
            found runs)
    | inl e ↦ rw e (
      refl,
      refl,
      λ slot op f other. refl,
      λ slot op f own below. absurd (own_none ids ops small bp built id slot op e f own),
      λ j h. refl,
    )
  ]

  -- All the jobs of a list, run on processes that are ready.
  abbrev AllServed : List ℤ → List Bytes → List ServerOutcome → List Bytes → Type 0
  AllServed servers before outcomes now =
      All (λ (oc : ServerOutcome). oc.ok ≡ true) outcomes
      × ((slot : ℕ) (op : Operat)
          → get_elem? ops slot ≡ some op
          → (¬ Member op.server_id servers)
          → get_or now slot [] ≡ get_or before slot [])
      × ((slot : ℕ) (op : Operat)
          → get_elem? ops slot ≡ some op
          → Member op.server_id servers
          → slot < length before
          → get_or now slot [] ≡ expected ids contents op)

  pub run_jobs-AllServed :
      (jobs : Groups) (out : List Bytes) (processes : Processes (Option S))
      → Distinct (keys jobs)
      → ((id : ℤ) (bs : List ℕ) → Member (id, bs) jobs → bs ≡ own_batches ids ops id bp)
      → ((slot : ℕ) (op : Operat)
          → get_elem? ops slot ≡ some op
          → Member op.server_id (keys jobs)
          → Ready processes op.server_id)
      → AllServed
          (keys jobs)
          out
          (run_jobs (working_pipe access) ids bp jobs out processes).0
          (run_jobs (working_pipe access) ids bp jobs out processes).1
  unfolding run_jobs start_job
  run_jobs-AllServed [] out processes d own ready =
      (tt, λ slot op f other. refl, λ slot op f m below. absurd m)
  run_jobs-AllServed ((id, bs) ∷ jobs) out processes d own ready =
      let job = run_server (working_pipe access) ids bp bs (start_job out processes) in
      let now : Served access laws ids ops small known bp built contents id
          (start_job out processes) job =
        subst
          (λ l.
            Served access laws ids ops small known bp built contents id (start_job out processes)
              (run_server (working_pipe access) ids bp l (start_job out processes)))
          (sym (own id bs (inl refl)))
          (server-Served id out processes
            (λ slot op f e. subst (Ready processes) e (ready slot op f (inl e)))) in
      let later =
        run_jobs-AllServed jobs job.per_slot_results job.processes d.1 (λ j l m. own j l (inr m))
          (λ slot op f m.
            let (s, found, good, runs) = ready slot op f (inr m) in
            (
              s,
              now.4 op.server_id (λ e. d.0 (subst (λ k. Member k (keys jobs)) (sym e) m)) ∙ found,
              good,
              runs,
            )) in
      (
        (now.0, later.0),
        λ slot op f other.
            later.1 slot op f (λ m. other (inr m)) ∙ now.2 slot op f (λ e. other (inl e)),
        λ slot op f m below. elim m [
          | inl e ↦
              later.1 slot op f (λ n. d.0 (subst (λ k. Member k (keys jobs)) e n))
              ∙ now.3 slot op f e below
          | inr n ↦ later.2 slot op f n (subst (λ k. slot < k) (sym now.1) below)
        ],
      )
