-- ===== src/Dispatch/Threads/Commute.antt =====
-- Batches of different servers commute, and so do a worker and the batches of other servers.
use de_part.Prelude.{
  ℕ, zero, suc, ◌≡◌, refl, sym, ap, subst, ◌∙◌, inl, inr, ◌≢◌, Bool, true, false, not, List, [],
  ◌∷◌, Option, none, ◌==◌, if◌then◌else◌, Bool-cases, ℤ, int_key, Bytes, lookup, get_or, set, keep,
  Member, All,
}
use de_part.Batch.{BatchPlan, slot_dummy}
use de_part.Batch.Order.{is_real}
use de_part.Sending.{PkMap, Pipe}
use de_part.Dispatch.{ServerOutcome, Job, no_batch, place_results, run_server}
use de_part.Dispatch.Threads.{Shared, job_of, shared_of, batch_job}
use de_part.Dispatch.Threads.Effect.{
  put-other, put-put, Effect, effect, apply, run_batch-effect, effect-none, effect_slots,
}

set-set :
    {A : Type 0} (xs : List A) (i j : ℕ) (a b : A)
    → i ≢ j
    → set (set xs i a) j b ≡ set (set xs j b) i a
set-set [] i j a b h = refl
set-set (x ∷ xs) zero zero a b h = absurd (h refl)
set-set (x ∷ xs) zero (suc j) a b h = refl
set-set (x ∷ xs) (suc i) zero a b h = refl
set-set (x ∷ xs) (suc i) (suc j) a b h = ap (λ l. x ∷ l) (set-set xs i j a b (λ e. h (ap suc e)))

set-place :
    (s : ℕ) (r : Bytes) (m : List ℕ) (rs out : List Bytes)
    → (¬ Member s (keep is_real m))
    → set (place_results m rs out) s r ≡ place_results m rs (set out s r)
unfolding place_results
set-place s r [] rs out h = refl
set-place s r (k ∷ m) [] out h = refl
set-place s r (k ∷ m) (q ∷ rs) out h = elim (Bool-cases (k == slot_dummy)) [
  | inl d ↦ rw d (
      set-place s r m rs out
        (subst (λ b. ¬ Member s (if not b then k ∷ keep is_real m else keep is_real m)) d h))
  | inr d ↦
      let h' = subst (λ b. ¬ Member s (if not b then k ∷ keep is_real m else keep is_real m)) d h in
      rw d (
        set-place s r m rs (set out k q) (λ n. h' (inr n))
        ∙ ap (λ l. place_results m rs l) (set-set out k s q r (λ e. h' (inl (sym e)))))
]

-- Answers at different slots are placed in any order.
place-place :
    (m : List ℕ) (rs : List Bytes) (n : List ℕ) (qs out : List Bytes)
    → ((s : ℕ) → Member s (keep is_real m) → ¬ Member s (keep is_real n))
    → place_results m rs (place_results n qs out) ≡ place_results n qs (place_results m rs out)
unfolding place_results
place-place [] rs n qs out h = refl
place-place (k ∷ m) [] n qs out h = refl
place-place (k ∷ m) (r ∷ rs) n qs out h = elim (Bool-cases (k == slot_dummy)) [
  | inl d ↦ rw d (
      place-place m rs n qs out (λ s mem.
        h s (
          subst (λ b. Member s (if not b then k ∷ keep is_real m else keep is_real m)) (sym d)
            mem)))
  | inr d ↦
      let h' = λ (s : ℕ) (mem : Member s (k ∷ keep is_real m)). h s (
        subst (λ b. Member s (if not b then k ∷ keep is_real m else keep is_real m)) (sym d) mem) in
      rw d (
        ap (λ l. place_results m rs l) (set-place k r n qs out (h' k (inl refl)))
        ∙ place-place m rs n qs (set out k r) (λ s mem. h' s (inr mem)))
]

module _ {S : Type 0} (pipe : Pipe S) (ids : PkMap) (bp : BatchPlan) (owner : ℕ → ℤ) where
  -- The batch goes to the server, and so do the operations at its slots.
  pub record Owns (id : ℤ) (b : ℕ) : Type 0 where
    pub server : (get_or bp.batches b no_batch).server_id ≡ id
    pub slots :
        (s : ℕ) → Member s (keep is_real (get_or bp.per_batch_op_to_slot b [])) → owner s ≡ id

  -- the effect of a batch on its process
  abbrev of_batch : ℕ → ServerOutcome → Option S → Effect pipe
  of_batch b oc o =
      effect pipe ids b (get_or bp.batches b no_batch) (get_or bp.per_batch_op_to_slot b []) oc o

  abbrev did : ℤ → ℕ → ServerOutcome → Shared S → Effect pipe
  did id b oc s = of_batch b oc (lookup id s.1)

  batch_job-did :
      (id : ℤ) (b : ℕ) (oc : ServerOutcome) (s : Shared S)
      → Owns id b
      → batch_job pipe ids bp b oc s ≡ apply pipe id (did id b oc s) s
  batch_job-did id b oc s mine =
      subst (λ i. batch_job pipe ids bp b oc s ≡ apply pipe i (did i b oc s) s) mine.server
        (run_batch-effect pipe ids b (get_or bp.batches b no_batch)
          (get_or bp.per_batch_op_to_slot b []) oc s)

  did_slots :
      (id : ℤ) (b : ℕ) (oc : ServerOutcome) (o : Option S)
      → Owns id b
      → (s : ℕ) → Member s (keep is_real (of_batch b oc o).1)
      → owner s ≡ id
  did_slots id b oc o mine s mem =
      elim (effect_slots pipe ids b (get_or bp.batches b no_batch)
        (get_or bp.per_batch_op_to_slot b []) oc o) [
          | inl e ↦ mine.slots s (subst (λ m. Member s (keep is_real m)) e mem)
          | inr e ↦ absurd (subst (λ m. Member s (keep is_real m)) e mem)
        ]

  -- Two batches one after the other: the outcomes of both, and what is shared in the end.
  abbrev Both : Type 0
  Both = ServerOutcome × ServerOutcome × Shared S

  apply-apply :
      (i j : ℤ) (e f : Effect pipe) (s : Shared S)
      → i ≢ j
      → ((k : ℕ) → Member k (keep is_real e.1) → owner k ≡ i)
      → ((k : ℕ) → Member k (keep is_real f.1) → owner k ≡ j)
      → (lookup i s.1 ≡ none → e.3 ≡ none)
      → (lookup j s.1 ≡ none → f.3 ≡ none)
      → shared_of (apply pipe i e (shared_of (apply pipe j f s)))
        ≡ shared_of (apply pipe j f (shared_of (apply pipe i e s)))
  apply-apply i j e f s h mine_i mine_j here_i here_j = λ t. (
    place-place e.1 e.2 f.1 f.2 s.0 (λ k m n. h (sym (mine_i k m) ∙ mine_j k n)) t,
    put-put i j e.3 f.3 s.1 h here_i here_j t,
  )

  did-none :
      (id : ℤ) (b : ℕ) (oc : ServerOutcome) (s : Shared S)
      → lookup id s.1 ≡ none
      → (did id b oc s).3 ≡ none
  did-none id b oc s e =
      ap (λ o. (of_batch b oc o).3) e
      ∙ effect-none pipe ids b (get_or bp.batches b no_batch) (get_or bp.per_batch_op_to_slot b [])
          oc

  -- Batches of different servers commute.
  batch-batch :
      (i j : ℤ) (b c : ℕ) (oc oc' : ServerOutcome) (s : Shared S)
      → i ≢ j
      → Owns i b
      → Owns j c
      → (((batch_job pipe ids bp b oc (shared_of (batch_job pipe ids bp c oc' s))).outcome
            ≡ (batch_job pipe ids bp b oc s).outcome)
          × (shared_of (batch_job pipe ids bp b oc (shared_of (batch_job pipe ids bp c oc' s)))
              ≡ shared_of (batch_job pipe ids bp c oc' (shared_of (batch_job pipe ids bp b oc s)))))
  batch-batch i j b c oc oc' s h mine_b mine_c =
      let e = did i b oc s in
      let f = did j c oc' s in
      let after_c : batch_job pipe ids bp c oc' s ≡ apply pipe j f s =
        batch_job-did j c oc' s mine_c in
      let after_b : batch_job pipe ids bp b oc s ≡ apply pipe i e s =
        batch_job-did i b oc s mine_b in
      let b_last : batch_job pipe ids bp b oc (shared_of (batch_job pipe ids bp c oc' s))
          ≡ apply pipe i e (shared_of (apply pipe j f s)) =
        ap (λ r. batch_job pipe ids bp b oc (shared_of r)) after_c
        ∙ batch_job-did i b oc (shared_of (apply pipe j f s)) mine_b
        ∙ ap (λ o. apply pipe i (of_batch b oc o) (shared_of (apply pipe j f s)))
            (put-other j i f.3 s.1 (λ q. h (sym q))) in
      let c_last : batch_job pipe ids bp c oc' (shared_of (batch_job pipe ids bp b oc s))
          ≡ apply pipe j f (shared_of (apply pipe i e s)) =
        ap (λ r. batch_job pipe ids bp c oc' (shared_of r)) after_b
        ∙ batch_job-did j c oc' (shared_of (apply pipe i e s)) mine_c
        ∙ ap (λ o. apply pipe j (of_batch c oc' o) (shared_of (apply pipe i e s)))
            (put-other i j e.3 s.1 h) in
      (
        ap (λ (r : Job S). r.outcome) b_last ∙ sym (ap (λ (r : Job S). r.outcome) after_b),
        ap (λ r. shared_of r) b_last
            ∙ apply-apply i j e f s h (did_slots i b oc (lookup i s.1) mine_b)
                (did_slots j c oc' (lookup j s.1) mine_c) (did-none i b oc s) (did-none j c oc' s)
            ∙ sym (ap (λ r. shared_of r) c_last),
      )

  abbrev pub work : List ℕ → Job S → Job S
  work bs job = run_server pipe ids bp bs job

  -- Whether the batch comes before or after what `g` does makes no difference.
  abbrev Past : ℕ → (Job S → Job S) → ServerOutcome → ServerOutcome → Shared S → Type 0
  Past c g oc oc' s =
      ((g (job_of oc (shared_of (batch_job pipe ids bp c oc' s)))).outcome
        ≡ (g (job_of oc s)).outcome)
      × (shared_of (g (job_of oc (shared_of (batch_job pipe ids bp c oc' s))))
          ≡ shared_of (batch_job pipe ids bp c oc' (shared_of (g (job_of oc s)))))
      × ((batch_job pipe ids bp c oc' (shared_of (g (job_of oc s)))).outcome
          ≡ (batch_job pipe ids bp c oc' s).outcome)

  -- the rest of a worker's loop, after a batch
  abbrev go_on : List ℕ → Job S → Job S
  go_on bs job = if job.outcome.ok then work bs job else job

  go_on-Past :
      (c : ℕ) (bs : List ℕ) (oc oc' : ServerOutcome) (s : Shared S)
      → Past c (work bs) oc oc' s
      → Past c (go_on bs) oc oc' s
  go_on-Past c bs oc oc' s past = choose oc.ok
    where
      choose : (ok : Bool) → Past c (λ job. if ok then work bs job else job) oc oc' s
      choose true = past
      choose false = (refl, refl, refl)

  pub worker-batch :
      (i j : ℤ) (bs : List ℕ) (c : ℕ) (oc oc' : ServerOutcome) (s : Shared S)
      → i ≢ j
      → All (Owns i) bs
      → Owns j c
      → Past c (work bs) oc oc' s
  unfolding run_server
  worker-batch i j [] c oc oc' s h own own_c = (refl, refl, refl)
  worker-batch i j (b ∷ bs) c oc oc' s h own own_c =
      let first = batch_job pipe ids bp b oc s in
      let swap = batch-batch i j b c oc oc' s h own.0 own_c in
      let back = batch-batch j i c b oc' oc s (λ e. h (sym e)) own_c own.0 in
      let moved : batch_job pipe ids bp b oc (shared_of (batch_job pipe ids bp c oc' s))
          ≡ job_of first.outcome (shared_of (batch_job pipe ids bp c oc' (shared_of first))) =
        λ t. job_of (swap.0 t) (swap.1 t) in
      let rest =
        go_on-Past c bs first.outcome oc' (shared_of first)
          (worker-batch i j bs c first.outcome oc' (shared_of first) h own.1 own_c) in
      (
        ap (λ job. (go_on bs job).outcome) moved ∙ rest.0,
        ap (λ job. shared_of (go_on bs job)) moved ∙ rest.1,
        rest.2 ∙ back.0,
      )
