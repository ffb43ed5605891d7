-- ===== src/Dispatch/Threads/Fair.antt =====
-- Under a schedule that picks each thread often enough, every thread returns.
use de_part.Prelude.{
  ◌<◌, ◌≢◌, u32_mod, ℕ, zero, suc, ◌-◌, ◌≤◌, ◌≡◌, refl, subst, inl, inr, Bool, true, false, List,
  [], ◌∷◌, arith, ◌==◌, ==_iff, Bool-cases, if◌then◌else◌, length,
}
use de_part.Epoch.Types.{Operat}
use de_part.Batch.{BatchPlan, build_batches_from_oram_ops}
use de_part.Dispatch.{execute_oram_ops}
use de_part.Dispatch.Threads.Ends.{execute_scheduled-serial}
use de_part.Sending.{PkMap, Pipe, Processes}
use de_part.Dispatch.Threads.{
  Thread, Shared, AllJoined, batch_job, run_next, pick, run_schedule, threads_of, execute_scheduled,
}

-- the number of batches that the n-th thread has left
abbrev pub batches_left : ℕ → List Thread → ℕ
batches_left n [] = 0
batches_left zero ((id, bs, oc) ∷ ts) = length bs
batches_left (suc n) (t ∷ ts) = batches_left n ts

-- how often the n-th thread is picked
abbrev pub picks : ℕ → List ℕ → ℕ
picks n [] = 0
picks n (m ∷ ns) = if m == n then suc (picks n ns) else picks n ns

shorter : (ok : Bool) (bs : List ℕ) → length (if ok then bs else []) ≤ length bs
shorter true bs = omega arith
shorter false bs = omega arith

joined_of : (ts : List Thread) → ((n : ℕ) → batches_left n ts ≡ 0) → AllJoined ts
joined_of [] h = tt
joined_of ((id, [], oc) ∷ ts) h = (refl, joined_of ts (λ n. h (suc n)))
joined_of ((id, b ∷ bs, oc) ∷ ts) h = absurd (let e = h 0 in omega arith)

module _ {S : Type 0} (pipe : Pipe S) (ids : PkMap) (bp : BatchPlan) where
  left-pick_self :
      (n : ℕ) (ts : List Thread) (s : Shared S)
      → batches_left n (pick pipe ids bp n ts s).0 ≤ batches_left n ts - 1
  unfolding pick run_next
  left-pick_self n [] s = omega arith
  left-pick_self zero ((id, [], oc) ∷ ts) s = omega arith
  left-pick_self zero ((id, b ∷ bs, oc) ∷ ts) s =
      let le = shorter (batch_job pipe ids bp b oc s).outcome.ok bs in omega arith
  left-pick_self (suc n) (t ∷ ts) s = left-pick_self n ts s

  left-pick :
      (n m : ℕ) (ts : List Thread) (s : Shared S)
      → batches_left m (pick pipe ids bp n ts s).0 ≤ batches_left m ts
  unfolding pick run_next
  left-pick n m [] s = omega arith
  left-pick zero zero ((id, [], oc) ∷ ts) s = omega arith
  left-pick zero zero ((id, b ∷ bs, oc) ∷ ts) s =
      let le = shorter (batch_job pipe ids bp b oc s).outcome.ok bs in omega arith
  left-pick zero (suc m) ((id, bs, oc) ∷ ts) s = omega arith
  left-pick (suc n) zero ((id, bs, oc) ∷ ts) s = omega arith
  left-pick (suc n) (suc m) (t ∷ ts) s = left-pick n m ts s

  run_schedule-AllJoined :
      (ns : List ℕ) (ts : List Thread) (s : Shared S)
      → ((n : ℕ) → batches_left n ts ≤ picks n ns)
      → AllJoined (run_schedule pipe ids bp ns ts s).0
  unfolding run_schedule
  run_schedule-AllJoined [] ts s h = joined_of ts (λ n. let le = h n in omega arith)
  run_schedule-AllJoined (m ∷ ns) ts s h =
      run_schedule-AllJoined ns (pick pipe ids bp m ts s).0 (pick pipe ids bp m ts s).1 (λ n.
        elim (Bool-cases (m == n)) [
          | inl e ↦
              let same = (==_iff m n).0 e in
              let le : batches_left n ts ≤ suc (picks n ns) =
                subst (λ b. batches_left n ts ≤ (if b then suc (picks n ns) else picks n ns)) e
                  (h n) in
              let less : batches_left n (pick pipe ids bp m ts s).0 ≤ batches_left n ts - 1 =
                subst (λ k. batches_left k (pick pipe ids bp m ts s).0 ≤ batches_left k ts - 1) same
                  (left-pick_self m ts s) in
              omega arith
          | inr e ↦
              let le : batches_left n ts ≤ picks n ns =
                subst (λ b. batches_left n ts ≤ (if b then suc (picks n ns) else picks n ns)) e
                  (h n) in
              let less = left-pick m n ts s in omega arith
        ])

-- For one to 2^32 - 1 operations and a batch size that is not 0, over any pipes whose round trips
-- return, whatever fails: under a schedule that picks each thread at least as often as its server
-- has batches, every thread returns, and the result and the processes are those of executeOramOps.
pub execute_scheduled-fair :
    {S : Type 0} (pipe : Pipe S) (ids : PkMap) (ns : List ℕ) (op : Operat) (ops : List Operat)
    (batch_size : ℕ) (pad : Bool) (processes : Processes S)
    → length (op ∷ ops) < u32_mod
    → batch_size ≢ 0
    → ((n : ℕ)
        → batches_left n
            (threads_of pipe ids (build_batches_from_oram_ops (op ∷ ops) batch_size pad))
          ≤ picks n ns)
    → AllJoined (execute_scheduled pipe ids ns (op ∷ ops) batch_size pad processes).0
      × (execute_oram_ops pipe ids (op ∷ ops) batch_size pad processes ≡ (
        (execute_scheduled pipe ids ns (op ∷ ops) batch_size pad processes).1,
        (execute_scheduled pipe ids ns (op ∷ ops) batch_size pad processes).2,
      ))
unfolding execute_scheduled
execute_scheduled-fair pipe ids ns op ops batch_size pad processes small h fair =
    let joined =
      run_schedule-AllJoined pipe ids (build_batches_from_oram_ops (op ∷ ops) batch_size pad) ns _ _
        fair in
    (joined, execute_scheduled-serial pipe ids ns op ops batch_size pad processes small h joined)
