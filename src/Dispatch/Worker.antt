-- ===== src/Dispatch/Worker.antt =====
-- One server's worker over a pipe that works: its batches are answered as the child answers all
-- their operations in one run.
use de_part.Prelude.{
  ℕ, zero, suc, ◌+◌, ◌<◌, ◌≡◌, refl, sym, ap, subst, ◌∙◌, ◌≢◌, true, List, [], ◌∷◌, ◌++◌, Option,
  some, if◌then◌else◌, arith, min, ◌==◌, ℤ, int_key, lookup, lookup-insert_self, lookup-insert_ne,
  Bytes, length, get_or, take, drop, All,
}
use mathlib.Core.List.{append_assoc, append-nil}
use de_part.Epoch.Types.{Operat}
use de_part.Batch.{BatchInfo, BatchPlan}
use de_part.Batch.Order.{take-append-drop, length-drop}
use de_part.Sending.{
  PkMap, Access, Reply, answered, reply_of, is_answer, working_pipe, TransmissionResult, new_result,
  hear, Processes, fixed_batch_size, send_chunks, send_batch_to_server,
}
use de_part.Sending.{send_known}
use de_part.Dispatch.{place_results, translate_all, Job, no_batch, settle, run_batch, run_server}
use de_part.Dispatch.Child.{
  results, after, Runs, child_ops-Runs, Runs-append_left, Runs-append_right, results-nil, after-nil,
  results-append, after-append, length-results,
}

place-append :
    (m ms : List ℕ) (rs rss out : List Bytes)
    → length m ≡ length rs
    → place_results (m ++ ms) (rs ++ rss) out ≡ place_results ms rss (place_results m rs out)
unfolding place_results
place-append [] ms [] rss out e = refl
place-append [] ms (r ∷ rs) rss out e = absurd (omega arith)
place-append (s ∷ m) ms [] rss out e = absurd (omega arith)
place-append (s ∷ m) ms (r ∷ rs) rss out e = place-append m ms rs rss _ (omega arith)

length-translate_all :
    (ids : PkMap) (id : ℤ) (ops : List Operat) → length (translate_all ids id ops) ≡ length ops
unfolding translate_all
length-translate_all ids id [] = refl
length-translate_all ids id (op ∷ ops) = ap suc (length-translate_all ids id ops)

-- The batches of a list of places in the plan, and what they carry together.
module _ (bp : BatchPlan) where
  abbrev pub batch_at : ℕ → BatchInfo
  batch_at b = get_or bp.batches b no_batch

  abbrev pub slots_at : ℕ → List ℕ
  slots_at b = get_or bp.per_batch_op_to_slot b []

  unfoldable pub slots_of : List ℕ → List ℕ
  slots_of [] = []
  slots_of (b ∷ bs) = slots_at b ++ slots_of bs

  module _ (ids : PkMap) (id : ℤ) where
    unfoldable pub ops_of : List ℕ → List Operat
    unfolding translate_all
    ops_of [] = []
    ops_of (b ∷ bs) = translate_all ids id (batch_at b).operations ++ ops_of bs

  abbrev pub Mine : ℤ → ℕ → Type 0
  Mine id b = ((batch_at b).server_id ≡ id) × (length (slots_at b) ≡ length (batch_at b).operations)

module _ {S : Type 0} (access : Access S) where
  -- The chunks of 64 are as good as the whole; the fuel is enough.
  pipe_lem :
      (id : ℤ) (ops : List Operat) (s : S)
      → Runs access ops s
      → (n : ℕ) × (working_pipe access id ops (some s)
          ≡ (answered n (results access ops s), some (after access ops s)))
  unfolding working_pipe
  pipe_lem id ops s r = let (n, e) = child_ops-Runs access ops 0 s r in (n, ap (λ o. reply_of o) e)

  send_chunks_lem :
      (fuel : ℕ) (id : ℤ) (ops : List Operat) (r : TransmissionResult) (s : S)
      → length ops < fuel
      → Runs access ops s
      → ((send_chunks (working_pipe access) fuel id ops r (some s)).0.success ≡ true)
        × ((send_chunks (working_pipe access) fuel id ops r (some s)).0.per_op_results
            ≡ r.per_op_results ++ results access ops s)
        × ((send_chunks (working_pipe access) fuel id ops r (some s)).1 ≡ some (after access ops s))
  unfolding send_chunks hear
  send_chunks_lem zero id ops r s f runs = absurd (omega arith)
  send_chunks_lem (suc fuel) id [] r s f runs = (
    refl,
    sym (append-nil r.per_op_results)
        ∙ ap (λ rs. r.per_op_results ++ rs) (sym (results-nil access s)),
    ap some (sym (after-nil access s)),
  )
  send_chunks_lem (suc fuel) id (op ∷ ops) r s f runs =
      let xs = op ∷ ops in
      let n = min fixed_batch_size (length xs) in
      let split = subst (λ l. Runs access l s) (sym (take-append-drop n xs)) runs in
      let (k, e) =
        pipe_lem id (take n xs) s (Runs-append_left access (take n xs) (drop n xs) s split) in
      let heard = hear id (answered k (results access (take n xs) s)) r in
      let (good, rs, st) =
        send_chunks_lem fuel id (drop n xs) heard (after access (take n xs) s)
          (omega (arith, length-drop n xs))
          (Runs-append_right access (take n xs) (drop n xs) s split) in
      subst
        (λ (now : Reply × Option S).
          let r' = hear id now.0 r in
          let later = send_chunks (working_pipe access) fuel id (drop n xs) r' now.1 in
          let sent = if is_answer now.0 then later else (r', now.1) in
          (sent.0.success ≡ true)
          × (sent.0.per_op_results ≡ r.per_op_results ++ results access xs s)
          × (sent.1 ≡ some (after access xs s)))
        (sym e)
        (
          good,
          rs
              ∙ append_assoc r.per_op_results (results access (take n xs) s)
                  (results access (drop n xs) (after access (take n xs) s))
              ∙ ap (λ l. r.per_op_results ++ l)
                  (sym (results-append access (take n xs) (drop n xs) s)
                    ∙ ap (λ l. results access l s) (take-append-drop n xs)),
          st
              ∙ ap some (
                  sym (after-append access (take n xs) (drop n xs) s)
                  ∙ ap (λ l. after access l s) (take-append-drop n xs)),
        )

  -- The processes after one has been at work.
  abbrev pub Moved : ℤ → S → Processes (Option S) → Processes (Option S) → Type 0
  Moved id s before now =
      (lookup id now ≡ some (some s)) × ((j : ℤ) → id ≢ j → lookup j now ≡ lookup j before)

  send_known_lem :
      (id : ℤ) (ops : List Operat) (processes : Processes (Option S)) (s : S)
      → Runs access ops s
      → ((send_known (working_pipe access) id ops processes (some (some s))).0.success ≡ true)
        × ((send_known (working_pipe access) id ops processes (some (some s))).0.per_op_results
            ≡ results access ops s)
        × Moved id
            (after access ops s)
            processes
            (send_known (working_pipe access) id ops processes (some (some s))).1
  unfolding send_known
  send_known_lem id ops processes s runs =
      let (good, rs, st) =
        send_chunks_lem (length ops + 1) id ops (new_result id) s (omega arith) runs in
      (
        good,
        rs,
        (
          lookup-insert_self id _ processes ∙ ap some st,
          λ j h. lookup-insert_ne id j _ processes h,
        ),
      )

  send_batch_to_server_lem :
      (id : ℤ) (ops : List Operat) (processes : Processes (Option S)) (s : S)
      → lookup id processes ≡ some (some s)
      → Runs access ops s
      → ((send_batch_to_server (working_pipe access) id ops processes).0.success ≡ true)
        × ((send_batch_to_server (working_pipe access) id ops processes).0.per_op_results
            ≡ results access ops s)
        × Moved id
            (after access ops s)
            processes
            (send_batch_to_server (working_pipe access) id ops processes).1
  unfolding send_batch_to_server
  send_batch_to_server_lem id [] processes s e runs = (
    refl,
    sym (results-nil access s),
    (e ∙ ap some (ap some (sym (after-nil access s))), λ j h. refl),
  )
  send_batch_to_server_lem id (op ∷ ops) processes s e runs =
      rw e (send_known_lem id (op ∷ ops) processes s runs)

  -- A job that has run these operations, for these slots, on a process in state `s`.
  abbrev pub Ran : ℤ → List Operat → List ℕ → S → Job (Option S) → Job (Option S) → Type 0
  Ran id ops slots s before now =
      (now.outcome.ok ≡ true)
      × (now.per_slot_results ≡ place_results slots (results access ops s) before.per_slot_results)
      × Moved id (after access ops s) before.processes now.processes

  Ran-trans :
      (id : ℤ) (xs ys : List Operat) (m ms : List ℕ) (s : S) (before middle now : Job (Option S))
      → length m ≡ length xs
      → Ran id xs m s before middle
      → Ran id ys ms (after access xs s) middle now
      → Ran id (xs ++ ys) (m ++ ms) s before now
  Ran-trans id xs ys m ms s before middle now e first second = (
    second.0,
    second.1
        ∙ ap (place_results ms (results access ys (after access xs s))) first.1
        ∙ sym (
            place-append m ms (results access xs s) (results access ys (after access xs s))
              before.per_slot_results (e ∙ sym (length-results access xs s)))
        ∙ ap (λ rs. place_results (m ++ ms) rs before.per_slot_results)
            (sym (results-append access xs ys s)),
    (
      second.2.0 ∙ ap (λ x. some (some x)) (sym (after-append access xs ys s)),
      λ j h. second.2.1 j h ∙ first.2.1 j h,
    ),
  )

  module _ (ids : PkMap) where
    run_batch-Ran :
        (b : ℕ) (bi : BatchInfo) (slots : List ℕ) (job : Job (Option S)) (s : S)
        → job.outcome.ok ≡ true
        → length slots ≡ length bi.operations
        → lookup bi.server_id job.processes ≡ some (some s)
        → Runs access (translate_all ids bi.server_id bi.operations) s
        → Ran bi.server_id
            (translate_all ids bi.server_id bi.operations)
            slots
            s
            job
            (run_batch (working_pipe access) ids b bi slots job)
    unfolding run_batch settle
    run_batch-Ran b bi slots job s ok same e runs =
        let ops = translate_all ids bi.server_id bi.operations in
        let (good, rs, moved) = send_batch_to_server_lem bi.server_id ops job.processes s e runs in
        let equal : (length slots == length bi.operations) ≡ true = ground arith in
        rw (equal, good) (ok, ap (λ l. place_results slots l job.per_slot_results) rs, moved)

    module _ (bp : BatchPlan) (id : ℤ) where
      pub run_server-Ran :
          (bs : List ℕ) (job : Job (Option S)) (s : S)
          → job.outcome.ok ≡ true
          → All (Mine bp id) bs
          → lookup id job.processes ≡ some (some s)
          → Runs access (ops_of bp ids id bs) s
          → Ran id
              (ops_of bp ids id bs)
              (slots_of bp bs)
              s
              job
              (run_server (working_pipe access) ids bp bs job)
      unfolding run_server ops_of slots_of place_results
      run_server-Ran [] job s ok mine e runs =
          (ok, refl, (e ∙ ap some (ap some (sym (after-nil access s))), λ j h. refl))
      run_server-Ran (b ∷ bs) job s ok mine e runs =
          let xs = translate_all ids id (batch_at bp b).operations in
          let job' = run_batch (working_pipe access) ids b (batch_at bp b) (slots_at bp b) job in
          let now : Ran id (translate_all ids id (batch_at bp b).operations) (slots_at bp b) s job
              job' =
            subst
              (λ k.
                Ran k (translate_all ids k (batch_at bp b).operations) (slots_at bp b) s job job')
              mine.0.0
              (run_batch-Ran b (batch_at bp b) (slots_at bp b) job s ok mine.0.1
                (subst (λ k. lookup k job.processes ≡ some (some s)) (sym mine.0.0) e)
                (subst (λ k. Runs access (translate_all ids k (batch_at bp b).operations) s)
                  (sym mine.0.0) (Runs-append_left access xs (ops_of bp ids id bs) s runs))) in
          let later =
            run_server-Ran bs job' (after access xs s) now.0 mine.1 now.2.0
              (Runs-append_right access xs (ops_of bp ids id bs) s runs) in
          rw now.0 (
            Ran-trans id _ (ops_of bp ids id bs) (slots_at bp b) (slots_of bp bs) s job job'
              (run_server (working_pipe access) ids bp bs job')
              (mine.0.1 ∙ sym (length-translate_all ids id (batch_at bp b).operations)) now later)
