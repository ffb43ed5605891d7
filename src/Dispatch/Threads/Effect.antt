-- ===== src/Dispatch/Threads/Effect.antt =====
-- What one batch does to the results and to the processes: it reads its own process only.
use de_part.Prelude.{
  ℕ, ◌+◌, ◌≡◌, refl, ap, ◌∙◌, inl, inr, ◌⊎◌, ◌≢◌, Bool, true, false, List, [], ◌∷◌, Option, none,
  some, ◌==◌, ℤ, int_key, Bytes, length, lookup, insert, lookup-insert_ne, insert-insert,
}
use de_part.Epoch.Types.{Operat, SendError, ExecutionError}
use de_part.Batch.{BatchInfo}
use de_part.Sending.{
  PkMap, Pipe, Processes, TransmissionResult, new_result, send_chunks, send_batch_to_server,
}
use de_part.Sending.{send_known}
use de_part.Dispatch.{
  ServerOutcome, Job, count_ops, settle, place_results, translate_all, run_batch,
}
use de_part.Dispatch.Threads.{Shared, job_of}

-- The process is put back.
abbrev pub put : {S : Type 0} → ℤ → Option S → Processes S → Processes S
put id none p = p
put id (some s) p = insert id s p

pub put-other :
    {S : Type 0} (id j : ℤ) (o : Option S) (p : Processes S)
    → id ≢ j
    → lookup j (put id o p) ≡ lookup j p
put-other id j none p h = refl
put-other id j (some s) p h = lookup-insert_ne id j s p h

-- Different processes are put back in any order.
pub put-put :
    {S : Type 0} (id j : ℤ) (o q : Option S) (p : Processes S)
    → id ≢ j
    → (lookup id p ≡ none → o ≡ none)
    → (lookup j p ≡ none → q ≡ none)
    → put id o (put j q p) ≡ put j q (put id o p)
put-put id j none q p h a b = refl
put-put id j (some s) none p h a b = refl
put-put id j (some s) (some t) p h a b = insert-insert id j s t p h (λ e. cc (a e)) (λ e. cc (b e))

module _ {S : Type 0} (pipe : Pipe S) where
  -- sendBatchToServer as a function of the process.
  pub sent : ℤ → List Operat → Option S → TransmissionResult × Option S
  sent id [] o = (record (new_result id) { success = true }, none)
  sent id (op ∷ ops) none =
      (record (new_result id) { error_message = some (SendError.no_process id) }, none)
  sent id (op ∷ ops) (some s) =
      let r = send_chunks pipe (length (op ∷ ops) + 1) id (op ∷ ops) (new_result id) s in
      (r.0, some r.1)

  sent-none : (id : ℤ) (ops : List Operat) → (sent id ops none).1 ≡ none
  unfolding sent
  sent-none id [] = refl
  sent-none id (op ∷ ops) = refl

  send_known-sent :
      (id : ℤ) (op : Operat) (ops : List Operat) (p : Processes S) (o : Option S)
      → send_known pipe id (op ∷ ops) p o
        ≡ ((sent id (op ∷ ops) o).0, put id (sent id (op ∷ ops) o).1 p)
  unfolding send_known sent
  send_known-sent id op ops p none = refl
  send_known-sent id op ops p (some s) = refl

  send-sent :
      (id : ℤ) (ops : List Operat) (p : Processes S)
      → send_batch_to_server pipe id ops p
        ≡ ((sent id ops (lookup id p)).0, put id (sent id ops (lookup id p)).1 p)
  unfolding send_batch_to_server sent
  send-sent id [] p = refl
  send-sent id (op ∷ ops) p = send_known-sent id op ops p (lookup id p)

  -- the outcome, the answers that are placed and where, and the process afterwards
  abbrev pub Effect : Type 0
  Effect = ServerOutcome × (List ℕ) × (List Bytes) × Option S

  settled : ℕ → ℤ → List ℕ → ℕ → ServerOutcome → Bool → TransmissionResult × Option S → Effect
  settled b id slot_map size oc true t =
      (count_ops pipe oc size t.0.records_sent, slot_map, t.0.per_op_results, t.1)
  settled b id slot_map size oc false t = (
    record oc {
      ok = false;
      error_message = some (ExecutionError.batch_failed b id t.0.error_message);
    },
    [],
    [],
    t.1,
  )

  effect_if : PkMap → ℕ → BatchInfo → List ℕ → ServerOutcome → Option S → Bool → Effect
  unfolding settled sent
  effect_if ids b bi slot_map oc o true =
      let t = sent bi.server_id (translate_all ids bi.server_id bi.operations) o in
      settled b bi.server_id slot_map (length bi.operations) oc t.0.success t
  effect_if ids b bi slot_map oc o false =
      (record oc { ok = false; error_message = some ExecutionError.size_mismatch }, [], [], none)

  pub effect : PkMap → ℕ → BatchInfo → List ℕ → ServerOutcome → Option S → Effect
  unfolding effect_if
  effect ids b bi slot_map oc o =
      effect_if ids b bi slot_map oc o (length slot_map == length bi.operations)

  -- An effect is applied to what the threads share.
  abbrev pub apply : ℤ → Effect → Shared S → Job S
  apply id e s = job_of e.0 (place_results e.1 e.2 s.0, put id e.3 s.1)

  settle-settled :
      (b : ℕ) (id : ℤ) (slot_map : List ℕ) (size : ℕ) (oc : ServerOutcome) (s : Shared S)
      (ok : Bool) (t : TransmissionResult × Option S)
      → t.0.success ≡ ok
      → settle pipe b id slot_map size (t.0, put id t.1 s.1) (job_of oc s)
        ≡ apply id (settled b id slot_map size oc ok t) s
  unfolding settle settled place_results
  settle-settled b id slot_map size oc s true t e = rw e refl
  settle-settled b id slot_map size oc s false t e = rw e refl

  run_batch-effect_if :
      (ids : PkMap) (b : ℕ) (bi : BatchInfo) (slot_map : List ℕ) (oc : ServerOutcome) (s : Shared S)
      (same : Bool)
      → (length slot_map == length bi.operations) ≡ same
      → run_batch pipe ids b bi slot_map (job_of oc s)
        ≡ apply bi.server_id (effect_if ids b bi slot_map oc (lookup bi.server_id s.1) same) s
  unfolding run_batch effect_if place_results
  run_batch-effect_if ids b bi slot_map oc s true e =
      let ops = translate_all ids bi.server_id bi.operations in
      rw e (
        ap (λ r. settle pipe b bi.server_id slot_map (length bi.operations) r (job_of oc s))
          (send-sent bi.server_id ops s.1)
        ∙ settle-settled b bi.server_id slot_map (length bi.operations) oc s
            (sent bi.server_id ops (lookup bi.server_id s.1)).0.success
            (sent bi.server_id ops (lookup bi.server_id s.1)) refl)
  run_batch-effect_if ids b bi slot_map oc s false e = rw e refl

  pub run_batch-effect :
      (ids : PkMap) (b : ℕ) (bi : BatchInfo) (slot_map : List ℕ) (oc : ServerOutcome) (s : Shared S)
      → run_batch pipe ids b bi slot_map (job_of oc s)
        ≡ apply bi.server_id (effect ids b bi slot_map oc (lookup bi.server_id s.1)) s
  unfolding effect
  run_batch-effect ids b bi slot_map oc s = run_batch-effect_if ids b bi slot_map oc s _ refl

  -- Where there is no process, none is put back.
  pub effect-none :
      (ids : PkMap) (b : ℕ) (bi : BatchInfo) (slot_map : List ℕ) (oc : ServerOutcome)
      → (effect ids b bi slot_map oc none).3 ≡ none
  unfolding effect settled effect_if
  effect-none ids b bi slot_map oc = go (length slot_map == length bi.operations)
    where
      ends :
          (ok : Bool) (t : TransmissionResult × Option S)
          → t.1 ≡ none
          → (settled b bi.server_id slot_map (length bi.operations) oc ok t).3 ≡ none
      ends true t e = e
      ends false t e = e

      go : (same : Bool) → (effect_if ids b bi slot_map oc none same).3 ≡ none
      go true = ends _ _ (sent-none bi.server_id (translate_all ids bi.server_id bi.operations))
      go false = refl

  -- A batch places answers at its slots or nowhere.
  pub effect_slots :
      (ids : PkMap) (b : ℕ) (bi : BatchInfo) (slot_map : List ℕ) (oc : ServerOutcome) (o : Option S)
      → ((effect ids b bi slot_map oc o).1 ≡ slot_map) ⊎ ((effect ids b bi slot_map oc o).1 ≡ [])
  unfolding effect settled effect_if
  effect_slots ids b bi slot_map oc o = go (length slot_map == length bi.operations)
    where
      ends :
          (ok : Bool) (t : TransmissionResult × Option S)
          → ((settled b bi.server_id slot_map (length bi.operations) oc ok t).1 ≡ slot_map)
            ⊎ ((settled b bi.server_id slot_map (length bi.operations) oc ok t).1 ≡ [])
      ends true t = inl refl
      ends false t = inr refl

      go :
          (same : Bool)
          → ((effect_if ids b bi slot_map oc o same).1 ≡ slot_map)
            ⊎ ((effect_if ids b bi slot_map oc o same).1 ≡ [])
      go true = ends _ _
      go false = inr refl
