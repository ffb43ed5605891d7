-- ===== src/Dispatch/Errors.antt =====
-- What a batch leaves alone, over any pipe, broken or not.
use de_part.Prelude.{
  ℕ, ◌≡◌, refl, ap, ◌∙◌, ◌≢◌, inl, inr, List, [], ◌∷◌, Option, none, some, arith, ◌==◌, Bool-cases,
  ℤ, int_key, length, lookup, lookup-insert_ne, All,
}
use de_part.Epoch.Types.{Operat}
use de_part.Batch.{BatchInfo, BatchPlan}
use de_part.Sending.{PkMap, Pipe, Processes, TransmissionResult, send_batch_to_server}
use de_part.Sending.{send_known}
use de_part.Dispatch.{Job, translate_all, settle, run_batch, run_server}
use de_part.Dispatch.Worker.{batch_at, slots_at}

module _ {S : Type 0} (pipe : Pipe S) (ids : PkMap) where
  send_known-frame :
      (id j : ℤ) (ops : List Operat) (processes : Processes S) (o : Option S)
      → id ≢ j
      → lookup j (send_known pipe id ops processes o).1 ≡ lookup j processes
  unfolding send_known
  send_known-frame id j ops processes none h = refl
  send_known-frame id j ops processes (some s) h = lookup-insert_ne id j _ processes h

  -- What a batch leaves of the other servers' processes.
  send_batch-frame :
      (id j : ℤ) (ops : List Operat) (processes : Processes S)
      → id ≢ j
      → lookup j (send_batch_to_server pipe id ops processes).1 ≡ lookup j processes
  unfolding send_batch_to_server
  send_batch-frame id j [] processes h = refl
  send_batch-frame id j (op ∷ ops) processes h =
      send_known-frame id j (op ∷ ops) processes (lookup id processes) h

  settle-processes :
      (b : ℕ) (id : ℤ) (slots : List ℕ) (size : ℕ) (sent : TransmissionResult × Processes S)
      (job : Job S)
      → (settle pipe b id slots size sent job).processes ≡ sent.1
  unfolding settle
  settle-processes b id slots size sent job = ground arith

  pub run_batch-frame :
      (b : ℕ) (bi : BatchInfo) (slots : List ℕ) (job : Job S) (j : ℤ)
      → bi.server_id ≢ j
      → lookup j (run_batch pipe ids b bi slots job).processes ≡ lookup j job.processes
  unfolding run_batch
  run_batch-frame b bi slots job j h =
      let ops = translate_all ids bi.server_id bi.operations in
      let sent = send_batch_to_server pipe bi.server_id ops job.processes in
      elim (Bool-cases (length slots == length bi.operations)) [
        | inl e ↦ rw e (
            ap (lookup j) (settle-processes b bi.server_id slots (length bi.operations) sent job)
            ∙ send_batch-frame bi.server_id j ops job.processes h)
        | inr e ↦ rw e refl
      ]

  module _ (bp : BatchPlan) where
    unfoldable pub batch_step : ℕ → Job S → Job S
    batch_step b job = run_batch pipe ids b (batch_at bp b) (slots_at bp b) job

    -- What every batch keeps, a server's run keeps.
    pub run_server-keeps :
        (R : Job S → Job S → Type 0)
        → ((a : Job S) → R a a)
        → ((a b c : Job S) → R a b → R b c → R a c)
        → (bs : List ℕ) (job : Job S) → All (λ b. (a : Job S) → R a (batch_step b a)) bs
        → R job (run_server pipe ids bp bs job)
    unfolding run_server batch_step
    run_server-keeps R r t [] job h = r job
    run_server-keeps R r t (b ∷ bs) job h =
        let later = run_server-keeps R r t bs (batch_step b job) h.1 in
        elim (Bool-cases (batch_step b job).outcome.ok) [
          | inl e ↦ rw e (t job (batch_step b job) _ (h.0 job) later)
          | inr e ↦ rw e (h.0 job)
        ]
