-- ===== src/Dispatch/EndToEnd.antt =====
-- An epoch from the queue to the answers: collect_epoch, AssignAbort, Dedup, executeOramOps and the
-- reading back of assembleResults, composed as the proxy composes them.
use de_part.Prelude.{
  ℤ, Bytes, Option, ℕ, ◌<◌, ◌≡◌, ◌≢◌, Bool, true, List, [], none, length, Member, u32_mod,
}
use de_part.Epoch.Types.{Operat, Txn, VcKey}
use de_part.Epoch.Intake.{Intake, collect_epoch}
use de_part.Epoch.Intake.Numbering.{all_ops, collect_epoch-numbers}
use de_part.Epoch.Conflict.{Chains, assign_abort}
use de_part.Epoch.Dedup.{dedup, resolve_all}
use de_part.Epoch.Dedup.Serial.{serial}
use de_part.Epoch.Dedup.Plan.{dedup-serial}
use de_part.Epoch.Dedup.Inputs.{assign_abort-Keyed}
use de_part.Epoch.Dedup.Ids.{assign_abort-chain_ids, Numbered-Distinct}
use de_part.Sending.{PkMap, Access, working_pipe, Processes}
use de_part.Dispatch.{execute_oram_ops}
use de_part.Dispatch.Child.{OramLaws}
use de_part.Dispatch.Sent.{Known}
use de_part.Dispatch.Answered.{Up, stored_in, execute_oram_ops-Serves}

-- The version chains of the epoch that these transactions make.
abbrev pub epoch_chains : List Txn → Intake → Chains
epoch_chains arrivals s = (assign_abort (collect_epoch arrivals s).0).1

module _ {S : Type 0} (access : Access S) (laws : OramLaws access) (ids : PkMap)
    (contents : ℤ → ℕ → Bytes) where
  -- If the arrivals and their operations are fewer than 2^32, and so are the operations that
  -- Dedup sends, whose keys have blocks and whose servers have processes with ORAMs that keep
  -- the laws, hold the contents and get through what they are sent without an abort, then over
  -- pipes that do not break the epoch's dispatch succeeds, and every operation of every version
  -- chain is answered as in a serial execution of the chain on what was stored under its key.
  pub epoch-serial :
      (arrivals : List Txn) (s : Intake) (k : VcKey) (vc : List Operat) (batch_size : ℕ)
      (pad : Bool) (processes : Processes (Option S))
      (small : length (dedup (epoch_chains arrivals s)).oram_bound_ops < u32_mod)
      → length arrivals < u32_mod
      → length (all_ops arrivals) < u32_mod
      → batch_size ≢ 0
      → Known ids (dedup (epoch_chains arrivals s)).oram_bound_ops small
      → Up access laws ids contents
          (dedup (epoch_chains arrivals s)).oram_bound_ops
          batch_size
          pad
          processes
      → Member (k, vc) (epoch_chains arrivals s)
      → let plan = dedup (epoch_chains arrivals s) in
        let er =
          (execute_oram_ops
            (working_pipe access)
            ids
            plan.oram_bound_ops
            batch_size
            pad
            processes).0 in
        (er.success ≡ true)
        × (resolve_all plan er.per_slot_results vc ≡ serial (stored_in ids contents k) none vc)
  epoch-serial arrivals s k vc batch_size pad processes small ht hg h known up m =
      let txns = (collect_epoch arrivals s).0 in
      let late : Txn = record { operations = List.[]; timestamp_id = 0; is_committed = true } in
      let numbered = (collect_epoch-numbers arrivals late [] [] s ht hg).0 in
      let chains = epoch_chains arrivals s in
      let ops = (dedup chains).oram_bound_ops in
      let (success, no_error, serves) =
        execute_oram_ops-Serves access laws ids contents ops small batch_size pad processes h known
          up in
      (
        success,
        dedup-serial (stored_in ids contents) _ chains k vc serves small (assign_abort-Keyed txns).0
            (assign_abort-chain_ids txns (Numbered-Distinct 0 0 txns numbered)) m,
      )
