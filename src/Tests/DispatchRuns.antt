-- ===== src/Tests/DispatchRuns.antt =====
-- Three operations on two servers, sent in batches of two to stores that are association lists.
use de_part.Prelude.{
  ℕ, ◌<◌, ◌≡◌, refl, ◌≢◌, true, false, List, [], ◌∷◌, ◌++◌, Option, none, some, arith, ℤ, pos,
  int_key, nat_key, Bytes, lookup, insert, length,
}
use de_part.Epoch.Types.{OpType, Operat}
use de_part.Batch.{build_batches_from_oram_ops}
use de_part.Batch.Order.{sent_to, reads_on, writes_on, build-order}
use de_part.Batch.Shape.{AllFit, build-AllFit}
use de_part.Sending.{PkMap, Access, working_pipe, Processes}
use de_part.Dispatch.{execute_oram_ops}
use de_part.Dispatch.Missing.{execute_oram_ops-missing}
use de_part.Tests.EpochRuns.{sample_op}

abbrev Store : Type 0
Store = List (ℕ × Bytes)

abbrev or_nothing : Option Bytes → Bytes
or_nothing none = []
or_nothing (some v) = v

abbrev look : Store → ℕ → Bytes
look s bid = or_nothing (lookup bid s)

abbrev pub store_access : Access Store
store_access bid OpType.read v s = some (look s bid, s)
store_access bid OpType.update v s = some ([], insert bid v s)
store_access bid OpType.insert v s = some ([], insert bid v s)

abbrev pub on_server : ℤ → Operat → Operat
on_server id op = record op { server_id = id }

abbrev pub sample_ops : List Operat
sample_ops =
    sample_op OpType.update 1 (9 ∷ []) 0 0 true
    ∷ on_server (pos 1) (sample_op OpType.read 2 [] 1 1 true)
    ∷ sample_op OpType.read 1 [] 2 2 true
    ∷ []

abbrev pub sample_pks : PkMap
sample_pks = (pos 0, (1, 0) ∷ []) ∷ (pos 1, (2, 0) ∷ []) ∷ []

abbrev pub sample_processes : Processes (Option Store)
sample_processes = (pos 0, some ((0, 5 ∷ []) ∷ [])) ∷ (pos 1, some ((0, 6 ∷ []) ∷ [])) ∷ []

pub few_ops : length sample_ops < 4294967296
few_ops = omega arith

-- The update of key 1 comes first and is sent last: the read gets the old value.
sample_run :
    (execute_oram_ops
      (working_pipe store_access)
      sample_pks
      sample_ops
      2
      true
      sample_processes).0.per_slot_results
    ≡ [] ∷ (6 ∷ []) ∷ (5 ∷ []) ∷ []
unfolding execute_oram_ops working_pipe lookup insert
sample_run = refl

not_zero : ◌≢◌ {A = ℕ} 2 0
not_zero = λ e. omega arith

build-order_example :
    sent_to
      (pos 0)
      (build_batches_from_oram_ops sample_ops 2 true).batches
      (build_batches_from_oram_ops sample_ops 2 true).per_batch_op_to_slot
    ≡ reads_on sample_ops (pos 0) ++ writes_on sample_ops (pos 0)
build-order_example = build-order sample_ops 2 true (pos 0) not_zero few_ops

build-AllFit_example :
    AllFit sample_ops 2 true
      (build_batches_from_oram_ops sample_ops 2 true).batches
      (build_batches_from_oram_ops sample_ops 2 true).per_batch_op_to_slot
build-AllFit_example = build-AllFit sample_ops 2 true not_zero few_ops

execute_oram_ops-missing_example :
    ((execute_oram_ops (working_pipe store_access) sample_pks sample_ops 2 true []).0.success
      ≡ false)
    × ((execute_oram_ops
          (working_pipe store_access)
          sample_pks
          sample_ops
          2
          true
          []).0.error_message
        ≢ none)
unfolding lookup
execute_oram_ops-missing_example =
    execute_oram_ops-missing (working_pipe store_access) sample_pks sample_ops 2 true [] 1
      (on_server (pos 1) (sample_op OpType.read 2 [] 1 1 true)) few_ops not_zero refl refl
