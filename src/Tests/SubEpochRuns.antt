-- ===== src/Tests/SubEpochRuns.antt =====
-- A batch with a writer and a later reader of one key.
use de_part.Prelude.{◌≡◌, refl, true, false, [], ◌∷◌, some, lookup, nat_key, get_elem?, pos, arith}
use de_part.Epoch.Types.{OpType, Operat, Txn}
use de_part.Epoch.Conflict.{assign_abort}
use de_part.Epoch.Dedup.{Kind, new_decision}
use de_part.Epoch.Dedup.LastWrite.{latest}
use de_part.Epoch.Dedup.Writes.{writes_on}
use de_part.Epoch.SubEpochs.{dedup_reads_for_batch, dedup_writes_at_end}
use de_part.Epoch.SubEpochs.Writes.{committed_ops, dedup_writes_at_end-latest}
use de_part.Epoch.SubEpochs.Dirty.{pair, dedup_reads_for_batch-dirty}
use de_part.Tests.EpochRuns.{sample_op, first_update, sample_txns}

abbrev late_read : Operat
late_read = sample_op OpType.read 1 [] 1 1 true

dedup_reads_for_batch-dirty_example :
    (lookup 1 (dedup_reads_for_batch (pair first_update late_read) []).0.per_op_decision
      ≡ some (record new_decision { kind = Kind.buffered_from_write; buffered_value = 7 ∷ [] }))
    × ((t : Txn) × (get_elem? (assign_abort (pair first_update late_read)).0 0 ≡ some t)
        × (t.is_committed ≡ false))
    × ((t : Txn) × (get_elem? (assign_abort (pair first_update late_read)).0 1 ≡ some t)
        × (t.is_committed ≡ true))
dedup_reads_for_batch-dirty_example =
    dedup_reads_for_batch-dirty first_update late_read refl refl refl (omega arith) refl refl

dedup_writes_at_end-latest_example :
    writes_on (pos 0, 1) (dedup_writes_at_end sample_txns).oram_bound_ops
    ≡ latest (writes_on (pos 0, 1) (committed_ops sample_txns)) []
dedup_writes_at_end-latest_example =
    dedup_writes_at_end-latest (pos 0, 1) sample_txns
      ((λ m. ground arith), ((λ m. ground arith), ((λ m. m), tt)))
