-- ===== src/Epoch/SubEpochs/Dirty.antt =====
-- Reads of a batch against writers that are judged only at the end of the epoch.
use de_part.Prelude.{
  ◌<◌, ◌≡◌, refl, sym, ap, subst, inl, inr, Bool, true, false, List, [], ◌∷◌, some, arith, lookup,
  lookup-insert, nat_key, get_elem?, Member,
}
use de_part.Epoch.Types.{OpType, Operat, Txn, vc_key, vc_key_order, is_read, is_update, is_write}
use de_part.Epoch.Conflict.{is_complete, assign_abort}
use de_part.Epoch.Conflict.Chains.{complete_ops}
use de_part.Epoch.Conflict.Aborted.{TooLate}
use de_part.Epoch.Conflict.Verdict.{assign_abort-commits}
use de_part.Epoch.Dedup.{Kind, new_decision}
use de_part.Epoch.SubEpochs.{batch_read, batch_op, batch_ops, batch_txns, dedup_reads_for_batch}

-- A transaction of one operation, its last.
abbrev single : Operat → Txn
single op = record { operations = op ∷ []; timestamp_id = op.txn_timestamp_id; is_committed = true }

abbrev pub pair : Operat → Operat → List Txn
pair w r = single w ∷ single r ∷ []

write_of_update : (t : OpType) → is_update t ≡ true → is_write t ≡ true
write_of_update OpType.update h = refl
write_of_update OpType.read h = cc
write_of_update OpType.insert h = cc

read_no_write : (t : OpType) → is_read t ≡ true → (is_write t ≡ false) × (is_update t ≡ false)
read_no_write OpType.read h = (refl, refl)
read_no_write OpType.update h = cc
read_no_write OpType.insert h = cc

module _ (w r : Operat) (same : vc_key w ≡ vc_key r) (wt : is_update w.type ≡ true)
    (rt : is_read r.type ≡ true) (later : w.txn_timestamp_id < r.txn_timestamp_id)
    (wl : w.last_one ≡ true) (rl : r.last_one ≡ true) where
  buffered :
      lookup r.global_op_id (dedup_reads_for_batch (pair w r) []).0.per_op_decision
      ≡ some
          (record new_decision { kind = Kind.buffered_from_write; buffered_value = w.data_value })
  unfolding dedup_reads_for_batch batch_txns batch_ops batch_op batch_read
  buffered = ground (
    arith,
    write_of_update w.type wt,
    (read_no_write r.type rt).0,
    lookup-insert (vc_key w) (vc_key r) w.data_value [],
    vc_key_order.beq_iff (vc_key w) (vc_key r),
  )

  ops_of_pair : complete_ops (pair w r) ≡ w ∷ r ∷ []
  unfolding complete_ops is_complete
  ops_of_pair = ground arith

  writer_late : TooLate (pair w r) w.txn_timestamp_id
  writer_late = (
    w,
    r,
    subst (Member w) (sym ops_of_pair) (inl refl),
    subst (Member r) (sym ops_of_pair) (inr (inl refl)),
    same,
    wt,
    refl,
    rt,
    later,
  )

  reader_fine : ¬ TooLate (pair w r) r.txn_timestamp_id
  reader_fine (x, y, mx, my, e, u, t, rd, lt) = elim (subst (Member y) ops_of_pair my) [
    | inl f ↦ ground (arith, ap (λ (o : Operat). o.txn_timestamp_id) f)
    | inr (inl f) ↦ ground (arith, ap (λ (o : Operat). o.txn_timestamp_id) f)
    | inr (inr gap) ↦ gap
  ]

  -- If the first batch of an epoch brings a transaction whose only operation, marked as the last,
  -- updates a key, and after it one with a later timestamp whose only operation, marked as the
  -- last, reads the key, then the read is answered at once by the new value, and AssignAbort of
  -- these two aborts the writer and commits the reader.
  pub dedup_reads_for_batch-dirty :
      (lookup r.global_op_id (dedup_reads_for_batch (pair w r) []).0.per_op_decision
        ≡ some (record new_decision {
          kind = Kind.buffered_from_write;
          buffered_value = w.data_value;
        }))
      × ((t : Txn) × (get_elem? (assign_abort (pair w r)).0 0 ≡ some t) × (t.is_committed ≡ false))
      × ((t : Txn) × (get_elem? (assign_abort (pair w r)).0 1 ≡ some t) × (t.is_committed ≡ true))
  unfolding is_complete
  dedup_reads_for_batch-dirty =
      let first = assign_abort-commits (pair w r) 0 (single w) refl in
      let second = assign_abort-commits (pair w r) 1 (single r) refl in
      (
        buffered,
        (first.0, first.1, refused first.0.is_committed (λ c. (first.4.0 c).2 writer_late)),
        (second.0, second.1, second.4.1 (refl, rl, reader_fine)),
      )
    where
      refused : (b : Bool) → (b ≡ true → ⊥) → b ≡ false
      refused true h = absurd (h refl)
      refused false h = refl
