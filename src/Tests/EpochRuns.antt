-- ===== src/Tests/EpochRuns.antt =====
-- Two short transactions on one key: the first updates it, the second reads it.
use de_part.Prelude.{
  ℕ, zero, suc, ◌+◌, ◌<◌, ◌≡◌, refl, ◌↔◌, ◌≢◌, Bool, true, false, List, [], ◌∷◌, none, some, inl,
  inr, arith, get_elem?, Member, nat_key, Bytes, pos, length,
}
use de_part.Epoch.Types.{OpType, Operat, Txn, VcKey, vc_key, vc_key_order}
use de_part.Epoch.Intake.{Intake, collect_epoch, collect_sub_epoch, push_txn, enqueue_all}
use de_part.Epoch.Intake.Numbering.{
  all_ops, erase_ids, Numbered, collect_epoch-numbers, collect_sub_epoch-numbers,
}
use de_part.Epoch.Conflict.{assign_abort, is_complete}
use de_part.Epoch.Conflict.Chains.{complete_ops}
use de_part.Epoch.Conflict.Aborted.{TooLate}
use de_part.Epoch.Conflict.Verdict.{assign_abort-commits, assign_abort-chain, assign_abort-covers}
use de_part.Epoch.Dedup.{dedup, resolve_all}
use de_part.Epoch.Dedup.Serial.{serial, Serves}
use de_part.Epoch.Dedup.Plan.{dedup-serial}
use de_part.Epoch.Dedup.LastWrite.{latest}
use de_part.Epoch.Dedup.Writes.{writes_on, dedup-latest}

abbrev pub sample_op : OpType → ℕ → Bytes → ℕ → ℕ → Bool → Operat
sample_op type key value ts id last = record {
  type = type;
  data_primary_key = key;
  data_value = value;
  server_id = pos 0;
  last_one = last;
  read_marker = false;
  txn_timestamp_id = ts;
  is_dummy = false;
  global_op_id = id;
}

abbrev pub first_update : Operat
first_update = sample_op OpType.update 1 (7 ∷ []) 0 0 true

abbrev first_read : Operat
first_read = sample_op OpType.read 1 [] 1 1 false

abbrev second_update : Operat
second_update = sample_op OpType.update 1 (8 ∷ []) 1 2 true

abbrev pub writer : Txn
writer = record { operations = first_update ∷ []; timestamp_id = 0; is_committed = true }

abbrev pub reader : Txn
reader = record {
  operations = first_read ∷ second_update ∷ [];
  timestamp_id = 1;
  is_committed = true;
}

abbrev pub sample_txns : List Txn
sample_txns = writer ∷ reader ∷ []

abbrev open_intake : Intake
open_intake = record {
  incoming_queue = writer ∷ [];
  accepting = true;
  version_chain_vector = [];
  epoch_next_ts = 5;
  epoch_next_goid = 9;
}

collect_sub_epoch-numbers_example :
    let (txns, s') = collect_sub_epoch (reader ∷ []) open_intake in
    Numbered 5 9 txns
    × (erase_ids txns ≡ erase_ids (writer ∷ reader ∷ []))
    × (s'.incoming_queue ≡ [])
    × (s'.accepting ≡ true)
    × (s'.epoch_next_ts ≡ 5 + length (writer ∷ reader ∷ []))
    × (s'.epoch_next_goid ≡ 9 + length (all_ops (writer ∷ reader ∷ [])))
unfolding all_ops
collect_sub_epoch-numbers_example =
    collect_sub_epoch-numbers (reader ∷ []) open_intake refl (omega arith) (omega arith)

collect_epoch-numbers_example :
    let (txns, s') = collect_epoch sample_txns open_intake in
    Numbered 0 0 txns
    × (erase_ids txns ≡ erase_ids sample_txns)
    × (s'.incoming_queue ≡ [])
    × (push_txn writer s' ≡ (s', false))
    × ((enqueue_all (writer ∷ []) s').incoming_queue ≡ writer ∷ [])
    × (collect_epoch (reader ∷ []) (enqueue_all (writer ∷ []) s') ≡ collect_epoch (reader ∷ []) s')
unfolding all_ops
collect_epoch-numbers_example =
    collect_epoch-numbers sample_txns writer (writer ∷ []) (reader ∷ []) open_intake (omega arith)
      (omega arith)

assign_abort-commits_example :
    (t' : Txn) × (get_elem? (assign_abort sample_txns).0 1 ≡ some t')
    × (t'.operations ≡ reader.operations)
    × (t'.timestamp_id ≡ 1)
    × ((t'.is_committed ≡ true)
        ↔ ((true ≡ true) × (is_complete reader.operations ≡ true) × (¬ TooLate sample_txns 1)))
assign_abort-commits_example = assign_abort-commits sample_txns 1 reader refl

left_chain : Member ((pos 0, 1), first_read ∷ second_update ∷ []) (assign_abort sample_txns).1
unfolding assign_abort complete_ops
left_chain = inl refl

assign_abort-chain_example :
    (first_read ∷ second_update ∷ [] ≢ [])
    × ((op : Operat)
        → Member op (first_read ∷ second_update ∷ []) ↔ (
            Member op (complete_ops sample_txns)
            × (vc_key op ≡ (pos 0, 1))
            × (¬ TooLate sample_txns op.txn_timestamp_id)))
assign_abort-chain_example =
    assign_abort-chain sample_txns (pos 0, 1) (first_read ∷ second_update ∷ []) left_chain

read_complete : Member first_read (complete_ops sample_txns)
unfolding complete_ops is_complete
read_complete = inr (inl refl)

-- No later transaction reads.
reader_in_time : ¬ TooLate sample_txns 1
unfolding complete_ops is_complete
reader_in_time (w, r, mw, inl e, k, u, t, rd, lt) = ground arith
reader_in_time (w, r, mw, inr (inl e), k, u, t, rd, lt) = ground arith
reader_in_time (w, r, mw, inr (inr (inl e)), k, u, t, rd, lt) = ground arith
reader_in_time (w, r, mw, inr (inr (inr e)), k, u, t, rd, lt) = absurd e

assign_abort-covers_example :
    (vc : List Operat) × Member (vc_key first_read, vc) (assign_abort sample_txns).1
    × Member first_read vc
assign_abort-covers_example =
    assign_abort-covers sample_txns first_read read_complete reader_in_time

abbrev sample_chain : List Operat
sample_chain = first_read ∷ second_update ∷ []

abbrev sample_store : VcKey → Bytes
sample_store k = 3 ∷ []

sample_plan : (dedup (((pos 0, 1), sample_chain) ∷ [])).oram_bound_ops ≡ sample_chain
unfolding dedup
sample_plan = refl

sample_served :
    Serves sample_store
      (dedup (((pos 0, 1), sample_chain) ∷ [])).oram_bound_ops
      ((3 ∷ []) ∷ [] ∷ [])
unfolding dedup
sample_served zero op h = ground arith
sample_served (suc zero) op h = ground arith
sample_served (suc (suc n)) op h = cc

few_slots : length (dedup (((pos 0, 1), sample_chain) ∷ [])).oram_bound_ops < 4294967296
unfolding dedup
few_slots = omega arith

dedup-serial_example :
    resolve_all (dedup (((pos 0, 1), sample_chain) ∷ [])) ((3 ∷ []) ∷ [] ∷ []) sample_chain
    ≡ serial (3 ∷ []) none sample_chain
dedup-serial_example =
    dedup-serial sample_store ((3 ∷ []) ∷ [] ∷ []) (((pos 0, 1), sample_chain) ∷ []) (pos 0, 1)
      sample_chain sample_served few_slots ((refl, (refl, tt)), tt)
      ((λ m. ground arith), ((λ m. m), tt)) (inl refl)

dedup-latest_example :
    ((vc : List Operat)
      → Member {A = VcKey × List Operat} ((pos 0, 1), vc) (((pos 0, 1), sample_chain) ∷ [])
      → writes_on (pos 0, 1) (dedup (((pos 0, 1), sample_chain) ∷ [])).oram_bound_ops
        ≡ latest vc [])
    × ((¬ Member {A = VcKey} (pos 0, 1) ((pos 0, 1) ∷ []))
        → writes_on (pos 0, 1) (dedup (((pos 0, 1), sample_chain) ∷ [])).oram_bound_ops ≡ [])
dedup-latest_example =
    dedup-latest (((pos 0, 1), sample_chain) ∷ []) (pos 0, 1) ((refl, (refl, tt)), tt)
      ((omega arith, (omega arith, tt)), tt) ((λ m. m), tt)
