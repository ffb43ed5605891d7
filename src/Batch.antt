-- ===== src/Batch.antt =====
-- src/MultiRingORAM_Servers.cpp: buildBatchesFromOramOps, which groups the operations that go to
-- the ORAMs by server, puts the reads of each server first, and cuts batches of at most
-- `batch_size`; and PutOpinBatch. The `while` over a server's slots has fuel, one round a slot.
pub mod Groups
pub mod Order
pub mod Shape
use de_part.Prelude.{
  ℕ, zero, suc, ◌+◌, ◌-◌, ◌≡◌, Bool, true, false, ◌&&◌, List, [], ◌∷◌, ◌++◌, Option, none, some,
  min, map, ltb, ◌==◌, if◌then◌else◌, ℤ, int_key, lookup, insert, length, get_or, take, drop,
  replicate, stable_sort,
}
use de_part.Epoch.Types.{OpType, Operat, is_read}

pub record BatchInfo : Type 0 where
  pub server_id : ℤ
  pub batch_type : OpType
  pub operations : List Operat

pub record BatchPlan : Type 0 where
  pub batches : List BatchInfo
  pub per_batch_op_to_slot : List (List ℕ)

-- `kSlotDummy`
abbrev pub slot_dummy : ℕ
slot_dummy = 4294967295

-- `Operat op;`, whose type, key and server the source leaves open
abbrev pub new_operat : Operat
new_operat = record {
  type = OpType.read;
  data_primary_key = 0;
  data_value = [];
  server_id = ℤ.pos 0;
  last_one = false;
  read_marker = false;
  txn_timestamp_id = 0;
  is_dummy = false;
  global_op_id = 0;
}

abbrev pub Groups : Type 0
Groups = List (ℤ × List ℕ)

abbrev pub or_none : Option (List ℕ) → List ℕ
or_none none = []
or_none (some l) = l

-- `groups[id].push_back(i)`
pub push_to : ℤ → ℕ → Groups → Groups
unfolding lookup insert
push_to id i m = insert id (or_none (lookup id m) ++ i ∷ []) m

-- The places of the elements of a vector, from `i` on, grouped by their server.
unfoldable pub group_by : {A : Type 0} → (A → ℤ) → ℕ → List A → Groups → Groups
unfolding push_to
group_by server i [] m = m
group_by server i (x ∷ xs) m = group_by server (i + 1) xs (push_to (server x) i m)

abbrev pub op_at : List Operat → ℕ → Operat
op_at ops slot = get_or ops slot new_operat

abbrev pub read_at : List Operat → ℕ → Bool
read_at ops slot = is_read (op_at ops slot).type

-- The comparison that `stable_sort` is given.
abbrev pub read_first : List Operat → ℕ → ℕ → Bool
read_first ops a b = ltb (if read_at ops a then 0 else 1) (if read_at ops b then 0 else 1)

pub sorted_slots : List Operat → List ℕ → List ℕ
unfolding stable_sort
sorted_slots ops slots = stable_sort (read_first ops) slots

-- What a batch holds for a slot.
abbrev pub real_op : List Operat → ℕ → Operat
real_op ops slot = record (op_at ops slot) { is_dummy = false }

abbrev pub dummy_op : ℤ → Operat
dummy_op id = record new_operat { server_id = id; is_dummy = true }

module _ (ops : List Operat) (batch_size : ℕ) (pad_last_batch : Bool) where
  -- the dummies that a chunk of this length is given
  abbrev pub need : ℕ → ℕ
  need taken = if pad_last_batch && ltb taken batch_size then batch_size - taken else 0

  pub batch_of : ℤ → List ℕ → BatchInfo
  batch_of id chunk = record {
    server_id = id;
    batch_type = (op_at ops (get_or chunk 0 0)).type;
    operations = map (real_op ops) chunk ++ replicate (need (length chunk)) (dummy_op id);
  }

  pub slot_map_of : List ℕ → List ℕ
  slot_map_of chunk = chunk ++ replicate (need (length chunk)) slot_dummy

  -- one round of the loop over a server's slots, put before what the later rounds push
  pub put_batch : ℤ → List ℕ → BatchPlan → BatchPlan
  unfolding batch_of slot_map_of
  put_batch id chunk later = record {
    batches = batch_of id chunk ∷ later.batches;
    per_batch_op_to_slot = slot_map_of chunk ∷ later.per_batch_op_to_slot;
  }

  pub chunk_slots : ℕ → ℤ → List ℕ → BatchPlan → BatchPlan
  unfolding put_batch
  chunk_slots zero id slots later = later
  chunk_slots (suc fuel) id [] later = later
  chunk_slots (suc fuel) id (slot ∷ slots) later =
      let n = min batch_size (length (slot ∷ slots)) in
      put_batch id (take n (slot ∷ slots)) (chunk_slots fuel id (drop n (slot ∷ slots)) later)

  pub chunk_groups : Groups → BatchPlan
  unfolding chunk_slots sorted_slots
  chunk_groups [] = record { batches = []; per_batch_op_to_slot = [] }
  chunk_groups ((id, slots) ∷ groups) =
      chunk_slots (length (sorted_slots ops slots)) id (sorted_slots ops slots)
        (chunk_groups groups)

  unfoldable pub build_batches_from_oram_ops : BatchPlan
  unfolding chunk_groups group_by
  build_batches_from_oram_ops =
      if batch_size == 0
      then record { batches = []; per_batch_op_to_slot = [] }
      else chunk_groups (group_by (λ (op : Operat). op.server_id) 0 ops [])

-- `type == batch_type`
abbrev same_type : OpType → OpType → Bool
same_type OpType.read OpType.read = true
same_type OpType.update OpType.update = true
same_type OpType.insert OpType.insert = true
same_type OpType.read OpType.update = false
same_type OpType.read OpType.insert = false
same_type OpType.update OpType.read = false
same_type OpType.update OpType.insert = false
same_type OpType.insert OpType.read = false
same_type OpType.insert OpType.update = false

-- PutOpinBatch, without its warnings.
unfoldable pub put_op_in_batch : BatchInfo → Operat → BatchInfo
put_op_in_batch current_batch current_op =
    if same_type current_op.type current_batch.batch_type
    then record current_batch { operations = current_batch.operations ++ current_op ∷ [] }
    else current_batch
