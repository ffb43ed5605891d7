-- ===== src/Ring/Bucket.antt =====
-- src/RingORAM.cpp: GetBlockOffset, ReadPath and ReadBucket.
use de_part.Prelude.{
  ℕ, ◌+◌, ◌%◌, Bool, true, false, not, ◌&&◌, List, [], ◌∷◌, Option, none, some, if◌then◌else◌,
  lookup, insert, contains, nat_key, ◌=?◌, Bytes, length, get_or, set, keep, range_from,
}
use de_part.Ring.State.{
  ChunkKey, chunk_key_order, BucketBlock, Env, Config, Oram, no_dummy, done, fault, M, pure, ◌>>=◌,
  ◌>>◌, update, rand_int, global_slot_id, find_slot, stash_insert,
}
use de_part.Ring.Path.{path}

-- The first loop of GetBlockOffset: the slot of a valid entry with this address.
unfoldable pub find_entry : ChunkKey → List Bool → List ChunkKey → List ℕ → Option ℕ
find_entry k valids [] ptrs = none
find_entry k valids (a ∷ addrs) [] = none
find_entry k valids (a ∷ addrs) (p ∷ ptrs) =
    let rest = find_entry k valids addrs ptrs in
    if (a =? k) && get_or valids p false then some p else rest

-- `dummy_slot_id_to_pos`: the valid slots that are not among the real ones
unfoldable pub dummy_slots : ℕ → List ℕ → List Bool → List ℕ
unfolding contains
dummy_slots bucket_size ptrs valids =
    keep (λ slot. not (contains ptrs slot) && get_or valids slot false) (range_from bucket_size 0)

abbrev pub set_bucket : ℕ → BucketBlock → Oram → Oram
set_bucket i b s = record s { bucket_blockdata = update s.bucket_blockdata i b }

abbrev invalidate : ℕ → ℕ → Oram → Oram
invalidate i slot s =
    set_bucket i
      (record (s.bucket_blockdata i) { valids = set (s.bucket_blockdata i).valids slot false }) s

-- `real_slot_id[ptrs[j]] = addrs[j]`
unfoldable pub real_slot_ids : List ChunkKey → List ℕ → List (ℕ × ChunkKey)
unfolding insert
real_slot_ids [] ptrs = []
real_slot_ids (a ∷ addrs) [] = []
real_slot_ids (a ∷ addrs) (p ∷ ptrs) =
    let rest = real_slot_ids addrs ptrs in
    elim (lookup p rest) [ none ↦ insert p a rest | some _ ↦ rest ]

module _ (env : Env) (config : Config) where
  -- The slot to read in a bucket, and whether it holds the block.
  unfoldable pub get_block_offset : ℕ → ChunkKey → M (ℕ × Bool)
  unfolding find_entry dummy_slots rand_int
  get_block_offset i k s =
      let b = s.bucket_blockdata i in
      elim (find_entry k b.valids b.addrs b.ptrs) [
        | some slot ↦ done ((slot, true), invalidate i slot s)
        | none ↦ elim (dummy_slots config.bucket_size b.ptrs b.valids) [
          | [] ↦ fault no_dummy
          | d ∷ ds ↦
              let slot = get_or (d ∷ ds) (env.coins s.draws % length (d ∷ ds)) 0 in
              done ((slot, false), invalidate i slot (record s { draws = s.draws + 1 }))
        ]
      ]

  unfoldable pub count_access : ℕ → M (Unit {0})
  count_access i s = done (
    tt,
    set_bucket i (record (s.bucket_blockdata i) { count = (s.bucket_blockdata i).count + 1 }) s,
  )

  -- One bucket of ReadPath.
  unfoldable pub read_node : ℕ → ChunkKey → Bytes → M Bytes
  unfolding get_block_offset count_access find_slot stash_insert global_slot_id
  read_node i k found = do
    (slot, is_real) ← get_block_offset i k
    count_access i
    encrypted ← find_slot env config (global_slot_id env config i slot)
    if is_real then (stash_insert env config k encrypted >>= λ _. pure encrypted) else pure found

  unfoldable pub read_nodes : List ℕ → ChunkKey → Bytes → M Bytes
  unfolding read_node
  read_nodes [] k found = pure found
  read_nodes (i ∷ is) k found = do found' ← read_node i k found; read_nodes is k found'

  -- The block's data if it is in the tree on this path, else the empty string.
  unfoldable pub read_path : ℕ → ChunkKey → M Bytes
  unfolding read_nodes path
  read_path leaf k = read_nodes (path config.height leaf) k []

  -- One slot of ReadBucket: a real one goes to the stash.
  unfoldable pub read_slot : ℕ → List (ℕ × ChunkKey) → ℕ → M (Unit {0})
  unfolding find_slot stash_insert global_slot_id lookup
  read_slot i real slot = do
    encrypted ← find_slot env config (global_slot_id env config i slot)
    elim (lookup slot real) [ none ↦ pure tt | some k ↦ stash_insert env config k encrypted ]

  unfoldable pub read_slots : ℕ → List (ℕ × ChunkKey) → List ℕ → M (Unit {0})
  unfolding read_slot
  read_slots i real [] = pure tt
  read_slots i real (slot ∷ slots) = do read_slot i real slot; read_slots i real slots

  unfoldable pub read_bucket : ℕ → M (Unit {0})
  unfolding read_slots real_slot_ids
  read_bucket i s =
      let b = s.bucket_blockdata i in
      read_slots i (real_slot_ids b.addrs b.ptrs)
        (keep (λ slot. get_or b.valids slot false) (range_from config.bucket_size 0)) s
