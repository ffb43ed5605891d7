-- ===== src/Ring/Write.antt =====
-- src/RingORAM.cpp: WriteBucket, EarlyReshuffle, EvictPath and flush_stash_if_needed. A
-- std::unordered_map is walked in the order of a list; the source leaves that open.
use mathlib.Core.List.{reverse}
use de_part.Prelude.{
  ℕ, zero, suc, ◌+◌, ◌-◌, ◌*◌, ◌%◌, ◌^◌, Bool, true, false, not, List, [], ◌∷◌, ◌++◌, Option, none,
  some, ltb, leb, if◌then◌else◌, lookup, contains, keys, nat_key, Bytes, length, replicate, keep,
  to_u32, range_from,
}
use de_part.Ring.State.{
  ChunkKey, chunk_key_order, Env, Config, oversized, starved, done, fault, M, pure, ◌>>=◌, ◌>>◌,
  modify, find_pos, resize, rand_int, global_slot_id, insert_slot, aes_encrypt,
}
use de_part.Ring.Path.{path, reverse_bits}
use de_part.Ring.Bucket.{set_bucket, real_slot_ids, read_bucket}

-- `while (real_slots.size() < blocks_Z) real_slots.insert(rand_int(bucket_size))`, with fuel
module _ (env : Env) (config : Config) where
  unfoldable pub choose_slots : ℕ → List ℕ → M (List ℕ)
  unfolding contains rand_int
  choose_slots zero chosen s =
      if ltb (length chosen) config.blocks_Z then fault starved else done (chosen, s)
  choose_slots (suc fuel) chosen s =
      let slot = env.coins s.draws % config.bucket_size in
      let more =
        choose_slots fuel (if contains chosen slot then chosen else chosen ++ slot ∷ [])
          (record s { draws = s.draws + 1 }) in
      if ltb (length chosen) config.blocks_Z then more else done (chosen, s)

  -- Whether the block's path goes through the bucket: the loop over the levels in WriteBucket.
  unfoldable pub belongs : ℕ → Option ℕ → Bool
  unfolding path contains
  belongs i none = false
  belongs i (some leaf) = contains (path config.height leaf) i

  -- The walk over the stash: the first `room` blocks that belong to the bucket leave it.
  unfoldable pub split_stash :
      ℕ
      → List (ℕ × List (ℕ × ℕ))
      → List (ChunkKey × Bytes)
      → ℕ
      → List (ChunkKey × Bytes) × List (ChunkKey × Bytes)
  unfolding belongs find_pos
  split_stash i pos [] room = ([], [])
  split_stash i pos (e ∷ rest) zero = ([], e ∷ rest)
  split_stash i pos (e ∷ rest) (suc room) =
      let placed = split_stash i pos rest room in
      let skipped = split_stash i pos rest (suc room) in
      if belongs i (find_pos e.0 pos) then (e ∷ placed.0, placed.1) else (skipped.0, e ∷ skipped.1)

  -- A fresh dummy: id -1, random bytes up to the block size less the IV, encrypted. Where the
  -- length wraps below zero, the source's array of that length cannot be made.
  unfoldable pub dummy_cipher : M Bytes
  unfolding aes_encrypt
  dummy_cipher s =
      if ltb config.block_size 20
      then fault oversized
      else aes_encrypt env config
          (255 ∷ 255 ∷ 255 ∷ 255 ∷ env.noise s.draws (config.block_size - 16 - 4))
          (record s { draws = s.draws + 1 })

  unfoldable pub write_slot : ℕ → List (ℕ × ChunkKey) → List (ChunkKey × Bytes) → ℕ → M (Unit {0})
  unfolding dummy_cipher insert_slot global_slot_id lookup resize
  write_slot i real blocks slot = elim (lookup slot real) [
    | none ↦ do
      cipher ← dummy_cipher
      if ltb config.block_size (length cipher)
          then (λ s. fault oversized)
          else insert_slot env config (global_slot_id env config i slot)
              (resize config.block_size cipher)
    | some k ↦ elim (lookup k blocks) [
      | none ↦ pure tt
      | some cipher ↦ insert_slot env config (global_slot_id env config i slot) cipher
    ]
  ]

  unfoldable pub write_slots :
      ℕ → List (ℕ × ChunkKey) → List (ChunkKey × Bytes) → List ℕ → M (Unit {0})
  unfolding write_slot
  write_slots i real blocks [] = pure tt
  write_slots i real blocks (slot ∷ slots) = do
    write_slot i real blocks slot
    write_slots i real blocks slots

  unfoldable pub write_bucket : ℕ → M (Unit {0})
  unfolding split_stash choose_slots write_slots real_slot_ids
  write_bucket i s =
      let split = split_stash i s.block_chunks_pos s.stash config.blocks_Z in
      (do
        ptrs ← choose_slots env.tries []
        modify (
            set_bucket i (record {
              count = 0;
              valids = replicate config.bucket_size true;
              addrs = keys split.0;
              ptrs = ptrs;
            }))
        write_slots i (real_slot_ids (keys split.0) ptrs) split.0 (range_from config.bucket_size 0))
        (record s { stash = split.1 })

  unfoldable pub rewrite_bucket : ℕ → M (Unit {0})
  unfolding read_bucket write_bucket
  rewrite_bucket i = do read_bucket env config i; write_bucket i

  unfoldable pub rewrite_buckets : List ℕ → M (Unit {0})
  unfolding rewrite_bucket
  rewrite_buckets [] = pure tt
  rewrite_buckets (i ∷ is) = do rewrite_bucket i; rewrite_buckets is

  -- The buckets of the path that have been read S times, the deepest first.
  unfoldable pub early_reshuffle : ℕ → M (Unit {0})
  unfolding rewrite_buckets path
  early_reshuffle leaf s =
      rewrite_buckets
        (reverse (
          keep (λ i. not (ltb (s.bucket_blockdata i).count config.dummies_S))
            (path config.height leaf)))
        s

  unfoldable pub evict_path : M (Unit {0})
  unfolding rewrite_buckets path reverse_bits
  evict_path s =
      let depth = config.height - 1 in
      rewrite_buckets (reverse (path config.height (reverse_bits s.next_evict_G depth)))
        (record s { next_evict_G = (s.next_evict_G + 1) % 2 ^ depth })

  -- The loop of flush_stash_if_needed; it stops after `2 * num_leaves + 1` evictions in any case.
  unfoldable pub flush_loop : ℕ → M (Unit {0})
  unfolding evict_path
  flush_loop zero s = done (tt, s)
  flush_loop (suc rounds) s =
      let again = (do evict_path; flush_loop rounds) s in
      if leb (length s.stash) (to_u32 (config.eviction_A + config.permanent_stash_reserve))
      then done (tt, s)
      else again

  unfoldable pub flush_stash_if_needed : M (Unit {0})
  unfolding flush_loop
  flush_stash_if_needed = flush_loop (2 * config.num_leaves + 1)
