-- ===== src/Ring/Setup.antt =====
-- src/RingORAM.cpp: the constructor, bulk_load_stash, get_total_slot_count, generate_one_dummy_slot,
-- and the dispatch of access and get. The connector's silent mode is not modelled here: slots are sent.
pub mod Start
pub mod Shape
use de_part.Prelude.{
  ℕ, zero, suc, ◌+◌, ◌-◌, ◌*◌, ◌/◌, ◌%◌, ◌^◌, ◌⊎◌, inl, inr, Bool, true, false, List, [], ◌∷◌, ◌++◌,
  max, ltb, leb, ◌==◌, if◌then◌else◌, insert, Bytes, length, replicate, to_u32, range_from,
}
use de_part.Epoch.Types.{OpType}
use de_part.Ring.State.{
  ChunkKey, chunk_key_order, BucketBlock, empty_bucket, Env, Config, Oram, Outcome, done, M, pure,
  continue, ◌>>=◌, ◌>>◌, modify, set_pos, rand_int, global_slot_id, insert_slot, aes_encrypt,
}
use de_part.Ring.Bucket.{set_bucket}
use de_part.Ring.Write.{choose_slots, dummy_cipher}
use de_part.Ring.Access.{split_chunks, access_insert, access_read, access_update}

-- The arguments that the constructor refuses by an exception.
pub data Refusal : Type 0 where
  short_block no_slots no_blocks many_dummies : Refusal

-- `ceil(log2(n))`, for `n` of 32 bits
unfoldable pub log_loop : ℕ → ℕ → ℕ → ℕ
log_loop zero h n = h
log_loop (suc fuel) h n = let more = log_loop fuel (h + 1) n in if leb n (2 ^ h) then h else more

unfoldable pub tree_height : ℕ → ℕ
unfolding log_loop
tree_height n = log_loop 32 0 n + 1

unfoldable pub configure : ℕ → ℕ → ℕ → ℕ → ℕ → Refusal ⊎ Config
unfolding tree_height
configure n buck_size block_length dummies reserve =
    if leb block_length 4
    then inl Refusal.short_block
    else if buck_size == 0
    then inl Refusal.no_slots
    else if n == 0
    then inl Refusal.no_blocks
    else if ltb buck_size dummies
    then inl Refusal.many_dummies
    else inr (record {
      height = tree_height n;
      num_leaves = 2 ^ (tree_height n - 1);
      blocks_Z = buck_size - dummies;
      dummies_S = dummies;
      bucket_size = buck_size;
      block_size = block_length;
      eviction_A = tree_height n;
      permanent_stash_reserve = reserve;
    })

-- `max(6u * height * blocks_Z, 2u * n_blocks + 50u) + permanent_stash_reserve_`
pub first_stash_limit : ℕ → Config → ℕ
first_stash_limit n config = to_u32 (
    max (to_u32 (6 * config.height * config.blocks_Z)) (to_u32 (2 * n + 50))
    + config.permanent_stash_reserve)

-- The client before the constructor's loop over the buckets; `slots` is the server's memory.
abbrev pub blank : ℕ → (ℕ → Bytes) → Oram
blank limit slots = record {
  block_chunks_pos = [];
  stash = [];
  bucket_blockdata = λ i. empty_bucket;
  round = 0;
  next_evict_G = 0;
  stash_limit = limit;
  stash_high_watermark = 0;
  slots = slots;
  draws = 0;
}

module _ (env : Env) (config : Config) where
  pub write_dummies : ℕ → List ℕ → M (Unit {0})
  unfolding dummy_cipher insert_slot global_slot_id
  write_dummies i [] = pure tt
  write_dummies i (slot ∷ slots) = do
    cipher ← dummy_cipher env config
    insert_slot env config (global_slot_id env config i slot) cipher
    write_dummies i slots

  -- One round of the constructor's loop.
  pub setup_bucket : ℕ → M (Unit {0})
  unfolding choose_slots write_dummies
  setup_bucket i = do
    ptrs ← choose_slots env config env.tries []
    write_dummies i (range_from config.bucket_size 0)
    modify (
        set_bucket i (record {
          count = 0;
          valids = replicate config.bucket_size true;
          addrs = [];
          ptrs = ptrs;
        }))

  pub setup_buckets : List ℕ → M (Unit {0})
  unfolding setup_bucket
  setup_buckets [] = pure tt
  setup_buckets (i ∷ is) = do setup_bucket i; setup_buckets is

  -- The constructor, once its arguments are accepted: `n` is the number of blocks.
  pub start : ℕ → (ℕ → Bytes) → Outcome (Unit {0} × Oram)
  unfolding setup_buckets first_stash_limit
  start n slots =
      setup_buckets (range_from (2 ^ config.height - 1) 0)
        (blank (first_stash_limit n config) slots)

  -- bulk_load_stash puts chunks into the stash past the check of its limit.
  load_chunks : ℕ → ℕ → List Bytes → M (Unit {0})
  unfolding rand_int set_pos insert
  load_chunks bid cid [] = pure tt
  load_chunks bid cid (c ∷ cs) = do
    leaf ← rand_int env config config.num_leaves
    modify (λ s. record s {
      block_chunks_pos = set_pos (bid, cid) leaf s.block_chunks_pos;
      stash = insert (bid, cid) c s.stash;
    })
    load_chunks bid (cid + 1) cs

  unfoldable pub load_records : List (ℕ × Bytes) → M (Unit {0})
  unfolding aes_encrypt split_chunks load_chunks
  load_records [] = pure tt
  load_records ((bid, plain) ∷ records) = do
    cipher ← aes_encrypt env config plain
    load_chunks bid 0 (split_chunks config.block_size (length cipher) cipher)
    load_records records

  unfoldable pub bulk_load_stash : List (ℕ × Bytes) → M (Unit {0})
  unfolding load_records
  bulk_load_stash records = do
    modify (λ s. record s {
      stash_limit =
          max s.stash_limit
            (to_u32 (to_u32 (length records) + 6 * config.height * config.blocks_Z + 50));
    })
    load_records records
    modify (λ s. record s {
      stash_high_watermark =
          if ltb s.stash_high_watermark (to_u32 (length s.stash))
          then to_u32 (length s.stash)
          else s.stash_high_watermark;
    })

  unfoldable pub get_total_slot_count : ℕ
  get_total_slot_count = to_u32 (to_u32 (2 ^ config.height - 1) * config.bucket_size)

  abbrev is_blank : List Bool → Bool
  is_blank [] = true
  is_blank (v ∷ valids) = false

  -- The bucket's metadata is made when its first slot is asked for.
  prepare_bucket : ℕ → M (Unit {0})
  unfolding choose_slots
  prepare_bucket i s =
      let fresh =
        (do
          ptrs ← choose_slots env config env.tries []
          modify (λ s'.
              set_bucket i
                (record (s'.bucket_blockdata i) {
                  count = 0;
                  valids = replicate config.bucket_size true;
                  ptrs = (s'.bucket_blockdata i).ptrs ++ ptrs;
                })
                s'))
          s in
      if is_blank (s.bucket_blockdata i).valids then fresh else done (tt, s)

  unfoldable pub generate_one_dummy_slot : ℕ → M (ℕ × Bytes)
  unfolding prepare_bucket dummy_cipher global_slot_id
  generate_one_dummy_slot slot_index = do
    prepare_bucket (slot_index / config.bucket_size)
    cipher ← dummy_cipher env config
    pure (
      global_slot_id env config (slot_index / config.bucket_size) (slot_index % config.bucket_size),
      cipher,
    )

  unfoldable pub access : ℕ → OpType → Bytes → M Bytes
  unfolding access_insert access_read access_update
  access bid OpType.insert plain = access_insert env config bid plain
  access bid OpType.read plain = access_read env config bid
  access bid OpType.update plain = access_update env config bid plain

  unfoldable pub get : ℕ → M Bytes
  unfolding access
  get key = access key OpType.read []
