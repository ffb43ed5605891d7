-- ===== src/Ring/State.antt =====
-- include/RingORAM.h: the client's state, with the server's slots that NetIOConnector reaches. What
-- the program takes from CryptoPP and from its random generators is the record Env.
use de_part.Prelude.{
  ℕ, ◌+◌, ◌*◌, ◌%◌, Bool, List, [], ◌++◌, Option, none, some, ltb, ◌==◌, if◌then◌else◌, lookup,
  insert, Key, pair_key, nat_key, Bytes, length, take, replicate, to_u32,
}

-- <block_id, chunk_id>
abbrev pub ChunkKey : Type 0
ChunkKey = ℕ × ℕ

instance abbrev pub chunk_key_order : Key ChunkKey
chunk_key_order = pair_key

-- `leaves` of the source's struct is never used.
pub record BucketBlock : Type 0 where
  pub count : ℕ
  pub valids : List Bool
  pub addrs : List ChunkKey
  pub ptrs : List ℕ

abbrev pub empty_bucket : BucketBlock
empty_bucket = record { count = 0; valids = []; addrs = []; ptrs = [] }

-- Draws of the random generators, in the order in which the program makes them: `coins n` is the
-- n-th number, reduced to a range where it is used; `ivs n` and `noise n` are the n-th IV and the n-th random block.
-- `encrypt iv` and `decrypt iv` are ProcessData of AES in CFB mode under the ORAM's key. `tries` bounds how
-- often a rejection loop draws.
pub record Env : Type 0 where
  pub coins : ℕ → ℕ
  pub ivs : ℕ → Bytes
  pub noise : ℕ → ℕ → Bytes
  pub encrypt : Bytes → Bytes → Bytes
  pub decrypt : Bytes → Bytes → Bytes
  pub tries : ℕ

-- The fields of RingORAM that its constructor fixes.
pub record Config : Type 0 where
  pub height : ℕ
  pub num_leaves : ℕ
  pub blocks_Z : ℕ
  pub dummies_S : ℕ
  pub bucket_size : ℕ
  pub block_size : ℕ
  pub eviction_A : ℕ
  pub permanent_stash_reserve : ℕ

pub record Oram : Type 0 where
  pub block_chunks_pos : List (ℕ × List (ℕ × ℕ))
  pub stash : List (ChunkKey × Bytes)
  pub bucket_blockdata : ℕ → BucketBlock
  pub round : ℕ
  pub next_evict_G : ℕ
  pub stash_limit : ℕ
  pub stash_high_watermark : ℕ
  pub slots : ℕ → Bytes
  pub draws : ℕ

-- `no_dummy` is the exit(1) of GetBlockOffset, `stash_overflow` and `oversized` are aborts, and
-- `starved` means that a rejection loop drew `tries` times and still lacks slots.
pub data Fault : Type 0 where
  no_dummy stash_overflow oversized starved : Fault

pub data Outcome {ℓ} (A : Type ℓ) : Type ℓ where
  done : A → Outcome A
  fault : Fault → Outcome A

abbrev pub M : Type 0 → Type 0
M A = Oram → Outcome (A × Oram)

abbrev pub pure : {A : Type 0} → A → M A
pure a s = done (a, s)

abbrev pub continue : {A B : Type 0} → Outcome (A × Oram) → (A → M B) → Outcome (B × Oram)
continue (done (a, s)) f = f a s
continue (fault e) f = fault e

infixl 5 ◌>>=◌ ◌>>◌
abbrev pub ◌>>=◌ : {A B : Type 0} → M A → (A → M B) → M B
◌>>=◌ m f s = continue (m s) f

abbrev pub ◌>>◌ : {B : Type 0} → M (Unit {0}) → M B → M B
m >> k = m >>= λ _. k

abbrev pub modify : (Oram → Oram) → M (Unit {0})
modify f s = done (tt, f s)

abbrev pub update {ℓ} : {A : Type ℓ} → (ℕ → A) → ℕ → A → ℕ → A
update f i v j = if i == j then v else f j

-- `block_chunks_pos.find(bid)`, then `find(cid)`
abbrev pub find_chunk : ℕ → Option (List (ℕ × ℕ)) → Option ℕ
find_chunk cid none = none
find_chunk cid (some chunks) = lookup cid chunks

unfoldable pub find_pos : ChunkKey → List (ℕ × List (ℕ × ℕ)) → Option ℕ
unfolding lookup
find_pos (bid, cid) pos = find_chunk cid (lookup bid pos)

abbrev pub chunks_of : Option (List (ℕ × ℕ)) → List (ℕ × ℕ)
chunks_of none = []
chunks_of (some chunks) = chunks

-- `block_chunks_pos[bid][cid] = leaf`
unfoldable pub set_pos : ChunkKey → ℕ → List (ℕ × List (ℕ × ℕ)) → List (ℕ × List (ℕ × ℕ))
unfolding lookup insert
set_pos (bid, cid) leaf pos = insert bid (insert cid leaf (chunks_of (lookup bid pos))) pos

-- `s.resize(n, '\0')`
unfoldable pub resize : ℕ → Bytes → Bytes
resize n xs = take n (xs ++ replicate n 0)

module _ (env : Env) (config : Config) where
  -- uniform_int_distribution(0, n - 1)
  unfoldable pub rand_int : ℕ → M ℕ
  rand_int n s = done (env.coins s.draws % n, record s { draws = s.draws + 1 })

  -- `bucket_idx * bucket_size * block_size + slot * block_size`, on uint32_t
  unfoldable pub global_slot_id : ℕ → ℕ → ℕ
  global_slot_id bucket_idx slot =
      to_u32 (bucket_idx * config.bucket_size * config.block_size + slot * config.block_size)

  -- The server keeps what it is sent, padded or cut to the block size.
  unfoldable pub insert_slot : ℕ → Bytes → M (Unit {0})
  unfolding resize
  insert_slot id cipher s =
      done (tt, record s { slots = update s.slots id (resize config.block_size cipher) })

  unfoldable pub find_slot : ℕ → M Bytes
  find_slot id s = done (s.slots id, s)

  -- Util::aes_encrypt: a fresh IV, then the stream; Util::aes_decrypt cuts the IV off again.
  unfoldable pub aes_encrypt : Bytes → M Bytes
  aes_encrypt plain s =
      let iv = env.ivs s.draws in
      done (iv ++ env.encrypt iv plain, record s { draws = s.draws + 1 })

  unfoldable pub stash_insert : ChunkKey → Bytes → M (Unit {0})
  unfolding insert
  stash_insert k cipher s =
      let stash' = insert k cipher s.stash in
      let cur = to_u32 (length stash') in
      let s' : Oram = record s {
        stash = stash';
        stash_high_watermark =
            if ltb s.stash_high_watermark cur then cur else s.stash_high_watermark;
      } in
      if ltb s.stash_limit cur then fault Fault.stash_overflow else done (tt, s')
