-- ===== src/Ring/Inv.antt =====
-- The invariant of the Ring ORAM's client: where each chunk of each block can be found, and that no
-- read meets a bucket without a dummy to give.
pub mod Entries
pub mod Stash
pub mod Read
pub mod Node
pub mod Trip
pub mod Split
pub mod Choose
pub mod Reap
pub mod Padding
pub mod Fill
pub mod Rewrite
pub mod Refill
pub mod Reshuffle
pub mod RewriteAll
pub mod Evict
pub mod Chunk
pub mod Block
pub mod Put
pub mod PutAll
use de_part.Prelude.{
  ℕ, ◌+◌, ◌-◌, ◌*◌, ◌%◌, ◌^◌, ◌≤◌, ◌<◌, ◌≡◌, ◌≢◌, ◌⊎◌, Bool, true, false, List, [], ◌∷◌, ◌++◌,
  Option, none, some, lookup, keys, Bytes, length, u32_mod, Member, Distinct, All,
}
use de_part.Ring.State.{
  ChunkKey, chunk_key_order, BucketBlock, Env, Config, Oram, Outcome, done, fault, M, continue,
  find_pos, global_slot_id,
}
use de_part.Ring.Path.{path}
use de_part.Ring.Bucket.{find_entry, dummy_slots}

-- The run ends without a fault, in a state and with a result that satisfy `P`.
abbrev pub Ensures : {A : Type 0} → Outcome (A × Oram) → (A → Oram → Type 0) → Type 0
Ensures (done (a, s)) P = P a s
Ensures (fault e) P = ⊥

pub Ensures-bind :
    {A B : Type 0} (r : Outcome (A × Oram)) (f : A → M B) (Q : A → Oram → Type 0)
    (P : B → Oram → Type 0)
    → Ensures r Q
    → ((a : A) (s : Oram) → Q a s → Ensures (f a s) P)
    → Ensures (continue r f) P
Ensures-bind (done (a, s)) f Q P h k = k a s h
Ensures-bind (fault e) f Q P h k = absurd h

pub Ensures-mono :
    {A : Type 0} (r : Outcome (A × Oram)) (Q P : A → Oram → Type 0)
    → Ensures r Q
    → ((a : A) (s : Oram) → Q a s → P a s)
    → Ensures r P
Ensures-mono (done (a, s)) Q P h k = k a s h
Ensures-mono (fault e) Q P h k = absurd h

-- What the constructor computes from its arguments, for a tree whose bytes fit 32 bits.
pub record Sized (config : Config) : Type 0 where
  pub tall : 1 ≤ config.height
  pub leaves : config.num_leaves ≡ 2 ^ (config.height - 1)
  pub split : config.bucket_size ≡ config.blocks_Z + config.dummies_S
  pub some_dummy : 1 ≤ config.dummies_S
  pub wide : 20 ≤ config.block_size
  pub fits : (2 ^ config.height - 1) * config.bucket_size * config.block_size ≤ u32_mod
  pub evicts : 1 ≤ config.eviction_A

-- What the code relies on outside itself: a stream cipher keeps lengths and is undone by its
-- inverse, whatever follows; an IV has 16 bytes, a random block the length asked for; and `tries`
-- draws in a row show every slot of a bucket.
pub record Lawful (env : Env) (bucket_size : ℕ) : Type 0 where
  pub length-encrypt : (iv plain : Bytes) → length (env.encrypt iv plain) ≡ length plain
  pub decrypt-encrypt :
      (iv plain rest : Bytes)
      → (tail : Bytes) × (env.decrypt iv (env.encrypt iv plain ++ rest) ≡ plain ++ tail)
        × (length tail ≡ length rest)
  pub length-iv : (n : ℕ) → length (env.ivs n) ≡ 16
  pub length-noise : (n len : ℕ) → length (env.noise n len) ≡ len
  pub fair :
      (n slot : ℕ)
      → slot < bucket_size
      → (k : ℕ) × (k < env.tries) × (env.coins (n + k) % bucket_size ≡ slot)

-- A bucket's metadata: Z distinct real slots, distinct blocks, and dummies enough for the reads that
-- are left before a reshuffle.
pub record BucketOk (config : Config) (b : BucketBlock) : Type 0 where
  pub valids_length : length b.valids ≡ config.bucket_size
  pub ptrs_length : length b.ptrs ≡ config.blocks_Z
  pub ptrs_in : All (λ p. p < config.bucket_size) b.ptrs
  pub ptrs_distinct : Distinct b.ptrs
  pub addrs_distinct : Distinct b.addrs
  pub addrs_length : length b.addrs ≤ config.blocks_Z
  pub dummies : config.dummies_S ≤ length (dummy_slots config.bucket_size b.ptrs b.valids) + b.count

abbrev pub total : Config → ℕ
total config = 2 ^ config.height - 1

abbrev pub entry : Oram → ℕ → ChunkKey → Option ℕ
entry s i k =
    find_entry k (s.bucket_blockdata i).valids (s.bucket_blockdata i).addrs
      (s.bucket_blockdata i).ptrs

-- The chunk is in the stash, or is a valid entry of a bucket on the path to the leaf.
abbrev pub Held : Config → Oram → ChunkKey → ℕ → Type 0
Held config s k leaf =
    (lookup k s.stash ≢ none)
    ⊎ ((i : ℕ) × Member i (path config.height leaf) × (slot : ℕ) × (entry s i k ≡ some slot))

-- `known` holds every chunk that was ever inserted, `at` gives the leaf under which a chunk is kept,
-- and `content` its bytes.
pub record Inv (env : Env) (config : Config) (known : List ChunkKey) (at : ChunkKey → Option ℕ)
    (content : ChunkKey → Bytes) (s : Oram) : Type 0 where
  pub room : length known ≤ s.stash_limit
  pub small : length known < u32_mod
  pub placed :
      (k : ChunkKey) (leaf : ℕ)
      → at k ≡ some leaf
      → Member k known × (leaf < config.num_leaves) × (length (content k) ≡ config.block_size)
  pub stash_distinct : Distinct (keys s.stash)
  pub stash_content :
      (k : ChunkKey) (v : Bytes)
      → lookup k s.stash ≡ some v
      → (v ≡ content k) × (leaf : ℕ) × (at k ≡ some leaf)
  pub tree_content :
      (i : ℕ) (k : ChunkKey) (slot : ℕ)
      → i < total config
      → entry s i k ≡ some slot
      → (s.slots (global_slot_id env config i slot) ≡ content k)
        × (leaf : ℕ) × (at k ≡ some leaf)
        × Member i (path config.height leaf)
  pub held : (k : ChunkKey) (leaf : ℕ) → at k ≡ some leaf → Held config s k leaf
  pub buckets : (i : ℕ) → i < total config → BucketOk config (s.bucket_blockdata i)

-- Between two operations every bucket has been read less than S times since it was written.
abbrev pub Ready : Config → Oram → Type 0
Ready config s = (i : ℕ) → i < total config → (s.bucket_blockdata i).count < config.dummies_S

-- The position map is what `at` says.
abbrev pub Maps : (ChunkKey → Option ℕ) → Oram → Type 0
Maps at s = (k : ChunkKey) → find_pos k s.block_chunks_pos ≡ at k
