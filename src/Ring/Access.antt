-- ===== src/Ring/Access.antt =====
-- src/RingORAM.cpp: the constructor, access, get and bulk_load_stash.
use de_part.Prelude.{
  ℕ, zero, suc, ◌+◌, ◌%◌, List, [], ◌∷◌, ◌++◌, none, some, ◌==◌, if◌then◌else◌, lookup, insert,
  Bytes, length, take, drop, nat_key,
}
use de_part.Ring.State.{
  ChunkKey, chunk_key_order, Env, Config, Oram, done, M, pure, ◌>>=◌, ◌>>◌, modify, chunks_of,
  set_pos, resize, rand_int, aes_encrypt, stash_insert,
}
use de_part.Ring.Bucket.{read_path}
use de_part.Ring.Write.{early_reshuffle, evict_path}

-- The loop that cuts a cipher text into chunks of `size` bytes, the last one padded. Each round
-- takes at least one byte, so the length is enough fuel.
unfoldable pub split_chunks : ℕ → ℕ → Bytes → List Bytes
unfolding resize
split_chunks size zero cipher = []
split_chunks size (suc fuel) [] = []
split_chunks size (suc fuel) (b ∷ cipher) =
    resize size (take size (b ∷ cipher)) ∷ split_chunks size fuel (drop size (b ∷ cipher))

abbrev pub concat : List Bytes → Bytes
concat [] = []
concat (c ∷ cs) = c ++ concat cs

module _ (env : Env) (config : Config) where
  -- A chunk gets a random path and goes to the stash.
  unfoldable pub insert_chunk : ChunkKey → Bytes → M (Unit {0})
  unfolding rand_int set_pos stash_insert
  insert_chunk k chunk = do
    leaf ← rand_int env config config.num_leaves
    modify (λ s. record s { block_chunks_pos = set_pos k leaf s.block_chunks_pos })
    stash_insert env config k chunk

  unfoldable pub insert_chunks : ℕ → ℕ → List Bytes → M (Unit {0})
  unfolding insert_chunk
  insert_chunks bid cid [] = pure tt
  insert_chunks bid cid (c ∷ cs) = do insert_chunk (bid, cid) c; insert_chunks bid (cid + 1) cs

  -- Encrypt, split, and put every chunk into the stash.
  unfoldable pub put_block : ℕ → Bytes → M (Unit {0})
  unfolding insert_chunks split_chunks aes_encrypt
  put_block bid plain = do
    cipher ← aes_encrypt env config plain
    insert_chunks bid 0 (split_chunks config.block_size (length cipher) cipher)

  -- `round = (round + 1) % A; if (round == 0) EvictPath();`
  unfoldable pub next_round : M (Unit {0})
  unfolding evict_path
  next_round s =
      let round' = (s.round + 1) % config.eviction_A in
      let s' : Oram = record s { round = round' } in
      if round' == 0 then evict_path env config s' else done (tt, s')

  -- `stash[{block_id, chunk_id}]`: an absent entry is made, with the empty string.
  unfoldable pub take_stash : ChunkKey → M Bytes
  unfolding lookup insert
  take_stash k s = elim (lookup k s.stash) [
    | some cipher ↦ done (cipher, s)
    | none ↦ done ([], record s { stash = insert k [] s.stash })
  ]

  abbrev pub in_stash_if_empty : ChunkKey → Bytes → M Bytes
  in_stash_if_empty k [] = take_stash k
  in_stash_if_empty k (b ∷ bs) = pure (b ∷ bs)

  -- One chunk of a read: a new path for it, the old path is read, and its buckets are reshuffled.
  unfoldable pub access_chunk : ChunkKey → ℕ → M Bytes
  unfolding rand_int set_pos read_path take_stash early_reshuffle
  access_chunk k leaf = do
    new_leaf ← rand_int env config config.num_leaves
    modify (λ s. record s { block_chunks_pos = set_pos k new_leaf s.block_chunks_pos })
    found ← read_path env config leaf k
    corres_data ← in_stash_if_empty k found
    early_reshuffle env config leaf
    pure corres_data

  unfoldable pub access_chunks : ℕ → List (ℕ × ℕ) → M (List Bytes)
  unfolding access_chunk
  access_chunks bid [] = pure []
  access_chunks bid ((cid, leaf) ∷ chunks) = do
    c ← access_chunk (bid, cid) leaf
    cs ← access_chunks bid chunks
    pure (c ∷ cs)

  -- Util::aes_decrypt
  unfoldable pub aes_decrypt : Bytes → Bytes
  aes_decrypt cipher = env.decrypt (take 16 cipher) (drop 16 cipher)

  -- The operations of `access`; the log of misses is left out. An unknown block gives the empty
  -- string and changes nothing.
  unfoldable pub access_insert : ℕ → Bytes → M Bytes
  unfolding put_block next_round
  access_insert bid plain = do put_block bid plain; next_round; pure []

  abbrev pub or_unknown : List (ℕ × ℕ) → (List (ℕ × ℕ) → M Bytes) → M Bytes
  or_unknown [] f = pure []
  or_unknown (c ∷ cs) f = f (c ∷ cs)

  unfoldable pub access_read : ℕ → M Bytes
  unfolding access_chunks aes_decrypt lookup
  access_read bid s =
      or_unknown (chunks_of (lookup bid s.block_chunks_pos))
        (λ chunks. do data' ← access_chunks bid chunks; pure (aes_decrypt (concat data'))) s

  unfoldable pub access_update : ℕ → Bytes → M Bytes
  unfolding access_chunks put_block next_round lookup
  access_update bid plain s =
      or_unknown (chunks_of (lookup bid s.block_chunks_pos))
        (λ chunks. do access_chunks bid chunks >>= λ _. put_block bid plain; next_round; pure []) s
