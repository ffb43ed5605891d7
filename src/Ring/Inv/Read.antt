-- ===== src/Ring/Inv/Read.antt =====
-- ReadPath keeps the invariant: it finds a slot in every bucket, and moves the block to the stash.
use de_part.Prelude.{
  ℕ, ◌+◌, ◌<◌, ◌≡◌, sym, ap, subst, ◌∙◌, ◌≢◌, ◌⊎◌, inl, inr, true, false, List, Option, none, some,
  arith, ◌==◌, ==_iff, lookup, Bytes, length, length-set, set, Member, Bool-cases,
}
use de_part.Ring.State.{ChunkKey, chunk_key_order, BucketBlock, Env, Config, Oram, update}
use de_part.Ring.Bucket.{find_entry}
use de_part.Ring.Inv.{Inv, Held, BucketOk, entry, total}
use de_part.Ring.Inv.Entries.{dummy_slots-invalid, dummy_slots-invalid_real}

abbrev pub entry_of : BucketBlock → ChunkKey → Option ℕ
entry_of b k = find_entry k b.valids b.addrs b.ptrs

-- The bucket after a read of one of its slots.
abbrev touched : ℕ → BucketBlock → BucketBlock
touched slot b = record b { valids = set b.valids slot false; count = b.count + 1 }

pub touched_real-Ok :
    (config : Config) (b : BucketBlock) (slot : ℕ)
    → Member slot b.ptrs
    → BucketOk config b
    → BucketOk config (touched slot b)
touched_real-Ok config b slot m ok = record {
  valids_length = length-set b.valids slot false ∙ ok.valids_length;
  ptrs_length = ok.ptrs_length;
  ptrs_in = ok.ptrs_in;
  ptrs_distinct = ok.ptrs_distinct;
  addrs_distinct = ok.addrs_distinct;
  addrs_length = ok.addrs_length;
  dummies = omega (
    arith,
    ok.dummies,
    ap length (dummy_slots-invalid_real config.bucket_size b.ptrs b.valids slot m),
  );
}

pub touched_dummy-Ok :
    (config : Config) (b : BucketBlock) (slot : ℕ)
    → BucketOk config b
    → BucketOk config (touched slot b)
touched_dummy-Ok config b slot ok = record {
  valids_length = length-set b.valids slot false ∙ ok.valids_length;
  ptrs_length = ok.ptrs_length;
  ptrs_in = ok.ptrs_in;
  ptrs_distinct = ok.ptrs_distinct;
  addrs_distinct = ok.addrs_distinct;
  addrs_length = ok.addrs_length;
  dummies = omega (arith, ok.dummies, dummy_slots-invalid config.bucket_size b.ptrs b.valids slot);
}

-- The buckets after a read of `slot` in bucket `i`, as the code writes them.
abbrev pub touch : Oram → ℕ → ℕ → ℕ → BucketBlock
touch s i slot =
    let g =
      update s.bucket_blockdata i
        (record (s.bucket_blockdata i) { valids = set (s.bucket_blockdata i).valids slot false }) in
    update g i (record (g i) { count = (g i).count + 1 })

pub touch_self : (s : Oram) (i slot : ℕ) → touch s i slot i ≡ touched slot (s.bucket_blockdata i)
touch_self s i slot = ground arith

pub touch_ne : (s : Oram) (i slot j : ℕ) → j ≢ i → touch s i slot j ≡ s.bucket_blockdata j
touch_ne s i slot j h = ground arith

module _ (env : Env) (config : Config) (known : List ChunkKey) (at : ChunkKey → Option ℕ)
    (content : ChunkKey → Bytes) where
  -- One bucket's metadata may change as long as its entries only go where the stash has them.
  pub Inv-set_bucket :
      (s : Oram) (g : ℕ → BucketBlock) (n i : ℕ)
      → ((j : ℕ) → j ≢ i → g j ≡ s.bucket_blockdata j)
      → ((k : ChunkKey) (slot : ℕ) → entry_of (g i) k ≡ some slot → entry s i k ≡ some slot)
      → ((k : ChunkKey) (slot : ℕ)
          → entry s i k ≡ some slot
          → (entry_of (g i) k ≡ some slot) ⊎ (lookup k s.stash ≢ none))
      → BucketOk config (g i)
      → Inv env config known at content s
      → Inv env config known at content (record s { bucket_blockdata = g; draws = n })
  Inv-set_bucket s g n i others kept lost ok v = record {
    room = v.room;
    small = v.small;
    placed = v.placed;
    stash_distinct = v.stash_distinct;
    stash_content = v.stash_content;
    tree_content =
        λ j k slot hj e. v.tree_content j k slot hj (old j k slot e (Bool-cases (j == i)));
    held = λ k leaf e. still k leaf (v.held k leaf e);
    buckets = λ j hj. okay j hj (Bool-cases (j == i));
  }
    where
      old :
          (j : ℕ) (k : ChunkKey) (slot : ℕ)
          → entry_of (g j) k ≡ some slot
          → (((j == i) ≡ true) ⊎ ((j == i) ≡ false))
          → entry s j k ≡ some slot
      old j k slot e (inl b) =
          let same : j ≡ i = (==_iff j i).0 b in
          subst (λ x. entry s x k ≡ some slot) (sym same)
            (kept k slot (subst (λ x. entry_of (g x) k ≡ some slot) same e))
      old j k slot e (inr b) = subst (λ x. entry_of x k ≡ some slot) (others j (ground arith)) e

      still :
          (k : ChunkKey) (leaf : ℕ)
          → Held config s k leaf
          → Held config (record s { bucket_blockdata = g; draws = n }) k leaf
      still k leaf (inl h) = inl h
      still k leaf (inr (j, m, slot, e)) = elim (Bool-cases (j == i)) [
        | inl b ↦
            let same : j ≡ i = (==_iff j i).0 b in
            elim (lost k slot (subst (λ x. entry s x k ≡ some slot) same e)) [
              | inl f ↦ inr (j, m, slot, subst (λ x. entry_of (g x) k ≡ some slot) (sym same) f)
              | inr h ↦ inl h
            ]
        | inr b ↦
            inr
              (j, m, slot, subst (λ x. entry_of x k ≡ some slot) (sym (others j (ground arith))) e)
      ]

      okay :
          (j : ℕ)
          → j < total config
          → (((j == i) ≡ true) ⊎ ((j == i) ≡ false))
          → BucketOk config (g j)
      okay j hj (inl b) = subst (λ x. BucketOk config (g x)) (sym ((==_iff j i).0 b)) ok
      okay j hj (inr b) = subst (BucketOk config) (sym (others j (ground arith))) (v.buckets j hj)

  -- Positions and counters are not part of the invariant.
  pub Inv-frame :
      (s : Oram) (pos : List (ℕ × List (ℕ × ℕ))) (round next_evict_G n : ℕ)
      → Inv env config known at content s
      → Inv env config known at content (record s {
        block_chunks_pos = pos;
        round = round;
        next_evict_G = next_evict_G;
        draws = n;
      })
  Inv-frame s pos round next_evict_G n v = record {
    room = v.room;
    small = v.small;
    placed = v.placed;
    stash_distinct = v.stash_distinct;
    stash_content = v.stash_content;
    tree_content = v.tree_content;
    held = v.held;
    buckets = v.buckets;
  }
