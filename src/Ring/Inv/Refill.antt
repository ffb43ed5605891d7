-- ===== src/Ring/Inv/Refill.antt =====
-- WriteBucket after ReadBucket: the bucket is filled again from the stash, and the invariant is kept.
use de_part.Prelude.{
  ℕ, ◌<◌, ◌≡◌, sym, ap, subst, ◌∙◌, ◌≢◌, ◌⊎◌, inl, inr, true, false, List, [], ◌∷◌, Option, none,
  some, arith, ◌==◌, ==_iff, lookup, keys, Member-keys_iff, contains_iff, nat_key, Bytes, length,
  get_or-replicate, All, Member, Bool-cases, Option-cases, range_from, Member-range_from,
  Member-of_range,
}
use de_part.Ring.State.{
  ChunkKey, chunk_key_order, BucketBlock, Env, Config, Oram, update, global_slot_id,
}
use de_part.Ring.Path.{path}
use de_part.Ring.Path.Slots.{global_slot_id-injective}
use de_part.Ring.Bucket.{real_slot_ids}
use de_part.Ring.Write.{belongs, split_stash}
use de_part.Ring.Inv.{Sized, Inv, Held, BucketOk, entry, total, Maps}
use de_part.Ring.Inv.Entries.{find_entry-slot}
use de_part.Ring.Inv.Stash.{length-keys}
use de_part.Ring.Inv.Read.{entry_of}
use de_part.Ring.Inv.Split.{
  find_entry-real_slot_ids, find_entry-full, split_stash-length, split_stash-belongs,
  split_stash-Distinct, split_stash-lookup,
}
use de_part.Ring.Inv.Choose.{Slots}
use de_part.Ring.Inv.Fill.{Filled}
use de_part.Ring.Inv.Padding.{resize_exact}
use de_part.Ring.Inv.Rewrite.{fresh, fresh-Ok}

module _ (env : Env) (config : Config) (known : List ChunkKey) (at : ChunkKey → Option ℕ)
    (content : ChunkKey → Bytes) (sized : Sized config) (s : Oram) (i : ℕ) (hi : i < total config)
    (v : Inv env config known at content s) (maps : Maps at s)
    (reaped : (k : ChunkKey) (slot : ℕ) → entry s i k ≡ some slot → lookup k s.stash ≢ none)
    (ptrs : List ℕ) (ok : Slots config ptrs) (full : length ptrs ≡ config.blocks_Z) where
  abbrev placed : List (ChunkKey × Bytes)
  placed = (split_stash env config i s.block_chunks_pos s.stash config.blocks_Z).0

  abbrev left : List (ChunkKey × Bytes)
  left = (split_stash env config i s.block_chunks_pos s.stash config.blocks_Z).1

  abbrev bucket : BucketBlock
  bucket = fresh config (keys placed) ptrs

  abbrev real : List (ℕ × ChunkKey)
  real = real_slot_ids (keys placed) ptrs

  abbrev before : Oram
  before = record s { stash = left; bucket_blockdata = update s.bucket_blockdata i bucket }

  halves :
      (k : ChunkKey)
      → ((lookup k placed ≡ lookup k s.stash) × (lookup k left ≡ none))
        ⊎ ((lookup k placed ≡ none) × (lookup k left ≡ lookup k s.stash))
  halves k =
      split_stash-lookup env config i s.block_chunks_pos s.stash config.blocks_Z k v.stash_distinct

  placed-stash : (k : ChunkKey) (c : Bytes) → lookup k placed ≡ some c → lookup k s.stash ≡ some c
  placed-stash k c e = ground (arith, halves k)

  left-stash : (k : ChunkKey) (c : Bytes) → lookup k left ≡ some c → lookup k s.stash ≡ some c
  left-stash k c e = ground (arith, halves k)

  -- A chunk that was in the stash has an entry now, or is there still.
  settled :
      (k : ChunkKey) → lookup k s.stash ≢ none → (Member k (keys placed)) ⊎ (lookup k left ≢ none)
  settled k h = elim (halves k) [
    | inl (e, f) ↦ inl ((Member-keys_iff k placed).1 (λ g. h (sym e ∙ g)))
    | inr (e, f) ↦ inr (λ g. h (sym f ∙ g))
  ]

  placed-on_path :
      (k : ChunkKey) (leaf : ℕ)
      → Member k (keys placed)
      → at k ≡ some leaf
      → Member i (path config.height leaf)
  unfolding belongs
  placed-on_path k leaf m here =
      let b = split_stash-belongs env config i s.block_chunks_pos s.stash config.blocks_Z k m in
      let b' : belongs env config i (some leaf) ≡ true =
        subst (λ o. belongs env config i o ≡ true) (maps k ∙ here) b in
      (contains_iff (path config.height leaf) i).0 b'

  entry-placed :
      (k : ChunkKey) (slot : ℕ)
      → entry_of bucket k ≡ some slot
      → (c : Bytes) × (lookup k placed ≡ some c) × (slot < config.bucket_size)
  entry-placed k slot e =
      let (m, n, g) = find_entry-slot k bucket.valids bucket.addrs bucket.ptrs slot e in
      elim (Option-cases (lookup k placed)) [
        | inl f ↦ absurd ((Member-keys_iff k placed).0 n f)
        | inr (c, f) ↦ (c, f, ok.1 slot m)
      ]

  -- The bucket holds what has left the stash.
  placed-entry :
      (k : ChunkKey) → Member k (keys placed) → (slot : ℕ) × (entry_of bucket k ≡ some slot)
  placed-entry k m =
      find_entry-full k bucket.valids bucket.addrs bucket.ptrs
        (omega (
          arith,
          length-keys placed,
          split_stash-length env config i s.block_chunks_pos s.stash config.blocks_Z,
          full,
        ))
        (λ p n. get_or-replicate config.bucket_size p true false (ok.1 p n)) m

  bucket-Ok : BucketOk config bucket
  bucket-Ok =
      fresh-Ok config (keys placed) ptrs sized.split
        (split_stash-Distinct env config i s.block_chunks_pos s.stash config.blocks_Z
          v.stash_distinct).0
        (omega (
          arith,
          length-keys placed,
          split_stash-length env config i s.block_chunks_pos s.stash config.blocks_Z,
        ))
        ok full

  updated_self : update s.bucket_blockdata i bucket i ≡ bucket
  updated_self = ground arith

  updated_ne :
      (j : ℕ) → (j == i) ≡ false → update s.bucket_blockdata i bucket j ≡ s.bucket_blockdata j
  updated_ne j h = ground arith

  slot_in :
      (j : ℕ) (k : ChunkKey) (slot : ℕ)
      → j < total config
      → entry s j k ≡ some slot
      → slot < config.bucket_size
  slot_in j k slot hj e =
      let b = s.bucket_blockdata j in
      within b.ptrs (v.buckets j hj).ptrs_in (find_entry-slot k b.valids b.addrs b.ptrs slot e).0
    where
      within :
          (ps : List ℕ)
          → All (λ p. p < config.bucket_size) ps
          → Member slot ps
          → slot < config.bucket_size
      within [] a n = absurd n
      within (p ∷ ps) (h, a) (inl e') = omega arith
      within (p ∷ ps) (h, a) (inr n) = within ps a n

  injective :
      (a b x y : ℕ)
      → a < total config
      → b < total config
      → x < config.bucket_size
      → y < config.bucket_size
      → global_slot_id env config a x ≡ global_slot_id env config b y
      → (a ≡ b) × (x ≡ y)
  injective a b x y ha hb hx hy e =
      global_slot_id-injective env config (total config) sized.fits (omega (arith, sized.wide)) a b
        x y ha hb hx hy e

  abbrev after : (ℕ → Bytes) → ℕ → Oram
  after server n = record before { slots = server; draws = n }

  module _ (u : Oram)
      (f : Filled env config i real placed before u (range_from config.bucket_size 0)) where
    own_content :
        (k : ChunkKey) (slot : ℕ)
        → entry_of bucket k ≡ some slot
        → (f.server (global_slot_id env config i slot) ≡ content k)
          × (leaf : ℕ) × (at k ≡ some leaf)
          × Member i (path config.height leaf)
    own_content k slot e =
        let (c, p, lt) = entry-placed k slot e in
        let (same, leaf, here) = v.stash_content k c (placed-stash k c p) in
        let size : length c ≡ config.block_size = ap length same ∙ (v.placed k leaf here).2 in
        let sent =
          f.written slot k c (Member-of_range config.bucket_size 0 slot (omega arith) (omega arith))
            (find_entry-real_slot_ids bucket.addrs bucket.ptrs bucket.valids slot k ok.0 e) p in
        (
          sent ∙ resize_exact config.block_size c size ∙ same,
          leaf,
          here,
          placed-on_path k leaf (find_entry-slot k bucket.valids bucket.addrs bucket.ptrs slot e).1
              here,
        )

    other_content :
        (j : ℕ) (k : ChunkKey) (slot : ℕ)
        → j < total config
        → (j == i) ≡ false
        → entry s j k ≡ some slot
        → f.server (global_slot_id env config j slot) ≡ s.slots (global_slot_id env config j slot)
    other_content j k slot hj ne e = f.others (global_slot_id env config j slot) (λ x m h.
        apart
          (injective j i slot x hj hi (slot_in j k slot hj e)
            (omega (arith, Member-range_from config.bucket_size 0 x m)) h).0)
      where
        apart : j ≡ i → ⊥
        apart h = ground (arith, h)

    Held-after :
        (k : ChunkKey) (leaf : ℕ)
        → at k ≡ some leaf
        → Held config s k leaf
        → Held config (after f.server f.drawn) k leaf
    Held-after k leaf here h = elim (Option-cases (lookup k s.stash)) [
      | inr (c, e) ↦ in_stash (λ g. gone (lookup k s.stash) c g e)
      | inl e ↦ in_tree e h
    ]
      where
        gone : (o : Option Bytes) (c : Bytes) → o ≡ none → o ≡ some c → ⊥
        gone o c g e = cc

        in_stash : lookup k s.stash ≢ none → Held config (after f.server f.drawn) k leaf
        in_stash h' = elim (settled k h') [
          | inr l ↦ inl l
          | inl m ↦
              let (slot, e) = placed-entry k m in
              inr (
                i,
                placed-on_path k leaf m here,
                slot,
                subst (λ b. entry_of b k ≡ some slot) (sym updated_self) e,
              )
        ]

        in_tree :
            lookup k s.stash ≡ none
            → Held config s k leaf
            → Held config (after f.server f.drawn) k leaf
        in_tree e (inl n) = absurd (n e)
        in_tree e (inr (j, m, slot, g)) = elim (Bool-cases (j == i)) [
          | inl b ↦
              in_stash (reaped k slot (subst (λ x. entry s x k ≡ some slot) ((==_iff j i).0 b) g))
          | inr b ↦ inr (j, m, slot, subst (λ x. entry_of x k ≡ some slot) (sym (updated_ne j b)) g)
        ]

    pub refilled-Inv : Inv env config known at content (after f.server f.drawn)
    refilled-Inv = record {
      room = v.room;
      small = v.small;
      placed = v.placed;
      stash_distinct =
          (split_stash-Distinct env config i s.block_chunks_pos s.stash config.blocks_Z
            v.stash_distinct).1;
      stash_content = λ k c e. v.stash_content k c (left-stash k c e);
      tree_content = λ j k slot hj e. tree j k slot hj (Bool-cases (j == i)) e;
      held = λ k leaf e. Held-after k leaf e (v.held k leaf e);
      buckets = λ j hj. okay j hj (Bool-cases (j == i));
    }
      where
        tree :
            (j : ℕ) (k : ChunkKey) (slot : ℕ)
            → j < total config
            → (((j == i) ≡ true) ⊎ ((j == i) ≡ false))
            → entry_of (update s.bucket_blockdata i bucket j) k ≡ some slot
            → (f.server (global_slot_id env config j slot) ≡ content k)
              × (leaf : ℕ) × (at k ≡ some leaf)
              × Member j (path config.height leaf)
        tree j k slot hj (inl b) e =
            let same : j ≡ i = (==_iff j i).0 b in
            let e' : entry_of bucket k ≡ some slot =
              subst (λ x. entry_of x k ≡ some slot) updated_self
                (subst (λ x. entry_of (update s.bucket_blockdata i bucket x) k ≡ some slot) same
                  e) in
            subst
              (λ x.
                (f.server (global_slot_id env config x slot) ≡ content k)
                × (leaf : ℕ) × (at k ≡ some leaf)
                × Member x (path config.height leaf))
              (sym same) (own_content k slot e')
        tree j k slot hj (inr b) e =
            let e' : entry s j k ≡ some slot =
              subst (λ x. entry_of x k ≡ some slot) (updated_ne j b) e in
            let t = v.tree_content j k slot hj e' in
            (other_content j k slot hj b e' ∙ t.0, t.1, t.2, t.3)

        okay :
            (j : ℕ)
            → j < total config
            → (((j == i) ≡ true) ⊎ ((j == i) ≡ false))
            → BucketOk config (update s.bucket_blockdata i bucket j)
        okay j hj (inl b) =
            subst (λ x. BucketOk config (update s.bucket_blockdata i bucket x))
              (sym ((==_iff j i).0 b)) (subst (BucketOk config) (sym updated_self) bucket-Ok)
        okay j hj (inr b) = subst (BucketOk config) (sym (updated_ne j b)) (v.buckets j hj)
