-- ===== src/Ring/Inv/Node.antt =====
-- One bucket of ReadPath: the block leaves the bucket for the stash, or a dummy is spent.
use native.Mathlib.Nat.{mod-lt}
use de_part.Prelude.{
  ℕ, zero, suc, ◌+◌, ◌%◌, ◌<◌, ◌≡◌, refl, sym, ap, subst, ◌∙◌, ◌≢◌, ◌⊎◌, inl, inr, true, false,
  List, [], ◌∷◌, Option, none, some, arith, ltb, lookup, lookup-insert, insert, ◌=?◌, Bytes, length,
  get_or, to_u32, Member, Bool-cases, Option-cases,
}
use de_part.Ring.State.{
  ChunkKey, chunk_key_order, Env, Config, Oram, done, global_slot_id, find_slot, stash_insert,
}
use de_part.Ring.Bucket.{dummy_slots, get_block_offset, count_access, read_node}
use de_part.Ring.Inv.{Ensures, Inv, BucketOk, entry, total}
use de_part.Ring.Inv.Entries.{
  find_entry-slot, find_entry-invalid_self, find_entry-invalid_ne, find_entry-invalid_dummy,
  dummy_slots-Member,
}
use de_part.Ring.Inv.Stash.{stashed, stashed-Inv, stash_fits}
use de_part.Ring.Inv.Read.{
  entry_of, touched_real-Ok, touched_dummy-Ok, Inv-set_bucket, touch, touch_self, touch_ne,
}

read_node_real :
    (env : Env) (config : Config) (i : ℕ) (k : ChunkKey) (found : Bytes) (s : Oram) (slot : ℕ)
    (c : Bytes)
    → entry s i k ≡ some slot
    → s.slots (global_slot_id env config i slot) ≡ c
    → ltb s.stash_limit (to_u32 (length (insert k c s.stash))) ≡ false
    → read_node env config i k found s
      ≡ done (c, record (stashed k c s) { bucket_blockdata = touch s i slot })
unfolding read_node get_block_offset count_access find_slot stash_insert
read_node_real env config i k found s slot c e h fits =
    rw (e, read_node, get_block_offset, h, fits, stash_insert)

read_node_dummy :
    (env : Env) (config : Config) (i : ℕ) (k : ChunkKey) (found : Bytes) (s : Oram) (d : ℕ)
    (ds : List ℕ)
    → entry s i k ≡ none
    → dummy_slots config.bucket_size (s.bucket_blockdata i).ptrs (s.bucket_blockdata i).valids
      ≡ d ∷ ds
    → read_node env config i k found s
      ≡ done (
        found,
        record s {
          bucket_blockdata = touch s i (get_or (d ∷ ds) (env.coins s.draws % length (d ∷ ds)) 0);
          draws = s.draws + 1;
        },
      )
unfolding read_node get_block_offset count_access find_slot
read_node_dummy env config i k found s d ds e h = rw (e, h, read_node, get_block_offset)

Member-get_or : (xs : List ℕ) (i : ℕ) → i < length xs → Member (get_or xs i 0) xs
Member-get_or [] i h = absurd (omega arith)
Member-get_or (x ∷ xs) zero h = inl refl
Member-get_or (x ∷ xs) (suc i) h = inr (Member-get_or xs i (omega arith))

module _ (env : Env) (config : Config) (known : List ChunkKey) (at : ChunkKey → Option ℕ)
    (content : ChunkKey → Bytes) where
  -- What a read of the buckets `seen` for the chunk `k` does.
  pub record Reading (k : ChunkKey) (s s' : Oram) (seen : List ℕ) (found : Bytes) : Type 0 where
    pub inv : Inv env config known at content s'
    pub gone : (i : ℕ) → Member i seen → entry s' i k ≡ none
    pub others : (j : ℕ) → (¬ Member j seen) → s'.bucket_blockdata j ≡ s.bucket_blockdata j
    pub counts :
        (j : ℕ) → Member j seen → (s'.bucket_blockdata j).count ≡ (s.bucket_blockdata j).count + 1
    pub positions : s'.block_chunks_pos ≡ s.block_chunks_pos
    pub answer : (found ≡ []) ⊎ (found ≡ content k)

  Reading-real :
      (s : Oram) (i : ℕ) (k : ChunkKey) (slot leaf : ℕ)
      → i < total config
      → at k ≡ some leaf
      → entry s i k ≡ some slot
      → Inv env config known at content s
      → Reading k s
          (record (stashed k (content k) s) { bucket_blockdata = touch s i slot })
          (i ∷ [])
          (content k)
  Reading-real s i k slot leaf hi here e v =
      let ok = v.buckets i hi in
      let b = s.bucket_blockdata i in
      let at_i = touch_self s i slot in
      let m = find_entry-slot k b.valids b.addrs b.ptrs slot e in
      record {
        inv =
            Inv-set_bucket env config known at content (stashed k (content k) s) (touch s i slot)
              s.draws i (λ j h. touch_ne s i slot j h) (λ j sl f. back j sl f (Bool-cases (j =? k)))
              (λ j sl f. lost j sl f (Bool-cases (j =? k)))
              (subst (BucketOk config) (sym at_i) (touched_real-Ok config b slot m.0 ok))
              (stashed-Inv env config known at content s k leaf here v);
        gone = λ j mj. seen j mj gone_now;
        others = λ j h. touch_ne s i slot j (λ f. h (inl f));
        counts = λ j mj. counted j mj;
        positions = refl;
        answer = inr refl;
      }
    where
      stays : (j : ChunkKey) → j ≢ k → entry_of (touch s i slot i) j ≡ entry s i j
      stays j ne =
          subst (λ x. entry_of x j ≡ entry s i j) (sym (touch_self s i slot))
            (find_entry-invalid_ne k j (s.bucket_blockdata i).valids (s.bucket_blockdata i).addrs
              (s.bucket_blockdata i).ptrs slot (v.buckets i hi).ptrs_distinct ne e)

      gone_now : entry_of (touch s i slot i) k ≡ none
      gone_now =
          subst (λ x. entry_of x k ≡ none) (sym (touch_self s i slot))
            (find_entry-invalid_self k (s.bucket_blockdata i).valids (s.bucket_blockdata i).addrs
              (s.bucket_blockdata i).ptrs slot (v.buckets i hi).addrs_distinct e)

      back :
          (j : ChunkKey) (sl : ℕ)
          → entry_of (touch s i slot i) j ≡ some sl
          → (((j =? k) ≡ true) ⊎ ((j =? k) ≡ false))
          → entry s i j ≡ some sl
      back j sl f (inl same) =
          let bad : entry_of (touch s i slot i) j ≡ none =
            subst (λ x. entry_of (touch s i slot i) x ≡ none)
              (sym ((chunk_key_order.beq_iff j k).0 same)) gone_now in
          absurd (cc)
      back j sl f (inr ne) = sym (stays j (ground (arith, chunk_key_order.beq_iff j k))) ∙ f

      lost :
          (j : ChunkKey) (sl : ℕ)
          → entry s i j ≡ some sl
          → (((j =? k) ≡ true) ⊎ ((j =? k) ≡ false))
          → (entry_of (touch s i slot i) j ≡ some sl)
            ⊎ (lookup j (insert k (content k) s.stash) ≢ none)
      lost j sl f (inl same) = inr (λ h. ground (
        arith,
        lookup-insert k j (content k) s.stash,
        chunk_key_order.beq_iff j k,
        chunk_key_order.beq_iff k j,
        h,
      ))
      lost j sl f (inr ne) = inl (stays j (ground (arith, chunk_key_order.beq_iff j k)) ∙ f)

      seen :
          (j : ℕ)
          → Member j (i ∷ [])
          → entry_of (touch s i slot i) k ≡ none
          → entry_of (touch s i slot j) k ≡ none
      seen j (inl f) h = subst (λ x. entry_of (touch s i slot x) k ≡ none) (sym f) h
      seen j (inr f) h = absurd f

      counted :
          (j : ℕ) → Member j (i ∷ []) → (touch s i slot j).count ≡ (s.bucket_blockdata j).count + 1
      counted j (inl f) = ground arith
      counted j (inr f) = absurd f

  Reading-dummy :
      (s : Oram) (i : ℕ) (k : ChunkKey) (slot n : ℕ) (found : Bytes)
      → i < total config
      → entry s i k ≡ none
      → (¬ Member slot (s.bucket_blockdata i).ptrs)
      → (found ≡ []) ⊎ (found ≡ content k)
      → Inv env config known at content s
      → Reading k s (record s { bucket_blockdata = touch s i slot; draws = n }) (i ∷ []) found
  Reading-dummy s i k slot n found hi e d f v = record {
    inv =
        Inv-set_bucket env config known at content s (touch s i slot) n i
          (λ j h. touch_ne s i slot j h) (λ j sl h. sym (stays j) ∙ h) (λ j sl h. inl (stays j ∙ h))
          (subst (BucketOk config) (sym (touch_self s i slot))
            (touched_dummy-Ok config (s.bucket_blockdata i) slot (v.buckets i hi)))
          v;
    gone = λ j mj. seen j mj;
    others = λ j h. touch_ne s i slot j (λ f. h (inl f));
    counts = λ j mj. counted j mj;
    positions = refl;
    answer = f;
  }
    where
      stays : (j : ChunkKey) → entry_of (touch s i slot i) j ≡ entry s i j
      stays j =
          subst (λ x. entry_of x j ≡ entry s i j) (sym (touch_self s i slot))
            (find_entry-invalid_dummy j (s.bucket_blockdata i).valids (s.bucket_blockdata i).addrs
              (s.bucket_blockdata i).ptrs slot d)

      seen : (j : ℕ) → Member j (i ∷ []) → entry_of (touch s i slot j) k ≡ none
      seen j (inl f) = subst (λ x. entry_of (touch s i slot x) k ≡ none) (sym f) (stays k ∙ e)
      seen j (inr f) = absurd f

      counted :
          (j : ℕ) → Member j (i ∷ []) → (touch s i slot j).count ≡ (s.bucket_blockdata j).count + 1
      counted j (inl f) = ground arith
      counted j (inr f) = absurd f

  pub read_node-Reading :
      (s : Oram) (i : ℕ) (k : ChunkKey) (leaf : ℕ) (found : Bytes)
      → i < total config
      → at k ≡ some leaf
      → (s.bucket_blockdata i).count < config.dummies_S
      → (found ≡ []) ⊎ (found ≡ content k)
      → Inv env config known at content s
      → Ensures (read_node env config i k found s) (λ r s'. Reading k s s' (i ∷ []) r)
  read_node-Reading s i k leaf found hi here few f v = elim (Option-cases (entry s i k)) [
    | inr (slot, e) ↦
        let result =
          read_node_real env config i k found s slot (content k) e (v.tree_content i k slot hi e).0
            (stash_fits env config known at content s k leaf here v) in
        subst (λ o. Ensures o (λ r s'. Reading k s s' (i ∷ []) r)) (sym result)
          (Reading-real s i k slot leaf hi here e v)
    | inl e ↦
        spend e
          (dummy_slots config.bucket_size (s.bucket_blockdata i).ptrs (s.bucket_blockdata i).valids)
          refl
  ]
    where
      spend :
          entry s i k ≡ none
          → (ds : List ℕ)
          → dummy_slots config.bucket_size (s.bucket_blockdata i).ptrs (s.bucket_blockdata i).valids
            ≡ ds
          → Ensures (read_node env config i k found s) (λ r s'. Reading k s s' (i ∷ []) r)
      spend e [] h = absurd (omega (arith, (v.buckets i hi).dummies, ap length h))
      spend e (d ∷ ds) h =
          let n = env.coins s.draws % length (d ∷ ds) in
          let slot = get_or (d ∷ ds) n 0 in
          let m : Member slot (d ∷ ds) =
            Member-get_or (d ∷ ds) n (mod-lt (env.coins s.draws) (omega arith)) in
          let free =
            dummy_slots-Member config.bucket_size (s.bucket_blockdata i).ptrs
              (s.bucket_blockdata i).valids slot (subst (λ xs. Member slot xs) (sym h) m) in
          subst (λ o. Ensures o (λ r s'. Reading k s s' (i ∷ []) r))
            (sym (read_node_dummy env config i k found s d ds e h))
            (Reading-dummy s i k slot (s.draws + 1) found hi e free.1 f v)
