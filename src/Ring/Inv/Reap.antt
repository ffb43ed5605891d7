-- ===== src/Ring/Inv/Reap.antt =====
-- ReadBucket: every chunk that the bucket holds is in the stash afterwards, and nothing else changes.
use de_part.Prelude.{
  ℕ, ◌<◌, ◌≡◌, refl, sym, ap, subst, ◌∙◌, ◌≢◌, inl, inr, true, false, List, [], ◌∷◌, Option, none,
  some, arith, lookup, lookup-insert, insert, nat_key, Bytes, get_or, keep, Member, Option-cases,
  All, range_from, Member-keep, Member-of_keep, Member-of_range,
}
use de_part.Ring.State.{
  ChunkKey, chunk_key_order, BucketBlock, Env, Config, Oram, done, global_slot_id, find_slot,
  stash_insert,
}
use de_part.Ring.Bucket.{real_slot_ids, read_slot, read_slots, read_bucket}
use de_part.Ring.Inv.{Ensures, Ensures-bind, Ensures-mono, Inv, BucketOk, entry, total}
use de_part.Ring.Inv.Entries.{find_entry-slot}
use de_part.Ring.Inv.Stash.{stashed-Inv, stash_insert_lem}
use de_part.Ring.Inv.Read.{entry_of}
use de_part.Ring.Inv.Split.{real_slot_ids-entry, find_entry-real_slot_ids}

read_slot_real :
    (env : Env) (config : Config) (i : ℕ) (real : List (ℕ × ChunkKey)) (slot : ℕ) (k : ChunkKey)
    (c : Bytes) (s : Oram)
    → lookup slot real ≡ some k
    → s.slots (global_slot_id env config i slot) ≡ c
    → read_slot env config i real slot s ≡ stash_insert env config k c s
unfolding read_slot find_slot
read_slot_real env config i real slot k c s e h = rw (e, h, read_slot) refl

read_slot_dummy :
    (env : Env) (config : Config) (i : ℕ) (real : List (ℕ × ChunkKey)) (slot : ℕ) (s : Oram)
    → lookup slot real ≡ none
    → read_slot env config i real slot s ≡ done (tt, s)
unfolding read_slot find_slot
read_slot_dummy env config i real slot s e = rw (e, read_slot) refl

module _ (env : Env) (config : Config) (known : List ChunkKey) (at : ChunkKey → Option ℕ)
    (content : ChunkKey → Bytes) where
  -- The stash has grown, and holds the chunks that `wanted` names.
  pub record Reaped (s s' : Oram) (wanted : ChunkKey → Type 0) : Type 0 where
    pub inv : Inv env config known at content s'
    pub buckets_kept : s'.bucket_blockdata ≡ s.bucket_blockdata
    pub positions : s'.block_chunks_pos ≡ s.block_chunks_pos
    pub grows : (k : ChunkKey) → lookup k s.stash ≢ none → lookup k s'.stash ≢ none
    pub reaps : (k : ChunkKey) → wanted k → lookup k s'.stash ≢ none

  abbrev Among : List (ℕ × ChunkKey) → List ℕ → ChunkKey → Type 0
  Among real slots k = (slot : ℕ) × Member slot slots × (lookup slot real ≡ some k)

  module _ (i : ℕ) (b : BucketBlock) (hi : i < total config) where
    read_slot-Reaped :
        (slot : ℕ) (s : Oram)
        → s.bucket_blockdata i ≡ b
        → get_or b.valids slot false ≡ true
        → Inv env config known at content s
        → Ensures
            (read_slot env config i (real_slot_ids b.addrs b.ptrs) slot s)
            (λ u s'. Reaped s s' (Among (real_slot_ids b.addrs b.ptrs) (slot ∷ [])))
    read_slot-Reaped slot s same valid v =
        let real = real_slot_ids b.addrs b.ptrs in
        elim (Option-cases (lookup slot real)) [
          | inl e ↦
              subst (λ o. Ensures o (λ u s'. Reaped s s' (Among real (slot ∷ []))))
                (sym (read_slot_dummy env config i real slot s e))
                (record {
                  inv = v;
                  buckets_kept = refl;
                  positions = refl;
                  grows = λ k h. h;
                  reaps = λ k w. absurd (nothing k e w);
                })
          | inr (k, e) ↦
              let ok : BucketOk config b = subst (BucketOk config) same (v.buckets i hi) in
              let here : entry_of b k ≡ some slot =
                real_slot_ids-entry b.addrs b.ptrs b.valids slot k ok.addrs_distinct
                  ok.ptrs_distinct e valid in
              let (bytes, leaf, placed, on_path) =
                v.tree_content i k slot hi
                  (subst (λ x. entry_of x k ≡ some slot) (sym same) here) in
              subst (λ o. Ensures o (λ u s'. Reaped s s' (Among real (slot ∷ []))))
                (sym (
                  read_slot_real env config i real slot k (content k) s e bytes
                  ∙ stash_insert_lem env config known at content s k leaf placed v))
                (record {
                  inv = stashed-Inv env config known at content s k leaf placed v;
                  buckets_kept = refl;
                  positions = refl;
                  grows = λ j h. keeps k j h;
                  reaps = λ j w. this k j e w;
                })
        ]
      where
        nothing :
            (k : ChunkKey)
            → lookup slot (real_slot_ids b.addrs b.ptrs) ≡ none
            → Among (real_slot_ids b.addrs b.ptrs) (slot ∷ []) k
            → ⊥
        nothing k e (x, inl f, g) =
            let h : lookup slot (real_slot_ids b.addrs b.ptrs) ≡ some k =
              subst (λ y. lookup y (real_slot_ids b.addrs b.ptrs) ≡ some k) f g in
            cc
        nothing k e (x, inr f, g) = f

        keeps :
            (k j : ChunkKey)
            → lookup j s.stash ≢ none
            → lookup j (insert k (content k) s.stash) ≢ none
        keeps k j h = λ e. ground (arith, lookup-insert k j (content k) s.stash, h, e)

        this :
            (k j : ChunkKey)
            → lookup slot (real_slot_ids b.addrs b.ptrs) ≡ some k
            → Among (real_slot_ids b.addrs b.ptrs) (slot ∷ []) j
            → lookup j (insert k (content k) s.stash) ≢ none
        this k j e (x, inl f, g) = λ h.
            let g' : lookup slot (real_slot_ids b.addrs b.ptrs) ≡ some j =
              subst (λ y. lookup y (real_slot_ids b.addrs b.ptrs) ≡ some j) f g in
            let same' : k ≡ j = cc in
            ground
              (arith, lookup-insert k j (content k) s.stash, chunk_key_order.beq_iff k j, same', h)
        this k j e (x, inr f, g) = absurd f

    read_slots-Reaped :
        (slots : List ℕ) (s : Oram)
        → s.bucket_blockdata i ≡ b
        → ((slot : ℕ) → Member slot slots → get_or b.valids slot false ≡ true)
        → Inv env config known at content s
        → Ensures
            (read_slots env config i (real_slot_ids b.addrs b.ptrs) slots s)
            (λ u s'. Reaped s s' (Among (real_slot_ids b.addrs b.ptrs) slots))
    unfolding read_slots
    read_slots-Reaped [] s same valid v = record {
      inv = v;
      buckets_kept = refl;
      positions = refl;
      grows = λ k h. h;
      reaps = λ k w. absurd w.1;
    }
    read_slots-Reaped (slot ∷ slots) s same valid v =
        let real = real_slot_ids b.addrs b.ptrs in
        Ensures-bind (read_slot env config i real slot s) (λ u. read_slots env config i real slots)
          (λ u s1. Reaped s s1 (Among real (slot ∷ [])))
          (λ u s'. Reaped s s' (Among real (slot ∷ slots)))
          (read_slot-Reaped slot s same (valid slot (inl refl)) v)
          (λ u s1 first.
            Ensures-mono (read_slots env config i real slots s1)
              (λ u2 s'. Reaped s1 s' (Among real slots))
              (λ u2 s'. Reaped s s' (Among real (slot ∷ slots)))
              (read_slots-Reaped slots s1 (ap (λ g. g i) first.buckets_kept ∙ same)
                (λ x m. valid x (inr m)) first.inv)
              (λ u2 s2 rest. record {
                inv = rest.inv;
                buckets_kept = rest.buckets_kept ∙ first.buckets_kept;
                positions = rest.positions ∙ first.positions;
                grows = λ k h. rest.grows k (first.grows k h);
                reaps = λ k w. both s1 s2 first rest k w;
              }))
      where
        both :
            (s1 s2 : Oram)
            → Reaped s s1 (Among (real_slot_ids b.addrs b.ptrs) (slot ∷ []))
            → Reaped s1 s2 (Among (real_slot_ids b.addrs b.ptrs) slots)
            → (k : ChunkKey) → Among (real_slot_ids b.addrs b.ptrs) (slot ∷ slots) k
            → lookup k s2.stash ≢ none
        both s1 s2 first rest k (x, inl e, g) = rest.grows k (first.reaps k (x, inl e, g))
        both s1 s2 first rest k (x, inr m, g) = rest.reaps k (x, m, g)

  pub read_bucket-Reaped :
      (s : Oram) (i : ℕ)
      → i < total config
      → Inv env config known at content s
      → Ensures
          (read_bucket env config i s)
          (λ u s'. Reaped s s' (λ k. (slot : ℕ) × (entry s i k ≡ some slot)))
  unfolding read_bucket
  read_bucket-Reaped s i hi v =
      let b = s.bucket_blockdata i in
      let real = real_slot_ids b.addrs b.ptrs in
      let slots = keep (λ slot. get_or b.valids slot false) (range_from config.bucket_size 0) in
      Ensures-mono (read_slots env config i real slots s) (λ u s'. Reaped s s' (Among real slots))
        (λ u s'. Reaped s s' (λ k. (slot : ℕ) × (entry s i k ≡ some slot)))
        (read_slots-Reaped i b hi slots s refl
          (λ slot m.
            (Member-keep (λ x. get_or b.valids x false) slot (range_from config.bucket_size 0) m).1)
          v)
        (λ u s' done'. record {
          inv = done'.inv;
          buckets_kept = done'.buckets_kept;
          positions = done'.positions;
          grows = done'.grows;
          reaps = λ k w. done'.reaps k (
            w.0,
            valid_slot k w.0 w.1,
            find_entry-real_slot_ids b.addrs b.ptrs b.valids w.0 k (v.buckets i hi).ptrs_distinct
                w.1,
          );
        })
    where
      valid_slot :
          (k : ChunkKey) (slot : ℕ)
          → entry s i k ≡ some slot
          → Member slot (
              keep
                (λ x. get_or (s.bucket_blockdata i).valids x false)
                (range_from config.bucket_size 0))
      valid_slot k slot e =
          let b = s.bucket_blockdata i in
          let (m, n, g) = find_entry-slot k b.valids b.addrs b.ptrs slot e in
          Member-of_keep (λ x. get_or b.valids x false) slot (range_from config.bucket_size 0)
            (Member-of_range config.bucket_size 0 slot (omega arith)
              (omega (arith, All_slots b.ptrs slot (v.buckets i hi).ptrs_in m)))
            g
        where
          All_slots :
              (ptrs : List ℕ) (x : ℕ)
              → All (λ p. p < config.bucket_size) ptrs
              → Member x ptrs
              → x < config.bucket_size
          All_slots [] x a n = absurd n
          All_slots (p ∷ ptrs) x (h, a) (inl e') = omega arith
          All_slots (p ∷ ptrs) x (h, a) (inr n) = All_slots ptrs x a n
