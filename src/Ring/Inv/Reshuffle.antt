-- ===== src/Ring/Inv/Reshuffle.antt =====
-- EarlyReshuffle and EvictPath: the buckets of a list are rewritten, and every bucket is fit for S
-- reads again that was not fit before.
use de_part.Prelude.{
  ℕ, ◌<◌, ◌≡◌, refl, sym, subst, ◌≢◌, inl, inr, List, [], ◌∷◌, Option, none, some, arith, lookup,
  keys, nat_key, Bytes, length, Member, range_from, range_from-Distinct, Member-range_from,
}
use de_part.Ring.State.{ChunkKey, chunk_key_order, Env, Config, Oram, update}
use de_part.Ring.Path.Slots.{global_slot_id-injective}
use de_part.Ring.Bucket.{set_bucket, real_slot_ids}
use de_part.Ring.Write.{split_stash, choose_slots, write_slots, write_bucket}
use de_part.Ring.Inv.{Ensures, Ensures-bind, Ensures-mono, Sized, Lawful, Inv, entry, total, Maps}
use de_part.Ring.Inv.Read.{Inv-frame}
use de_part.Ring.Inv.Choose.{Slots, choose_slots-Slots}
use de_part.Ring.Inv.Fill.{Filled, write_slots-Filled}
use de_part.Ring.Inv.Rewrite.{fresh}
use de_part.Ring.Inv.Refill.{refilled-Inv}

module _ (env : Env) (config : Config) (known : List ChunkKey) (at : ChunkKey → Option ℕ)
    (content : ChunkKey → Bytes) where
  -- Buckets of a list have been written anew; the others are as before.
  pub record Rewritten (s s' : Oram) (is : List ℕ) : Type 0 where
    pub inv : Inv env config known at content s'
    pub positions : s'.block_chunks_pos ≡ s.block_chunks_pos
    pub others : (j : ℕ) → (¬ Member j is) → s'.bucket_blockdata j ≡ s.bucket_blockdata j
    pub cleared : (j : ℕ) → Member j is → (s'.bucket_blockdata j).count ≡ 0

  module _ (sized : Sized config) (lawful : Lawful env config.bucket_size) where
    pub write_bucket-Rewritten :
        (s : Oram) (i : ℕ)
        → i < total config
        → Inv env config known at content s
        → Maps at s
        → ((k : ChunkKey) (slot : ℕ) → entry s i k ≡ some slot → lookup k s.stash ≢ none)
        → Ensures (write_bucket env config i s) (λ u s'. Rewritten s s' (i ∷ []))
    unfolding write_bucket
    write_bucket-Rewritten s i hi v maps reaped =
        let split = split_stash env config i s.block_chunks_pos s.stash config.blocks_Z in
        Ensures-bind (choose_slots env config env.tries [] (record s { stash = split.1 })) _
          (λ ptrs s1.
            Slots config ptrs
            × (length ptrs ≡ config.blocks_Z)
            × ((n : ℕ) × (s1 ≡ record s { stash = split.1; draws = n })))
          (λ u s'. Rewritten s s' (i ∷ []))
          (choose_slots-Slots env config (omega (arith, sized.split))
            (omega (arith, sized.split, sized.some_dummy)) (record s { stash = split.1 }) lawful)
          (λ ptrs s1 h. write ptrs h.0 h.1 h.2.0 s1 h.2.1)
      where
        write :
            (ptrs : List ℕ)
            → Slots config ptrs
            → length ptrs ≡ config.blocks_Z
            → (n : ℕ) (s1 : Oram)
            → s1 ≡ record s {
              stash = (split_stash env config i s.block_chunks_pos s.stash config.blocks_Z).1;
              draws = n;
            }
            → Ensures
                (write_slots env config i
                  (real_slot_ids
                    (keys (split_stash env config i s.block_chunks_pos s.stash config.blocks_Z).0)
                    ptrs)
                  (split_stash env config i s.block_chunks_pos s.stash config.blocks_Z).0
                  (range_from config.bucket_size 0)
                  (set_bucket i
                    (fresh config
                      (keys (split_stash env config i s.block_chunks_pos s.stash config.blocks_Z).0)
                      ptrs)
                    s1))
                (λ u s'. Rewritten s s' (i ∷ []))
        write ptrs ok full n s1 e =
            let split = split_stash env config i s.block_chunks_pos s.stash config.blocks_Z in
            let here : Oram = record s { draws = n } in
            let before : Oram = record here {
              stash = split.1;
              bucket_blockdata = update s.bucket_blockdata i (fresh config (keys split.0) ptrs);
            } in
            let real = real_slot_ids (keys split.0) ptrs in
            let v' =
              Inv-frame env config known at content s s.block_chunks_pos s.round s.next_evict_G n
                v in
            subst
              (λ (x : Oram).
                Ensures
                  (write_slots env config i real split.0 (range_from config.bucket_size 0)
                    (set_bucket i (fresh config (keys split.0) ptrs) x))
                  (λ u s'. Rewritten s s' (i ∷ [])))
              (sym e)
              (Ensures-mono
                (write_slots env config i real split.0 (range_from config.bucket_size 0) before)
                (λ u s'.
                  Filled env config i real split.0 before s' (range_from config.bucket_size 0))
                (λ u s'. Rewritten s s' (i ∷ []))
                (write_slots-Filled env config i real split.0 (range_from config.bucket_size 0)
                  before lawful sized.wide (range_from-Distinct config.bucket_size 0)
                  (λ x y m1 m2 h.
                    (global_slot_id-injective env config (total config) sized.fits
                      (omega (arith, sized.wide)) i i x y hi hi
                      (omega (arith, Member-range_from config.bucket_size 0 x m1))
                      (omega (arith, Member-range_from config.bucket_size 0 y m2)) h).1))
                (λ u s' f.
                  subst (λ x. Rewritten s x (i ∷ [])) (sym f.only)
                    (record {
                      inv =
                          refilled-Inv env config known at content sized here i hi v' maps reaped
                            ptrs ok full s' f;
                      positions = refl;
                      others = λ j h. untouched j h;
                      cleared = λ j m. zeroed j m;
                    })))
          where
            untouched :
                (j : ℕ)
                → (¬ Member j (i ∷ []))
                → update s.bucket_blockdata i
                    (fresh config
                      (keys (split_stash env config i s.block_chunks_pos s.stash config.blocks_Z).0)
                      ptrs)
                    j
                  ≡ s.bucket_blockdata j
            untouched j h = let ne : j ≢ i = λ f. h (inl f) in ground (arith, ne)

            zeroed :
                (j : ℕ)
                → Member j (i ∷ [])
                → (update s.bucket_blockdata i
                    (fresh config
                      (keys (split_stash env config i s.block_chunks_pos s.stash config.blocks_Z).0)
                      ptrs)
                    j).count
                  ≡ 0
            zeroed j (inl f) = ground (arith, f)
            zeroed j (inr gap) = absurd gap
