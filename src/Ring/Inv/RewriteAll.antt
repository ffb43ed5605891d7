-- ===== src/Ring/Inv/RewriteAll.antt =====
-- EarlyReshuffle and EvictPath both read and write anew the buckets of a list.
use de_part.Prelude.{
  ℕ, ◌<◌, ◌≡◌, refl, sym, ap, ◌∙◌, ◌⊎◌, inl, inr, Bool, true, false, List, [], ◌∷◌, Option, some,
  contains, contains_iff, nat_key, Bytes, Member, Bool-cases,
}
use de_part.Ring.State.{ChunkKey, chunk_key_order, Env, Config, Oram, find_pos}
use de_part.Ring.Bucket.{read_bucket}
use de_part.Ring.Write.{write_bucket, rewrite_bucket, rewrite_buckets}
use de_part.Ring.Inv.{Ensures, Ensures-bind, Ensures-mono, Sized, Lawful, Inv, entry, total, Maps}
use de_part.Ring.Inv.Read.{entry_of}
use de_part.Ring.Inv.Reap.{Reaped, read_bucket-Reaped}
use de_part.Ring.Inv.Reshuffle.{Rewritten, write_bucket-Rewritten}

module _ (env : Env) (config : Config) (known : List ChunkKey) (at : ChunkKey → Option ℕ)
    (content : ChunkKey → Bytes) (sized : Sized config)
    (lawful : Lawful env config.bucket_size) where
  pub Maps-kept : (s s' : Oram) → s'.block_chunks_pos ≡ s.block_chunks_pos → Maps at s → Maps at s'
  Maps-kept s s' e maps = λ k. ap (find_pos k) e ∙ maps k

  rewrite_bucket-Rewritten :
      (s : Oram) (i : ℕ)
      → i < total config
      → Inv env config known at content s
      → Maps at s
      → Ensures
          (rewrite_bucket env config i s)
          (λ u s'. Rewritten env config known at content s s' (i ∷ []))
  unfolding rewrite_bucket
  rewrite_bucket-Rewritten s i hi v maps =
      Ensures-bind (read_bucket env config i s) (λ u. write_bucket env config i)
        (λ u s1.
          Reaped env config known at content s s1 (λ k. (slot : ℕ) × (entry s i k ≡ some slot)))
        (λ u s'. Rewritten env config known at content s s' (i ∷ []))
        (read_bucket-Reaped env config known at content s i hi v)
        (λ u s1 r.
          Ensures-mono (write_bucket env config i s1)
            (λ u2 s'. Rewritten env config known at content s1 s' (i ∷ []))
            (λ u2 s'. Rewritten env config known at content s s' (i ∷ []))
            (write_bucket-Rewritten env config known at content sized lawful s1 i hi r.inv
              (Maps-kept s s1 r.positions maps)
              (λ k slot e. r.reaps k (slot, ap (λ g. entry_of (g i) k) (sym r.buckets_kept) ∙ e)))
            (λ u2 s2 w. record {
              inv = w.inv;
              positions = w.positions ∙ r.positions;
              others = λ j h. w.others j h ∙ ap (λ g. g j) r.buckets_kept;
              cleared = w.cleared;
            }))

  Rewritten-trans :
      (s s1 s2 : Oram) (i : ℕ) (is : List ℕ)
      → Rewritten env config known at content s s1 (i ∷ [])
      → Rewritten env config known at content s1 s2 is
      → Rewritten env config known at content s s2 (i ∷ is)
  Rewritten-trans s s1 s2 i is a b = record {
    inv = b.inv;
    positions = b.positions ∙ a.positions;
    others = λ j h. b.others j (λ m. h (inr m)) ∙ a.others j (λ m. h (head_only j m));
    cleared = λ j m. zero_at j m (Bool-cases (contains is j));
  }
    where
      head_only : (j : ℕ) → Member j (i ∷ []) → Member j (i ∷ is)
      head_only j (inl e) = inl e
      head_only j (inr gap) = absurd gap

      zero_at :
          (j : ℕ)
          → Member j (i ∷ is)
          → ((contains is j ≡ true) ⊎ (contains is j ≡ false))
          → (s2.bucket_blockdata j).count ≡ 0
      zero_at j m (inl c) = b.cleared j ((contains_iff is j).0 c)
      zero_at j (inr m) (inr c) = b.cleared j m
      zero_at j (inl e) (inr c) =
          ap (λ x. x.count) (b.others j (λ m. refuse (contains is j) c ((contains_iff is j).1 m)))
          ∙ a.cleared j (inl e)
        where
          refuse : (o : Bool) → o ≡ false → o ≡ true → ⊥
          refuse o e' f = cc

  pub rewrite_buckets-Rewritten :
      (is : List ℕ) (s : Oram)
      → ((i : ℕ) → Member i is → i < total config)
      → Inv env config known at content s
      → Maps at s
      → Ensures
          (rewrite_buckets env config is s)
          (λ u s'. Rewritten env config known at content s s' is)
  unfolding rewrite_buckets
  rewrite_buckets-Rewritten [] s inside v maps = record {
    inv = v;
    positions = refl;
    others = λ j h. refl;
    cleared = λ j m. absurd m;
  }
  rewrite_buckets-Rewritten (i ∷ is) s inside v maps =
      Ensures-bind (rewrite_bucket env config i s) (λ u. rewrite_buckets env config is)
        (λ u s1. Rewritten env config known at content s s1 (i ∷ []))
        (λ u s'. Rewritten env config known at content s s' (i ∷ is))
        (rewrite_bucket-Rewritten s i (inside i (inl refl)) v maps)
        (λ u s1 first.
          Ensures-mono (rewrite_buckets env config is s1)
            (λ u2 s'. Rewritten env config known at content s1 s' is)
            (λ u2 s'. Rewritten env config known at content s s' (i ∷ is))
            (rewrite_buckets-Rewritten is s1 (λ j m. inside j (inr m)) first.inv
              (Maps-kept s s1 first.positions maps))
            (λ u2 s2 rest. Rewritten-trans s s1 s2 i is first rest))
