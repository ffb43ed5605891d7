-- ===== src/Ring/Setup/Start.antt =====
-- The constructor leaves an ORAM that represents the empty map.
use de_part.Prelude.{
  ℕ, ◌<◌, ◌≡◌, refl, sym, ap, subst, ◌∙◌, ◌≢◌, ◌⊎◌, inl, inr, Bool, true, false, List, [], ◌∷◌,
  none, some, arith, lookup, nat_key, Bytes, length, contains, contains_iff, keys, Distinct, Member,
  Bool-cases, range_from, Member-of_range,
}
use de_part.Ring.State.{
  ChunkKey, chunk_key_order, Env, Config, Oram, update, find_pos, insert_slot, global_slot_id,
}
use de_part.Ring.Path.{path}
use de_part.Ring.Bucket.{set_bucket, find_entry}
use de_part.Ring.Inv.Read.{entry_of}
use de_part.Ring.Write.{choose_slots}
use de_part.Ring.Setup.{first_stash_limit, blank, write_dummies, setup_bucket, setup_buckets, start}
use de_part.Ring.Inv.{Ensures, Ensures-bind, Ensures-mono, Sized, Lawful, BucketOk, entry, total}
use de_part.Ring.Inv.Choose.{Slots, choose_slots-Slots}
use de_part.Ring.Inv.Padding.{dummy_cipher_lem}
use de_part.Ring.Inv.Rewrite.{fresh, fresh-Ok}
use de_part.Ring.Inv.Block.{ids_of}
use de_part.Ring.Contract.{Represents}

module _ (env : Env) (config : Config) (sized : Sized config)
    (lawful : Lawful env config.bucket_size) where
  write_dummies_lem :
      (slots : List ℕ) (i : ℕ) (s : Oram)
      → Ensures
          (write_dummies env config i slots s)
          (λ u s'. (g : ℕ → Bytes) × (n : ℕ) × (s' ≡ record s { slots = g; draws = n }))
  unfolding write_dummies insert_slot
  write_dummies_lem [] i s = (s.slots, s.draws, refl)
  write_dummies_lem (slot ∷ slots) i s =
      let (c, l, e) = dummy_cipher_lem env config s lawful sized.wide in
      rw e (
        Ensures-mono (write_dummies env config i slots _)
          (λ u s'. (g : ℕ → Bytes) × (n : ℕ) × (s' ≡ record s { slots = g; draws = n }))
          (λ u s'. (g : ℕ → Bytes) × (n : ℕ) × (s' ≡ record s { slots = g; draws = n }))
          (write_dummies_lem slots i _) (λ u s' h. h))

  -- The buckets of a list are new and empty.
  pub record Blank (s s' : Oram) (is : List ℕ) : Type 0 where
    pub same_stash : s'.stash ≡ s.stash
    pub same_positions : s'.block_chunks_pos ≡ s.block_chunks_pos
    pub same_limit : s'.stash_limit ≡ s.stash_limit
    pub others : (j : ℕ) → (¬ Member j is) → s'.bucket_blockdata j ≡ s.bucket_blockdata j
    pub ready :
        (j : ℕ)
        → Member j is
        → (ptrs : List ℕ) × Slots config ptrs
          × (length ptrs ≡ config.blocks_Z)
          × (s'.bucket_blockdata j ≡ fresh config [] ptrs)

  setup_bucket-Blank :
      (i : ℕ) (s : Oram) → Ensures (setup_bucket env config i s) (λ u s'. Blank s s' (i ∷ []))
  unfolding setup_bucket
  setup_bucket-Blank i s =
      Ensures-bind (choose_slots env config env.tries [] s) _
        (λ ptrs s1.
          Slots config ptrs
          × (length ptrs ≡ config.blocks_Z)
          × ((n : ℕ) × (s1 ≡ record s { draws = n })))
        (λ u s'. Blank s s' (i ∷ []))
        (choose_slots-Slots env config (omega (arith, sized.split))
          (omega (arith, sized.split, sized.some_dummy)) s lawful)
        (λ ptrs s1 h.
          Ensures-bind (write_dummies env config i (range_from config.bucket_size 0) s1) _
            (λ u s2. (g : ℕ → Bytes) × (n : ℕ) × (s2 ≡ record s1 { slots = g; draws = n }))
            (λ u s'. Blank s s' (i ∷ [])) (write_dummies_lem (range_from config.bucket_size 0) i s1)
            (λ u s2 d.
              subst (λ x. Blank s (set_bucket i (fresh config [] ptrs) x) (i ∷ [])) (sym d.2)
                (subst
                  (λ (x : Oram).
                    Blank s
                      (set_bucket i (fresh config [] ptrs) (record x { slots = d.0; draws = d.1 }))
                      (i ∷ []))
                  (sym h.2.1)
                  (record {
                    same_stash = refl;
                    same_positions = refl;
                    same_limit = refl;
                    others = λ j out. untouched ptrs j (λ e. out (inl e));
                    ready = λ j m. here ptrs h.0 h.1 j m;
                  }))))
    where
      untouched :
          (ptrs : List ℕ) (j : ℕ)
          → j ≢ i
          → update s.bucket_blockdata i (fresh config [] ptrs) j ≡ s.bucket_blockdata j
      untouched ptrs j ne = ground (arith, ne)

      here :
          (ptrs : List ℕ)
          → Slots config ptrs
          → length ptrs ≡ config.blocks_Z
          → (j : ℕ) → Member j (i ∷ [])
          → (ps : List ℕ) × Slots config ps
            × (length ps ≡ config.blocks_Z)
            × (update s.bucket_blockdata i (fresh config [] ptrs) j ≡ fresh config [] ps)
      here ptrs a b j (inl e) = (ptrs, a, b, ground (arith, e))
      here ptrs a b j (inr gap) = absurd gap

  Blank-trans :
      (s s1 s2 : Oram) (i : ℕ) (is : List ℕ)
      → Blank s s1 (i ∷ [])
      → Blank s1 s2 is
      → Blank s s2 (i ∷ is)
  Blank-trans s s1 s2 i is a b = record {
    same_stash = b.same_stash ∙ a.same_stash;
    same_positions = b.same_positions ∙ a.same_positions;
    same_limit = b.same_limit ∙ a.same_limit;
    others = λ j h. b.others j (λ m. h (inr m)) ∙ a.others j (λ m. h (head_only j m));
    ready = λ j m. either j m (Bool-cases (contains is j));
  }
    where
      head_only : (j : ℕ) → Member j (i ∷ []) → Member j (i ∷ is)
      head_only j (inl e) = inl e
      head_only j (inr gap) = absurd gap

      either :
          (j : ℕ)
          → Member j (i ∷ is)
          → ((contains is j ≡ true) ⊎ (contains is j ≡ false))
          → (ptrs : List ℕ) × Slots config ptrs
            × (length ptrs ≡ config.blocks_Z)
            × (s2.bucket_blockdata j ≡ fresh config [] ptrs)
      either j m (inl c) = b.ready j ((contains_iff is j).0 c)
      either j (inr m) (inr c) = b.ready j m
      either j (inl e) (inr c) =
          let (ptrs, ok, full, made) = a.ready j (inl e) in
          (
            ptrs,
            ok,
            full,
            b.others j (λ m. refuse (contains is j) c ((contains_iff is j).1 m)) ∙ made,
          )
        where
          refuse : (o : Bool) → o ≡ false → o ≡ true → ⊥
          refuse o e' f = cc

  setup_buckets-Blank :
      (is : List ℕ) (s : Oram) → Ensures (setup_buckets env config is s) (λ u s'. Blank s s' is)
  unfolding setup_buckets
  setup_buckets-Blank [] s = record {
    same_stash = refl;
    same_positions = refl;
    same_limit = refl;
    others = λ j h. refl;
    ready = λ j m. absurd m;
  }
  setup_buckets-Blank (i ∷ is) s =
      Ensures-bind (setup_bucket env config i s) (λ u. setup_buckets env config is)
        (λ u s1. Blank s s1 (i ∷ [])) (λ u s'. Blank s s' (i ∷ is)) (setup_bucket-Blank i s)
        (λ u s1 first.
          Ensures-mono (setup_buckets env config is s1) (λ u2 s'. Blank s1 s' is)
            (λ u2 s'. Blank s s' (i ∷ is)) (setup_buckets-Blank is s1)
            (λ u2 s2 rest. Blank-trans s s1 s2 i is first rest))

  Blank-Represents :
      (n : ℕ) (slots : ℕ → Bytes) (s : Oram)
      → Blank (blank (first_stash_limit n config) slots) s (range_from (total config) 0)
      → Represents env config sized lawful [] (λ bid. none) s
  unfolding find_pos lookup find_entry
  Blank-Represents n slots s b = record {
    at = λ k. none;
    content = λ k. [];
    good = record {
      inv = record {
        room = omega arith;
        small = omega arith;
        placed = λ k leaf e. cc;
        stash_distinct = subst (λ m. Distinct (keys m)) (sym b.same_stash) tt;
        stash_content = λ k c e. in_stash k c (subst (λ m. lookup k m ≡ some c) b.same_stash e);
        tree_content = λ i k slot hi e. in_tree i k slot (made i hi) e;
        held = λ k leaf e. cc;
        buckets = λ i hi. okay i (made i hi);
      };
      maps = λ k. ap (find_pos k) b.same_positions;
      ready = λ i hi. fit i (made i hi);
    };
    absent = λ bid e. ap (ids_of bid) b.same_positions;
    stored = λ bid plain e. cc;
  }
    where
      Made : ℕ → Type 0
      Made i =
          (ptrs : List ℕ) × Slots config ptrs
          × (length ptrs ≡ config.blocks_Z)
          × (s.bucket_blockdata i ≡ fresh config [] ptrs)

      made : (i : ℕ) → i < total config → Made i
      made i hi = b.ready i (Member-of_range (total config) 0 i (omega arith) (omega arith))

      in_stash :
          (k : ChunkKey) (c : Bytes) → none ≡ some c → (c ≡ []) × (leaf : ℕ) × (none ≡ some leaf)
      in_stash k c e = cc

      in_tree :
          (i : ℕ) (k : ChunkKey) (slot : ℕ)
          → Made i
          → entry s i k ≡ some slot
          → (s.slots (global_slot_id env config i slot) ≡ [])
            × (leaf : ℕ) × (none ≡ some leaf)
            × Member i (path config.height leaf)
      in_tree i k slot (ptrs, ok, full, e) h =
          let h' : none ≡ some slot = subst (λ x. entry_of x k ≡ some slot) e h in absurd (cc)

      okay : (i : ℕ) → Made i → BucketOk config (s.bucket_blockdata i)
      okay i (ptrs, ok, full, e) =
          subst (BucketOk config) (sym e)
            (fresh-Ok config [] ptrs sized.split tt (omega arith) ok full)

      fit : (i : ℕ) → Made i → (s.bucket_blockdata i).count < config.dummies_S
      fit i (ptrs, ok, full, e) = omega (arith, ap (λ x. x.count) e, sized.some_dummy)

  -- In a sized configuration and with a lawful environment, the constructor ends without a fault,
  -- and the ORAM that it makes represents the empty map.
  pub start-Represents :
      (n : ℕ) (slots : ℕ → Bytes)
      → Ensures
          (start env config n slots)
          (λ u s. Represents env config sized lawful [] (λ bid. none) s)
  unfolding start
  start-Represents n slots =
      let s0 = blank (first_stash_limit n config) slots in
      Ensures-mono (setup_buckets env config (range_from (total config) 0) s0)
        (λ u s. Blank s0 s (range_from (total config) 0))
        (λ u s. Represents env config sized lawful [] (λ bid. none) s)
        (setup_buckets-Blank (range_from (total config) 0) s0)
        (λ u s b. Blank-Represents n slots s b)
