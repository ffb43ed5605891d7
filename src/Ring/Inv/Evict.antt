-- ===== src/Ring/Inv/Evict.antt =====
-- EarlyReshuffle and EvictPath: the buckets of a list are read and written anew, and every bucket that
-- was read S times is fit for reads again.
use mathlib.Core.List.{reverse}
use de_part.Prelude.{
  ℕ, ◌+◌, ◌-◌, ◌%◌, ◌^◌, ◌<◌, ◌≡◌, refl, sym, ap, subst, ◌∙◌, ◌⊎◌, inl, inr, Bool, true, false, not,
  List, Option, arith, ltb, contains, contains_iff, nat_key, Bytes, keep, Member, Bool-cases,
  Member-keep, Member-reverse, Member-of_reverse, Member-of_keep,
}
use de_part.Ring.State.{ChunkKey, chunk_key_order, Env, Config, Oram}
use de_part.Ring.Path.{path, reverse_bits}
use de_part.Ring.Path.Nodes.{path-in_tree}
use de_part.Ring.Write.{rewrite_buckets, early_reshuffle, evict_path}
use de_part.Ring.Inv.{Ensures, Ensures-mono, Sized, Lawful, Inv, total, Maps, Ready}
use de_part.Ring.Inv.Read.{Inv-frame}
use de_part.Ring.Inv.Trip.{All_at}
use de_part.Ring.Inv.Reshuffle.{Rewritten}
use de_part.Ring.Path.Reverse.{reverse_bits-lt}
use de_part.Ring.Inv.RewriteAll.{Maps-kept, rewrite_buckets-Rewritten}

module _ (env : Env) (config : Config) (known : List ChunkKey) (at : ChunkKey → Option ℕ)
    (content : ChunkKey → Bytes) (sized : Sized config)
    (lawful : Lawful env config.bucket_size) where
  -- What is left when a reshuffle or an eviction is done.
  pub record Settled (s s' : Oram) : Type 0 where
    pub inv : Inv env config known at content s'
    pub maps : Maps at s'
    pub positions : s'.block_chunks_pos ≡ s.block_chunks_pos
    pub ready : Ready config s'

  in_tree :
      (leaf : ℕ)
      → leaf < config.num_leaves
      → (i : ℕ) → Member i (path config.height leaf)
      → i < total config
  in_tree leaf h i m =
      All_at (λ b. b < total config) i (path config.height leaf)
        (path-in_tree config.height leaf (subst (λ n. leaf < n) sized.leaves h)) m

  -- In a sized configuration and with a lawful environment, if the invariant holds, the position
  -- map is what it says, the leaf is one of the tree's, and the buckets beside the leaf's path
  -- have been read less than S times, then an early reshuffle of the path ends without a fault,
  -- the invariant holds again, the position map is unchanged, and every bucket of the tree has
  -- been read less than S times since it was written.
  pub early_reshuffle-Settled :
      (s : Oram) (leaf : ℕ)
      → leaf < config.num_leaves
      → ((j : ℕ)
          → j < total config
          → (¬ Member j (path config.height leaf))
          → (s.bucket_blockdata j).count < config.dummies_S)
      → Inv env config known at content s
      → Maps at s
      → Ensures (early_reshuffle env config leaf s) (λ u s'. Settled s s')
  unfolding early_reshuffle
  early_reshuffle-Settled s leaf hl beside v maps =
      Ensures-mono (rewrite_buckets env config (reverse worn) s)
        (λ u s'. Rewritten env config known at content s s' (reverse worn)) (λ u s'. Settled s s')
        (rewrite_buckets-Rewritten env config known at content sized lawful (reverse worn) s
          (λ i m.
            in_tree leaf hl i
              (Member-keep tired i (path config.height leaf) (Member-reverse i worn m)).0)
          v maps)
        (λ u s' w. record {
          inv = w.inv;
          maps = Maps-kept env config known at content sized lawful s s' w.positions maps;
          positions = w.positions;
          ready = λ j hj. rested s' w j hj (Bool-cases (contains (reverse worn) j));
        })
    where
      tired : ℕ → Bool
      tired i = not (ltb (s.bucket_blockdata i).count config.dummies_S)

      worn : List ℕ
      worn = keep tired (path config.height leaf)

      rested :
          (s' : Oram)
          → Rewritten env config known at content s s' (reverse worn)
          → (j : ℕ) → j < total config
          → ((contains (reverse worn) j ≡ true) ⊎ (contains (reverse worn) j ≡ false))
          → (s'.bucket_blockdata j).count < config.dummies_S
      rested s' w j hj (inl c) =
          omega (arith, w.cleared j ((contains_iff (reverse worn) j).0 c), sized.some_dummy)
      rested s' w j hj (inr c) =
          let out : ¬ Member j (reverse worn) =
            λ m. refuse (contains (reverse worn) j) c ((contains_iff (reverse worn) j).1 m) in
          subst (λ x. x.count < config.dummies_S) (sym (w.others j out))
            (elim (Bool-cases (tired j)) [
              | inr t ↦ awake t
              | inl t ↦ beside j hj (λ m.
                  out (
                    Member-of_reverse j worn
                      (Member-of_keep tired j (path config.height leaf) m t)))
            ])
        where
          refuse : (o : Bool) → o ≡ false → o ≡ true → ⊥
          refuse o e' f = cc

          awake : tired j ≡ false → (s.bucket_blockdata j).count < config.dummies_S
          awake t = ground arith

  -- In a sized configuration and with a lawful environment, if the invariant holds, the position
  -- map is what it says, and every bucket of the tree has been read less than S times, then an
  -- eviction ends without a fault, and all of this holds again with the position map unchanged.
  pub evict_path-Settled :
      (s : Oram)
      → Inv env config known at content s
      → Maps at s
      → Ready config s
      → Ensures (evict_path env config s) (λ u s'. Settled s s')
  unfolding evict_path
  evict_path-Settled s v maps ready =
      let depth = config.height - 1 in
      let leaf = reverse_bits s.next_evict_G depth in
      let below : leaf < config.num_leaves =
        subst (λ n. leaf < n) (sym sized.leaves) (reverse_bits-lt s.next_evict_G depth) in
      let is = reverse (path config.height leaf) in
      let start : Oram = record s { next_evict_G = (s.next_evict_G + 1) % 2 ^ depth } in
      Ensures-mono (rewrite_buckets env config is start)
        (λ u s'. Rewritten env config known at content start s' is) (λ u s'. Settled s s')
        (rewrite_buckets-Rewritten env config known at content sized lawful is start
          (λ i m. in_tree leaf below i (Member-reverse i (path config.height leaf) m))
          (Inv-frame env config known at content s s.block_chunks_pos s.round
            ((s.next_evict_G + 1) % 2 ^ depth) s.draws v)
          maps)
        (λ u s' w. record {
          inv = w.inv;
          maps = Maps-kept env config known at content sized lawful s s' w.positions maps;
          positions = w.positions;
          ready = λ j hj. rested s' is start w refl j hj (Bool-cases (contains is j));
        })
    where
      rested :
          (s' : Oram) (is : List ℕ) (start : Oram)
          → Rewritten env config known at content start s' is
          → start.bucket_blockdata ≡ s.bucket_blockdata
          → (j : ℕ) → j < total config
          → ((contains is j ≡ true) ⊎ (contains is j ≡ false))
          → (s'.bucket_blockdata j).count < config.dummies_S
      rested s' is start w e j hj (inl c) =
          omega (arith, w.cleared j ((contains_iff is j).0 c), sized.some_dummy)
      rested s' is start w e j hj (inr c) =
          subst (λ x. x.count < config.dummies_S)
            (sym (
              w.others j (λ m. refuse (contains is j) c ((contains_iff is j).1 m))
              ∙ ap (λ g. g j) e))
            (ready j hj)
        where
          refuse : (o : Bool) → o ≡ false → o ≡ true → ⊥
          refuse o e' f = cc
