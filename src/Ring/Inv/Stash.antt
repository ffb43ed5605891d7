-- ===== src/Ring/Inv/Stash.antt =====
-- Putting a chunk into the stash: it never overflows, and the invariant is kept.
use de_part.Prelude.{
  ℕ, suc, ◌≤◌, ◌≡◌, refl, ap, subst, ◌⊎◌, inl, inr, true, false, List, [], ◌∷◌, Option, some, arith,
  if◌then◌else◌, ltb, lookup, insert, lookup-insert, insert-Distinct, keys, Member-keys_iff, ◌=?◌,
  Bytes, length, to_u32, Member, Bool-cases, Option-cases, length-le_of_Distinct,
}
use de_part.Ring.State.{ChunkKey, chunk_key_order, Env, Config, Oram, done, stash_insert}
use de_part.Ring.Inv.{Inv, Held}

abbrev pub stashed : ChunkKey → Bytes → Oram → Oram
stashed k cipher s = record s {
  stash = insert k cipher s.stash;
  stash_high_watermark =
      if ltb s.stash_high_watermark (to_u32 (length (insert k cipher s.stash)))
      then to_u32 (length (insert k cipher s.stash))
      else s.stash_high_watermark;
}

pub length-keys : {K V : Type 0} (m : List (K × V)) → length (keys m) ≡ length m
length-keys [] = refl
length-keys ((k, v) ∷ m) = ap suc (length-keys m)

module _ (env : Env) (config : Config) (known : List ChunkKey) (at : ChunkKey → Option ℕ)
    (content : ChunkKey → Bytes) where
  pub stash-le_known :
      (s : Oram) → Inv env config known at content s → length s.stash ≤ length known
  stash-le_known s v =
      subst (λ n. n ≤ length known) (length-keys s.stash)
        (length-le_of_Distinct (keys s.stash) known v.stash_distinct (λ k m. known_key k m))
    where
      known_key : (k : ChunkKey) → Member k (keys s.stash) → Member k known
      known_key k m = elim (Option-cases (lookup k s.stash)) [
        | inl e ↦ absurd ((Member-keys_iff k s.stash).0 m e)
        | inr (c, e) ↦ let (same, leaf, here) = v.stash_content k c e in (v.placed k leaf here).0
      ]

  Held-stashed :
      (s : Oram) (k j : ChunkKey) (c : Bytes) (leaf : ℕ)
      → Held config s j leaf
      → Held config (stashed k c s) j leaf
  Held-stashed s k j c leaf (inl h) =
      inl
        (λ e. absurd (h (ground (arith, lookup-insert k j c s.stash, chunk_key_order.beq_iff k j))))
  Held-stashed s k j c leaf (inr h) = inr h

  pub stashed-Inv :
      (s : Oram) (k : ChunkKey) (leaf : ℕ)
      → at k ≡ some leaf
      → Inv env config known at content s
      → Inv env config known at content (stashed k (content k) s)
  stashed-Inv s k leaf here v = record {
    room = v.room;
    small = v.small;
    placed = v.placed;
    stash_distinct = insert-Distinct k (content k) s.stash v.stash_distinct;
    stash_content = λ j c e. from (Bool-cases (k =? j)) e;
    tree_content = v.tree_content;
    held = λ j l e. Held-stashed s k j (content k) l (v.held j l e);
    buckets = v.buckets;
  }
    where
      from :
          {j : ChunkKey} {c : Bytes}
          → (((k =? j) ≡ true) ⊎ ((k =? j) ≡ false))
          → lookup j (insert k (content k) s.stash) ≡ some c
          → (c ≡ content j) × (l : ℕ) × (at j ≡ some l)
      from {j} {c} (inl b) e =
          let same : k ≡ j = (chunk_key_order.beq_iff k j).0 b in
          (
            ground (arith, lookup-insert k j (content k) s.stash, ap content same),
            leaf,
            subst (λ x. at x ≡ some leaf) same here,
          )
      from {j} {c} (inr b) e =
          v.stash_content j c (ground (arith, lookup-insert k j (content k) s.stash))

  pub stash_fits :
      (s : Oram) (k : ChunkKey) (leaf : ℕ)
      → at k ≡ some leaf
      → Inv env config known at content s
      → ltb s.stash_limit (to_u32 (length (insert k (content k) s.stash))) ≡ false
  stash_fits s k leaf here v =
      let bound = stash-le_known (stashed k (content k) s) (stashed-Inv s k leaf here v) in
      ground (arith, bound, v.room, v.small)

  pub stash_insert_lem :
      (s : Oram) (k : ChunkKey) (leaf : ℕ)
      → at k ≡ some leaf
      → Inv env config known at content s
      → stash_insert env config k (content k) s ≡ done (tt, stashed k (content k) s)
  unfolding stash_insert
  stash_insert_lem s k leaf here v = rw (stash_fits s k leaf here v)
