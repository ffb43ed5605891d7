-- ===== src/Ring/Inv/Put.antt =====
-- INSERT: a chunk with a new id goes to the stash, and the invariant holds with one chunk more.
use de_part.Prelude.{
  ℕ, ◌+◌, ◌≤◌, ◌<◌, ◌≡◌, sym, subst, ◌⊎◌, inl, inr, true, false, List, ◌∷◌, Option, none, some,
  arith, if◌then◌else◌, ltb, lookup, lookup-insert, insert, insert-Distinct, nat_key, ◌=?◌, Bytes,
  length, u32_mod, to_u32, Member, Bool-cases,
}
use de_part.Ring.State.{ChunkKey, chunk_key_order, Env, Config, Oram}
use de_part.Ring.Inv.{Inv, Held}
use de_part.Ring.Inv.Stash.{stashed, stash-le_known}
use de_part.Ring.Inv.Chunk.{moved}

-- The contents once the chunk `k` is there.
abbrev pub given : (ChunkKey → Bytes) → ChunkKey → Bytes → ChunkKey → Bytes
given content k c j = if k =? j then c else content j

module _ (env : Env) (config : Config) (known : List ChunkKey) (at : ChunkKey → Option ℕ)
    (content : ChunkKey → Bytes) (s : Oram) (k : ChunkKey) (c : Bytes) (leaf : ℕ)
    (new : at k ≡ none) (hl : leaf < config.num_leaves) (size : length c ≡ config.block_size)
    (room : length known + 1 ≤ s.stash_limit) (small : length known + 1 < u32_mod)
    (v : Inv env config known at content s) where
  Given : (ChunkKey → Option ℕ) → (ChunkKey → Bytes) → Oram → Type 0
  Given at' content' s' = Inv env config (k ∷ known) at' content' s'

  other : (j : ChunkKey) (l : ℕ) → at j ≡ some l → (k =? j) ≡ false
  other j l e = elim (Bool-cases (k =? j)) [
    | inr b ↦ b
    | inl b ↦
        absurd (clash (at j) l (subst (λ x. at x ≡ none) ((chunk_key_order.beq_iff k j).0 b) new) e)
  ]
    where
      clash : (o : Option ℕ) (x : ℕ) → o ≡ none → o ≡ some x → ⊥
      clash o x f g = cc

  pub given-Inv : Inv env config (k ∷ known) (moved at k leaf) (given content k c) (stashed k c s)
  given-Inv = record {
    room = omega arith;
    small = omega arith;
    placed = λ j l e. settle j l (Bool-cases (k =? j)) e;
    stash_distinct = insert-Distinct k c s.stash v.stash_distinct;
    stash_content = λ j d e. in_stash j d (Bool-cases (k =? j)) e;
    tree_content = λ i j slot hi e.
        let t = v.tree_content i j slot hi e in
        let b = other j t.1 t.2 in (ground (arith, t.0, b), t.1, ground (arith, t.2, b), t.3);
    held = λ j l e. hold j l (Bool-cases (k =? j)) e;
    buckets = v.buckets;
  }
    where
      settle :
          (j : ChunkKey) (l : ℕ)
          → (((k =? j) ≡ true) ⊎ ((k =? j) ≡ false))
          → moved at k leaf j ≡ some l
          → Member j (k ∷ known)
            × (l < config.num_leaves)
            × (length (given content k c j) ≡ config.block_size)
      settle j l (inl b) e = (
        inl (sym ((chunk_key_order.beq_iff k j).0 b)),
        ground (arith, e, b),
        ground (arith, size, b),
      )
      settle j l (inr b) e =
          let e' : at j ≡ some l = ground (arith, e, b) in
          let t = v.placed j l e' in (inr t.0, t.1, ground (arith, t.2, b))

      in_stash :
          (j : ChunkKey) (d : Bytes)
          → (((k =? j) ≡ true) ⊎ ((k =? j) ≡ false))
          → lookup j (insert k c s.stash) ≡ some d
          → (d ≡ given content k c j) × (l : ℕ) × (moved at k leaf j ≡ some l)
      in_stash j d (inl b) e =
          (ground (arith, lookup-insert k j c s.stash, e, b), leaf, ground (arith, b))
      in_stash j d (inr b) e =
          let e' : lookup j s.stash ≡ some d = ground (arith, lookup-insert k j c s.stash, e, b) in
          let t = v.stash_content j d e' in (ground (arith, t.0, b), t.1, ground (arith, t.2, b))

      hold :
          (j : ChunkKey) (l : ℕ)
          → (((k =? j) ≡ true) ⊎ ((k =? j) ≡ false))
          → moved at k leaf j ≡ some l
          → Held config (stashed k c s) j l
      hold j l (inl b) e = inl (λ f. ground (arith, lookup-insert k j c s.stash, f, b))
      hold j l (inr b) e =
          let e' : at j ≡ some l = ground (arith, e, b) in keep_held (v.held j l e')
        where
          keep_held : Held config s j l → Held config (stashed k c s) j l
          keep_held (inl h) = inl (λ f. ground (arith, lookup-insert k j c s.stash, h, f))
          keep_held (inr h) = inr h

  pub given-fits : ltb s.stash_limit (to_u32 (length (insert k c s.stash))) ≡ false
  given-fits =
      let bound =
        stash-le_known env config (k ∷ known) (moved at k leaf) (given content k c) (stashed k c s)
          given-Inv in
      ground (arith, bound, room, small)
