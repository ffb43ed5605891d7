-- ===== src/Ring/Inv/Block.antt =====
-- A read of a whole block: its chunks come back in order, and every chunk stays stored.
use de_part.Prelude.{
  ℕ, ◌≡◌, refl, sym, ap, ap₂, subst, ◌∙◌, ◌≢◌, inl, inr, List, [], ◌∷◌, Option, some, arith, ◌==◌,
  ==_iff, lookup, lookup-insert, insert, keys, nat_key, Bytes, Member, Distinct, Bool-cases,
  keys-insert_member,
}
use de_part.Ring.State.{ChunkKey, chunk_key_order, Env, Config, Oram, pure, chunks_of, set_pos}
use de_part.Ring.Access.{access_chunk, access_chunks}
use de_part.Ring.Inv.{Ensures, Ensures-bind, Sized, Lawful}
use de_part.Ring.Inv.Chunk.{Good, moved, Moved, access_chunk-Moved}

-- The chunks of a block, by their ids.
abbrev pub ids_of : ℕ → List (ℕ × List (ℕ × ℕ)) → List ℕ
ids_of bid pos = keys (chunks_of (lookup bid pos))

abbrev pub contents : (ChunkKey → Bytes) → ℕ → List ℕ → List Bytes
contents content bid [] = []
contents content bid (cid ∷ cids) = content (bid, cid) ∷ contents content bid cids

-- Each of these chunks stands under its leaf.
abbrev pub Standing : (ChunkKey → Option ℕ) → ℕ → List (ℕ × ℕ) → Type 0
Standing at bid [] = Unit
Standing at bid ((cid, leaf) ∷ chunks) = (at (bid, cid) ≡ some leaf) × Standing at bid chunks

-- Moving a chunk that a block has changes no block's list of chunks.
ids_of-set_pos :
    (bid cid leaf bid' : ℕ) (pos : List (ℕ × List (ℕ × ℕ)))
    → Member cid (ids_of bid pos)
    → ids_of bid' (set_pos (bid, cid) leaf pos) ≡ ids_of bid' pos
unfolding set_pos
ids_of-set_pos bid cid leaf bid' pos m =
    let chunks' = insert cid leaf (chunks_of (lookup bid pos)) in
    let law = lookup-insert bid bid' chunks' pos in
    elim (Bool-cases (bid == bid')) [
      | inr b ↦
          let e : lookup bid' (insert bid chunks' pos) ≡ lookup bid' pos = ground (arith, law, b) in
          ap (λ o. keys (chunks_of o)) e
      | inl b ↦
          let same : bid ≡ bid' = (==_iff bid bid').0 b in
          let e : lookup bid' (insert bid chunks' pos) ≡ some chunks' = ground (arith, law, b) in
          ap (λ o. keys (chunks_of o)) e
          ∙ keys-insert_member cid leaf (chunks_of (lookup bid pos)) m
          ∙ ap (λ x. ids_of x pos) same
    ]

Standing-moved :
    (at : ChunkKey → Option ℕ) (bid cid new : ℕ) (chunks : List (ℕ × ℕ))
    → (¬ Member cid (keys chunks))
    → Standing at bid chunks
    → Standing (moved at (bid, cid) new) bid chunks
Standing-moved at bid cid new [] h st = tt
Standing-moved at bid cid new ((cid', leaf) ∷ chunks) h (e, st) = (
  ground (arith, ==_iff cid cid', apart, e),
  Standing-moved at bid cid new chunks (λ m. h (inr m)) st,
)
  where
    apart : cid ≢ cid'
    apart f = h (inl f)

module _ (env : Env) (config : Config) (known : List ChunkKey) (content : ChunkKey → Bytes)
    (sized : Sized config) (lawful : Lawful env config.bucket_size) where
  -- After a read: a good state with the same blocks.
  pub record Served (s s' : Oram) : Type 0 where
    pub at : ChunkKey → Option ℕ
    pub good : Good env config known content sized lawful at s'
    pub ids_kept : (bid : ℕ) → ids_of bid s'.block_chunks_pos ≡ ids_of bid s.block_chunks_pos

  pub access_chunks-Served :
      (chunks : List (ℕ × ℕ)) (bid : ℕ) (at : ChunkKey → Option ℕ) (s : Oram)
      → Distinct (keys chunks)
      → ((cid : ℕ) → Member cid (keys chunks) → Member cid (ids_of bid s.block_chunks_pos))
      → Standing at bid chunks
      → Good env config known content sized lawful at s
      → Ensures
          (access_chunks env config bid chunks s)
          (λ cs s'. (cs ≡ contents content bid (keys chunks)) × Served s s')
  unfolding access_chunks
  access_chunks-Served [] bid at s d here st good =
      (refl, record { at = at; good = good; ids_kept = λ b. refl })
  access_chunks-Served ((cid, leaf) ∷ chunks) bid at s (new, d) here (e, st) good =
      Ensures-bind (access_chunk env config (bid, cid) leaf s) _
        (λ c s'. Moved env config known content sized lawful at s (bid, cid) c s')
        (λ cs s'. (cs ≡ contents content bid (cid ∷ keys chunks)) × Served s s')
        (access_chunk-Moved env config known content sized lawful at s (bid, cid) leaf e good)
        (λ c s1 h.
          let same1 = kept s1 h.1 h.3 in
          Ensures-bind (access_chunks env config bid chunks s1) (λ cs. pure (c ∷ cs))
            (λ cs s'. (cs ≡ contents content bid (keys chunks)) × Served s1 s')
            (λ cs s'. (cs ≡ contents content bid (cid ∷ keys chunks)) × Served s s')
            (access_chunks-Served chunks bid (moved at (bid, cid) h.1) s1 d
              (λ x m. subst (λ xs. Member x xs) (sym (same1 bid)) (here x (inr m)))
              (Standing-moved at bid cid h.1 chunks new st) h.2)
            (λ cs s2 r. (
              ap₂ ◌∷◌ h.0 r.0,
              record { at = r.1.at; good = r.1.good; ids_kept = λ b. r.1.ids_kept b ∙ same1 b },
            )))
    where
      kept :
          (s1 : Oram) (leaf' : ℕ)
          → s1.block_chunks_pos ≡ set_pos (bid, cid) leaf' s.block_chunks_pos
          → (b : ℕ) → ids_of b s1.block_chunks_pos ≡ ids_of b s.block_chunks_pos
      kept s1 leaf' f b =
          ap (ids_of b) f ∙ ids_of-set_pos bid cid leaf' b s.block_chunks_pos (here cid (inl refl))
