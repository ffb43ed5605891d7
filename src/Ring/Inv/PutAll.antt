-- ===== src/Ring/Inv/PutAll.antt =====
-- INSERT: all chunks of a new block, one after the other.
use native.Mathlib.Nat.{mod-lt}
use de_part.Prelude.{
  ℕ, zero, suc, ◌+◌, ◌-◌, ◌%◌, ◌≤◌, ◌<◌, ◌≡◌, refl, sym, ap, ap₂, subst, ◌∙◌, ◌≢◌, ◌⊎◌, inl, inr,
  false, List, [], ◌∷◌, ◌++◌, Option, none, some, arith, ltb, ==_iff, lookup, lookup-insert, insert,
  keys, keys-insert_last, nat_key, Bytes, length, u32_mod, to_u32, Member, All, range_from,
  Member-range_from,
}
use de_part.Ring.State.{
  ChunkKey, chunk_key_order, Env, Config, Oram, done, continue, rand_int, chunks_of, set_pos,
  stash_insert,
}
use de_part.Ring.Path.Nodes.{pow_pos}
use de_part.Ring.Access.{insert_chunk, insert_chunks}
use de_part.Ring.Inv.{Ensures, Ensures-mono, Sized, Lawful}
use de_part.Ring.Inv.Read.{Inv-frame}
use de_part.Ring.Inv.Stash.{stashed}
use de_part.Ring.Inv.Chunk.{Good, moved, Maps-moved}
use de_part.Ring.Inv.Block.{ids_of, contents}
use de_part.Ring.Inv.Put.{given, given-Inv, given-fits}

range_from_last : (n i : ℕ) → range_from (suc n) i ≡ range_from n i ++ (i + n) ∷ []
range_from_last zero i = ap (λ x. x ∷ []) (omega arith)
range_from_last (suc n) i =
    ap (λ r. i ∷ r)
      (range_from_last n (i + 1) ∙ ap (λ x. range_from n (i + 1) ++ x ∷ []) (omega arith))

range_from_next : (n : ℕ) → range_from (n + 1) 0 ≡ range_from n 0 ++ n ∷ []
range_from_next n =
    let e : n + 1 ≡ suc n = omega arith in
    let z : 0 + n ≡ n = omega arith in
    ap (λ m. range_from m 0) e ∙ range_from_last n 0 ∙ ap (λ x. range_from n 0 ++ x ∷ []) z

-- A new chunk is the last one of its block, …
ids_of-set_pos_new :
    (bid cid leaf : ℕ) (pos : List (ℕ × List (ℕ × ℕ)))
    → ids_of bid pos ≡ range_from cid 0
    → ids_of bid (set_pos (bid, cid) leaf pos) ≡ range_from (cid + 1) 0
unfolding set_pos
ids_of-set_pos_new bid cid leaf pos h =
    let chunks = chunks_of (lookup bid pos) in
    let e : lookup bid (insert bid (insert cid leaf chunks) pos) ≡ some (insert cid leaf chunks) =
      ground (arith, lookup-insert bid bid (insert cid leaf chunks) pos, ==_iff bid bid) in
    ap (λ o. keys (chunks_of o)) e
    ∙ keys-insert_last cid leaf chunks
        (λ m. omega (arith, Member-range_from cid 0 cid (subst (λ xs. Member cid xs) h m)))
        (λ j m. below j (Member-range_from cid 0 j (subst (λ xs. Member j xs) h m)).1)
    ∙ ap (λ xs. xs ++ cid ∷ []) h
    ∙ sym (range_from_next cid)
  where
    below : (j : ℕ) → j < 0 + cid → ltb cid j ≡ false
    below j lt = ground arith

-- … and no other block is concerned.
ids_of-set_pos_ne :
    (bid cid leaf b : ℕ) (pos : List (ℕ × List (ℕ × ℕ)))
    → b ≢ bid
    → ids_of b (set_pos (bid, cid) leaf pos) ≡ ids_of b pos
unfolding set_pos
ids_of-set_pos_ne bid cid leaf b pos ne =
    let chunks = insert cid leaf (chunks_of (lookup bid pos)) in
    let e : lookup b (insert bid chunks pos) ≡ lookup b pos =
      ground (arith, lookup-insert bid b chunks pos, ==_iff bid b, ne) in
    ap (λ o. keys (chunks_of o)) e

module _ (env : Env) (config : Config) (sized : Sized config)
    (lawful : Lawful env config.bucket_size) where
  insert_chunk_lem :
      (s : Oram) (k : ChunkKey) (c : Bytes)
      → ltb s.stash_limit (to_u32 (length (insert k c s.stash))) ≡ false
      → insert_chunk env config k c s
        ≡ done (
          tt,
          stashed k c (record s {
            block_chunks_pos = set_pos k (env.coins s.draws % config.num_leaves) s.block_chunks_pos;
            draws = s.draws + 1;
          }),
        )
  unfolding insert_chunk rand_int stash_insert
  insert_chunk_lem s k c fits = rw fits refl

  -- The chunks `cs` of block `bid` are there, from the id `cid` on.
  pub record Putting (s s' : Oram) (bid cid : ℕ) (cs : List Bytes) (known : List ChunkKey)
      (content : ChunkKey → Bytes) : Type 0 where
    pub known' : List ChunkKey
    pub at' : ChunkKey → Option ℕ
    pub content' : ChunkKey → Bytes
    pub good' : Good env config known' content' sized lawful at' s'
    pub counted : length known' ≡ length known + length cs
    pub own : ids_of bid s'.block_chunks_pos ≡ range_from (cid + length cs) 0
    pub others : (b : ℕ) → b ≢ bid → ids_of b s'.block_chunks_pos ≡ ids_of b s.block_chunks_pos
    pub fixed : (j : ChunkKey) → (j.0 ≢ bid) ⊎ (j.1 < cid) → content' j ≡ content j
    pub put : contents content' bid (range_from (length cs) cid) ≡ cs
    pub limit : s'.stash_limit ≡ s.stash_limit

  pub insert_chunks-Putting :
      (cs : List Bytes) (s : Oram) (bid cid : ℕ) (known : List ChunkKey) (at : ChunkKey → Option ℕ)
      (content : ChunkKey → Bytes)
      → All (λ c. length c ≡ config.block_size) cs
      → ((x : ℕ) → cid ≤ x → at (bid, x) ≡ none)
      → ids_of bid s.block_chunks_pos ≡ range_from cid 0
      → length known + length cs ≤ s.stash_limit
      → length known + length cs < u32_mod
      → Good env config known content sized lawful at s
      → Ensures
          (insert_chunks env config bid cid cs s)
          (λ u s'. Putting s s' bid cid cs known content)
  unfolding insert_chunks
  insert_chunks-Putting [] s bid cid known at content sizes new ids room small good = record {
    known' = known;
    at' = at;
    content' = content;
    good' = good;
    counted = omega arith;
    own = ids ∙ ap (λ n. range_from n 0) (omega arith);
    others = λ b h. refl;
    fixed = λ j h. refl;
    put = refl;
    limit = refl;
  }
  insert_chunks-Putting (c ∷ cs) s bid cid known at content (size, sizes) new ids room small good =
      let k : ChunkKey = (bid, cid) in
      let leaf = env.coins s.draws % config.num_leaves in
      let hl : leaf < config.num_leaves =
        mod-lt (env.coins s.draws) (omega (arith, sized.leaves, pow_pos (config.height - 1))) in
      let s0 : Oram = record s {
        block_chunks_pos = set_pos k leaf s.block_chunks_pos;
        draws = s.draws + 1;
      } in
      let v0 =
        Inv-frame env config known at content s (set_pos k leaf s.block_chunks_pos) s.round
          s.next_evict_G (s.draws + 1) good.inv in
      let here = new cid (omega arith) in
      let fits =
        given-fits env config known at content s0 k c leaf here hl size (omega arith) (omega arith)
          v0 in
      let s1 : Oram = stashed k c s0 in
      let good1 : Good env config (k ∷ known) (given content k c) sized lawful (moved at k leaf)
          s1 =
        record {
          inv =
              given-Inv env config known at content s0 k c leaf here hl size (omega arith)
                (omega arith) v0;
          maps = Maps-moved at s s1 k leaf refl good.maps;
          ready = good.ready;
        } in
      subst
        (λ o.
          Ensures (continue o (λ u. insert_chunks env config bid (cid + 1) cs))
            (λ u s'. Putting s s' bid cid (c ∷ cs) known content))
        (sym (insert_chunk_lem s k c fits))
        (Ensures-mono (insert_chunks env config bid (cid + 1) cs s1)
          (λ u s'. Putting s1 s' bid (cid + 1) cs (k ∷ known) (given content k c))
          (λ u s'. Putting s s' bid cid (c ∷ cs) known content)
          (insert_chunks-Putting cs s1 bid (cid + 1) (k ∷ known) (moved at k leaf)
            (given content k c) sizes (λ x h. free x h)
            (ids_of-set_pos_new bid cid leaf s.block_chunks_pos ids) (omega arith) (omega arith)
            good1)
          (λ u s2 rest. record {
            known' = rest.known';
            at' = rest.at';
            content' = rest.content';
            good' = rest.good';
            counted = omega (arith, rest.counted);
            own = rest.own ∙ ap (λ n. range_from n 0) (omega arith);
            others = λ b h. rest.others b h ∙ ids_of-set_pos_ne bid cid leaf b s.block_chunks_pos h;
            fixed = λ j h. rest.fixed j (wider j h) ∙ untouched j h;
            put = ap₂ ◌∷◌ (rest.fixed k (inr (omega arith)) ∙ at_k) rest.put;
            limit = rest.limit;
          }))
    where
      free :
          (x : ℕ)
          → cid + 1 ≤ x
          → moved at (bid, cid) (env.coins s.draws % config.num_leaves) (bid, x) ≡ none
      free x h = ground (arith, new x (omega arith), ==_iff cid x)

      wider : (j : ChunkKey) → (j.0 ≢ bid) ⊎ (j.1 < cid) → (j.0 ≢ bid) ⊎ (j.1 < cid + 1)
      wider j (inl h) = inl h
      wider j (inr h) = inr (omega arith)

      untouched :
          (j : ChunkKey) → (j.0 ≢ bid) ⊎ (j.1 < cid) → given content (bid, cid) c j ≡ content j
      untouched j (inl h) = ground (arith, h, ==_iff bid j.0)
      untouched j (inr h) = ground (arith, h, ==_iff cid j.1)

      at_k : given content (bid, cid) c (bid, cid) ≡ c
      at_k = ground (arith, ==_iff bid bid, ==_iff cid cid)
