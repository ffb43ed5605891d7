-- ===== src/Ring/Contract/Writes.antt =====
-- access(INSERT) of a new block: the ORAM represents the map with that block.
use mathlib.Core.List.{append_assoc}
use de_part.Prelude.{
  ℕ, zero, suc, ◌+◌, ◌%◌, ◌≤◌, ◌<◌, ◌≡◌, refl, sym, ap, ap₂, subst, ◌∙◌, ◌≢◌, ◌⊎◌, inl, inr, true,
  false, List, [], ◌∷◌, ◌++◌, Option, none, some, arith, ◌==◌, ==_iff, lookup, keys, nat_key, Bytes,
  length, length-append, u32_mod, Distinct, Bool-cases, range_from, range_from-Distinct,
}
use de_part.Ring.State.{
  ChunkKey, Env, Config, Oram, pure, chunks_of, find_chunk, find_pos, aes_encrypt, update,
}
use de_part.Ring.Write.{evict_path}
use de_part.Ring.Access.{split_chunks, concat, insert_chunks, put_block, next_round, access_insert}
use de_part.Ring.Inv.{Ensures, Ensures-bind, Ensures-mono, Sized, Lawful}
use de_part.Ring.Inv.Read.{Inv-frame}
use de_part.Ring.Inv.Chunk.{Good}
use de_part.Ring.Inv.Block.{ids_of, contents}
use de_part.Ring.Inv.Evict.{Settled, evict_path-Settled}
use de_part.Ring.Inv.PutAll.{Putting, insert_chunks-Putting}
use de_part.Ring.Contract.{Stored, Represents}
use de_part.Ring.Contract.Chunks.{split_chunks-sizes, split_chunks-some, split_chunks-concat}

-- The cipher text of the next INSERT, and its chunks.
abbrev next_cipher : Env → Oram → Bytes → Bytes
next_cipher env s plain = env.ivs s.draws ++ env.encrypt (env.ivs s.draws) plain

abbrev pub next_chunks : Env → Config → Oram → Bytes → List Bytes
next_chunks env config s plain =
    split_chunks config.block_size (length (next_cipher env s plain)) (next_cipher env s plain)

contents_agree :
    (content content' : ChunkKey → Bytes) (bid : ℕ) (cids : List ℕ)
    → ((cid : ℕ) → content' (bid, cid) ≡ content (bid, cid))
    → contents content' bid cids ≡ contents content bid cids
contents_agree content content' bid [] h = refl
contents_agree content content' bid (cid ∷ cids) h =
    ap₂ ◌∷◌ (h cid) (contents_agree content content' bid cids h)

-- An unknown block has no chunk in the position map.
no_leaf :
    (bid cid : ℕ) (pos : List (ℕ × List (ℕ × ℕ)))
    → ids_of bid pos ≡ []
    → find_pos (bid, cid) pos ≡ none
unfolding find_pos lookup
no_leaf bid cid pos h = inside (lookup bid pos) h
  where
    inside : (o : Option (List (ℕ × ℕ))) → keys (chunks_of o) ≡ [] → find_chunk cid o ≡ none
    inside none e = refl
    inside (some []) e = refl
    inside (some (c ∷ cs)) e = cc

module _ (env : Env) (config : Config) (sized : Sized config)
    (lawful : Lawful env config.bucket_size) where
  next_round-Settled :
      (known : List ChunkKey) (at : ChunkKey → Option ℕ) (content : ChunkKey → Bytes) (s : Oram)
      → Good env config known content sized lawful at s
      → Ensures
          (next_round env config s)
          (λ u s'. Settled env config known at content sized lawful s s')
  unfolding next_round
  next_round-Settled known at content s good =
      let round' = (s.round + 1) % config.eviction_A in
      let s1 : Oram = record s { round = round' } in
      let v =
        Inv-frame env config known at content s s.block_chunks_pos round' s.next_evict_G s.draws
          good.inv in
      elim (Bool-cases (round' == 0)) [
        | inl b ↦ rw b (
            Ensures-mono (evict_path env config s1)
              (λ u s'. Settled env config known at content sized lawful s1 s')
              (λ u s'. Settled env config known at content sized lawful s s')
              (evict_path-Settled env config known at content sized lawful s1 v good.maps
                good.ready)
              (λ u s' x. record {
                inv = x.inv;
                maps = x.maps;
                positions = x.positions;
                ready = x.ready;
              }))
        | inr b ↦ rw b (record { inv = v; maps = good.maps; positions = refl; ready = good.ready })
      ]

  module _ (known : List ChunkKey) (value : ℕ → Option Bytes) (s : Oram) (bid : ℕ) (plain : Bytes)
      (r : Represents env config sized lawful known value s) (new : value bid ≡ none) where
    cipher_some : 1 ≤ length (next_cipher env s plain)
    cipher_some = omega (
      arith,
      length-append (env.ivs s.draws) (env.encrypt (env.ivs s.draws) plain),
      lawful.length-iv s.draws,
    )

    put-Represents :
        (s1 s2 : Oram)
        (p : Putting env config sized lawful s s1 bid 0
          (next_chunks env config s plain)
          known
          r.content)
        → Settled env config p.known' p.at' p.content' sized lawful s1 s2
        → Represents env config sized lawful p.known' (update value bid (some plain)) s2
    put-Represents s1 s2 p settled = record {
      at = p.at';
      content = p.content';
      good = record { inv = settled.inv; maps = settled.maps; ready = settled.ready };
      absent = λ b e. gone b e (Bool-cases (b == bid));
      stored = λ b text e. there b text e (Bool-cases (b == bid));
    }
      where
        ids : (b : ℕ) → ids_of b s2.block_chunks_pos ≡ ids_of b s1.block_chunks_pos
        ids b = ap (ids_of b) settled.positions

        apart : (b : ℕ) → (b == bid) ≡ false → b ≢ bid
        apart b f = λ e. ground (arith, e, f)

        gone :
            (b : ℕ)
            → update value bid (some plain) b ≡ none
            → (((b == bid) ≡ true) ⊎ ((b == bid) ≡ false))
            → ids_of b s2.block_chunks_pos ≡ []
        gone b e (inl f) = absurd (ground (arith, e, f))
        gone b e (inr f) = ids b ∙ p.others b (apart b f) ∙ r.absent b (ground (arith, e, f))

        own :
            ids_of bid s2.block_chunks_pos ≡ range_from (length (next_chunks env config s plain)) 0
        own =
            let z : 0 + length (next_chunks env config s plain)
                ≡ length (next_chunks env config s plain) =
              omega arith in
            ids bid ∙ p.own ∙ ap (λ n. range_from n 0) z

        own_Stored : Stored env p.content' s2 bid plain
        own_Stored =
            let cipher = next_cipher env s plain in
            let (pad, e) =
              split_chunks-concat (length cipher) config.block_size cipher
                (omega (arith, sized.wide)) (omega arith) in
            record {
              some_chunk = λ h.
                  no_range (length (next_chunks env config s plain))
                    (split_chunks-some config.block_size (length cipher) cipher cipher_some
                      (omega arith))
                    (sym own ∙ h);
              distinct =
                  subst Distinct (sym own)
                    (range_from-Distinct (length (next_chunks env config s plain)) 0);
              iv = env.ivs s.draws;
              pad = pad;
              iv_length = lawful.length-iv s.draws;
              whole =
                  ap (λ xs. concat (contents p.content' bid xs)) own
                  ∙ ap concat p.put
                  ∙ e
                  ∙ append_assoc (env.ivs s.draws) (env.encrypt (env.ivs s.draws) plain) pad;
            }
          where
            no_range : (n : ℕ) → 1 ≤ n → range_from n 0 ≡ [] → ⊥
            no_range zero h e = omega arith
            no_range (suc n) h e = cc

        kept :
            (b : ℕ) (text : Bytes)
            → b ≢ bid
            → Stored env r.content s b text
            → Stored env p.content' s2 b text
        kept b text ne st =
            let same = ids b ∙ p.others b ne in
            record {
              some_chunk = subst (λ xs. xs ≢ []) (sym same) st.some_chunk;
              distinct = subst Distinct (sym same) st.distinct;
              iv = st.iv;
              pad = st.pad;
              iv_length = st.iv_length;
              whole =
                  ap (λ xs. concat (contents p.content' b xs)) same
                  ∙ ap concat (
                      contents_agree r.content p.content' b (ids_of b s.block_chunks_pos)
                        (λ cid. p.fixed (b, cid) (inl ne)))
                  ∙ st.whole;
            }

        there :
            (b : ℕ) (text : Bytes)
            → update value bid (some plain) b ≡ some text
            → (((b == bid) ≡ true) ⊎ ((b == bid) ≡ false))
            → Stored env p.content' s2 b text
        there b text e (inl f) =
            let same : plain ≡ text = ground (arith, e, f) in
            subst (λ x. Stored env p.content' s2 x text) (sym ((==_iff b bid).0 f))
              (subst (λ x. Stored env p.content' s2 bid x) same own_Stored)
        there b text e (inr f) = kept b text (apart b f) (r.stored b text (ground (arith, e, f)))

  -- In a sized configuration and with a lawful environment, if the ORAM represents a map without
  -- the block, and the stash limit and 32 bits leave room for the chunks of its cipher text
  -- besides all chunks there are, then access(INSERT) ends without a fault, returns the empty
  -- string, and the ORAM represents the map with the block added, with these chunks counted.
  pub access_insert-adds :
      (known : List ChunkKey) (value : ℕ → Option Bytes) (s : Oram) (bid : ℕ) (plain : Bytes)
      → Represents env config sized lawful known value s
      → value bid ≡ none
      → length known + length (next_chunks env config s plain) ≤ s.stash_limit
      → length known + length (next_chunks env config s plain) < u32_mod
      → Ensures (access_insert env config bid plain s) (λ answer s'.
        (answer ≡ [])
        × (known' : List ChunkKey) × (length known'
            ≡ length known + length (next_chunks env config s plain))
        × Represents env config sized lawful known' (update value bid (some plain)) s')
  unfolding access_insert put_block aes_encrypt
  access_insert-adds known value s bid plain r new room small =
      let s0 : Oram = record s { draws = s.draws + 1 } in
      let cs = next_chunks env config s plain in
      let good0 : Good env config known r.content sized lawful r.at s0 = record {
        inv =
            Inv-frame env config known r.at r.content s s.block_chunks_pos s.round s.next_evict_G
              (s.draws + 1) r.good.inv;
        maps = r.good.maps;
        ready = r.good.ready;
      } in
      let none_yet = r.absent bid new in
      Ensures-bind (insert_chunks env config bid 0 cs s0) _
        (λ u s1. Putting env config sized lawful s0 s1 bid 0 cs known r.content)
        (λ answer s'.
          (answer ≡ [])
          × (known' : List ChunkKey) × (length known' ≡ length known + length cs)
          × Represents env config sized lawful known' (update value bid (some plain)) s')
        (insert_chunks-Putting env config sized lawful cs s0 bid 0 known r.at r.content
          (split_chunks-sizes config.block_size (length (next_cipher env s plain))
            (next_cipher env s plain))
          (λ x h. sym (r.good.maps (bid, x)) ∙ no_leaf bid x s.block_chunks_pos none_yet) none_yet
          room small good0)
        (λ u s1 p0.
          let p : Putting env config sized lawful s s1 bid 0 cs known r.content = record {
            known' = p0.known';
            at' = p0.at';
            content' = p0.content';
            good' = p0.good';
            counted = p0.counted;
            own = p0.own;
            others = p0.others;
            fixed = p0.fixed;
            put = p0.put;
            limit = p0.limit;
          } in
          Ensures-bind (next_round env config s1) (λ u2. pure [])
            (λ u2 s2. Settled env config p.known' p.at' p.content' sized lawful s1 s2)
            (λ answer s'.
              (answer ≡ [])
              × (known' : List ChunkKey) × (length known' ≡ length known + length cs)
              × Represents env config sized lawful known' (update value bid (some plain)) s')
            (next_round-Settled p.known' p.at' p.content' s1 p.good')
            (λ u2 s2 settled. (
              refl,
              p.known',
              p.counted,
              put-Represents known value s bid plain r new s1 s2 p settled,
            )))
