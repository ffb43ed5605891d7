-- ===== src/Ring/Inv/Chunk.antt =====
-- One chunk of a read: it comes back with its bytes, and moves to its new path.
use native.Mathlib.Nat.{mod-lt}
use de_part.Prelude.{
  ℕ, ◌+◌, ◌%◌, ◌<◌, ◌≡◌, refl, sym, ap, subst, ◌∙◌, ◌⊎◌, inl, inr, true, false, List, [], ◌∷◌,
  Option, none, some, arith, if◌then◌else◌, lookup, lookup-insert, insert, nat_key, ◌=?◌, Bytes,
  length, Member, Bool-cases, Option-cases,
}
use de_part.Ring.State.{
  ChunkKey, chunk_key_order, Env, Config, Oram, done, pure, continue, ◌>>=◌, rand_int, find_pos,
  set_pos, global_slot_id,
}
use de_part.Ring.Path.{path}
use de_part.Ring.Bucket.{read_path}
use de_part.Ring.Write.{early_reshuffle}
use de_part.Ring.Access.{take_stash, in_stash_if_empty, access_chunk}
use de_part.Ring.Inv.{Ensures, Ensures-bind, Sized, Lawful, Inv, Held, entry, total, Maps, Ready}
use de_part.Ring.Inv.Read.{Inv-frame}
use de_part.Ring.Inv.Node.{Reading}
use de_part.Ring.Inv.Trip.{read_path-Reading}
use de_part.Ring.Inv.Evict.{Settled, early_reshuffle-Settled}

find_pos-set_pos :
    (k j : ChunkKey) (leaf : ℕ) (pos : List (ℕ × List (ℕ × ℕ)))
    → find_pos j (set_pos k leaf pos) ≡ (if k =? j then some leaf else find_pos j pos)
unfolding find_pos set_pos
find_pos-set_pos (bid, cid) (bid', cid') leaf pos = elim (Option-cases (lookup bid pos)) [
  | inl e ↦ ground (
    arith,
    e,
    lookup-insert bid bid' (insert cid leaf []) pos,
    lookup-insert cid cid' leaf [],
    nat_key.beq_iff bid bid',
    nat_key.beq_iff cid cid',
  )
  | inr (chunks, e) ↦ ground (
    arith,
    e,
    lookup-insert bid bid' (insert cid leaf chunks) pos,
    lookup-insert cid cid' leaf chunks,
    nat_key.beq_iff bid bid',
    nat_key.beq_iff cid cid',
  )
]

-- The leaves once the chunk `k` has moved.
abbrev pub moved : (ChunkKey → Option ℕ) → ChunkKey → ℕ → ChunkKey → Option ℕ
moved at k leaf j = if k =? j then some leaf else at j

pub Maps-moved :
    (at : ChunkKey → Option ℕ) (s s' : Oram) (k : ChunkKey) (leaf : ℕ)
    → s'.block_chunks_pos ≡ set_pos k leaf s.block_chunks_pos
    → Maps at s
    → Maps (moved at k leaf) s'
Maps-moved at s s' k leaf e maps = λ j.
    ap (find_pos j) e
    ∙ find_pos-set_pos k j leaf s.block_chunks_pos
    ∙ ap (λ o. if k =? j then some leaf else o) (maps j)

module _ (env : Env) (config : Config) (known : List ChunkKey) (content : ChunkKey → Bytes)
    (sized : Sized config) (lawful : Lawful env config.bucket_size) where
  -- A state between two operations.
  pub record Good (at : ChunkKey → Option ℕ) (s : Oram) : Type 0 where
    pub inv : Inv env config known at content s
    pub maps : Maps at s
    pub ready : Ready config s

  -- A chunk that is in the stash and in no bucket of its path may get another path.
  Inv-moved :
      (at : ChunkKey → Option ℕ) (s : Oram) (k : ChunkKey) (old new : ℕ)
      → new < config.num_leaves
      → at k ≡ some old
      → lookup k s.stash ≡ some (content k)
      → ((i : ℕ) → Member i (path config.height old) → entry s i k ≡ none)
      → Inv env config known at content s
      → Inv env config known (moved at k new) content s
  Inv-moved at s k old new hn here in_stash gone v = record {
    room = v.room;
    small = v.small;
    placed = λ j l e. settle j l (Bool-cases (k =? j)) e;
    stash_distinct = v.stash_distinct;
    stash_content = λ j c e.
        let t = v.stash_content j c e in
        let l = leaf_of j t.1 t.2 (Bool-cases (k =? j)) in (t.0, l.0, l.1);
    tree_content = λ i j slot hi e. still i j slot hi e (Bool-cases (k =? j));
    held = λ j l e. hold j l (Bool-cases (k =? j)) e;
    buckets = v.buckets;
  }
    where
      settle :
          (j : ChunkKey) (l : ℕ)
          → (((k =? j) ≡ true) ⊎ ((k =? j) ≡ false))
          → moved at k new j ≡ some l
          → Member j known × (l < config.num_leaves) × (length (content j) ≡ config.block_size)
      settle j l (inl b) e =
          let same : k ≡ j = (chunk_key_order.beq_iff k j).0 b in
          let (a, lt, c) = v.placed k old here in
          (
            subst (λ x. Member x known) same a,
            ground (arith, e, b),
            subst (λ x. length (content x) ≡ config.block_size) same c,
          )
      settle j l (inr b) e = v.placed j l (ground (arith, e, b))

      leaf_of :
          (j : ChunkKey) (l : ℕ)
          → at j ≡ some l
          → (((k =? j) ≡ true) ⊎ ((k =? j) ≡ false))
          → (l' : ℕ) × (moved at k new j ≡ some l')
      leaf_of j l e (inl b) = (new, ground (arith, b))
      leaf_of j l e (inr b) = (l, ground (arith, b, e))

      still :
          (i : ℕ) (j : ChunkKey) (slot : ℕ)
          → i < total config
          → entry s i j ≡ some slot
          → (((k =? j) ≡ true) ⊎ ((k =? j) ≡ false))
          → (s.slots (global_slot_id env config i slot) ≡ content j)
            × (l : ℕ) × (moved at k new j ≡ some l)
            × Member i (path config.height l)
      still i j slot hi e (inl b) =
          let same : k ≡ j = (chunk_key_order.beq_iff k j).0 b in
          let e' : entry s i k ≡ some slot = subst (λ x. entry s i x ≡ some slot) (sym same) e in
          let t = v.tree_content i k slot hi e' in
          absurd (
            clash (entry s i k) slot
              (gone i
                (subst (λ l. Member i (path config.height l)) (agree (at k) t.1 old t.2 here) t.3))
              e')
        where
          clash : (o : Option ℕ) (x : ℕ) → o ≡ none → o ≡ some x → ⊥
          clash o x f g = cc

          agree : (o : Option ℕ) (x y : ℕ) → o ≡ some x → o ≡ some y → x ≡ y
          agree o x y f g = cc
      still i j slot hi e (inr b) =
          let t = v.tree_content i j slot hi e in (t.0, t.1, ground (arith, b, t.2), t.3)

      hold :
          (j : ChunkKey) (l : ℕ)
          → (((k =? j) ≡ true) ⊎ ((k =? j) ≡ false))
          → moved at k new j ≡ some l
          → Held config s j l
      hold j l (inl b) e =
          let same : k ≡ j = (chunk_key_order.beq_iff k j).0 b in
          inl (λ h.
            clash (lookup k s.stash) (content k) (subst (λ x. lookup x s.stash ≡ none) (sym same) h)
              in_stash)
        where
          clash : (o : Option Bytes) (x : Bytes) → o ≡ none → o ≡ some x → ⊥
          clash o x f g = cc
      hold j l (inr b) e = v.held j l (ground (arith, e, b))

  take_stash_lem :
      (s : Oram) (k : ChunkKey) (c : Bytes)
      → lookup k s.stash ≡ some c
      → take_stash env config k s ≡ done (c, s)
  unfolding take_stash
  take_stash_lem s k c e = rw (e, take_stash) refl

  in_stash_lem :
      (s : Oram) (k : ChunkKey) (found : Bytes)
      → lookup k s.stash ≡ some (content k)
      → (found ≡ []) ⊎ (found ≡ content k)
      → in_stash_if_empty env config k found s ≡ done (content k, s)
  in_stash_lem s k [] e a = take_stash_lem s k (content k) e
  in_stash_lem s k (b ∷ bs) e (inl f) = absurd (cc)
  in_stash_lem s k (b ∷ bs) e (inr f) = ap (λ x. done (x, s)) f

  -- What one chunk of a read returns and leaves.
  abbrev pub Moved : (ChunkKey → Option ℕ) → Oram → ChunkKey → Bytes → Oram → Type 0
  Moved at s k c s' =
      (c ≡ content k)
      × (new : ℕ) × Good (moved at k new) s'
      × (s'.block_chunks_pos ≡ set_pos k new s.block_chunks_pos)

  pub access_chunk-Moved :
      (at : ChunkKey → Option ℕ) (s : Oram) (k : ChunkKey) (leaf : ℕ)
      → at k ≡ some leaf
      → Good at s
      → Ensures (access_chunk env config k leaf s) (λ c s'. Moved at s k c s')
  unfolding access_chunk rand_int
  access_chunk-Moved at s k leaf here good =
      let new = env.coins s.draws % config.num_leaves in
      let s0 : Oram = record s {
        block_chunks_pos = set_pos k new s.block_chunks_pos;
        draws = s.draws + 1;
      } in
      let v0 =
        Inv-frame env config known at content s (set_pos k new s.block_chunks_pos) s.round
          s.next_evict_G (s.draws + 1) good.inv in
      let hl : leaf < config.num_leaves = (good.inv.placed k leaf here).1 in
      let hn : new < config.num_leaves = mod-lt (env.coins s.draws) (omega (arith, hl)) in
      Ensures-bind (read_path env config leaf k s0) _
        (λ r s1.
          Reading env config known at content k s0 s1 (path config.height leaf) r
          × (lookup k s1.stash ≡ some (content k)))
        (λ c s'. Moved at s k c s')
        (read_path-Reading env config known at content s0 k leaf sized here good.ready v0)
        (λ found s1 h.
          let reading = h.0 in
          let maps1 = Maps-moved at s s1 k new reading.positions good.maps in
          let v1 = Inv-moved at s1 k leaf new hn here h.1 reading.gone reading.inv in
          subst
            (λ o.
              Ensures (continue o (λ c. early_reshuffle env config leaf >>= λ u. pure c))
                (λ c s'. Moved at s k c s'))
            (sym (in_stash_lem s1 k found h.1 reading.answer))
            (Ensures-bind (early_reshuffle env config leaf s1) (λ u. pure (content k))
              (λ u s'. Settled env config known (moved at k new) content sized lawful s1 s')
              (λ c s'. Moved at s k c s')
              (early_reshuffle-Settled env config known (moved at k new) content sized lawful s1
                leaf hl
                (λ j hj out.
                  subst (λ x. x.count < config.dummies_S) (sym (reading.others j out))
                    (good.ready j hj))
                v1 maps1)
              (λ u s2 done'. (
                refl,
                new,
                record { inv = done'.inv; maps = done'.maps; ready = done'.ready },
                done'.positions ∙ reading.positions,
              ))))
