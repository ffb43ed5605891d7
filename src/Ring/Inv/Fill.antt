-- ===== src/Ring/Inv/Fill.antt =====
-- The slots that WriteBucket sends: a dummy fits its slot, and a real slot gets its chunk.
use de_part.Prelude.{
  ℕ, ◌+◌, ◌≤◌, ◌≡◌, refl, sym, ap, subst, ◌∙◌, ◌≢◌, inl, inr, false, List, [], ◌∷◌, Option, none,
  some, arith, ltb, lookup, nat_key, Bytes, length, Member, Distinct, Option-cases,
}
use de_part.Ring.State.{
  ChunkKey, chunk_key_order, Env, Config, Oram, done, update, resize, global_slot_id, insert_slot,
}
use de_part.Ring.Write.{dummy_cipher, write_slot, write_slots}
use de_part.Ring.Inv.{Ensures, Ensures-bind, Ensures-mono, Lawful}
use de_part.Ring.Inv.Padding.{dummy_cipher_lem}

module _ (env : Env) (config : Config) (i : ℕ) (real : List (ℕ × ChunkKey))
    (blocks : List (ChunkKey × Bytes)) where
  -- Slots of the bucket have been written, and no other one.
  pub record Filled (s s' : Oram) (slots : List ℕ) : Type 0 where
    pub server : ℕ → Bytes
    pub drawn : ℕ
    pub only : s' ≡ record s { slots = server; draws = drawn }
    pub others :
        (id : ℕ)
        → ((slot : ℕ) → Member slot slots → id ≢ global_slot_id env config i slot)
        → server id ≡ s.slots id
    pub written :
        (slot : ℕ) (k : ChunkKey) (c : Bytes)
        → Member slot slots
        → lookup slot real ≡ some k
        → lookup k blocks ≡ some c
        → server (global_slot_id env config i slot) ≡ resize config.block_size c

  write_slot_dummy :
      (slot : ℕ) (s : Oram) (c : Bytes)
      → lookup slot real ≡ none
      → length c ≡ config.block_size
      → dummy_cipher env config s ≡ done (c, record s { draws = s.draws + 1 + 1 })
      → write_slot env config i real blocks slot s
        ≡ done (
          tt,
          record s {
            slots =
                update s.slots
                  (global_slot_id env config i slot)
                  (resize config.block_size (resize config.block_size c));
            draws = s.draws + 1 + 1;
          },
        )
  unfolding write_slot insert_slot
  write_slot_dummy slot s c e l h =
      let fits : ltb config.block_size (length c) ≡ false = ground arith in
      rw (e, write_slot, h, fits) refl

  write_slot-real :
      (slot : ℕ) (s : Oram) (k : ChunkKey) (c : Bytes)
      → lookup slot real ≡ some k
      → lookup k blocks ≡ some c
      → write_slot env config i real blocks slot s
        ≡ done (
          tt,
          record s {
            slots = update s.slots (global_slot_id env config i slot) (resize config.block_size c);
          },
        )
  unfolding write_slot insert_slot
  write_slot-real slot s k c e h = rw (e, write_slot, h) refl

  write_slot_missing :
      (slot : ℕ) (s : Oram) (k : ChunkKey)
      → lookup slot real ≡ some k
      → lookup k blocks ≡ none
      → write_slot env config i real blocks slot s ≡ done (tt, s)
  unfolding write_slot insert_slot
  write_slot_missing slot s k e h = rw (e, write_slot, h) refl

  Filled-update :
      (s : Oram) (slot n : ℕ) (v : Bytes)
      → ((k : ChunkKey) (c : Bytes)
          → lookup slot real ≡ some k
          → lookup k blocks ≡ some c
          → v ≡ resize config.block_size c)
      → Filled s
          (record s { slots = update s.slots (global_slot_id env config i slot) v; draws = n })
          (slot ∷ [])
  Filled-update s slot n v h = record {
    server = update s.slots (global_slot_id env config i slot) v;
    drawn = n;
    only = refl;
    others = λ id apart. missed id (apart slot (inl refl));
    written = λ x k c m e f. hit x k c m e f;
  }
    where
      missed :
          (id : ℕ)
          → id ≢ global_slot_id env config i slot
          → update s.slots (global_slot_id env config i slot) v id ≡ s.slots id
      missed id ne = ground arith

      hit :
          (x : ℕ) (k : ChunkKey) (c : Bytes)
          → Member x (slot ∷ [])
          → lookup x real ≡ some k
          → lookup k blocks ≡ some c
          → update s.slots (global_slot_id env config i slot) v (global_slot_id env config i x)
            ≡ resize config.block_size c
      hit x k c (inl eq) e f =
          let e' : lookup slot real ≡ some k = subst (λ y. lookup y real ≡ some k) eq e in
          subst
            (λ y.
              update s.slots (global_slot_id env config i slot) v (global_slot_id env config i y)
              ≡ resize config.block_size c)
            (sym eq) (ground (arith, h k c e' f))
      hit x k c (inr gap) e f = absurd gap

  write_slot-Filled :
      (slot : ℕ) (s : Oram)
      → Lawful env config.bucket_size
      → 20 ≤ config.block_size
      → Ensures (write_slot env config i real blocks slot s) (λ u s'. Filled s s' (slot ∷ []))
  write_slot-Filled slot s lawful wide = elim (Option-cases (lookup slot real)) [
    | inl e ↦
        let (c, l, h) = dummy_cipher_lem env config s lawful wide in
        subst (λ o. Ensures o (λ u s'. Filled s s' (slot ∷ [])))
          (sym (write_slot_dummy slot s c e l h))
          (Filled-update s slot (s.draws + 1 + 1) _
            (λ k d f g. absurd (clash (lookup slot real) k e f)))
    | inr (k, e) ↦ elim (Option-cases (lookup k blocks)) [
      | inl h ↦
          subst (λ o. Ensures o (λ u s'. Filled s s' (slot ∷ [])))
            (sym (write_slot_missing slot s k e h))
            (record {
              server = s.slots;
              drawn = s.draws;
              only = refl;
              others = λ id apart. refl;
              written = λ x j c m f g. absurd (nothing k e h x j c m f g);
            })
      | inr (c, h) ↦
          subst (λ o. Ensures o (λ u s'. Filled s s' (slot ∷ [])))
            (sym (write_slot-real slot s k c e h))
            (Filled-update s slot s.draws _ (λ j d f g. same k c e h j d f g))
    ]
  ]
    where
      clash : (o : Option ChunkKey) (k : ChunkKey) → o ≡ none → o ≡ some k → ⊥
      clash o k e f = cc

      nothing :
          (k : ChunkKey)
          → lookup slot real ≡ some k
          → lookup k blocks ≡ none
          → (x : ℕ) (j : ChunkKey) (c : Bytes) → Member x (slot ∷ [])
          → lookup x real ≡ some j
          → lookup j blocks ≡ some c
          → ⊥
      nothing k e h x j c (inl eq) f g =
          let f' : lookup slot real ≡ some j = subst (λ y. lookup y real ≡ some j) eq f in
          let eq' : k ≡ j = cc in
          let g' : lookup k blocks ≡ some c = subst (λ y. lookup y blocks ≡ some c) (sym eq') g in
          cc
      nothing k e h x j c (inr gap) f g = gap

      same :
          (k : ChunkKey) (c : Bytes)
          → lookup slot real ≡ some k
          → lookup k blocks ≡ some c
          → (j : ChunkKey) (d : Bytes) → lookup slot real ≡ some j
          → lookup j blocks ≡ some d
          → resize config.block_size c ≡ resize config.block_size d
      same k c e h j d f g =
          let eq' : k ≡ j = cc in
          let g' : lookup k blocks ≡ some d = subst (λ y. lookup y blocks ≡ some d) (sym eq') g in
          let cd : c ≡ d = cc in ap (resize config.block_size) cd

  Filled-trans :
      (s s1 s2 : Oram) (slot : ℕ) (slots : List ℕ)
      → ((x : ℕ)
          → Member x slots
          → global_slot_id env config i slot ≢ global_slot_id env config i x)
      → Filled s s1 (slot ∷ [])
      → Filled s1 s2 slots
      → Filled s s2 (slot ∷ slots)
  Filled-trans s s1 s2 slot slots new a b = record {
    server = b.server;
    drawn = b.drawn;
    only = b.only ∙ ap (λ (x : Oram). record x { slots = b.server; draws = b.drawn }) a.only;
    others = λ id apart.
        b.others id (λ x m. apart x (inr m))
        ∙ ap (λ (x : Oram). x.slots id) a.only
        ∙ a.others id (λ x m. apart x (head_only x m));
    written = λ x k c m e f. at_slot x k c m e f;
  }
    where
      head_only : (j : ℕ) → Member j (slot ∷ []) → Member j (slot ∷ slots)
      head_only j (inl e) = inl e
      head_only j (inr m) = absurd m

      at_slot :
          (x : ℕ) (k : ChunkKey) (c : Bytes)
          → Member x (slot ∷ slots)
          → lookup x real ≡ some k
          → lookup k blocks ≡ some c
          → b.server (global_slot_id env config i x) ≡ resize config.block_size c
      at_slot x k c (inl eq) e f =
          b.others (global_slot_id env config i x) (λ y m h.
            new y m
              (subst (λ z. global_slot_id env config i z ≡ global_slot_id env config i y) eq h))
          ∙ ap (λ (o : Oram). o.slots (global_slot_id env config i x)) a.only
          ∙ a.written x k c (inl eq) e f
      at_slot x k c (inr m) e f = b.written x k c m e f

  pub write_slots-Filled :
      (slots : List ℕ) (s : Oram)
      → Lawful env config.bucket_size
      → 20 ≤ config.block_size
      → Distinct slots
      → ((x y : ℕ)
          → Member x slots
          → Member y slots
          → global_slot_id env config i x ≡ global_slot_id env config i y
          → x ≡ y)
      → Ensures (write_slots env config i real blocks slots s) (λ u s'. Filled s s' slots)
  unfolding write_slots
  write_slots-Filled [] s lawful wide d inj = record {
    server = s.slots;
    drawn = s.draws;
    only = refl;
    others = λ id apart. refl;
    written = λ x k c m e f. absurd m;
  }
  write_slots-Filled (slot ∷ slots) s lawful wide (new, d) inj =
      Ensures-bind (write_slot env config i real blocks slot s)
        (λ u. write_slots env config i real blocks slots) (λ u s1. Filled s s1 (slot ∷ []))
        (λ u s'. Filled s s' (slot ∷ slots)) (write_slot-Filled slot s lawful wide)
        (λ u s1 first.
          Ensures-mono (write_slots env config i real blocks slots s1) (λ u2 s'. Filled s1 s' slots)
            (λ u2 s'. Filled s s' (slot ∷ slots))
            (write_slots-Filled slots s1 lawful wide d (λ x y m n h. inj x y (inr m) (inr n) h))
            (λ u2 s2 rest.
              Filled-trans s s1 s2 slot slots
                (λ x m h.
                  new (subst (λ z. Member z slots) (sym (inj slot x (inl refl) (inr m) h)) m))
                first rest))
