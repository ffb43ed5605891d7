-- ===== src/Batch/Shape.antt =====
-- What each batch holds for its slots, and how large batches are.
use de_part.Prelude.{
  ℕ, zero, suc, ◌+◌, ◌≤◌, ◌<◌, ◌≡◌, refl, sym, ap, ap₂, subst, ◌∙◌, ◌≢◌, inl, inr, Bool, true,
  false, List, [], ◌∷◌, ◌++◌, arith, min, map, ◌==◌, if◌then◌else◌, ℤ, int_key, ◌=?◌, length,
  length-append, length-replicate, take, drop, replicate, keep, places, All, Member, u32_mod,
  stable_sort-All,
}
use de_part.Epoch.Types.{Operat}
use de_part.Batch.{
  BatchInfo, BatchPlan, slot_dummy, Groups, real_op, dummy_op, need, read_first, batch_of,
  slot_map_of, put_batch, chunk_slots, sorted_slots, chunk_groups, group_by,
  build_batches_from_oram_ops,
}
use de_part.Batch.Groups.{group_of-absent, group_of-entry, group_of-group_by, group_by-Distinct}
use de_part.Batch.Order.{is_real}

module _ {A : Type 0} (P : A → Type 0) where
  All-take : (n : ℕ) (xs : List A) → All P xs → All P (take n xs)
  All-take zero xs h = tt
  All-take (suc n) [] h = tt
  All-take (suc n) (x ∷ xs) h = (h.0, All-take n xs h.1)

  All-drop : (n : ℕ) (xs : List A) → All P xs → All P (drop n xs)
  All-drop zero xs h = h
  All-drop (suc n) [] h = tt
  All-drop (suc n) (x ∷ xs) h = All-drop n xs h.1

length-take : {A : Type 0} (n : ℕ) (xs : List A) → length (take n xs) ≡ min n (length xs)
length-take zero xs = omega arith
length-take (suc n) [] = omega arith
length-take (suc n) (x ∷ xs) = omega (arith, length-take n xs)

abbrev IsSlot : ℕ → Type 0
IsSlot slot = slot < slot_dummy

places-All :
    {A : Type 0} (p : A → Bool) (i : ℕ) (xs : List A)
    → i + length xs ≤ slot_dummy
    → All IsSlot (places p i xs)
places-All p i [] h = tt
places-All p i (x ∷ xs) h = ground (arith, places-All p (i + 1) xs)

-- What the batches to a server hold for a slot.
abbrev pub held : List Operat → ℤ → ℕ → Operat
held ops id slot = if slot == slot_dummy then dummy_op id else real_op ops slot

module _ (ops : List Operat) (batch_size : ℕ) (pad : Bool) where
  -- A batch and its slots: one operation a slot, at least one that is no padding, at most
  -- `batch_size`, and exactly that many where the last batch is padded.
  abbrev pub FitsSlots : BatchInfo → List ℕ → Type 0
  FitsSlots b slots =
      (b.operations ≡ map (held ops b.server_id) slots)
      × (1 ≤ length (keep is_real slots))
      × (length slots ≤ batch_size)
      × (pad ≡ true → length slots ≡ batch_size)

  abbrev pub AllFit : List BatchInfo → List (List ℕ) → Type 0
  AllFit [] [] = Unit
  AllFit [] (m ∷ maps) = ⊥
  AllFit (b ∷ batches) [] = ⊥
  AllFit (b ∷ batches) (m ∷ maps) = FitsSlots b m × AllFit batches maps

  map-held :
      (id : ℤ) (n : ℕ) (chunk : List ℕ)
      → All IsSlot chunk
      → map (real_op ops) chunk ++ replicate n (dummy_op id)
        ≡ map (held ops id) (chunk ++ replicate n slot_dummy)
  map-held id zero [] h = refl
  map-held id (suc n) [] h = ap (λ l. dummy_op id ∷ l) (map-held id n [] h)
  map-held id n (s ∷ chunk) h = ap₂ ◌∷◌ slot_is_real (map-held id n chunk h.1)
    where
      slot_is_real : real_op ops s ≡ held ops id s
      slot_is_real = ground (arith, h.0)

  keep-real :
      (n : ℕ) (chunk : List ℕ)
      → All IsSlot chunk
      → length (keep is_real (chunk ++ replicate n slot_dummy)) ≡ length chunk
  keep-real zero [] h = refl
  keep-real (suc n) [] h = keep-real n [] h
  keep-real n (s ∷ chunk) h = ground (arith, h.0, keep-real n chunk h.1)

  batch-FitsSlots :
      (id : ℤ) (chunk : List ℕ)
      → All IsSlot chunk
      → 1 ≤ length chunk
      → length chunk ≤ batch_size
      → FitsSlots (batch_of ops batch_size pad id chunk) (slot_map_of ops batch_size pad chunk)
  unfolding batch_of slot_map_of
  batch-FitsSlots id chunk h low high =
      let n = need ops batch_size pad (length chunk) in
      let total : length (chunk ++ replicate n slot_dummy) ≡ length chunk + n =
        omega
          (arith, length-append chunk (replicate n slot_dummy), length-replicate n slot_dummy) in
      (
        map-held id n chunk h,
        omega (arith, keep-real n chunk h),
        ground arith,
        λ padded. ground arith,
      )

  chunk_slots-AllFit :
      (fuel : ℕ) (id : ℤ) (slots : List ℕ) (later : BatchPlan)
      → batch_size ≢ 0
      → All IsSlot slots
      → AllFit later.batches later.per_batch_op_to_slot
      → AllFit
          (chunk_slots ops batch_size pad fuel id slots later).batches
          (chunk_slots ops batch_size pad fuel id slots later).per_batch_op_to_slot
  unfolding chunk_slots put_batch
  chunk_slots-AllFit zero id slots later h a r = r
  chunk_slots-AllFit (suc fuel) id [] later h a r = r
  chunk_slots-AllFit (suc fuel) id (s ∷ slots) later h a r =
      let n = min batch_size (length (s ∷ slots)) in
      let xs = s ∷ slots in
      (
        batch-FitsSlots id (take n xs) (All-take IsSlot n xs a) (omega (arith, length-take n xs))
            (omega (arith, length-take n xs)),
        chunk_slots-AllFit fuel id (drop n xs) later h (All-drop IsSlot n xs a) r,
      )

  chunk_groups-AllFit :
      (groups : Groups)
      → batch_size ≢ 0
      → ((id : ℤ) (slots : List ℕ) → Member (id, slots) groups → All IsSlot slots)
      → AllFit
          (chunk_groups ops batch_size pad groups).batches
          (chunk_groups ops batch_size pad groups).per_batch_op_to_slot
  unfolding chunk_groups sorted_slots
  chunk_groups-AllFit [] h a = tt
  chunk_groups-AllFit ((id, slots) ∷ groups) h a =
      chunk_slots-AllFit (length (sorted_slots ops slots)) id (sorted_slots ops slots)
        (chunk_groups ops batch_size pad groups) h
        (stable_sort-All (read_first ops) IsSlot slots (a id slots (inl refl)))
        (chunk_groups-AllFit groups h (λ j l m. a j l (inr m)))

  -- For fewer than 2^32 operations and a batch size that is not 0, every batch has one entry of its
  -- slot map for each of its operations, which is the operation at that slot with is_dummy
  -- cleared, or a dummy READ of its server where the entry marks padding; and a batch holds
  -- at least one operation that is no padding and at most `batch_size` in all, exactly
  -- `batch_size` where padding is asked for.
  pub build-AllFit :
      batch_size ≢ 0
      → length ops < u32_mod
      → AllFit
          (build_batches_from_oram_ops ops batch_size pad).batches
          (build_batches_from_oram_ops ops batch_size pad).per_batch_op_to_slot
  unfolding build_batches_from_oram_ops
  build-AllFit h small =
      let server : Operat → ℤ = λ op. op.server_id in
      let groups = group_by server 0 ops [] in
      let positive : (batch_size == 0) ≡ false = ground arith in
      rw positive (
        chunk_groups-AllFit groups h (λ id slots m.
          subst (All IsSlot)
            (sym (
              group_of-entry id slots groups (group_by-Distinct server 0 ops [] tt) m
              ∙ group_of-group_by server id 0 ops []
              ∙ ap (λ (l : List ℕ). l ++ places (λ op. server op =? id) 0 ops)
                  (group_of-absent id [] (λ n. n))))
            (places-All (λ op. server op =? id) 0 ops (omega arith))))
