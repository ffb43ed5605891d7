-- ===== src/Dispatch/Carried.antt =====
-- What the batches of one server carry: the operations at the server's slots, reads first.
use de_part.Prelude.{
  ℕ, zero, suc, ◌+◌, ◌≤◌, ◌≡◌, refl, sym, ap, ap₂, subst, ◌∙◌, inl, inr, Bool, true, false, List,
  [], ◌∷◌, ◌++◌, some, arith, map, if◌then◌else◌, Bool-cases, ℤ, int_key, ◌=?◌, beq→eq, length,
  get_elem?, keep, keep-append, places, places-All_at, All,
}
use de_part.Epoch.Types.{Operat, is_write}
use de_part.Batch.{BatchInfo, BatchPlan}
use de_part.Batch.Order.{is_real, sent_to, get_or-of_elem}
use de_part.Batch.Shape.{held, FitsSlots, AllFit}
use de_part.Sending.{PkMap}
use de_part.Dispatch.{no_batch, translate, translate_all}
use de_part.Dispatch.Child.{NoRead, ReadsFirst}
use de_part.Dispatch.Worker.{ops_of, slots_of, batch_at, slots_at, Mine}

length-map : {A B : Type 0} (f : A → B) (xs : List A) → length (map f xs) ≡ length xs
length-map f [] = refl
length-map f (x ∷ xs) = ap suc (length-map f xs)

map-append' : {A B : Type 0} (f : A → B) (xs ys : List A) → map f (xs ++ ys) ≡ map f xs ++ map f ys
map-append' f [] ys = refl
map-append' f (x ∷ xs) ys = ap (λ l. f x ∷ l) (map-append' f xs ys)

-- Where a list of batches fits a list of slot maps, each batch has its map.
module _ (ops : List Operat) (batch_size : ℕ) (pad : Bool) where
  AllFit-at :
      (batches : List BatchInfo) (maps : List (List ℕ)) (j : ℕ) (b : BatchInfo)
      → AllFit ops batch_size pad batches maps
      → get_elem? batches j ≡ some b
      → (m : List ℕ) × (get_elem? maps j ≡ some m) × FitsSlots ops batch_size pad b m
  AllFit-at [] maps j b fit e = cc
  AllFit-at (c ∷ batches) [] j b fit e = absurd fit
  AllFit-at (c ∷ batches) (m ∷ maps) zero b fit e =
      let same : c ≡ b = cc in (m, refl, subst (λ x. FitsSlots ops batch_size pad x m) same fit.0)
  AllFit-at (c ∷ batches) (m ∷ maps) (suc j) b fit e = AllFit-at batches maps j b fit.1 e

module _ (ids : PkMap) (ops : List Operat) (id : ℤ) where
  -- what is sent for a slot
  unfoldable pub op_sent : ℕ → Operat
  unfolding translate
  op_sent slot = translate ids id (held ops id slot)

  translate_all-map :
      (slots : List ℕ) → translate_all ids id (map (held ops id) slots) ≡ map op_sent slots
  unfolding translate_all op_sent
  translate_all-map [] = refl
  translate_all-map (s ∷ slots) =
      ap (λ l. translate ids id (held ops id s) ∷ l) (translate_all-map slots)

  module _ (bp : BatchPlan) where
    abbrev pub Carries : ℕ → Type 0
    Carries b =
        ((batch_at bp b).server_id ≡ id)
        × ((batch_at bp b).operations ≡ map (held ops id) (slots_at bp b))

    pub Carries-Mine : (bs : List ℕ) → All Carries bs → All (Mine bp id) bs
    Carries-Mine [] c = tt
    Carries-Mine (b ∷ bs) c = (
      (c.0.0, sym (ap length c.0.1 ∙ length-map (held ops id) (slots_at bp b))),
      Carries-Mine bs c.1,
    )

    pub ops_of-map :
        (bs : List ℕ) → All Carries bs → ops_of bp ids id bs ≡ map op_sent (slots_of bp bs)
    unfolding ops_of slots_of
    ops_of-map [] c = refl
    ops_of-map (b ∷ bs) c =
        ap₂ ◌++◌ (ap (translate_all ids id) c.0.1 ∙ translate_all-map (slots_at bp b))
          (ops_of-map bs c.1)
        ∙ sym (map-append' op_sent (slots_at bp b) (slots_of bp bs))

    -- The server's batches, in order.
    abbrev pub own_batches : List ℕ
    own_batches = places (λ (b : BatchInfo). b.server_id =? id) 0 bp.batches

    pub own_batches-Carries :
        (batch_size : ℕ) (pad : Bool)
        → AllFit ops batch_size pad bp.batches bp.per_batch_op_to_slot
        → All Carries own_batches
    own_batches-Carries batch_size pad fit =
        places-All_at Carries (λ (b : BatchInfo). b.server_id =? id) 0 bp.batches
          (λ j b e own.
            let (m, e', fits) =
              AllFit-at ops batch_size pad bp.batches bp.per_batch_op_to_slot j b fit e in
            let at_b : batch_at bp (0 + j) ≡ b =
              ap (batch_at bp) (omega arith) ∙ get_or-of_elem bp.batches j b no_batch e in
            let at_m : slots_at bp (0 + j) ≡ m =
              ap (slots_at bp) (omega arith) ∙ get_or-of_elem bp.per_batch_op_to_slot j m [] e' in
            let mine = beq→eq b.server_id id own in
            (
              ap (λ (x : BatchInfo). x.server_id) at_b ∙ mine,
              ap (λ (x : BatchInfo). x.operations) at_b
                  ∙ fits.0
                  ∙ ap₂ (λ k l. map (held ops k) l) mine (sym at_m),
            ))

  -- No batch of the server is all padding.
  pub own_batches-real :
      (bp : BatchPlan) (batch_size : ℕ) (pad : Bool)
      → AllFit ops batch_size pad bp.batches bp.per_batch_op_to_slot
      → All (λ b. 1 ≤ length (keep is_real (slots_at bp b))) (own_batches bp)
  own_batches-real bp batch_size pad fit =
      places-All_at (λ b. 1 ≤ length (keep is_real (slots_at bp b)))
        (λ (b : BatchInfo). b.server_id =? id) 0 bp.batches
        (λ j b e own.
          let (m, e', fits) =
            AllFit-at ops batch_size pad bp.batches bp.per_batch_op_to_slot j b fit e in
          let at_m : slots_at bp (0 + j) ≡ m =
            ap (slots_at bp) (omega arith) ∙ get_or-of_elem bp.per_batch_op_to_slot j m [] e' in
          subst (λ l. 1 ≤ length (keep is_real l)) (sym at_m) fits.1)

  own_slots_from :
      (bp : BatchPlan) (i : ℕ) (batches : List BatchInfo) (maps : List (List ℕ))
      → length batches ≡ length maps
      → ((j : ℕ) (m : List ℕ) → get_elem? maps j ≡ some m → slots_at bp (i + j) ≡ m)
      → keep is_real (slots_of bp (places (λ (b : BatchInfo). b.server_id =? id) i batches))
        ≡ sent_to id batches maps
  unfolding sent_to slots_of
  own_slots_from bp i [] [] e h = refl
  own_slots_from bp i [] (m ∷ maps) e h = refl
  own_slots_from bp i (b ∷ batches) [] e h = absurd (omega arith)
  own_slots_from bp i (b ∷ batches) (m ∷ maps) e h =
      let here : slots_at bp i ≡ m = ap (slots_at bp) (omega arith) ∙ h 0 m refl in
      let later =
        own_slots_from bp (i + 1) batches maps (omega arith)
          (λ j l f. ap (slots_at bp) (omega arith) ∙ h (suc j) l f) in
      elim (Bool-cases (b.server_id =? id)) [
        | inl own ↦
            rw own
              (keep-append is_real (slots_at bp i) _ ∙ ap₂ (λ l r. keep is_real l ++ r) here later)
        | inr other ↦ rw other later
      ]

  pub own_slots :
      (bp : BatchPlan)
      → length bp.batches ≡ length bp.per_batch_op_to_slot
      → keep is_real (slots_of bp (own_batches bp)) ≡ sent_to id bp.batches bp.per_batch_op_to_slot
  own_slots bp e =
      own_slots_from bp 0 bp.batches bp.per_batch_op_to_slot e
        (λ j m f. ap (slots_at bp) (omega arith) ∙ get_or-of_elem bp.per_batch_op_to_slot j m [] f)

NoRead-of :
    (f : ℕ → Operat) (m : List ℕ)
    → ((slot : ℕ) → is_real slot ≡ false → (f slot).is_dummy ≡ true)
    → All (λ slot. is_write (f slot).type ≡ true) (keep is_real m)
    → All NoRead (map f m)
NoRead-of f [] dummy w = tt
NoRead-of f (s ∷ m) dummy w = elim (Bool-cases (is_real s)) [
  | inl d ↦
      let w' =
        subst
          (λ b.
            All (λ slot. is_write (f slot).type ≡ true)
              (if b then s ∷ keep is_real m else keep is_real m))
          d w in
      (λ real. w'.0, NoRead-of f m dummy w'.1)
  | inr d ↦
      let w' =
        subst
          (λ b.
            All (λ slot. is_write (f slot).type ≡ true)
              (if b then s ∷ keep is_real m else keep is_real m))
          d w in
      (λ real. cc (dummy s d), NoRead-of f m dummy w')
]

-- A slot is padding whose operation reads and is a dummy.
abbrev pub PadsRead : (ℕ → Operat) → Type 0
PadsRead f =
    (slot : ℕ)
    → is_real slot ≡ false
    → ((f slot).is_dummy ≡ true) × (is_write (f slot).type ≡ false)

-- Reads come first where the slots that are no padding do.
pub ReadsFirst-of :
    (f : ℕ → Operat) (m reads writes : List ℕ)
    → keep is_real m ≡ reads ++ writes
    → PadsRead f
    → All (λ slot. is_write (f slot).type ≡ false) reads
    → All (λ slot. is_write (f slot).type ≡ true) writes
    → ReadsFirst (map f m)
ReadsFirst-of f [] reads writes e pads r w = tt
ReadsFirst-of f (s ∷ m) [] writes e pads r w = elim (Bool-cases (is_real s)) [
  | inl d ↦
      let whole : All (λ slot. is_write (f slot).type ≡ true) (s ∷ keep is_real m) =
        subst (All (λ slot. is_write (f slot).type ≡ true)) (sym (kept d e)) w in
      (
        λ write. NoRead-of f m (λ k q. (pads k q).0) whole.1,
        ReadsFirst-of f m [] (keep is_real m) refl pads tt whole.1,
      )
  | inr d ↦ (λ write. cc ((pads s d).1), ReadsFirst-of f m [] writes (left d e) pads r w)
]
  where
    kept : is_real s ≡ true → keep is_real (s ∷ m) ≡ writes → s ∷ keep is_real m ≡ writes
    kept d e = ground (arith, d, e)

    left : is_real s ≡ false → keep is_real (s ∷ m) ≡ writes → keep is_real m ≡ writes
    left d e = ground (arith, d, e)
ReadsFirst-of f (s ∷ m) (k ∷ reads) writes e pads r w = elim (Bool-cases (is_real s)) [
  | inl d ↦
      let both = kept d e in
      let head : s ≡ k = cc in
      (
        λ write. cc (ap (λ j. is_write (f j).type) head, r.0),
        ReadsFirst-of f m reads writes (cc) pads r.1 w,
      )
  | inr d ↦ (λ write. cc ((pads s d).1), ReadsFirst-of f m (k ∷ reads) writes (left d e) pads r w)
]
  where
    kept :
        is_real s ≡ true
        → keep is_real (s ∷ m) ≡ k ∷ (reads ++ writes)
        → s ∷ keep is_real m ≡ k ∷ (reads ++ writes)
    kept d e = ground (arith, d, e)

    left :
        is_real s ≡ false
        → keep is_real (s ∷ m) ≡ k ∷ (reads ++ writes)
        → keep is_real m ≡ k ∷ (reads ++ writes)
    left d e = ground (arith, d, e)
