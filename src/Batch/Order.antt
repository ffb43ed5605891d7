-- ===== src/Batch/Order.antt =====
-- The slots that each server is sent, in the order of its batches.
use de_part.Prelude.{
  ℕ, zero, suc, ◌+◌, ◌-◌, ◌≤◌, ◌<◌, ◌≡◌, refl, sym, ap, ap₂, subst, ◌∙◌, ◌≢◌, Bool, false, not,
  ◌&&◌, List, [], ◌∷◌, ◌++◌, some, arith, min, ◌==◌, if◌then◌else◌, ℤ, int_key, ◌=?◌, keys, length,
  get_elem?, get_or, take, drop, replicate, keep, keep-append, stable_sort, keep-places, places,
  Distinct, Member, u32_mod, stable_sort-first,
}
use mathlib.Core.List.{append_assoc, append-nil}
use de_part.Epoch.Types.{Operat, is_read}
use de_part.Batch.{
  BatchInfo, BatchPlan, new_operat, slot_dummy, Groups, op_at, read_at, need, put_batch,
  chunk_slots, sorted_slots, chunk_groups, group_by, build_batches_from_oram_ops,
}
use de_part.Batch.Groups.{
  group_of, group_of-absent, group_of-cons, group_of-group_by, group_by-Distinct,
}

abbrev pub is_real : ℕ → Bool
is_real slot = not (slot == slot_dummy)

-- The slots of the batches to one server, its padding left out.
unfoldable pub sent_to : ℤ → List BatchInfo → List (List ℕ) → List ℕ
sent_to id [] maps = []
sent_to id (b ∷ batches) [] = []
sent_to id (b ∷ batches) (m ∷ maps) =
    let rest = sent_to id batches maps in if b.server_id =? id then keep is_real m ++ rest else rest

keep-dummies : (n : ℕ) → keep is_real (replicate n slot_dummy) ≡ []
keep-dummies zero = refl
keep-dummies (suc n) = keep-dummies n

pub take-append-drop : {A : Type 0} (n : ℕ) (xs : List A) → take n xs ++ drop n xs ≡ xs
take-append-drop zero xs = refl
take-append-drop (suc n) [] = refl
take-append-drop (suc n) (x ∷ xs) = ap (λ ys. x ∷ ys) (take-append-drop n xs)

pub length-drop : {A : Type 0} (n : ℕ) (xs : List A) → length (drop n xs) ≡ length xs - n
length-drop zero xs = omega arith
length-drop (suc n) [] = omega arith
length-drop (suc n) (x ∷ xs) = omega (arith, length-drop n xs)

module _ (ops : List Operat) (batch_size : ℕ) (pad : Bool) (id : ℤ) where
  sent : BatchPlan → List ℕ
  unfolding sent_to
  sent p = sent_to id p.batches p.per_batch_op_to_slot

  sent-put_batch :
      (j : ℤ) (chunk : List ℕ) (later : BatchPlan)
      → sent (put_batch ops batch_size pad j chunk later)
        ≡ (if j =? id then keep is_real chunk ++ sent later else sent later)
  unfolding sent put_batch
  sent-put_batch j chunk later = ground (
    arith,
    keep-append is_real chunk (replicate (need ops batch_size pad (length chunk)) slot_dummy),
    keep-dummies (need ops batch_size pad (length chunk)),
    append-nil (keep is_real chunk),
  )

  sent-chunk_slots :
      (fuel : ℕ) (j : ℤ) (slots : List ℕ) (later : BatchPlan)
      → batch_size ≢ 0
      → length slots ≤ fuel
      → sent (chunk_slots ops batch_size pad fuel j slots later)
        ≡ (if j =? id then keep is_real slots ++ sent later else sent later)
  unfolding chunk_slots
  sent-chunk_slots zero j [] later h f = ground arith
  sent-chunk_slots zero j (s ∷ slots) later h f = absurd (omega arith)
  sent-chunk_slots (suc fuel) j [] later h f = ground arith
  sent-chunk_slots (suc fuel) j (s ∷ slots) later h f =
      let n = min batch_size (length (s ∷ slots)) in
      let xs = s ∷ slots in
      ground (
        arith,
        sent-put_batch j (take n xs) (chunk_slots ops batch_size pad fuel j (drop n xs) later),
        sent-chunk_slots fuel j (drop n xs) later h (omega (arith, length-drop n xs)),
        append_assoc (keep is_real (take n xs)) (keep is_real (drop n xs)) (sent later),
        sym (keep-append is_real (take n xs) (drop n xs)),
        take-append-drop n xs,
      )

  sorted_none : keep is_real (sorted_slots ops []) ≡ []
  unfolding sorted_slots stable_sort
  sorted_none = refl

  none_yet : group_of id [] ≡ []
  none_yet = group_of-absent id [] (λ m. m)

  sent-none : sent (record { batches = []; per_batch_op_to_slot = [] }) ≡ []
  unfolding sent sent_to
  sent-none = refl

  sent-chunk_groups :
      (groups : Groups)
      → batch_size ≢ 0
      → Distinct (keys groups)
      → sent (chunk_groups ops batch_size pad groups)
        ≡ keep is_real (sorted_slots ops (group_of id groups))
  unfolding chunk_groups
  sent-chunk_groups [] h d =
      sent-none ∙ sym (ap (λ l. keep is_real (sorted_slots ops l)) none_yet ∙ sorted_none)
  sent-chunk_groups ((j, slots) ∷ groups) h d =
      let later = chunk_groups ops batch_size pad groups in
      let sorted = sorted_slots ops slots in
      ground (
        arith,
        sent-chunk_slots (length sorted) j sorted later h (omega arith),
        sent-chunk_groups groups h d.1,
        group_of-cons id j slots groups,
        int_key.beq_iff j id,
        (λ (e : j ≡ id). group_of-absent id groups (subst (λ k. ¬ Member k (keys groups)) e d.0)),
        sorted_none,
        append-nil (keep is_real sorted),
      )

places-real {ℓ} :
    {A : Type ℓ} (p : A → Bool) (i : ℕ) (xs : List A)
    → i + length xs ≤ slot_dummy
    → keep is_real (places p i xs) ≡ places p i xs
places-real p i [] h = refl
places-real p i (x ∷ xs) h = ground (arith, places-real p (i + 1) xs)

pub get_or-of_elem {ℓ} :
    {A : Type ℓ} (xs : List A) (j : ℕ) (x d : A) → get_elem? xs j ≡ some x → get_or xs j d ≡ x
get_or-of_elem [] j x d e = cc
get_or-of_elem (y ∷ xs) zero x d e = cc
get_or-of_elem (y ∷ xs) (suc j) x d e = get_or-of_elem xs j x d e

module _ (ops : List Operat) where
  read_at_lem :
      (j : ℕ) (op : Operat) → get_elem? ops j ≡ some op → read_at ops (0 + j) ≡ is_read op.type
  read_at_lem j op e =
      ap (λ (o : Operat). is_read o.type)
        (ap (op_at ops) (omega arith) ∙ get_or-of_elem ops j op new_operat e)

  -- The places of the reads to a server, and of its other operations.
  abbrev pub reads_on : ℤ → List ℕ
  reads_on id = places (λ (op : Operat). (op.server_id =? id) && is_read op.type) 0 ops

  abbrev pub writes_on : ℤ → List ℕ
  writes_on id = places (λ (op : Operat). (op.server_id =? id) && not (is_read op.type)) 0 ops

  sorted_places :
      (id : ℤ)
      → sorted_slots ops (places (λ (op : Operat). op.server_id =? id) 0 ops)
        ≡ reads_on id ++ writes_on id
  unfolding sorted_slots
  sorted_places id =
      let on : Operat → Bool = λ op. op.server_id =? id in
      stable_sort-first (read_at ops) (places on 0 ops)
      ∙ ap₂ ◌++◌ (keep-places on (λ op. is_read op.type) (read_at ops) 0 ops read_at_lem) (
          keep-places on (λ op. not (is_read op.type)) (λ slot. not (read_at ops slot)) 0 ops
            (λ j op e. ap not (read_at_lem j op e)))

  -- For fewer than 2^32 operations and a batch size that is not 0, the batches to a server carry,
  -- in the order in which they are sent and with the padding left out, first the places of all
  -- reads to that server and then the places of its other operations, both in their old order.
  pub build-order :
      (batch_size : ℕ) (pad : Bool) (id : ℤ)
      → batch_size ≢ 0
      → length ops < u32_mod
      → sent_to id
          (build_batches_from_oram_ops ops batch_size pad).batches
          (build_batches_from_oram_ops ops batch_size pad).per_batch_op_to_slot
        ≡ reads_on id ++ writes_on id
  unfolding build_batches_from_oram_ops sent
  build-order batch_size pad id h small =
      let on = λ (op : Operat). op.server_id =? id in
      let groups = group_by (λ (op : Operat). op.server_id) 0 ops [] in
      let grouped : group_of id groups ≡ places on 0 ops =
        group_of-group_by (λ (op : Operat). op.server_id) id 0 ops []
        ∙ ap (λ (l : List ℕ). l ++ places on 0 ops) (none_yet ops batch_size pad id) in
      let real : keep is_real (reads_on id ++ writes_on id) ≡ reads_on id ++ writes_on id =
        keep-append is_real (reads_on id) (writes_on id)
        ∙ ap₂ ◌++◌ (places-real _ 0 ops (omega arith)) (places-real _ 0 ops (omega arith)) in
      let positive : (batch_size == 0) ≡ false = ground arith in
      rw positive (
        sent-chunk_groups ops batch_size pad id groups h
          (group_by-Distinct (λ (op : Operat). op.server_id) 0 ops [] tt)
        ∙ ap (λ (l : List ℕ). keep is_real (sorted_slots ops l)) grouped
        ∙ ap (keep is_real) (sorted_places id)
        ∙ real)
