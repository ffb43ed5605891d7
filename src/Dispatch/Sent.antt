-- ===== src/Dispatch/Sent.antt =====
-- What is sent for a slot, and that reads come first in what a server is sent.
use de_part.Prelude.{
  ℕ, zero, suc, ◌+◌, ◌<◌, ◌≡◌, refl, sym, ap, subst, ◌∙◌, ◌≢◌, inl, inr, Bool, true, false, not,
  ◌&&◌, List, [], ◌∷◌, ◌++◌, some, arith, ◌==◌, Bool-cases, ℤ, int_key, ◌=?◌, beq→eq, beq_refl,
  length, get_elem?, keep, places-All_at, Member-places, Member-of_places, All, Member,
  Member-append_left, Member-append_right, Member-append_cases, u32_mod, lookup, keys, Distinct,
  Option-cases, Member-keys_iff,
}
use de_part.Epoch.Types.{OpType, Operat, is_read, is_write}
use de_part.Batch.{BatchInfo, BatchPlan, Groups, group_by, slot_dummy, new_operat}
use de_part.Batch.Groups.{
  group_of, group_of-absent, group_of-entry, group_of-group_by, group_by-Distinct,
}
use de_part.Batch.Order.{is_real, sent_to, get_or-of_elem, reads_on, writes_on}
use de_part.Batch.Shape.{held, AllFit}
use de_part.Sending.{PkMap, no_block, lookup_block_id}
use de_part.Dispatch.{translate}
use de_part.Dispatch.Worker.{slots_of}
use de_part.Dispatch.Carried.{op_sent, own_batches, own_slots, PadsRead}

pub lt-length {ℓ} :
    {A : Type ℓ} (xs : List A) (j : ℕ) (x : A) → get_elem? xs j ≡ some x → j < length xs
lt-length [] j x e = cc
lt-length (y ∷ xs) zero x e = omega arith
lt-length (y ∷ xs) (suc j) x e = omega (arith, lt-length xs j x e)

Option-injective : {A : Type 0} {x y : A} → some x ≡ some y → x ≡ y
Option-injective {A} {x} {y} e = cc

-- The two tests by which the places of a server are split.
and_read : (b : Bool) (t : OpType) → (b && is_read t) ≡ true → (b ≡ true) × (is_write t ≡ false)
and_read true OpType.read e = (refl, refl)
and_read true OpType.update e = cc
and_read true OpType.insert e = cc
and_read false t e = cc

and_write :
    (b : Bool) (t : OpType) → (b && not (is_read t)) ≡ true → (b ≡ true) × (is_write t ≡ true)
and_write true OpType.read e = cc
and_write true OpType.update e = (refl, refl)
and_write true OpType.insert e = (refl, refl)
and_write false t e = cc

module _ (ids : PkMap) (ops : List Operat) (small : length ops < u32_mod) where
  -- The key of every operation has a block.
  abbrev pub Known : Type 0
  Known =
      (slot : ℕ) (op : Operat)
      → get_elem? ops slot ≡ some op
      → lookup_block_id ids op.server_id op.data_primary_key ≢ no_block

  held_real :
      (id : ℤ) (slot : ℕ) (op : Operat)
      → get_elem? ops slot ≡ some op
      → held ops id slot ≡ record op { is_dummy = false }
  held_real id slot op e =
      let below = lt-length ops slot op e in
      let real : (slot == slot_dummy) ≡ false = ground arith in
      rw real (
        ap (λ (o : Operat). record o { is_dummy = false })
          (get_or-of_elem ops slot op new_operat e))

  pub slot-real : (slot : ℕ) (op : Operat) → get_elem? ops slot ≡ some op → is_real slot ≡ true
  slot-real slot op e = let below = lt-length ops slot op e in ground arith

  pub op_sent_known :
      (slot : ℕ) (op : Operat)
      → Known
      → get_elem? ops slot ≡ some op
      → op_sent ids ops op.server_id slot ≡ record op {
        is_dummy = false;
        data_primary_key = lookup_block_id ids op.server_id op.data_primary_key;
      }
  unfolding op_sent translate
  op_sent_known slot op known e =
      let block = known slot op e in rw (held_real op.server_id slot op e) (ground arith)

  pub op_sent-type :
      (id : ℤ) (slot : ℕ) (op : Operat)
      → get_elem? ops slot ≡ some op
      → (op_sent ids ops id slot).type ≡ op.type
  unfolding op_sent translate
  op_sent-type id slot op e = rw (held_real id slot op e) (ground arith)

  pub op_sent-PadsRead : (id : ℤ) → PadsRead (op_sent ids ops id)
  unfolding op_sent translate
  op_sent-PadsRead id slot pad = ground (arith, pad)

  pub reads_on-All :
      (id : ℤ) → All (λ slot. is_write (op_sent ids ops id slot).type ≡ false) (reads_on ops id)
  reads_on-All id =
      places-All_at _ (λ (op : Operat). (op.server_id =? id) && is_read op.type) 0 ops
        (λ slot op e q.
          ap (λ k. is_write (op_sent ids ops id k).type) (omega arith)
          ∙ ap is_write (op_sent-type id slot op e)
          ∙ (and_read (op.server_id =? id) op.type q).1)

  pub writes_on-All :
      (id : ℤ) → All (λ slot. is_write (op_sent ids ops id slot).type ≡ true) (writes_on ops id)
  writes_on-All id =
      places-All_at _ (λ (op : Operat). (op.server_id =? id) && not (is_read op.type)) 0 ops
        (λ slot op e q.
          ap (λ k. is_write (op_sent ids ops id k).type) (omega arith)
          ∙ ap is_write (op_sent-type id slot op e)
          ∙ (and_write (op.server_id =? id) op.type q).1)

  -- Every operation has its slot in the batches of its server, and only there.
  pub own_slot :
      (slot : ℕ) (op : Operat)
      → get_elem? ops slot ≡ some op
      → Member slot (reads_on ops op.server_id ++ writes_on ops op.server_id)
  own_slot slot op e =
      subst (λ k. Member k (reads_on ops op.server_id ++ writes_on ops op.server_id)) (omega arith)
        (elim (Bool-cases (is_read op.type)) [
          | inl r ↦
              Member-append_left (0 + slot) (reads_on ops op.server_id) (writes_on ops op.server_id)
                (Member-of_places _ 0 slot ops op e (rw (beq_refl op.server_id, r) refl))
          | inr w ↦
              Member-append_right (0 + slot) (reads_on ops op.server_id)
                (writes_on ops op.server_id)
                (Member-of_places _ 0 slot ops op e (rw (beq_refl op.server_id, w) refl))
        ])

  pub slot-server :
      (id : ℤ) (slot : ℕ) (op : Operat)
      → get_elem? ops slot ≡ some op
      → Member slot (reads_on ops id ++ writes_on ops id)
      → op.server_id ≡ id
  slot-server id slot op e m =
      elim (Member-append_cases slot (reads_on ops id) (writes_on ops id) m) [
        | inl r ↦
            let (j, x, same, f, q) = Member-places _ 0 slot ops r in
            let x_op : x ≡ op = Option-injective (sym f ∙ ap (get_elem? ops) (omega arith) ∙ e) in
            ap (λ (o : Operat). o.server_id) (sym x_op)
            ∙ beq→eq x.server_id id (and_read (x.server_id =? id) x.type q).0
        | inr w ↦
            let (j, x, same, f, q) = Member-places _ 0 slot ops w in
            let x_op : x ≡ op = Option-injective (sym f ∙ ap (get_elem? ops) (omega arith) ∙ e) in
            ap (λ (o : Operat). o.server_id) (sym x_op)
            ∙ beq→eq x.server_id id (and_write (x.server_id =? id) x.type q).0
      ]

  pub slot-op :
      (id : ℤ) (slot : ℕ)
      → Member slot (reads_on ops id ++ writes_on ops id)
      → (op : Operat) × (get_elem? ops slot ≡ some op) × (op.server_id ≡ id)
  slot-op id slot m = elim (Member-append_cases slot (reads_on ops id) (writes_on ops id) m) [
    | inl r ↦
        let (j, x, same, f, q) = Member-places _ 0 slot ops r in
        (
          x,
          ap (get_elem? ops) (omega arith) ∙ f,
          beq→eq x.server_id id (and_read (x.server_id =? id) x.type q).0,
        )
    | inr w ↦
        let (j, x, same, f, q) = Member-places _ 0 slot ops w in
        (
          x,
          ap (get_elem? ops) (omega arith) ∙ f,
          beq→eq x.server_id id (and_write (x.server_id =? id) x.type q).0,
        )
  ]

-- A plan as buildBatchesFromOramOps makes it.
pub record Built (ops : List Operat) (bp : BatchPlan) : Type 0 where
  pub batch_size : ℕ
  pub pad : Bool
  pub fits : AllFit ops batch_size pad bp.batches bp.per_batch_op_to_slot
  pub same_length : length bp.batches ≡ length bp.per_batch_op_to_slot
  pub order :
      (id : ℤ) → sent_to id bp.batches bp.per_batch_op_to_slot ≡ reads_on ops id ++ writes_on ops id

module _ (ids : PkMap) (ops : List Operat) (small : length ops < u32_mod) (bp : BatchPlan)
    (built : Built ops bp) where
  pub own_real :
      (id : ℤ)
      → keep is_real (slots_of bp (own_batches ids ops id bp)) ≡ reads_on ops id ++ writes_on ops id
  own_real id = own_slots ids ops id bp built.same_length ∙ built.order id

  pub own_none :
      (id : ℤ) (slot : ℕ) (op : Operat)
      → own_batches ids ops id bp ≡ []
      → get_elem? ops slot ≡ some op
      → op.server_id ≡ id
      → ⊥
  unfolding slots_of
  own_none id slot op e f own =
      subst (λ l. Member slot l) (sym (own_real id) ∙ ap (λ l. keep is_real (slots_of bp l)) e)
        (subst (λ k. Member slot (reads_on ops k ++ writes_on ops k)) own
          (own_slot ids ops small slot op f))

  -- The jobs of executeOramOps: the batches grouped by server.
  abbrev pub jobs_of : Groups
  jobs_of = group_by (λ (b : BatchInfo). b.server_id) 0 bp.batches []

  pub jobs_of-Distinct : Distinct (keys jobs_of)
  jobs_of-Distinct = group_by-Distinct (λ (b : BatchInfo). b.server_id) 0 bp.batches [] tt

  group_of-jobs_of : (id : ℤ) → group_of id jobs_of ≡ own_batches ids ops id bp
  group_of-jobs_of id =
      group_of-group_by (λ (b : BatchInfo). b.server_id) id 0 bp.batches []
      ∙ ap (λ (l : List ℕ). l ++ own_batches ids ops id bp) (group_of-absent id [] (λ n. n))

  pub jobs_of-own :
      (id : ℤ) (bs : List ℕ) → Member (id, bs) jobs_of → bs ≡ own_batches ids ops id bp
  jobs_of-own id bs m = group_of-entry id bs jobs_of jobs_of-Distinct m ∙ group_of-jobs_of id

  -- Every operation's server has a job.
  pub own_job :
      (slot : ℕ) (op : Operat) → get_elem? ops slot ≡ some op → Member op.server_id (keys jobs_of)
  own_job slot op f = elim (Option-cases (lookup op.server_id jobs_of)) [
    | inr (l, e) ↦ (Member-keys_iff op.server_id jobs_of).1 (λ n. cc)
    | inl e ↦ absurd (
        own_none op.server_id slot op
          (sym (group_of-jobs_of op.server_id)
            ∙ group_of-absent op.server_id jobs_of
                (λ m. (Member-keys_iff op.server_id jobs_of).0 m e))
          f refl)
  ]
