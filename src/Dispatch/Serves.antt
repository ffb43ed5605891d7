-- ===== src/Dispatch/Serves.antt =====
-- Over pipes that work, executeOramOps answers each read from the contents at the start.
use de_part.Prelude.{
  ℕ, ◌<◌, ◌≡◌, sym, ap, subst, ◌∙◌, ◌≢◌, true, false, List, [], ◌++◌, Option, some, map,
  if◌then◌else◌, ℤ, int_key, Bytes, length, get_elem?, get_or, keep, Member, Member-keep, u32_mod,
  lookup,
}
use de_part.Epoch.Types.{Operat, is_write}
use de_part.Batch.{BatchPlan}
use de_part.Batch.Order.{is_real, reads_on, writes_on}
use de_part.Sending.{PkMap, lookup_block_id, Access}
use de_part.Dispatch.{Job}
use de_part.Dispatch.Child.{OramLaws, Answers, answer, Runs, results, child-Answers}
use de_part.Dispatch.Worker.{ops_of, slots_of, Ran}
use de_part.Dispatch.Slots.{place-gets, place-others, length-place}
use de_part.Dispatch.Carried.{op_sent, own_batches, own_batches-Carries, ops_of-map, ReadsFirst-of}
use de_part.Dispatch.Sent.{
  Known, slot-real, op_sent_known, op_sent-PadsRead, reads_on-All, writes_on-All, own_slot,
  slot-server, Built, own_real,
}

-- What an operation is answered, from the contents of the blocks of each server.
abbrev pub expected : PkMap → (ℤ → ℕ → Bytes) → Operat → Bytes
expected ids contents op =
    if is_write op.type
    then []
    else contents op.server_id (lookup_block_id ids op.server_id op.data_primary_key)

module _ {S : Type 0} (access : Access S) (laws : OramLaws access) (ids : PkMap) (ops : List Operat)
    (small : length ops < u32_mod) (known : Known ids ops small) (bp : BatchPlan)
    (built : Built ops bp) (contents : ℤ → ℕ → Bytes) where
  -- What one job does to the slots.
  abbrev pub Served : ℤ → Job (Option S) → Job (Option S) → Type 0
  Served id before now =
      (now.outcome.ok ≡ true)
      × (length now.per_slot_results ≡ length before.per_slot_results)
      × ((slot : ℕ) (op : Operat)
          → get_elem? ops slot ≡ some op
          → op.server_id ≢ id
          → get_or now.per_slot_results slot [] ≡ get_or before.per_slot_results slot [])
      × ((slot : ℕ) (op : Operat)
          → get_elem? ops slot ≡ some op
          → op.server_id ≡ id
          → slot < length before.per_slot_results
          → get_or now.per_slot_results slot [] ≡ expected ids contents op)
      × ((j : ℤ) → id ≢ j → lookup j now.processes ≡ lookup j before.processes)

  own_Answers :
      (id : ℤ) (s : S)
      → laws.Holds (contents id) s
      → Runs access (ops_of bp ids id (own_batches ids ops id bp)) s
      → Answers
          (contents id)
          (map (op_sent ids ops id) (slots_of bp (own_batches ids ops id bp)))
          (results access (ops_of bp ids id (own_batches ids ops id bp)) s)
  own_Answers id s g runs =
      let m = slots_of bp (own_batches ids ops id bp) in
      let carried =
        ops_of-map ids ops id bp (own_batches ids ops id bp)
          (own_batches-Carries ids ops id bp built.batch_size built.pad built.fits) in
      subst (λ l. Answers (contents id) (map (op_sent ids ops id) m) (results access l s))
        (sym carried)
        (child-Answers access laws (contents id) (map (op_sent ids ops id) m) s g
          (subst (λ l. Runs access l s) carried runs)
          (ReadsFirst-of (op_sent ids ops id) m (reads_on ops id) (writes_on ops id)
            (own_real ids ops small bp built id) (op_sent-PadsRead ids ops small id)
            (reads_on-All ids ops small id) (writes_on-All ids ops small id)))

  answer-expected :
      (id : ℤ) (slot : ℕ) (op : Operat)
      → get_elem? ops slot ≡ some op
      → op.server_id ≡ id
      → ((op_sent ids ops id slot).is_dummy ≡ false)
        × (answer (contents id) (op_sent ids ops id slot) ≡ expected ids contents op)
  answer-expected id slot op e own =
      subst
        (λ k.
          ((op_sent ids ops k slot).is_dummy ≡ false)
          × (answer (contents k) (op_sent ids ops k slot) ≡ expected ids contents op))
        own
        (
          ap (λ (o : Operat). o.is_dummy) (op_sent_known ids ops small slot op known e),
          ap (answer (contents op.server_id)) (op_sent_known ids ops small slot op known e),
        )

  pub Served-of_Ran :
      (id : ℤ) (s : S) (before now : Job (Option S))
      → laws.Holds (contents id) s
      → Runs access (ops_of bp ids id (own_batches ids ops id bp)) s
      → Ran access id
          (ops_of bp ids id (own_batches ids ops id bp))
          (slots_of bp (own_batches ids ops id bp))
          s
          before
          now
      → Served id before now
  Served-of_Ran id s before now g runs ran =
      let m = slots_of bp (own_batches ids ops id bp) in
      let rs = results access (ops_of bp ids id (own_batches ids ops id bp)) s in
      (
        ran.0,
        ap length ran.1 ∙ length-place m rs before.per_slot_results,
        λ slot op e other.
            ap (λ out. get_or out slot []) ran.1
            ∙ place-others slot m rs before.per_slot_results (λ mem. other (
                slot-server ids ops small id slot op e
                  (subst (λ l. Member slot l) (own_real ids ops small bp built id) mem))),
        λ slot op e own below.
            let (wanted, right) = answer-expected id slot op e own in
            let mem : Member slot (keep is_real m) =
              subst (λ l. Member slot l) (sym (own_real ids ops small bp built id))
                (subst (λ k. Member slot (reads_on ops k ++ writes_on ops k)) own
                  (own_slot ids ops small slot op e)) in
            ap (λ out. get_or out slot []) ran.1
            ∙ place-gets (op_sent ids ops id) (contents id) slot (slot-real ids ops small slot op e)
                wanted m rs before.per_slot_results (own_Answers id s g runs) below
                (Member-keep is_real slot m mem).0
            ∙ right,
        ran.2.1,
      )
