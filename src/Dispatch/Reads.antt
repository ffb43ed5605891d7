-- ===== src/Dispatch/Reads.antt =====
-- executeOramOps with reads alone, over the Ring ORAMs of the child processes.
use de_part.Prelude.{
  ℕ, ◌<◌, ◌≡◌, refl, sym, ap, subst, ◌∙◌, ◌≢◌, Bool, true, false, Bool-cases, inl, inr, List, [],
  ◌∷◌, Option, none, some, map, ℤ, int_key, Bytes, length, get_elem?, get_or, keep, Member, All,
  u32_mod, lookup,
}
use de_part.Epoch.Types.{Operat, is_write}
use de_part.Batch.{build_batches_from_oram_ops}
use de_part.Batch.Order.{is_real}
use de_part.Sending.{PkMap, lookup_block_id, working_pipe, Processes}
use de_part.Dispatch.{execute_oram_ops}
use de_part.Dispatch.Child.{reads-Runs}
use de_part.Dispatch.Worker.{slots_of}
use de_part.Dispatch.Carried.{op_sent, own_batches, own_batches-Carries, ops_of-map}
use de_part.Dispatch.Sent.{Known, slot-op, op_sent-type, op_sent-PadsRead, own_real}
use de_part.Dispatch.Answered.{build-Built, sent_of, stored_in, execute_oram_ops-Serves}
use de_part.Dispatch.Client.{Client, ring_access, ring_laws, Serving, reads_as, reads_as-Reply}
use de_part.Ring.Contract.{Reply}

All-map :
    {A : Type 0} (P : A → Type 0) (f : ℕ → A) (m : List ℕ)
    → ((slot : ℕ) → Member slot m → P (f slot))
    → All P (map f m)
All-map P f [] h = tt
All-map P f (s ∷ m) h = (h s (inl refl), All-map P f m (λ k mem. h k (inr mem)))

Member-keep_of :
    (slot : ℕ) (m : List ℕ) → Member slot m → is_real slot ≡ true → Member slot (keep is_real m)
Member-keep_of slot [] mem real = absurd mem
Member-keep_of slot (s ∷ m) (inl e) real =
    let here : is_real s ≡ true = subst (λ k. is_real k ≡ true) e real in rw here (inl e)
Member-keep_of slot (s ∷ m) (inr mem) real = elim (Bool-cases (is_real s)) [
  | inl e ↦ rw e (inr (Member-keep_of slot m mem real))
  | inr e ↦ rw e (Member-keep_of slot m mem real)
]

module _ (ids : PkMap) (ops : List Operat) (small : length ops < u32_mod)
    (reading : (slot : ℕ) (op : Operat)
      → get_elem? ops slot ≡ some op
      → is_write op.type ≡ false) where
  sent_of-reads :
      (batch_size : ℕ) (pad : Bool) (id : ℤ)
      → batch_size ≢ 0
      → All (λ op. is_write op.type ≡ false) (sent_of ids ops batch_size pad id)
  sent_of-reads batch_size pad id h =
      let bp = build_batches_from_oram_ops ops batch_size pad in
      let built = build-Built ops batch_size pad h small in
      let own = own_batches ids ops id bp in
      subst (All (λ (op : Operat). is_write op.type ≡ false))
        (sym (
          ops_of-map ids ops id bp own
            (own_batches-Carries ids ops id bp built.batch_size built.pad built.fits)))
        (All-map (λ (op : Operat). is_write op.type ≡ false) (op_sent ids ops id) (slots_of bp own)
          (λ slot m. elim (Bool-cases (is_real slot)) [
            | inl real ↦
                let (op, f, same) = slot-op ids ops small id slot (
                  subst (λ l. Member slot l) (own_real ids ops small bp built id)
                    (Member-keep_of slot (slots_of bp own) m real)) in
                ap is_write (op_sent-type ids ops small id slot op f) ∙ reading slot op f
            | inr pad' ↦ (op_sent-PadsRead ids ops small id slot pad').1
          ]))

  -- If there are fewer than 2^32 operations, which are all reads and whose keys have blocks, the
  -- batch size is not 0, and each server's child is a Ring ORAM that represents a map, then
  -- executeOramOps over pipes that do not break succeeds with no error, and each read gets the
  -- plain text of its block, followed by what the padding decrypts to, or the empty string for a
  -- block that the ORAM does not have.
  pub execute_oram_ops-reads :
      (batch_size : ℕ) (pad : Bool) (processes : Processes (Option Client)) (clients : ℤ → Client)
      (value : ℤ → ℕ → Option Bytes)
      → batch_size ≢ 0
      → Known ids ops small
      → ((slot : ℕ) (op : Operat)
          → get_elem? ops slot ≡ some op
          → lookup op.server_id processes ≡ some (some (clients op.server_id)))
      → ((id : ℤ) → Serving (value id) (clients id))
      → let er = (execute_oram_ops (working_pipe ring_access) ids ops batch_size pad processes).0 in
        (er.success ≡ true)
        × (er.error_message ≡ none)
        × ((slot : ℕ) (op : Operat)
            → get_elem? ops slot ≡ some op
            → Reply
                (value op.server_id (lookup_block_id ids op.server_id op.data_primary_key))
                (get_or er.per_slot_results slot []))
  unfolding stored_in
  execute_oram_ops-reads batch_size pad processes clients value h known up serving =
      let contents : ℤ → ℕ → Bytes = λ id. reads_as (value id) (clients id) (serving id) in
      let (success, no_error, serves) =
        execute_oram_ops-Serves ring_access ring_laws ids contents ops small batch_size pad
          processes h known
          (λ slot op f. (
            clients op.server_id,
            up slot op f,
            (value op.server_id, serving op.server_id, λ bid. refl),
            reads-Runs ring_access ring_laws (contents op.server_id)
                (sent_of ids ops batch_size pad op.server_id) (clients op.server_id)
                (value op.server_id, serving op.server_id, λ bid. refl)
                (sent_of-reads batch_size pad op.server_id h),
          )) in
      (
        success,
        no_error,
        λ slot op f.
            let bid = lookup_block_id ids op.server_id op.data_primary_key in
            subst (Reply (value op.server_id bid))
              (sym (serves slot op f ∙ rw (reading slot op f) refl))
              (reads_as-Reply (value op.server_id) (clients op.server_id) (serving op.server_id)
                bid),
      )
