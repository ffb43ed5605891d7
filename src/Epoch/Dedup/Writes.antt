-- ===== src/Epoch/Dedup/Writes.antt =====
-- The writes that a plan sends to the ORAMs: the last one of each chain, and no other.
use de_part.Prelude.{
  ℕ, ◌≡◌, refl, sym, ap, subst, ◌∙◌, inl, inr, ◌≢◌, ◌&&◌, List, [], ◌∷◌, ◌++◌, none, arith, ◌==◌,
  if◌then◌else◌, keep, keep-append, Member, Distinct, keys, ◌=?◌, Member-keys_of_entry,
}
use mathlib.Core.List.{append_assoc, append-nil}
use de_part.Epoch.Types.{Operat, VcKey, vc_key, vc_key_order, is_write}
use de_part.Epoch.Conflict.{Chains}
use de_part.Epoch.Dedup.{
  Kind, DedupPlan, Pass, new_plan, last_update, last_update_op_id, decision, push_if, decide,
  second_pass, dedup_chain, dedup_chains, dedup,
}
use de_part.Epoch.Dedup.Serial.{OnKey}
use de_part.Epoch.Dedup.Plan.{Keyed}
use de_part.Epoch.Dedup.LastWrite.{latest, Rising, chosen, chosen-latest}

abbrev pub writes_on : VcKey → List Operat → List Operat
writes_on k = keep (λ op. is_write op.type && (vc_key op =? k))

-- What one decision, a chain and a plan add to the writes that are sent.
writes_on-push_if :
    (k : VcKey) (kind : Kind) (op : Operat) (ops : List Operat)
    → vc_key op ≡ k
    → writes_on k (push_if kind op ops)
      ≡ writes_on k ops
        ++ (elim kind [ Kind.to_oram ↦ (if is_write op.type then op ∷ [] else []) | _ ↦ [] ])
writes_on-push_if k Kind.to_oram op ops e = ground (
  arith,
  keep-append (λ (o : Operat). is_write o.type && (vc_key o =? k)) ops (op ∷ []),
  vc_key_order.beq_iff (vc_key op) k,
)
writes_on-push_if k Kind.buffered_from_write op ops e = sym (append-nil _)
writes_on-push_if k Kind.coalesced_read op ops e = sym (append-nil _)
writes_on-push_if k Kind.dropped op ops e = sym (append-nil _)

writes_on-decide :
    (k : VcKey) (last : ℕ) (op : Operat) (s : Pass)
    → vc_key op ≡ k
    → writes_on k (decide last op s).plan.oram_bound_ops
      ≡ writes_on k s.plan.oram_bound_ops
        ++ (if is_write op.type && (op.global_op_id == last) then op ∷ [] else [])
unfolding decide decision
writes_on-decide k last op s e =
    ground (arith, writes_on-push_if k (decision last op s).kind op s.plan.oram_bound_ops e)

writes_on-second_pass :
    (k : VcKey) (last : ℕ) (vc : List Operat) (s : Pass)
    → OnKey k vc
    → writes_on k (second_pass last vc s).plan.oram_bound_ops
      ≡ writes_on k s.plan.oram_bound_ops ++ chosen last vc
unfolding second_pass
writes_on-second_pass k last [] s on = sym (append-nil _)
writes_on-second_pass k last (op ∷ vc) s (e, on) = ground (
  arith,
  writes_on-second_pass k last vc (decide last op s) on,
  writes_on-decide k last op s e,
  append_assoc (writes_on k s.plan.oram_bound_ops) (op ∷ []) (chosen last vc),
  append-nil (writes_on k s.plan.oram_bound_ops),
)

-- A chain on another key sends no write on `k`.
writes_on-push_if_ne :
    (k : VcKey) (kind : Kind) (op : Operat) (ops : List Operat)
    → vc_key op ≢ k
    → writes_on k (push_if kind op ops) ≡ writes_on k ops
writes_on-push_if_ne k Kind.to_oram op ops e = ground (
  arith,
  keep-append (λ (o : Operat). is_write o.type && (vc_key o =? k)) ops (op ∷ []),
  vc_key_order.beq_iff (vc_key op) k,
  append-nil (writes_on k ops),
)
writes_on-push_if_ne k Kind.buffered_from_write op ops e = refl
writes_on-push_if_ne k Kind.coalesced_read op ops e = refl
writes_on-push_if_ne k Kind.dropped op ops e = refl

writes_on-second_pass_ne :
    (k j : VcKey) (last : ℕ) (vc : List Operat) (s : Pass)
    → OnKey j vc
    → j ≢ k
    → writes_on k (second_pass last vc s).plan.oram_bound_ops ≡ writes_on k s.plan.oram_bound_ops
unfolding second_pass decide
writes_on-second_pass_ne k j last [] s on h = refl
writes_on-second_pass_ne k j last (op ∷ vc) s (e, on) h =
    writes_on-second_pass_ne k j last vc (decide last op s) on h
    ∙ writes_on-push_if_ne k (decision last op s).kind op s.plan.oram_bound_ops (λ f. h (sym e ∙ f))

writes_on-dedup_chains_ne :
    (k : VcKey) (chains : Chains) (plan : DedupPlan)
    → Keyed chains
    → (¬ Member k (keys chains))
    → writes_on k (dedup_chains chains plan).oram_bound_ops ≡ writes_on k plan.oram_bound_ops
unfolding dedup_chains dedup_chain
writes_on-dedup_chains_ne k [] plan keyed h = refl
writes_on-dedup_chains_ne k ((j, vc) ∷ chains) plan keyed h =
    writes_on-dedup_chains_ne k chains (dedup_chain vc plan) keyed.1 (λ m. h (inr m))
    ∙ writes_on-second_pass_ne k j _ vc _ keyed.0 (λ e. h (inl (sym e)))

abbrev RisingChains : Chains → Type 0
RisingChains [] = Unit
RisingChains ((k, vc) ∷ chains) = Rising 0 vc × RisingChains chains

writes_on-dedup_chains :
    (k : VcKey) (vc : List Operat) (chains : Chains) (plan : DedupPlan)
    → Keyed chains
    → RisingChains chains
    → Distinct (keys chains)
    → Member (k, vc) chains
    → writes_on k (dedup_chains chains plan).oram_bound_ops
      ≡ writes_on k plan.oram_bound_ops ++ latest vc []
unfolding dedup_chains dedup_chain
writes_on-dedup_chains k vc [] plan keyed r d m = absurd m
writes_on-dedup_chains k vc ((j, vc') ∷ chains) plan keyed r d (inl e) =
    let last = last_update_op_id (last_update none vc') in
    let s : Pass = record { plan = plan; buffer = none; leader = none } in
    let rest = writes_on-dedup_chains_ne j chains (dedup_chain vc' plan) keyed.1 d.0 in
    let own =
      rest
      ∙ writes_on-second_pass j last vc' s keyed.0
      ∙ ap (◌++◌ (writes_on j plan.oram_bound_ops)) (chosen-latest vc' r.0) in
    subst
      (λ (p : VcKey × List Operat).
        writes_on p.0 (dedup_chains chains (dedup_chain vc' plan)).oram_bound_ops
        ≡ writes_on p.0 plan.oram_bound_ops ++ latest p.1 [])
      (sym e) own
writes_on-dedup_chains k vc ((j, vc') ∷ chains) plan keyed r d (inr m) =
    writes_on-dedup_chains k vc chains (dedup_chain vc' plan) keyed.1 r.1 d.1 m
    ∙ ap (λ ws. ws ++ latest vc [])
        (writes_on-second_pass_ne k j _ vc' _ keyed.0 (λ e.
          d.0 (subst (λ i. Member i (keys chains)) (sym e) (Member-keys_of_entry k vc chains m))))

-- On maps whose chains stand under distinct keys, hold operations on their own key and have rising
-- operation ids, the writes on a key that Dedup sends to the ORAMs are the last write of its chain
-- and nothing else; a key with no chain, or with a chain of reads, is not written.
pub dedup-latest :
    (chains : Chains) (k : VcKey)
    → Keyed chains
    → RisingChains chains
    → Distinct (keys chains)
    → ((vc : List Operat)
        → Member (k, vc) chains
        → writes_on k (dedup chains).oram_bound_ops ≡ latest vc [])
      × ((¬ Member k (keys chains)) → writes_on k (dedup chains).oram_bound_ops ≡ [])
unfolding dedup
dedup-latest chains k keyed r d = (
  (λ vc m. writes_on-dedup_chains k vc chains new_plan keyed r d m),
  (λ h. writes_on-dedup_chains_ne k chains new_plan keyed h),
)
