-- ===== src/Epoch/Dedup/Plan.antt =====
-- The whole plan of an epoch: every chain is answered as in a serial execution.
use de_part.Prelude.{
  ℕ, ◌<◌, ◌≡◌, refl, sym, ap₂, subst, ◌∙◌, inl, inr, List, [], ◌∷◌, ◌++◌, none, lookup, nat_key,
  Bytes, length, u32_mod, Member, Distinct, Member-append_left, Member-append_right,
}
use de_part.Epoch.Types.{Operat, VcKey}
use de_part.Epoch.Conflict.{Chains}
use de_part.Epoch.Dedup.{
  DedupPlan, new_plan, dedup_chain, dedup_chains, dedup, resolve, resolve_all,
}
use de_part.Epoch.Dedup.Serial.{
  serial, Serves, ids, Extends, Extends-trans, Extends-refl, OnKey, second_pass-lookup,
  second_pass-Extends, second_pass-serial,
}

abbrev pub chain_ids : Chains → List ℕ
chain_ids [] = []
chain_ids ((k, vc) ∷ chains) = ids vc ++ chain_ids chains

-- Each chain holds operations on its own key.
abbrev pub Keyed : Chains → Type 0
Keyed [] = Unit
Keyed ((k, vc) ∷ chains) = OnKey k vc × Keyed chains

dedup_chain-lookup :
    (vc : List Operat) (plan : DedupPlan) (id : ℕ)
    → (¬ Member id (ids vc))
    → lookup id (dedup_chain vc plan).per_op_decision ≡ lookup id plan.per_op_decision
unfolding dedup_chain
dedup_chain-lookup vc plan id h = second_pass-lookup _ vc _ id h

dedup_chains-lookup :
    (chains : Chains) (plan : DedupPlan) (id : ℕ)
    → (¬ Member id (chain_ids chains))
    → lookup id (dedup_chains chains plan).per_op_decision ≡ lookup id plan.per_op_decision
unfolding dedup_chains
dedup_chains-lookup [] plan id h = refl
dedup_chains-lookup ((k, vc) ∷ chains) plan id h =
    dedup_chains-lookup chains (dedup_chain vc plan) id
      (λ m. h (Member-append_right id (ids vc) (chain_ids chains) m))
    ∙ dedup_chain-lookup vc plan id (λ m. h (Member-append_left id (ids vc) (chain_ids chains) m))

dedup_chain-Extends :
    (vc : List Operat) (plan : DedupPlan)
    → Extends plan.oram_bound_ops (dedup_chain vc plan).oram_bound_ops
unfolding dedup_chain
dedup_chain-Extends vc plan = second_pass-Extends _ vc _

dedup_chains-Extends :
    (chains : Chains) (plan : DedupPlan)
    → Extends plan.oram_bound_ops (dedup_chains chains plan).oram_bound_ops
unfolding dedup_chains
dedup_chains-Extends [] plan = Extends-refl plan.oram_bound_ops
dedup_chains-Extends ((k, vc) ∷ chains) plan =
    Extends-trans plan.oram_bound_ops (dedup_chain vc plan).oram_bound_ops
      (dedup_chains chains (dedup_chain vc plan)).oram_bound_ops (dedup_chain-Extends vc plan)
      (dedup_chains-Extends chains (dedup_chain vc plan))

-- Two plans that agree on the ids of some operations resolve them alike.
resolve_all_agree :
    (p q : DedupPlan) (results : List Bytes) (vc : List Operat)
    → ((id : ℕ) → Member id (ids vc) → lookup id p.per_op_decision ≡ lookup id q.per_op_decision)
    → resolve_all p results vc ≡ resolve_all q results vc
unfolding resolve_all resolve
resolve_all_agree p q results [] h = refl
resolve_all_agree p q results (op ∷ vc) h =
    ap₂ ◌∷◌ (rw (h op.global_op_id (inl refl), resolve))
      (resolve_all_agree p q results vc (λ id m. h id (inr m)))

Distinct-apart : (xs ys : List ℕ) (id : ℕ) → Distinct (xs ++ ys) → Member id xs → ¬ Member id ys
Distinct-apart [] ys id d m n = m
Distinct-apart (x ∷ xs) ys id d (inl e) n =
    d.0 (Member-append_right x xs ys (subst (λ j. Member j ys) e n))
Distinct-apart (x ∷ xs) ys id d (inr m) n = Distinct-apart xs ys id d.1 m n

Distinct-left : (xs ys : List ℕ) → Distinct (xs ++ ys) → Distinct xs
Distinct-left [] ys d = tt
Distinct-left (x ∷ xs) ys d = ((λ m. d.0 (Member-append_left x xs ys m)), Distinct-left xs ys d.1)

Distinct-right : (xs ys : List ℕ) → Distinct (xs ++ ys) → Distinct ys
Distinct-right [] ys d = d
Distinct-right (x ∷ xs) ys d = Distinct-right xs ys d.1

dedup_chain-serial :
    (store : VcKey → Bytes) (results : List Bytes) (k : VcKey) (vc : List Operat) (plan : DedupPlan)
    (final : List Operat)
    → Serves store final results
    → length final < u32_mod
    → OnKey k vc
    → Distinct (ids vc)
    → Extends (dedup_chain vc plan).oram_bound_ops final
    → resolve_all (dedup_chain vc plan) results vc ≡ serial (store k) none vc
unfolding dedup_chain
dedup_chain-serial store results k vc plan final serves fits on d x =
    second_pass-serial store results _ k final serves fits vc _ on d x tt

dedup_chains-serial :
    (store : VcKey → Bytes) (results : List Bytes) (chains : Chains) (plan : DedupPlan) (k : VcKey)
    (vc : List Operat)
    → Serves store (dedup_chains chains plan).oram_bound_ops results
    → length (dedup_chains chains plan).oram_bound_ops < u32_mod
    → Keyed chains
    → Distinct (chain_ids chains)
    → Member (k, vc) chains
    → resolve_all (dedup_chains chains plan) results vc ≡ serial (store k) none vc
unfolding dedup_chains
dedup_chains-serial store results [] plan k vc serves fits keyed d m = absurd m
dedup_chains-serial store results ((j, vc') ∷ chains) plan k vc serves fits keyed d (inl e) =
    let plan' = dedup_chain vc' plan in
    let final = dedup_chains chains plan' in
    let same = resolve_all_agree final plan' results vc' (λ id m.
      dedup_chains-lookup chains plan' id (Distinct-apart (ids vc') (chain_ids chains) id d m)) in
    let here =
      dedup_chain-serial store results j vc' plan final.oram_bound_ops serves fits keyed.0
        (Distinct-left (ids vc') (chain_ids chains) d) (dedup_chains-Extends chains plan') in
    subst (λ (p : VcKey × List Operat). resolve_all final results p.1 ≡ serial (store p.0) none p.1)
      (sym e) (same ∙ here)
dedup_chains-serial store results ((j, vc') ∷ chains) plan k vc serves fits keyed d (inr m) =
    dedup_chains-serial store results chains (dedup_chain vc' plan) k vc serves fits keyed.1
      (Distinct-right (ids vc') (chain_ids chains) d) m

-- If the operation ids are distinct and each chain is on its own key, then the decisions of Dedup,
-- read back from ORAM answers that give a read the stored value of its key, return for every
-- operation of every chain what a serial execution of that chain returns: a read gets the newest
-- value written before it, or else the stored one. The plan must have fewer than 2^32 slots.
pub dedup-serial :
    (store : VcKey → Bytes) (results : List Bytes) (chains : Chains) (k : VcKey) (vc : List Operat)
    → Serves store (dedup chains).oram_bound_ops results
    → length (dedup chains).oram_bound_ops < u32_mod
    → Keyed chains
    → Distinct (chain_ids chains)
    → Member (k, vc) chains
    → resolve_all (dedup chains) results vc ≡ serial (store k) none vc
unfolding dedup
dedup-serial store results chains k vc serves fits keyed d m =
    dedup_chains-serial store results chains new_plan k vc serves fits keyed d m
