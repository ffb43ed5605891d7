-- ===== src/Epoch/Dedup/Serial.antt =====
-- Deduplication answers each operation as a serial execution of its chain would.
use de_part.Prelude.{
  ℕ, ◌≤◌, ◌<◌, ◌≡◌, refl, sym, ap, ap₂, subst, ◌∙◌, inl, inr, ◌≢◌, List, [], ◌∷◌, ◌++◌, Option,
  none, some, arith, if◌then◌else◌, lookup, lookup-insert_ne, lookup-insert_self, nat_key, Bytes,
  length, length-append, get_elem?, get_elem?-append_end, get_elem?-append_left, get_or, u32_mod,
  to_u32, Member, Distinct, All,
}
use de_part.Epoch.Types.{Operat, VcKey, vc_key, is_write}
use de_part.Epoch.Dedup.{
  Kind, DedupPlan, Pass, decision, push_if, next_slot, decide, second_pass, resolve, resolve_all,
  value_of,
}

-- What the operations of one chain return when they run one by one on a record that holds `stored`:
-- a read returns the newest value written before it in the chain, or the stored one.
abbrev current : Bytes → Option Bytes → Bytes
current stored none = stored
current stored (some v) = v

pub serial : Bytes → Option Bytes → List Operat → List Bytes
serial stored buffer [] = []
serial stored buffer (op ∷ vc) =
    let rest = serial stored (if is_write op.type then some op.data_value else buffer) vc in
    (if is_write op.type then [] else current stored buffer) ∷ rest

-- The ORAMs answer a read by the value stored under its key, and a write by the empty string.
abbrev pub Serves : (VcKey → Bytes) → List Operat → List Bytes → Type 0
Serves store ops results =
    (slot : ℕ) (op : Operat)
    → get_elem? ops slot ≡ some op
    → get_or results slot [] ≡ (if is_write op.type then [] else store (vc_key op))

abbrev pub ids : List Operat → List ℕ
ids [] = []
ids (op ∷ vc) = op.global_op_id ∷ ids vc

-- A decision on one operation leaves the others' alone.
decide-lookup :
    (last : ℕ) (op : Operat) (s : Pass) (id : ℕ)
    → id ≢ op.global_op_id
    → lookup id (decide last op s).plan.per_op_decision ≡ lookup id s.plan.per_op_decision
unfolding decide
decide-lookup last op s id h =
    lookup-insert_ne op.global_op_id id (decision last op s) s.plan.per_op_decision (λ e. h (sym e))

pub second_pass-lookup :
    (last : ℕ) (vc : List Operat) (s : Pass) (id : ℕ)
    → (¬ Member id (ids vc))
    → lookup id (second_pass last vc s).plan.per_op_decision ≡ lookup id s.plan.per_op_decision
unfolding second_pass
second_pass-lookup last [] s id h = refl
second_pass-lookup last (op ∷ vc) s id h =
    second_pass-lookup last vc (decide last op s) id (λ m. h (inr m))
    ∙ decide-lookup last op s id (λ e. h (inl e))

-- What has been sent keeps its slot.
abbrev pub Extends : List Operat → List Operat → Type 0
Extends ops ops' =
    (length ops ≤ length ops')
    × ((slot : ℕ) (op : Operat) → get_elem? ops slot ≡ some op → get_elem? ops' slot ≡ some op)

pub Extends-trans : (a b c : List Operat) → Extends a b → Extends b c → Extends a c
Extends-trans a b c (l, h) (m, k) = (omega arith, λ slot op e. k slot op (h slot op e))

Extends-push : (ops : List Operat) (op : Operat) → Extends ops (ops ++ op ∷ [])
Extends-push ops op = (
  omega (arith, length-append ops (op ∷ [])),
  λ slot o e. get_elem?-append_left ops (op ∷ []) slot e,
)

pub Extends-refl : (ops : List Operat) → Extends ops ops
Extends-refl ops = (omega arith, λ slot op e. e)

push_if-Extends : (k : Kind) (op : Operat) (ops : List Operat) → Extends ops (push_if k op ops)
push_if-Extends Kind.to_oram op ops = Extends-push ops op
push_if-Extends Kind.buffered_from_write op ops = Extends-refl ops
push_if-Extends Kind.coalesced_read op ops = Extends-refl ops
push_if-Extends Kind.dropped op ops = Extends-refl ops

decide-Extends :
    (last : ℕ) (op : Operat) (s : Pass)
    → Extends s.plan.oram_bound_ops (decide last op s).plan.oram_bound_ops
unfolding decide
decide-Extends last op s = push_if-Extends (decision last op s).kind op s.plan.oram_bound_ops

pub second_pass-Extends :
    (last : ℕ) (vc : List Operat) (s : Pass)
    → Extends s.plan.oram_bound_ops (second_pass last vc s).plan.oram_bound_ops
unfolding second_pass
second_pass-Extends last [] s = Extends-refl s.plan.oram_bound_ops
second_pass-Extends last (op ∷ vc) s =
    Extends-trans s.plan.oram_bound_ops (decide last op s).plan.oram_bound_ops
      (second_pass last vc (decide last op s)).plan.oram_bound_ops (decide-Extends last op s)
      (second_pass-Extends last vc (decide last op s))

-- A leader's slot holds the answer that a read of the chain's key gets from its ORAM.
abbrev LeaderServes : Bytes → List Bytes → Option ℕ → Type 0
LeaderServes stored results none = Unit
LeaderServes stored results (some slot) = get_or results slot [] ≡ stored

-- One step of the second pass, for an operation on a key that holds `stored`.
module _ (store : VcKey → Bytes) (results : List Bytes) (last : ℕ) (op : Operat) (s : Pass)
    (final : List Operat) (serves : Serves store final results) (fits : length final < u32_mod)
    (extends : Extends (decide last op s).plan.oram_bound_ops final)
    (leads : LeaderServes (store (vc_key op)) results s.leader) where
  slot_answer :
      (k : Kind)
      → k ≡ Kind.to_oram
      → Extends (push_if k op s.plan.oram_bound_ops) final
      → get_or results (next_slot s) [] ≡ (if is_write op.type then [] else store (vc_key op))
  slot_answer Kind.to_oram e x =
      let ops = s.plan.oram_bound_ops in
      let small : to_u32 (length ops) ≡ length ops =
        omega (arith, x.0, length-append ops (op ∷ [])) in
      rw small (serves (length ops) op (x.1 (length ops) op (get_elem?-append_end ops op)))
  slot_answer Kind.buffered_from_write e x = cc
  slot_answer Kind.coalesced_read e x = cc
  slot_answer Kind.dropped e x = cc

  answer :
      (decision last op s).kind ≡ Kind.to_oram
      → get_or results (next_slot s) [] ≡ (if is_write op.type then [] else store (vc_key op))
  unfolding decide
  answer e = slot_answer (decision last op s).kind e extends

  decision-value :
      value_of results (decision last op s) (decision last op s).kind
      ≡ (if is_write op.type then [] else current (store (vc_key op)) s.buffer)
  unfolding decision
  decision-value = ground (arith, answer)

  decide-leads : LeaderServes (store (vc_key op)) results (decide last op s).leader
  unfolding decide
  decide-leads = ground (arith, answer)

  head_answer :
      (plan : DedupPlan)
      → lookup op.global_op_id plan.per_op_decision
        ≡ lookup op.global_op_id (decide last op s).plan.per_op_decision
      → resolve plan results op
        ≡ (if is_write op.type then [] else current (store (vc_key op)) s.buffer)
  unfolding resolve decide
  head_answer plan e =
      let found : lookup op.global_op_id plan.per_op_decision ≡ some (decision last op s) =
        e ∙ lookup-insert_self op.global_op_id (decision last op s) s.plan.per_op_decision in
      rw (found, resolve) decision-value

decide-buffer :
    (last : ℕ) (op : Operat) (s : Pass)
    → (decide last op s).buffer ≡ (if is_write op.type then some op.data_value else s.buffer)
unfolding decide
decide-buffer last op s = refl

abbrev pub OnKey : VcKey → List Operat → Type 0
OnKey k = All (λ op. vc_key op ≡ k)

pub second_pass-serial :
    (store : VcKey → Bytes) (results : List Bytes) (last : ℕ) (k : VcKey) (final : List Operat)
    → Serves store final results
    → length final < u32_mod
    → (vc : List Operat) (s : Pass) → OnKey k vc
    → Distinct (ids vc)
    → Extends (second_pass last vc s).plan.oram_bound_ops final
    → LeaderServes (store k) results s.leader
    → resolve_all (second_pass last vc s).plan results vc ≡ serial (store k) s.buffer vc
unfolding second_pass resolve_all serial
second_pass-serial store results last k final serves fits [] s on d x l = refl
second_pass-serial store results last k final serves fits (op ∷ vc) s (e, on) (new, d) x l =
    let s' = decide last op s in
    let here : Extends s'.plan.oram_bound_ops final =
      Extends-trans s'.plan.oram_bound_ops (second_pass last vc s').plan.oram_bound_ops final
        (second_pass-Extends last vc s') x in
    let l' : LeaderServes (store (vc_key op)) results s.leader =
      subst (λ j. LeaderServes (store j) results s.leader) (sym e) l in
    let after = second_pass-serial store results last k final serves fits vc s' on d x (
      subst (λ j. LeaderServes (store j) results s'.leader) e
        (decide-leads store results last op s final serves fits here l')) in
    ap₂ ◌∷◌
      (head_answer store results last op s final serves fits here l' (second_pass last vc s').plan
          (second_pass-lookup last vc s' op.global_op_id new)
        ∙ ap (λ j. if is_write op.type then [] else current (store j) s.buffer) e)
      (after ∙ ap (λ b. serial (store k) b vc) (decide-buffer last op s))
