-- ===== src/Epoch/Dedup/Ids.antt =====
-- The operations of an epoch have different ids, and so do those of the version chains.
use de_part.Prelude.{
  ℕ, ◌+◌, ◌≤◌, ◌<◌, ◌≡◌, refl, sym, ap, subst, ◌∙◌, inl, inr, Bool, List, [], ◌∷◌, ◌++◌, arith,
  if◌then◌else◌, Bool-cases, length, keys, keep, Member, Member-append_cases, Member-keep, Distinct,
}
use de_part.Epoch.Types.{Operat, Txn, VcKey, vc_key}
use de_part.Epoch.Intake.Numbering.{Consecutive, Numbered}
use de_part.Epoch.Conflict.{Chains, live_ops, is_complete, assign_abort}
use de_part.Epoch.Conflict.Chains.{complete_ops, on_key}
use de_part.Epoch.Conflict.Verdict.{assign_abort-entry, assign_abort-chain}
use de_part.Epoch.Dedup.Serial.{ids}
use de_part.Epoch.Dedup.Plan.{chain_ids}
use de_part.Epoch.Dedup.Inputs.{assign_abort-Keyed}

-- An id stands for an operation.
Member-ids :
    (id : ℕ) (ops : List Operat)
    → Member id (ids ops)
    → (op : Operat) × Member op ops × (id ≡ op.global_op_id)
Member-ids id [] m = absurd m
Member-ids id (op ∷ ops) (inl e) = (op, inl refl, e)
Member-ids id (op ∷ ops) (inr m) = let (o, n, e) = Member-ids id ops m in (o, inr n, e)

Member-of_op : (op : Operat) (ops : List Operat) → Member op ops → Member op.global_op_id (ids ops)
Member-of_op op [] m = m
Member-of_op op (o ∷ ops) (inl e) = inl (ap (λ (x : Operat). x.global_op_id) e)
Member-of_op op (o ∷ ops) (inr m) = inr (Member-of_op op ops m)

-- With different ids, the id names the operation.
ids-injective :
    (ops : List Operat) (x y : Operat)
    → Distinct (ids ops)
    → Member x ops
    → Member y ops
    → x.global_op_id ≡ y.global_op_id
    → x ≡ y
ids-injective [] x y d m n e = absurd m
ids-injective (o ∷ ops) x y d (inl p) (inl q) e = p ∙ sym q
ids-injective (o ∷ ops) x y d (inl p) (inr n) e = absurd (
    d.0 (
      subst (λ i. Member i (ids ops)) (sym e ∙ ap (λ (z : Operat). z.global_op_id) p)
        (Member-of_op y ops n)))
ids-injective (o ∷ ops) x y d (inr m) (inl q) e = absurd (
    d.0 (
      subst (λ i. Member i (ids ops)) (e ∙ ap (λ (z : Operat). z.global_op_id) q)
        (Member-of_op x ops m)))
ids-injective (o ∷ ops) x y d (inr m) (inr n) e = ids-injective ops x y d.1 m n e

-- Leaving operations out keeps ids different.
ids-keep-Distinct :
    (p : Operat → Bool) (ops : List Operat) → Distinct (ids ops) → Distinct (ids (keep p ops))
ids-keep-Distinct p [] d = tt
ids-keep-Distinct p (op ∷ ops) d = elim (Bool-cases (p op)) [
  | inl e ↦ rw e (
    (λ m.
        let (o, n, same) = Member-ids op.global_op_id (keep p ops) m in
        d.0 (
          subst (λ i. Member i (ids ops)) (sym same)
            (Member-of_op o ops (Member-keep p o ops n).0))),
    ids-keep-Distinct p ops d.1,
  )
  | inr e ↦ rw e (ids-keep-Distinct p ops d.1)
]

Distinct-append :
    (xs ys : List ℕ)
    → Distinct xs
    → Distinct ys
    → ((i : ℕ) → Member i xs → ¬ Member i ys)
    → Distinct (xs ++ ys)
Distinct-append [] ys d e h = e
Distinct-append (x ∷ xs) ys d e h = (
  (λ m. elim (Member-append_cases x xs ys m) [ inl l ↦ d.0 l | inr r ↦ h x (inl refl) r ]),
  Distinct-append xs ys d.1 e (λ i m. h i (inr m)),
)

ids-append : (xs ys : List Operat) → ids (xs ++ ys) ≡ ids xs ++ ids ys
ids-append [] ys = refl
ids-append (x ∷ xs) ys = ap (λ l. x.global_op_id ∷ l) (ids-append xs ys)

-- Chains on different keys that hold operations of one list.
module _ (all : List Operat) (d : Distinct (ids all)) where
  abbrev Within : Chains → Type 0
  Within chains =
      (k : VcKey) (vc : List Operat)
      → Member (k, vc) chains
      → Distinct (ids vc) × ((op : Operat) → Member op vc → Member op all × (vc_key op ≡ k))

  Member-chain_ids :
      (chains : Chains) (id : ℕ)
      → Within chains
      → Member id (chain_ids chains)
      → (op : Operat) × Member op all × Member (vc_key op) (keys chains) × (id ≡ op.global_op_id)
  Member-chain_ids [] id w m = absurd m
  Member-chain_ids ((k, vc) ∷ chains) id w m =
      elim (Member-append_cases id (ids vc) (chain_ids chains) m) [
        | inl l ↦
            let (op, n, e) = Member-ids id vc l in
            let (inside, key) = (w k vc (inl refl)).1 op n in (op, inside, inl key, e)
        | inr r ↦
            let (op, inside, key, e) = Member-chain_ids chains id (λ j v n. w j v (inr n)) r in
            (op, inside, inr key, e)
      ]

  chain_ids-Distinct :
      (chains : Chains) → Distinct (keys chains) → Within chains → Distinct (chain_ids chains)
  chain_ids-Distinct [] dk w = tt
  chain_ids-Distinct ((k, vc) ∷ chains) dk w =
      Distinct-append (ids vc) (chain_ids chains) (w k vc (inl refl)).0
        (chain_ids-Distinct chains dk.1 (λ j v n. w j v (inr n)))
        (λ id m n.
          let (x, mx, ex) = Member-ids id vc m in
          let (inside, key) = (w k vc (inl refl)).1 x mx in
          let (y, my, ky, ey) = Member-chain_ids chains id (λ j v l. w j v (inr l)) n in
          let same = ids-injective all x y d inside my (sym ex ∙ ey) in
          dk.0 (subst (λ j. Member j (keys chains)) (ap vc_key (sym same) ∙ key) ky))

-- Where the operations of the complete transactions have different ids, so have those of the
-- chains that AssignAbort leaves.
pub assign_abort-chain_ids :
    (txns : List Txn)
    → Distinct (ids (complete_ops txns))
    → Distinct (chain_ids (assign_abort txns).1)
unfolding live_ops
assign_abort-chain_ids txns d =
    chain_ids-Distinct (complete_ops txns) d (assign_abort txns).1 (assign_abort-Keyed txns).1
      (λ k vc m.
        let (same, full) = assign_abort-entry txns k vc m in
        (
          subst (λ v. Distinct (ids v)) (sym same)
              (ids-keep-Distinct _ (on_key k (complete_ops txns))
                (ids-keep-Distinct _ (complete_ops txns) d)),
          λ op n.
              let (inside, key, fine) = ((assign_abort-chain txns k vc m).1 op).0 n in
              (inside, key),
        ))

-- Numbered transactions have different ids.
Consecutive-bounds :
    (ts g id : ℕ) (ops : List Operat)
    → Consecutive ts g ops
    → Member id (ids ops)
    → (g ≤ id) × (id < g + length ops)
Consecutive-bounds ts g id [] c m = absurd m
Consecutive-bounds ts g id (op ∷ ops) c (inl e) = (omega (arith, c.1), omega (arith, c.1))
Consecutive-bounds ts g id (op ∷ ops) c (inr m) =
    let (a, b) = Consecutive-bounds ts (g + 1) id ops c.2 m in (omega arith, omega arith)

Consecutive-Distinct : (ts g : ℕ) (ops : List Operat) → Consecutive ts g ops → Distinct (ids ops)
Consecutive-Distinct ts g [] c = tt
Consecutive-Distinct ts g (op ∷ ops) c = (
  (λ m. omega (arith, c.1, Consecutive-bounds ts (g + 1) op.global_op_id ops c.2 m)),
  Consecutive-Distinct ts (g + 1) ops c.2,
)

-- The ids of the complete transactions' operations start where the numbering does.
complete_ops-bounds :
    (ts g id : ℕ) (txns : List Txn)
    → Numbered ts g txns
    → Member id (ids (complete_ops txns))
    → g ≤ id
unfolding complete_ops
complete_ops-bounds ts g id [] n m = absurd m
complete_ops-bounds ts g id (t ∷ txns) n m = elim (Bool-cases (is_complete t.operations)) [
  | inl e ↦
      let m' =
        subst
          (λ b.
            Member id (ids (if b then t.operations ++ complete_ops txns else complete_ops txns)))
          e m in
      elim (Member-append_cases id (ids t.operations) (ids (complete_ops txns))
        (subst (λ l. Member id l) (ids-append t.operations (complete_ops txns)) m')) [
          | inl l ↦ (Consecutive-bounds ts g id t.operations n.1 l).0
          | inr r ↦
              omega (arith, complete_ops-bounds (ts + 1) (g + length t.operations) id txns n.2 r)
        ]
  | inr e ↦
      let m' =
        subst
          (λ b.
            Member id (ids (if b then t.operations ++ complete_ops txns else complete_ops txns)))
          e m in
      omega (arith, complete_ops-bounds (ts + 1) (g + length t.operations) id txns n.2 m')
]

pub Numbered-Distinct :
    (ts g : ℕ) (txns : List Txn) → Numbered ts g txns → Distinct (ids (complete_ops txns))
unfolding complete_ops
Numbered-Distinct ts g [] n = tt
Numbered-Distinct ts g (t ∷ txns) n = elim (Bool-cases (is_complete t.operations)) [
  | inl e ↦ rw e (
      subst Distinct (sym (ids-append t.operations (complete_ops txns))) (
        Distinct-append (ids t.operations) (ids (complete_ops txns))
          (Consecutive-Distinct ts g t.operations n.1)
          (Numbered-Distinct (ts + 1) (g + length t.operations) txns n.2)
          (λ id l r.
            let (low, high) = Consecutive-bounds ts g id t.operations n.1 l in
            omega (arith, complete_ops-bounds (ts + 1) (g + length t.operations) id txns n.2 r))))
  | inr e ↦ rw e (Numbered-Distinct (ts + 1) (g + length t.operations) txns n.2)
]
