-- ===== src/Epoch/SubEpochs/Writes.antt =====
-- The end of an epoch sends the last committed write of every key, and no other write.
use mathlib.Core.List.{append_assoc, append-nil}
use de_part.Prelude.{
  ℕ, ◌≡◌, refl, sym, ap, subst, ◌∙◌, ◌≢◌, ◌⊎◌, inl, inr, Bool, true, ◌&&◌, List, [], ◌∷◌, ◌++◌,
  Option, none, some, arith, ==_iff, if◌then◌else◌, lookup, lookup-insert, insert, nat_key, ◌=?◌,
  keep, keep-append, Member, Distinct, Bool-cases,
}
use de_part.Epoch.Types.{Operat, Txn, VcKey, vc_key, vc_key_order, is_write}
use de_part.Epoch.Dedup.{DedupPlan, new_plan}
use de_part.Epoch.Dedup.Serial.{ids}
use de_part.Epoch.Dedup.LastWrite.{latest}
use de_part.Epoch.Dedup.Writes.{writes_on}
use de_part.Epoch.SubEpochs.{
  last_writes_ops, last_writes, is_last, end_op, end_ops, end_txns, dedup_writes_at_end,
}

-- The operations of the committed transactions, in order.
abbrev pub committed_ops : List Txn → List Operat
committed_ops [] = []
committed_ops (t ∷ txns) =
    if t.is_committed then t.operations ++ committed_ops txns else committed_ops txns

last_writes_ops-append :
    (xs ys : List Operat) (m : List (VcKey × ℕ))
    → last_writes_ops (xs ++ ys) m ≡ last_writes_ops ys (last_writes_ops xs m)
unfolding last_writes_ops
last_writes_ops-append [] ys m = refl
last_writes_ops-append (op ∷ xs) ys m =
    last_writes_ops-append xs ys
      (if is_write op.type then insert (vc_key op) op.global_op_id m else m)

last_writes-committed :
    (txns : List Txn) (m : List (VcKey × ℕ))
    → last_writes txns m ≡ last_writes_ops (committed_ops txns) m
unfolding last_writes last_writes_ops
last_writes-committed [] m = refl
last_writes-committed (t ∷ txns) m = ground (
  arith,
  last_writes-committed txns (last_writes_ops t.operations m),
  last_writes-committed txns m,
  last_writes_ops-append t.operations (committed_ops txns) m,
)

end_ops-append :
    (last : List (VcKey × ℕ)) (xs ys : List Operat) (plan : DedupPlan)
    → end_ops last (xs ++ ys) plan ≡ end_ops last ys (end_ops last xs plan)
unfolding end_ops
end_ops-append last [] ys plan = refl
end_ops-append last (op ∷ xs) ys plan =
    end_ops-append last xs ys (if is_write op.type then end_op last op plan else plan)

end_txns-committed :
    (last : List (VcKey × ℕ)) (txns : List Txn) (plan : DedupPlan)
    → end_txns last txns plan ≡ end_ops last (committed_ops txns) plan
unfolding end_txns end_ops
end_txns-committed last [] plan = refl
end_txns-committed last (t ∷ txns) plan = ground (
  arith,
  end_txns-committed last txns (end_ops last t.operations plan),
  end_txns-committed last txns plan,
  end_ops-append last t.operations (committed_ops txns) plan,
)

module _ (k : VcKey) where
  -- Whether an operation writes the key.
  abbrev hits : Operat → Bool
  hits op = is_write op.type && (vc_key op =? k)

  last_id : List Operat → Option ℕ → Option ℕ
  last_id [] acc = acc
  last_id (op ∷ ops) acc = last_id ops (if hits op then some op.global_op_id else acc)

  lookup-last_writes_ops :
      (ops : List Operat) (m : List (VcKey × ℕ))
      → lookup k (last_writes_ops ops m) ≡ last_id ops (lookup k m)
  unfolding last_writes_ops last_id
  lookup-last_writes_ops [] m = refl
  lookup-last_writes_ops (op ∷ ops) m = ground (
    arith,
    lookup-last_writes_ops ops (insert (vc_key op) op.global_op_id m),
    lookup-last_writes_ops ops m,
    lookup-insert (vc_key op) k op.global_op_id m,
  )

  abbrev picked : Option ℕ → List Operat → List Operat
  picked last = keep (λ op. hits op && is_last last op.global_op_id)

  writes_on-end_op :
      (last : List (VcKey × ℕ)) (op : Operat) (plan : DedupPlan)
      → is_write op.type ≡ true
      → writes_on k (end_op last op plan).oram_bound_ops
        ≡ writes_on k plan.oram_bound_ops
          ++ (if hits op && is_last (lookup k last) op.global_op_id then op ∷ [] else [])
  unfolding end_op
  writes_on-end_op last op plan w = elim (Bool-cases (vc_key op =? k)) [
    | inl b ↦
        let same : vc_key op ≡ k = (vc_key_order.beq_iff (vc_key op) k).0 b in
        ground (
          arith,
          ap (λ j. lookup j last) same,
          keep-append hits plan.oram_bound_ops (op ∷ []),
          append-nil (writes_on k plan.oram_bound_ops),
        )
    | inr b ↦ ground (
      arith,
      keep-append hits plan.oram_bound_ops (op ∷ []),
      append-nil (writes_on k plan.oram_bound_ops),
    )
  ]

  writes_on-end_ops :
      (last : List (VcKey × ℕ)) (ops : List Operat) (plan : DedupPlan)
      → writes_on k (end_ops last ops plan).oram_bound_ops
        ≡ writes_on k plan.oram_bound_ops ++ picked (lookup k last) ops
  unfolding end_ops
  writes_on-end_ops last [] plan = sym (append-nil (writes_on k plan.oram_bound_ops))
  writes_on-end_ops last (op ∷ ops) plan = elim (Bool-cases (is_write op.type)) [
    | inl w ↦ ground (
      arith,
      writes_on-end_ops last ops (end_op last op plan),
      writes_on-end_op last op plan w,
      append_assoc (writes_on k plan.oram_bound_ops) (op ∷ []) (picked (lookup k last) ops),
      append-nil (writes_on k plan.oram_bound_ops),
    )
    | inr r ↦ ground (arith, writes_on-end_ops last ops plan)
  ]

  -- No write on the key follows, or the last one is found.
  abbrev Quiet : Option ℕ → List Operat → Type 0
  Quiet acc ops =
      (last_id ops acc ≡ acc)
      × ((l : Option ℕ) → picked l ops ≡ [])
      × ((b : List Operat) → latest (writes_on k ops) b ≡ b)

  abbrev Last : Option ℕ → List Operat → Type 0
  Last acc ops =
      (l : ℕ) × (last_id ops acc ≡ some l)
      × Member l (ids ops)
      × ((b : List Operat) → picked (some l) ops ≡ latest (writes_on k ops) b)

  last_id_lem :
      (ops : List Operat) (acc : Option ℕ) → Distinct (ids ops) → Quiet acc ops ⊎ Last acc ops
  unfolding last_id latest
  last_id_lem [] acc d = inl (refl, (λ l. refl), λ b. refl)
  last_id_lem (op ∷ ops) acc (new, d) = elim (Bool-cases (hits op)) [
    | inr h ↦ elim (last_id_lem ops acc d) [
      | inl (a, c, e) ↦
          inl (ground (arith, h, a), (λ l. ground (arith, h, c l)), λ b. ground (arith, h, e b))
      | inr (l, a, m, e) ↦ inr (l, ground (arith, h, a), inr m, λ b. ground (arith, h, e b))
    ]
    | inl h ↦ elim (last_id_lem ops (some op.global_op_id) d) [
      | inl (a, c, e) ↦ inr (
        op.global_op_id,
        ground (arith, h, a),
        inl refl,
        λ b. ground (
          arith,
          h,
          c (some op.global_op_id),
          e (op ∷ []),
          ==_iff op.global_op_id op.global_op_id,
        ),
      )
      | inr (l, a, m, e) ↦
          let apart : l ≢ op.global_op_id = λ f. new (subst (λ x. Member x (ids ops)) f m) in
          inr (
            l,
            ground (arith, h, a),
            inr m,
            λ b. ground (arith, h, e (op ∷ []), ==_iff l op.global_op_id, apart),
          )
    ]
  ]

  picked-latest :
      (ops : List Operat)
      → Distinct (ids ops)
      → picked (last_id ops none) ops ≡ latest (writes_on k ops) []
  picked-latest ops d = elim (last_id_lem ops none d) [
    | inl (a, c, e) ↦ c (last_id ops none) ∙ sym (e [])
    | inr (l, a, m, e) ↦ ap (λ x. picked x ops) a ∙ e []
  ]

  -- If the operation ids of the committed transactions are distinct, the writes on a key that are sent
  -- at the end of an epoch are the last write on it among the committed transactions, alone, or
  -- none if none of them writes the key.
  pub dedup_writes_at_end-latest :
      (txns : List Txn)
      → Distinct (ids (committed_ops txns))
      → writes_on k (dedup_writes_at_end txns).oram_bound_ops
        ≡ latest (writes_on k (committed_ops txns)) []
  unfolding dedup_writes_at_end lookup
  dedup_writes_at_end-latest txns d =
      let ops = committed_ops txns in
      let last = last_writes txns [] in
      let known : lookup k last ≡ last_id ops none =
        ap (lookup k) (last_writes-committed txns []) ∙ lookup-last_writes_ops ops [] in
      ap (λ (p : DedupPlan). writes_on k p.oram_bound_ops) (end_txns-committed last txns new_plan)
      ∙ writes_on-end_ops last ops new_plan
      ∙ ap (λ l. picked l ops) known
      ∙ picked-latest ops d
