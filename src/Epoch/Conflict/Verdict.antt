-- ===== src/Epoch/Conflict/Verdict.antt =====
-- What AssignAbort decides for each transaction, and what it leaves in the version chains.
use de_part.Prelude.{
  ℕ, zero, suc, ◌≡◌, refl, sym, ap, subst, ◌∙◌, ◌↔◌, ◌≢◌, Bool, true, false, List, [], ◌∷◌, some,
  arith, if◌then◌else◌, contains, Member, nat_key, get_elem?,
}
use de_part.Epoch.Types.{Operat, Txn, VcKey, vc_key, vc_key_order}
use de_part.Epoch.Conflict.{
  Chains, is_complete, live_ops, remove_aborted, vc_dedup, admit, mark_aborted, assign_abort,
}
use de_part.Epoch.Conflict.Chains.{complete_ops, on_key, admit-entry, admit-entry_of_op}
use de_part.Epoch.Conflict.Aborted.{
  TooLate, aborted_ids, Member-on_key, contains-aborted_iff, nonempty_of_Member, Member-live_ops,
  Member-drop_empty, remove_aborted-entry, remove_aborted-of_entry,
}

-- The verdict on one transaction, in terms of the set of aborted timestamps.
verdict :
    (ids : List ℕ) (txns : List Txn) (chains : Chains) (i : ℕ) (t : Txn)
    → get_elem? txns i ≡ some t
    → get_elem? (mark_aborted ids (admit txns chains).0) i
      ≡ some (record t {
        is_committed =
            if is_complete t.operations
            then (if contains ids t.timestamp_id then false else t.is_committed)
            else false;
      })
unfolding mark_aborted admit
verdict ids [] chains i t h = cc
verdict ids (x ∷ txns) chains zero t h = ground arith
verdict ids (x ∷ txns) chains (suc i) t h = verdict ids txns _ i t h

-- AssignAbort keeps each transaction in its place, and leaves it committed exactly if it came in
-- committed, ends with an operation that is marked as the last one, and updates no key that a
-- complete transaction with a later timestamp reads; an insert of such a key aborts nothing.
pub assign_abort-commits :
    (txns : List Txn) (i : ℕ) (t : Txn)
    → get_elem? txns i ≡ some t
    → (t' : Txn) × (get_elem? (assign_abort txns).0 i ≡ some t')
      × (t'.operations ≡ t.operations)
      × (t'.timestamp_id ≡ t.timestamp_id)
      × ((t'.is_committed ≡ true) ↔ (
          (t.is_committed ≡ true)
          × (is_complete t.operations ≡ true)
          × (¬ TooLate txns t.timestamp_id)))
unfolding assign_abort
assign_abort-commits txns i t h = (
  record t {
    is_committed =
        if is_complete t.operations
        then (if contains (aborted_ids txns) t.timestamp_id then false else t.is_committed)
        else false;
  },
  verdict (aborted_ids txns) txns [] i t h,
  refl,
  refl,
  (
    (λ e. (
      ground arith,
      ground arith,
      λ late. refused ((contains-aborted_iff txns t.timestamp_id).1 late) e,
    )),
    (λ e. settled e.0 e.1 (λ c. e.2 ((contains-aborted_iff txns t.timestamp_id).0 c))),
  ),
)
  where
    outcome : Bool
    outcome =
        if is_complete t.operations
        then (if contains (aborted_ids txns) t.timestamp_id then false else t.is_committed)
        else false

    refused : contains (aborted_ids txns) t.timestamp_id ≡ true → outcome ≡ true → ⊥
    refused c e = ground arith

    settled :
        t.is_committed ≡ true
        → is_complete t.operations ≡ true
        → (¬ (contains (aborted_ids txns) t.timestamp_id ≡ true))
        → outcome ≡ true
    settled a b c = ground arith

-- The entry of a key, as a list.
pub assign_abort-entry :
    (txns : List Txn) (k : VcKey) (vc : List Operat)
    → Member (k, vc) (assign_abort txns).1
    → (vc ≡ live_ops (aborted_ids txns) (on_key k (complete_ops txns))) × (vc ≢ [])
unfolding assign_abort vc_dedup
assign_abort-entry txns k vc m =
    let ids = aborted_ids txns in
    let (m', full) = (Member-drop_empty k vc (remove_aborted ids (admit txns []).1)).0 m in
    let (old, mo, e) = remove_aborted-entry ids k vc (admit txns []).1 m' in
    (e ∙ ap (live_ops ids) (admit-entry txns k old mo), full)

-- The chains that AssignAbort leaves are not empty; the chain of a key holds exactly the
-- operations on that key of complete transactions that were not too late, which only an update,
-- and no insert, can make them.
pub assign_abort-chain :
    (txns : List Txn) (k : VcKey) (vc : List Operat)
    → Member (k, vc) (assign_abort txns).1
    → (vc ≢ [])
      × ((op : Operat)
          → Member op vc ↔ (
              Member op (complete_ops txns)
              × (vc_key op ≡ k)
              × (¬ TooLate txns op.txn_timestamp_id)))
assign_abort-chain txns k vc m =
    let (same, full) = assign_abort-entry txns k vc m in
    (full, λ op. subst (λ v. Member op v ↔ Survives op) (sym same) (survivors op))
  where
    Survives : Operat → Type 0
    Survives op =
        Member op (complete_ops txns) × (vc_key op ≡ k) × (¬ TooLate txns op.txn_timestamp_id)

    survivors :
        (op : Operat)
        → Member op (live_ops (aborted_ids txns) (on_key k (complete_ops txns))) ↔ Survives op
    survivors op =
        let live = Member-live_ops txns op (on_key k (complete_ops txns)) in
        let keyed = Member-on_key k op (complete_ops txns) in
        (
          (λ h. ((keyed.0 (live.0 h).0).0, (keyed.0 (live.0 h).0).1, (live.0 h).1)),
          (λ h. live.1 (keyed.1 (h.0, h.1), h.2)),
        )

-- Each operation of a complete transaction whose timestamp is not that of an update below a later
-- read of the same key is in the chain that AssignAbort leaves for its key.
pub assign_abort-covers :
    (txns : List Txn) (op : Operat)
    → Member op (complete_ops txns)
    → (¬ TooLate txns op.txn_timestamp_id)
    → (vc : List Operat) × Member (vc_key op, vc) (assign_abort txns).1 × Member op vc
unfolding assign_abort vc_dedup
assign_abort-covers txns op m fine =
    let ids = aborted_ids txns in
    let k = vc_key op in
    let old = on_key k (complete_ops txns) in
    let here : Member op old = (Member-on_key k op (complete_ops txns)).1 (m, refl) in
    let left : Member op (live_ops ids old) = (Member-live_ops txns op old).1 (here, fine) in
    (
      live_ops ids old,
      (Member-drop_empty k (live_ops ids old) (remove_aborted ids (admit txns []).1)).1 (
        remove_aborted-of_entry ids k old (admit txns []).1
            (admit-entry_of_op txns k (nonempty_of_Member op old here)),
        nonempty_of_Member op (live_ops ids old) left,
      ),
      left,
    )
