-- ===== src/Epoch/Dedup/Inputs.antt =====
-- What AssignAbort leaves in the version chains is what Dedup takes for granted.
use de_part.Prelude.{
  ◌≡◌, refl, sym, ap, subst, inl, inr, Bool, true, false, List, [], ◌∷◌, ℕ, if◌then◌else◌,
  insert-Distinct, keys, Member, Distinct,
}
use de_part.Epoch.Types.{Operat, Txn, VcKey, vc_key, vc_key_order}
use de_part.Epoch.Conflict.{
  Chains, push_back, vc_construct, is_complete, remove_aborted, drop_empty, vc_dedup, admit,
  assign_abort, vc_abort,
}
use de_part.Epoch.Conflict.Verdict.{assign_abort-chain}
use de_part.Epoch.Dedup.Serial.{OnKey}
use de_part.Epoch.Dedup.Plan.{Keyed}

vc_construct-Distinct :
    (ops : List Operat) (chains : Chains)
    → Distinct (keys chains)
    → Distinct (keys (vc_construct ops chains))
unfolding vc_construct push_back
vc_construct-Distinct [] chains d = d
vc_construct-Distinct (op ∷ ops) chains d =
    vc_construct-Distinct ops _ (insert-Distinct (vc_key op) _ chains d)

admit-Distinct :
    (txns : List Txn) (chains : Chains)
    → Distinct (keys chains)
    → Distinct (keys (admit txns chains).1)
unfolding admit
admit-Distinct [] chains d = d
admit-Distinct (t ∷ txns) chains d =
    admit-Distinct txns
      (if is_complete t.operations then vc_construct t.operations chains else chains)
      (either (is_complete t.operations))
  where
    either : (b : Bool) → Distinct (keys (if b then vc_construct t.operations chains else chains))
    either true = vc_construct-Distinct t.operations chains d
    either false = d

keys-remove_aborted :
    (ids : List ℕ) (chains : Chains) → keys (remove_aborted ids chains) ≡ keys chains
unfolding remove_aborted
keys-remove_aborted ids [] = refl
keys-remove_aborted ids ((k, vc) ∷ chains) = ap (λ ks. k ∷ ks) (keys-remove_aborted ids chains)

keys-drop_empty :
    (k : VcKey) (chains : Chains) → Member k (keys (drop_empty chains)) → Member k (keys chains)
unfolding drop_empty
keys-drop_empty k [] m = m
keys-drop_empty k ((j, []) ∷ chains) m = inr (keys-drop_empty k chains m)
keys-drop_empty k ((j, op ∷ vc) ∷ chains) (inl e) = inl e
keys-drop_empty k ((j, op ∷ vc) ∷ chains) (inr m) = inr (keys-drop_empty k chains m)

drop_empty-Distinct :
    (chains : Chains) → Distinct (keys chains) → Distinct (keys (drop_empty chains))
unfolding drop_empty
drop_empty-Distinct [] d = d
drop_empty-Distinct ((j, []) ∷ chains) d = drop_empty-Distinct chains d.1
drop_empty-Distinct ((j, op ∷ vc) ∷ chains) d =
    ((λ m. d.0 (keys-drop_empty j chains m)), drop_empty-Distinct chains d.1)

OnKey-of :
    (k : VcKey) (vc : List Operat) → ((op : Operat) → Member op vc → vc_key op ≡ k) → OnKey k vc
OnKey-of k [] h = tt
OnKey-of k (op ∷ vc) h = (h op (inl refl), OnKey-of k vc (λ o m. h o (inr m)))

Keyed-of :
    (chains : Chains)
    → ((k : VcKey) (vc : List Operat) (op : Operat)
        → Member (k, vc) chains
        → Member op vc
        → vc_key op ≡ k)
    → Keyed chains
Keyed-of [] h = tt
Keyed-of ((k, vc) ∷ chains) h = (
  OnKey-of k vc (λ op m. h k vc op (inl refl) m),
  Keyed-of chains (λ j vc' op m n. h j vc' op (inr m) n),
)

-- Whatever the transactions are, the chains that AssignAbort leaves stand under distinct keys, and each
-- holds only operations on its key.
pub assign_abort-Keyed :
    (txns : List Txn) → Keyed (assign_abort txns).1 × Distinct (keys (assign_abort txns).1)
unfolding assign_abort vc_dedup
assign_abort-Keyed txns = (
  Keyed-of (assign_abort txns).1 (λ k vc op m n. (((assign_abort-chain txns k vc m).1 op).0 n).1),
  (let chains = (admit txns []).1 in
      drop_empty-Distinct (remove_aborted (vc_abort chains []) chains) (
        subst Distinct (sym (keys-remove_aborted (vc_abort chains []) chains))
          (admit-Distinct txns [] tt))),
)
