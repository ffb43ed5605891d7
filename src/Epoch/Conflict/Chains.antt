-- ===== src/Epoch/Conflict/Chains.antt =====
-- The chain of a key holds the operations on that key of the complete transactions, in order.
use de_part.Prelude.{
  ◌≡◌, sym, ◌≢◌, List, [], ◌∷◌, ◌++◌, some, arith, if◌then◌else◌, lookup, lookup-insert, keys,
  insert-Distinct, lookup_of_Member, keep, keep-append, Distinct, Member, Member-of_lookup, ◌=?◌,
}
use mathlib.Core.List.{append_assoc, append-nil}
use de_part.Epoch.Types.{Operat, Txn, VcKey, vc_key, vc_key_order}
use de_part.Epoch.Conflict.{Chains, or_empty, push_back, vc_construct, is_complete, admit}

-- The operations of the complete transactions, in the order in which they arrived.
unfoldable pub complete_ops : List Txn → List Operat
unfolding is_complete
complete_ops [] = []
complete_ops (t ∷ ts) =
    let rest = complete_ops ts in if is_complete t.operations then t.operations ++ rest else rest

abbrev pub on_key : VcKey → List Operat → List Operat
on_key k = keep (λ op. vc_key op =? k)

chain_of : Chains → VcKey → List Operat
chain_of chains k = or_empty (lookup k chains)

chain_of-push_back :
    (op : Operat) (chains : Chains) (k : VcKey)
    → chain_of (push_back op chains) k
      ≡ (if vc_key op =? k then chain_of chains k ++ op ∷ [] else chain_of chains k)
unfolding chain_of push_back
chain_of-push_back op chains k = ground (
  arith,
  lookup-insert (vc_key op) k (or_empty (lookup (vc_key op) chains) ++ op ∷ []) chains,
  vc_key_order.beq_iff (vc_key op) k,
)

chain_of-construct :
    (ops : List Operat) (chains : Chains) (k : VcKey)
    → chain_of (vc_construct ops chains) k ≡ chain_of chains k ++ on_key k ops
unfolding vc_construct
chain_of-construct [] chains k = sym (append-nil _)
chain_of-construct (op ∷ ops) chains k = ground (
  arith,
  chain_of-construct ops (push_back op chains) k,
  chain_of-push_back op chains k,
  append_assoc (chain_of chains k) (op ∷ []) (on_key k ops),
)

construct-Distinct :
    (ops : List Operat) (chains : Chains)
    → Distinct (keys chains)
    → Distinct (keys (vc_construct ops chains))
unfolding vc_construct push_back
construct-Distinct [] chains d = d
construct-Distinct (op ∷ ops) chains d =
    construct-Distinct ops (push_back op chains) (insert-Distinct (vc_key op) _ chains d)

chain_of-admit :
    (ts : List Txn) (chains : Chains) (k : VcKey)
    → chain_of (admit ts chains).1 k ≡ chain_of chains k ++ on_key k (complete_ops ts)
unfolding admit complete_ops
chain_of-admit [] chains k = sym (append-nil _)
chain_of-admit (t ∷ ts) chains k = ground (
  arith,
  chain_of-admit ts chains k,
  chain_of-admit ts (vc_construct t.operations chains) k,
  chain_of-construct t.operations chains k,
  append_assoc (chain_of chains k) (on_key k t.operations) (on_key k (complete_ops ts)),
  keep-append (λ (op : Operat). vc_key op =? k) t.operations (complete_ops ts),
)

admit-Distinct :
    (ts : List Txn) (chains : Chains) → Distinct (keys chains) → Distinct (keys (admit ts chains).1)
unfolding admit
admit-Distinct [] chains d = d
admit-Distinct (t ∷ ts) chains d = ground (
  arith,
  admit-Distinct ts chains d,
  admit-Distinct ts (vc_construct t.operations chains),
  construct-Distinct t.operations chains d,
)

-- Each entry of the map is the chain of its key.
pub admit-entry :
    (ts : List Txn) (k : VcKey) (vc : List Operat)
    → Member (k, vc) (admit ts []).1
    → vc ≡ on_key k (complete_ops ts)
unfolding chain_of lookup
admit-entry ts k vc m = ground (
  arith,
  lookup_of_Member k vc (admit ts []).1 (admit-Distinct ts [] tt) m,
  chain_of-admit ts [] k,
)

-- A key with an operation has an entry.
pub admit-entry_of_op :
    (ts : List Txn) (k : VcKey)
    → on_key k (complete_ops ts) ≢ []
    → Member (k, on_key k (complete_ops ts)) (admit ts []).1
unfolding chain_of lookup
admit-entry_of_op ts k h = Member-of_lookup k (on_key k (complete_ops ts)) (admit ts []).1 found
  where
    found : lookup k (admit ts []).1 ≡ some (on_key k (complete_ops ts))
    found = ground (arith, chain_of-admit ts [] k)
