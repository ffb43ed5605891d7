-- ===== src/Epoch/Conflict.antt =====
-- src/Queries_Receiving.cpp: version chains and the MVSTO Rule A (VCConstruct, VCAbort, VCDedup,
-- AssignAbort). What AssignAbort prints is left out: its counters reach nothing else.
pub mod Chains
pub mod RuleA
pub mod Aborted
pub mod Verdict
use de_part.Prelude.{
  ℕ, ◌≡◌, Bool, true, false, not, ◌&&◌, List, [], ◌∷◌, ◌++◌, Option, none, some, ltb, if◌then◌else◌,
  lookup, insert, contains, add, keep, nat_key,
}
use de_part.Epoch.Types.{Operat, Txn, VcKey, vc_key, vc_key_order, is_read, is_update}

abbrev pub Chains : Type 0
Chains = List (VcKey × List Operat)

abbrev pub or_empty : Option (List Operat) → List Operat
or_empty none = []
or_empty (some vc) = vc

-- `version_chain_vector[vc_key].push_back(op)`
unfoldable pub push_back : Operat → Chains → Chains
unfolding lookup insert
push_back op chains = insert (vc_key op) (or_empty (lookup (vc_key op) chains) ++ op ∷ []) chains

unfoldable pub vc_construct : List Operat → Chains → Chains
unfolding push_back
vc_construct [] chains = chains
vc_construct (op ∷ ops) chains = vc_construct ops (push_back op chains)

-- The running `max_read_ts`; `none` is `!has_read`.
abbrev raise_max : Option ℕ → ℕ → Option ℕ
raise_max none ts = some ts
raise_max (some m) ts = if ltb m ts then some ts else some m

abbrev pub see : Option ℕ → Operat → Option ℕ
see acc op = if is_read op.type then raise_max acc op.txn_timestamp_id else acc

pub max_read_ts : Option ℕ → List Operat → Option ℕ
max_read_ts acc [] = acc
max_read_ts acc (op ∷ vc) = max_read_ts (see acc op) vc

-- The second step on one chain: every UPDATE below the newest read is aborted.
pub judge : ℕ → Operat → List ℕ → List ℕ
unfolding add contains
judge m op ids =
    if is_update op.type && ltb op.txn_timestamp_id m then add op.txn_timestamp_id ids else ids

pub abort_writers : ℕ → List Operat → List ℕ → List ℕ
unfolding judge
abort_writers m [] ids = ids
abort_writers m (op ∷ vc) ids = abort_writers m vc (judge m op ids)

pub abort_chain : List Operat → List ℕ → List ℕ
unfolding max_read_ts abort_writers
abort_chain vc ids = elim (max_read_ts none vc) [ none ↦ ids | some m ↦ abort_writers m vc ids ]

pub vc_abort : Chains → List ℕ → List ℕ
unfolding abort_chain
vc_abort [] ids = ids
vc_abort ((k, vc) ∷ chains) ids = vc_abort chains (abort_chain vc ids)

-- `remove_if` on one chain
unfoldable pub live_ops : List ℕ → List Operat → List Operat
unfolding contains
live_ops ids = keep (λ op. not (contains ids op.txn_timestamp_id))

abbrev is_empty : List Operat → Bool
is_empty [] = true
is_empty (op ∷ vc) = false

unfoldable pub remove_aborted : List ℕ → Chains → Chains
unfolding live_ops
remove_aborted ids [] = []
remove_aborted ids ((k, vc) ∷ chains) = (k, live_ops ids vc) ∷ remove_aborted ids chains

unfoldable pub drop_empty : Chains → Chains
drop_empty [] = []
drop_empty ((k, vc) ∷ chains) =
    let rest = drop_empty chains in if is_empty vc then rest else (k, vc) ∷ rest

unfoldable pub vc_dedup : List ℕ → Chains → Chains
unfolding remove_aborted drop_empty
vc_dedup ids chains = drop_empty (remove_aborted ids chains)

-- `!operations.empty() && operations.back().last_one`
unfoldable pub is_complete : List Operat → Bool
is_complete [] = false
is_complete (op ∷ []) = op.last_one
is_complete (op ∷ op' ∷ ops) = is_complete (op' ∷ ops)

-- Case 1: an incomplete transaction is refused, and only a complete one enters the chains.
unfoldable pub admit : List Txn → Chains → List Txn × Chains
unfolding is_complete vc_construct
admit [] chains = ([], chains)
admit (t ∷ ts) chains =
    let (ts', chains') =
      admit ts (if is_complete t.operations then vc_construct t.operations chains else chains) in
    ((if is_complete t.operations then t else record t { is_committed = false }) ∷ ts', chains')

pub mark_aborted : List ℕ → List Txn → List Txn
unfolding contains
mark_aborted ids [] = []
mark_aborted ids (t ∷ ts) =
    (if contains ids t.timestamp_id then record t { is_committed = false } else t)
    ∷ mark_aborted ids ts

-- The transactions with their verdicts, and the chains that are left in the object.
unfoldable pub assign_abort : List Txn → List Txn × Chains
unfolding admit vc_abort mark_aborted vc_dedup
assign_abort received =
    let (admitted, chains) = admit received [] in
    let ids = vc_abort chains [] in (mark_aborted ids admitted, vc_dedup ids chains)
