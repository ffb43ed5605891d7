-- ===== src/Epoch/Intake.antt =====
-- src/Queries_Receiving.cpp: the queue that clients push to, and the numbering of what an epoch or
-- a sub-epoch drains from it. The clients' pushes during a wait are an argument, in queue order.
pub mod Numbering
use de_part.Prelude.{
  ℕ, ◌+◌, ◌%◌, ◌≤◌, ◌<◌, ◌≡◌, Bool, true, false, List, [], ◌∷◌, ◌++◌, arith, inc32, length,
  if◌then◌else◌, Bytes, ℤ,
}
use de_part.Epoch.Types.{Operat, Txn, VcKey}

-- The file's globals and the fields of QueriesReceiving.
pub record Intake : Type 0 where
  pub incoming_queue : List Txn
  pub accepting : Bool
  pub version_chain_vector : List (VcKey × List Operat)
  pub epoch_next_ts : ℕ
  pub epoch_next_goid : ℕ

-- The second half of push_txn, under the lock. `accepting` is not looked at again, so that it can
-- run after the flag has been taken back and the queue drained.
pub enqueue : Txn → Intake → Intake
enqueue t s = record s { incoming_queue = s.incoming_queue ++ t ∷ [] }

pub push_txn : Txn → Intake → Intake × Bool
unfolding enqueue
push_txn t s = if s.accepting then (enqueue t s, true) else (s, false)

-- The pushes that passed the fence before the flag was taken back and reach the queue later.
pub enqueue_all : List Txn → Intake → Intake
unfolding enqueue
enqueue_all [] s = s
enqueue_all (t ∷ ts) s = enqueue_all ts (enqueue t s)

-- The pushes that reach the queue while the collector sleeps.
pub push_all : List Txn → Intake → Intake
unfolding push_txn
push_all [] s = s
push_all (t ∷ ts) s = push_all ts (push_txn t s).0

-- `for (auto& op : operations) { op.txn_timestamp_id = ts; op.global_op_id = goid++; }`
pub number_ops : ℕ → ℕ → List Operat → List Operat
number_ops ts goid [] = []
number_ops ts goid (op ∷ ops) =
    record op { txn_timestamp_id = ts; global_op_id = goid } ∷ number_ops ts (inc32 goid) ops

pub advance : ℕ → List Operat → ℕ
advance goid [] = goid
advance goid (op ∷ ops) = advance (inc32 goid) ops

pub number_txns : ℕ → ℕ → List Txn → List Txn
unfolding number_ops advance
number_txns ts goid [] = []
number_txns ts goid (t ∷ ts') =
    record t { timestamp_id = ts; operations = number_ops ts goid t.operations }
    ∷ number_txns (inc32 ts) (advance goid t.operations) ts'

pub advance_txns : ℕ → List Txn → ℕ
unfolding advance
advance_txns goid [] = goid
advance_txns goid (t ∷ ts) = advance_txns (advance goid t.operations) ts

pub advance_ts : ℕ → List Txn → ℕ
advance_ts n [] = n
advance_ts n (t ∷ ts) = advance_ts (inc32 n) ts

-- Clear and open, wait, close, take the queue, number it from 0.
unfoldable pub collect_epoch : List Txn → Intake → List Txn × Intake
unfolding push_all number_txns
collect_epoch arrivals s =
    let opened = record s { incoming_queue = []; accepting = true } in
    let waited = push_all arrivals opened in
    let closed = record waited { accepting = false } in
    (number_txns 0 0 closed.incoming_queue, record closed { incoming_queue = [] })

unfoldable pub start_epoch : Intake → Intake
start_epoch s = record s {
  incoming_queue = [];
  accepting = true;
  epoch_next_ts = 0;
  epoch_next_goid = 0;
  version_chain_vector = [];
}

-- Wait, take the queue, and number it from where the last sub-epoch ended.
unfoldable pub collect_sub_epoch : List Txn → Intake → List Txn × Intake
unfolding push_all number_txns advance_txns advance_ts
collect_sub_epoch arrivals s =
    let waited = push_all arrivals s in
    let drained = waited.incoming_queue in
    (
      number_txns waited.epoch_next_ts waited.epoch_next_goid drained,
      record waited {
        incoming_queue = [];
        epoch_next_ts = advance_ts waited.epoch_next_ts drained;
        epoch_next_goid = advance_txns waited.epoch_next_goid drained;
      },
    )

unfoldable pub end_intake : Intake → Intake
end_intake s = record s { accepting = false }
