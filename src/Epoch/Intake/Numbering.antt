-- ===== src/Epoch/Intake/Numbering.antt =====
-- The ids that collect_epoch and collect_sub_epoch give: positions in the epoch.
use de_part.Prelude.{
  ap, ◌∙◌, ℕ, ◌+◌, ◌<◌, ◌≡◌, refl, true, false, List, [], ◌∷◌, ◌++◌, arith, inc32, u32_mod, length,
  length-append,
}
use mathlib.Core.List.{append-nil, append_assoc}
use de_part.Epoch.Types.{Operat, Txn}
use de_part.Epoch.Intake.{
  Intake, push_txn, enqueue, enqueue_all, push_all, number_ops, advance, number_txns, advance_txns,
  advance_ts, collect_epoch, collect_sub_epoch,
}

-- The operations of a list of transactions, in order.
unfoldable pub all_ops : List Txn → List Operat
all_ops [] = []
all_ops (t ∷ ts) = t.operations ++ all_ops ts

inc32-eq : (n : ℕ) → n + 1 < u32_mod → inc32 n ≡ n + 1
inc32-eq n h = omega arith

-- What the ids of a list of operations are, from a first one.
abbrev pub Consecutive : ℕ → ℕ → List Operat → Type 0
Consecutive ts g [] = Unit
Consecutive ts g (op ∷ ops) =
    (op.txn_timestamp_id ≡ ts) × (op.global_op_id ≡ g) × Consecutive ts (g + 1) ops

abbrev pub Numbered : ℕ → ℕ → List Txn → Type 0
Numbered ts g [] = Unit
Numbered ts g (t ∷ txns) =
    (t.timestamp_id ≡ ts)
    × Consecutive ts g t.operations
    × Numbered (ts + 1) (g + length t.operations) txns

number_ops-Consecutive :
    (ts g : ℕ) (ops : List Operat)
    → g + length ops < u32_mod
    → Consecutive ts g (number_ops ts g ops)
      × (length (number_ops ts g ops) ≡ length ops)
      × (advance g ops ≡ g + length ops)
unfolding number_ops advance
number_ops-Consecutive ts g [] h = (tt, refl, omega arith)
number_ops-Consecutive ts g (op ∷ ops) h =
    let e : inc32 g ≡ g + 1 = inc32-eq g (omega arith) in
    let (c, l, a) = number_ops-Consecutive ts (g + 1) ops (omega arith) in
    rw e ((refl, refl, c), omega (arith, l), omega (arith, a))

number_txns-Numbered :
    (ts g : ℕ) (txns : List Txn)
    → ts + length txns < u32_mod
    → g + length (all_ops txns) < u32_mod
    → Numbered ts g (number_txns ts g txns)
      × (advance_ts ts txns ≡ ts + length txns)
      × (advance_txns g txns ≡ g + length (all_ops txns))
unfolding number_txns advance_ts advance_txns all_ops
number_txns-Numbered ts g [] ht hg = (tt, omega arith, omega arith)
number_txns-Numbered ts g (t ∷ txns) ht hg =
    let total = length-append t.operations (all_ops txns) in
    let e : inc32 ts ≡ ts + 1 = inc32-eq ts (omega arith) in
    let (c, l, a) = number_ops-Consecutive ts g t.operations (omega (arith, total)) in
    let (n, p, q) =
      number_txns-Numbered (ts + 1) (g + length t.operations) txns (omega arith)
        (omega (arith, total)) in
    rw (e, a, l) ((refl, c, n), omega (arith, p), omega (arith, q, total))

-- A transaction but for the ids that the epoch assigns.
erase_op : Operat → Operat
erase_op op = record op { txn_timestamp_id = 0; global_op_id = 0 }

erase_ops : List Operat → List Operat
unfolding erase_op
erase_ops [] = []
erase_ops (op ∷ ops) = erase_op op ∷ erase_ops ops

pub erase_ids : List Txn → List Txn
unfolding erase_ops
erase_ids [] = []
erase_ids (t ∷ txns) =
    record t { timestamp_id = 0; operations = erase_ops t.operations } ∷ erase_ids txns

erase_ops-number_ops :
    (ts g : ℕ) (ops : List Operat) → erase_ops (number_ops ts g ops) ≡ erase_ops ops
unfolding erase_ops number_ops
erase_ops-number_ops ts g [] = refl
erase_ops-number_ops ts g (op ∷ ops) = rw (erase_ops-number_ops ts (inc32 g) ops)

erase_ids-number_txns :
    (ts g : ℕ) (txns : List Txn) → erase_ids (number_txns ts g txns) ≡ erase_ids txns
unfolding erase_ids number_txns
erase_ids-number_txns ts g [] = refl
erase_ids-number_txns ts g (t ∷ txns) = ground (
  arith,
  erase_ops-number_ops ts g t.operations,
  erase_ids-number_txns (inc32 ts) (advance g t.operations) txns,
)

push_all_open :
    (arrivals : List Txn) (s : Intake)
    → s.accepting ≡ true
    → push_all arrivals s ≡ record s { incoming_queue = s.incoming_queue ++ arrivals }
unfolding push_all push_txn
push_all_open [] s h = ground (arith, append-nil s.incoming_queue)
push_all_open (t ∷ ts) s h = ground (
  arith,
  push_all_open ts (record s { incoming_queue = s.incoming_queue ++ t ∷ [] }),
  append_assoc s.incoming_queue (t ∷ []) ts,
)

-- While intake is open and the two 32-bit counters do not wrap, a sub-epoch returns what was queued
-- and what arrived, in order and changed in nothing but the ids. Timestamps and operation ids go
-- up by one from where the last sub-epoch stopped, each operation carries its transaction's
-- timestamp, and the queue is left empty and open with the counters behind the last id given.
pub collect_sub_epoch-numbers :
    (arrivals : List Txn) (s : Intake)
    → s.accepting ≡ true
    → s.epoch_next_ts + length (s.incoming_queue ++ arrivals) < u32_mod
    → s.epoch_next_goid + length (all_ops (s.incoming_queue ++ arrivals)) < u32_mod
    → let (txns, s') = collect_sub_epoch arrivals s in
      Numbered s.epoch_next_ts s.epoch_next_goid txns
      × (erase_ids txns ≡ erase_ids (s.incoming_queue ++ arrivals))
      × (s'.incoming_queue ≡ [])
      × (s'.accepting ≡ true)
      × (s'.epoch_next_ts ≡ s.epoch_next_ts + length (s.incoming_queue ++ arrivals))
      × (s'.epoch_next_goid ≡ s.epoch_next_goid + length (all_ops (s.incoming_queue ++ arrivals)))
unfolding collect_sub_epoch
collect_sub_epoch-numbers arrivals s h ht hg =
    let queue = s.incoming_queue ++ arrivals in
    let (n, p, q) = number_txns-Numbered s.epoch_next_ts s.epoch_next_goid queue ht hg in
    rw (push_all_open arrivals s h)
      (n, erase_ids-number_txns s.epoch_next_ts s.epoch_next_goid queue, refl, h, p, q)

enqueue_all_lem :
    (ts : List Txn) (s : Intake)
    → enqueue_all ts s ≡ record s { incoming_queue = s.incoming_queue ++ ts }
unfolding enqueue_all enqueue
enqueue_all_lem [] s = ground (arith, append-nil s.incoming_queue)
enqueue_all_lem (t ∷ ts) s = ground (
  arith,
  enqueue_all_lem ts (record s { incoming_queue = s.incoming_queue ++ t ∷ [] }),
  append_assoc s.incoming_queue (t ∷ []) ts,
)

-- An epoch forgets what was queued before, opens for the wait only, and numbers what arrived from
-- 0 on, if the counters do not wrap; a push after it is refused and changes nothing. Pushes that
-- passed the fence before the epoch closed and reach the queue after it was drained stay in the
-- queue, and the next epoch collects the same as without them: they are lost.
pub collect_epoch-numbers :
    (arrivals : List Txn) (late : Txn) (stragglers next : List Txn) (s : Intake)
    → length arrivals < u32_mod
    → length (all_ops arrivals) < u32_mod
    → let (txns, s') = collect_epoch arrivals s in
      Numbered 0 0 txns
      × (erase_ids txns ≡ erase_ids arrivals)
      × (s'.incoming_queue ≡ [])
      × (push_txn late s' ≡ (s', false))
      × ((enqueue_all stragglers s').incoming_queue ≡ stragglers)
      × (collect_epoch next (enqueue_all stragglers s') ≡ collect_epoch next s')
unfolding collect_epoch push_txn
collect_epoch-numbers arrivals late stragglers next s ht hg =
    let opened : Intake = record s { incoming_queue = []; accepting = true } in
    let (n, p, q) = number_txns-Numbered 0 0 arrivals (omega arith) (omega arith) in
    let drained = (collect_epoch arrivals s).1 in
    let (a, b, c, d) = closed n in
    (
      a,
      b,
      c,
      d,
      ap (λ (x : Intake). x.incoming_queue) (enqueue_all_lem stragglers drained)
          ∙ ap (λ l. l ++ stragglers) c,
      ap (collect_epoch next) (enqueue_all_lem stragglers drained),
    )
  where
    closed :
        Numbered 0 0 (number_txns 0 0 arrivals)
        → let (txns, s') = collect_epoch arrivals s in
          Numbered 0 0 txns
          × (erase_ids txns ≡ erase_ids arrivals)
          × (s'.incoming_queue ≡ [])
          × (push_txn late s' ≡ (s', false))
    closed n =
        rw (push_all_open arrivals (record s { incoming_queue = []; accepting = true }) refl)
          (n, erase_ids-number_txns 0 0 arrivals, refl, refl)
