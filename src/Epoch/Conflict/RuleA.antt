-- ===== src/Epoch/Conflict/RuleA.antt =====
-- AssignAbort aborts exactly the transactions that Rule A names.
use de_part.Prelude.{
  ℕ, ◌<◌, ◌≡◌, refl, sym, ap, ◌↔◌, ◌⊎◌, inl, inr, Bool, true, List, [], ◌∷◌, Option, none, some,
  arith, Member-add, keep, Member, nat_key, Option-cases, subst,
}
use de_part.Epoch.Types.{Operat, VcKey, vc_key_order, is_read, is_update}
use de_part.Epoch.Conflict.{Chains, max_read_ts, see, judge, abort_writers, abort_chain, vc_abort}

-- An operation of a list that a test accepts.
pub Member-keep_iff :
    {A : Type 0} (p : A → Bool) (a : A) (xs : List A)
    → Member a (keep p xs) ↔ (Member a xs × (p a ≡ true))
Member-keep_iff p a [] = ground arith
Member-keep_iff p a (x ∷ xs) = ground (arith, Member-keep_iff p a xs)

abbrev Exceeds : ℕ → Option ℕ → Type 0
Exceeds n none = ⊥
Exceeds n (some m) = n < m

abbrev ReadAfter : ℕ → List Operat → Type 0
ReadAfter n vc = (r : Operat) × Member r vc × (is_read r.type ≡ true) × (n < r.txn_timestamp_id)

Exceeds-see :
    (n : ℕ) (acc : Option ℕ) (op : Operat)
    → Exceeds n (see acc op)
      ↔ (Exceeds n acc ⊎ ((is_read op.type ≡ true) × (n < op.txn_timestamp_id)))
Exceeds-see n none op = ground arith
Exceeds-see n (some m) op = ground arith

-- The newest read is above `n` exactly when some read is.
max_read_ts_sound :
    (n : ℕ) (vc : List Operat) (acc : Option ℕ)
    → Exceeds n (max_read_ts acc vc)
    → Exceeds n acc ⊎ ReadAfter n vc
unfolding max_read_ts
max_read_ts_sound n [] acc h = inl h
max_read_ts_sound n (op ∷ vc) acc h = elim (max_read_ts_sound n vc (see acc op) h) [
  | inl e ↦ elim ((Exceeds-see n acc op).0 e) [
    | inl old ↦ inl old
    | inr (t, lt) ↦ inr (op, inl refl, t, lt)
  ]
  | inr (r, m, t, lt) ↦ inr (r, inr m, t, lt)
]

max_read_ts-keeps :
    (n : ℕ) (vc : List Operat) (acc : Option ℕ) → Exceeds n acc → Exceeds n (max_read_ts acc vc)
unfolding max_read_ts
max_read_ts-keeps n [] acc h = h
max_read_ts-keeps n (op ∷ vc) acc h =
    max_read_ts-keeps n vc (see acc op) ((Exceeds-see n acc op).1 (inl h))

max_read_ts_complete :
    (n : ℕ) (vc : List Operat) (acc : Option ℕ) → ReadAfter n vc → Exceeds n (max_read_ts acc vc)
unfolding max_read_ts
max_read_ts_complete n [] acc (r, m, t, lt) = absurd m
max_read_ts_complete n (op ∷ vc) acc (r, inl e, t, lt) = max_read_ts-keeps n vc (see acc op) (
    (Exceeds-see n acc op).1
      (inr (subst (λ o. is_read o.type ≡ true) e t, subst (λ o. n < o.txn_timestamp_id) e lt)))
max_read_ts_complete n (op ∷ vc) acc (r, inr m, t, lt) =
    max_read_ts_complete n vc (see acc op) (r, m, t, lt)

abbrev WriteAt : ℕ → List Operat → Type 0
WriteAt n vc = (w : Operat) × Member w vc × (is_update w.type ≡ true) × (w.txn_timestamp_id ≡ n)

Member-judge :
    (n m : ℕ) (op : Operat) (ids : List ℕ)
    → Member n (judge m op ids)
      ↔ (Member n ids ⊎ ((is_update op.type ≡ true) × (op.txn_timestamp_id ≡ n) × (n < m)))
unfolding judge
Member-judge n m op ids = ground (arith, Member-add n op.txn_timestamp_id ids)

abort_writers_sound :
    (n m : ℕ) (vc : List Operat) (ids : List ℕ)
    → Member n (abort_writers m vc ids)
    → Member n ids ⊎ (WriteAt n vc × (n < m))
unfolding abort_writers
abort_writers_sound n m [] ids h = inl h
abort_writers_sound n m (op ∷ vc) ids h = elim (abort_writers_sound n m vc (judge m op ids) h) [
  | inl e ↦ elim ((Member-judge n m op ids).0 e) [
    | inl old ↦ inl old
    | inr (u, t, lt) ↦ inr ((op, inl refl, u, t), lt)
  ]
  | inr ((w, i, u, t), lt) ↦ inr ((w, inr i, u, t), lt)
]

abort_writers-keeps :
    (n m : ℕ) (vc : List Operat) (ids : List ℕ) → Member n ids → Member n (abort_writers m vc ids)
unfolding abort_writers
abort_writers-keeps n m [] ids h = h
abort_writers-keeps n m (op ∷ vc) ids h =
    abort_writers-keeps n m vc (judge m op ids) ((Member-judge n m op ids).1 (inl h))

abort_writers_complete :
    (n m : ℕ) (vc : List Operat) (ids : List ℕ)
    → WriteAt n vc
    → n < m
    → Member n (abort_writers m vc ids)
unfolding abort_writers
abort_writers_complete n m [] ids (w, i, u, t) lt = absurd i
abort_writers_complete n m (op ∷ vc) ids (w, inl e, u, t) lt =
    abort_writers-keeps n m vc (judge m op ids) (
      (Member-judge n m op ids).1 (
        inr
          (subst (λ o. is_update o.type ≡ true) e u, subst (λ o. o.txn_timestamp_id ≡ n) e t, lt)))
abort_writers_complete n m (op ∷ vc) ids (w, inr i, u, t) lt =
    abort_writers_complete n m vc (judge m op ids) (w, i, u, t) lt

-- On one chain: a write that is older than a read.
abbrev pub Late : ℕ → List Operat → Type 0
Late n vc = WriteAt n vc × ReadAfter n vc

abort_chain_iff :
    (n : ℕ) (vc : List Operat) (ids : List ℕ)
    → Member n (abort_chain vc ids) ↔ (Member n ids ⊎ Late n vc)
unfolding abort_chain
abort_chain_iff n vc ids = elim (Option-cases (max_read_ts none vc)) [
  | inl e ↦
      rw (e, abort_chain)
        (
          (λ h. inl h),
          elim [
            | inl h ↦ h
            | inr (w, r) ↦ absurd (subst (Exceeds n) e (max_read_ts_complete n vc none r))
          ],
        )
  | inr (m, e) ↦
      rw (e, abort_chain)
        (
          (λ h. elim (abort_writers_sound n m vc ids h) [
            | inl old ↦ inl old
            | inr (w, lt) ↦ elim (max_read_ts_sound n vc none (subst (Exceeds n) (sym e) lt)) [
              | inl bad ↦ absurd bad
              | inr r ↦ inr (w, r)
            ]
          ]),
          elim [
            | inl h ↦ abort_writers-keeps n m vc ids h
            | inr (w, r) ↦
                abort_writers_complete n m vc ids w
                  (subst (Exceeds n) e (max_read_ts_complete n vc none r))
          ],
        )
]

pub vc_abort_sound :
    (n : ℕ) (chains : Chains) (ids : List ℕ)
    → Member n (vc_abort chains ids)
    → Member n ids ⊎ ((k : VcKey) × (vc : List Operat) × Member (k, vc) chains × Late n vc)
unfolding vc_abort
vc_abort_sound n [] ids h = inl h
vc_abort_sound n ((k, vc) ∷ chains) ids h = elim (vc_abort_sound n chains (abort_chain vc ids) h) [
  | inl e ↦ elim ((abort_chain_iff n vc ids).0 e) [
    | inl old ↦ inl old
    | inr late ↦ inr (k, vc, inl refl, late)
  ]
  | inr (j, vc', m, late) ↦ inr (j, vc', inr m, late)
]

vc_abort-keeps :
    (n : ℕ) (chains : Chains) (ids : List ℕ) → Member n ids → Member n (vc_abort chains ids)
unfolding vc_abort
vc_abort-keeps n [] ids h = h
vc_abort-keeps n ((k, vc) ∷ chains) ids h =
    vc_abort-keeps n chains (abort_chain vc ids) ((abort_chain_iff n vc ids).1 (inl h))

pub vc_abort_complete :
    (n : ℕ) (k : VcKey) (vc : List Operat) (chains : Chains) (ids : List ℕ)
    → Member (k, vc) chains
    → Late n vc
    → Member n (vc_abort chains ids)
unfolding vc_abort
vc_abort_complete n k vc [] ids m late = absurd m
vc_abort_complete n k vc ((j, vc') ∷ chains) ids (inl e) late =
    vc_abort-keeps n chains (abort_chain vc' ids)
      ((abort_chain_iff n vc' ids).1 (inr (subst (Late n) (ap (λ p. p.1) e) late)))
vc_abort_complete n k vc ((j, vc') ∷ chains) ids (inr m) late =
    vc_abort_complete n k vc chains (abort_chain vc' ids) m late
