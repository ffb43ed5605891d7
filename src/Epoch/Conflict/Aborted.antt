-- ===== src/Epoch/Conflict/Aborted.antt =====
-- The timestamps that AssignAbort aborts, and the chains without them.
use de_part.Prelude.{
  ℕ, ◌<◌, ◌≡◌, refl, sym, ap, subst, ◌∙◌, ◌↔◌, inl, inr, ◌≢◌, Bool, true, false, not, List, [], ◌∷◌,
  arith, contains, contains_iff, Member, ◌=?◌, nat_key,
}
use de_part.Epoch.Types.{Operat, Txn, VcKey, vc_key, vc_key_order, is_read, is_update}
use de_part.Epoch.Conflict.{Chains, vc_abort, live_ops, remove_aborted, drop_empty, admit}
use de_part.Epoch.Conflict.Chains.{complete_ops, on_key, admit-entry, admit-entry_of_op}
use de_part.Epoch.Conflict.RuleA.{Member-keep_iff, Late, vc_abort_sound, vc_abort_complete}

-- Among the complete transactions, one with timestamp `n` updates a key that a later one reads.
abbrev pub TooLate : List Txn → ℕ → Type 0
TooLate txns n =
    (w : Operat) × (r : Operat) × Member w (complete_ops txns)
    × Member r (complete_ops txns)
    × (vc_key w ≡ vc_key r)
    × (is_update w.type ≡ true)
    × (w.txn_timestamp_id ≡ n)
    × (is_read r.type ≡ true)
    × (n < r.txn_timestamp_id)

abbrev pub aborted_ids : List Txn → List ℕ
aborted_ids txns = vc_abort (admit txns []).1 []

pub Member-on_key :
    (k : VcKey) (op : Operat) (ops : List Operat)
    → Member op (on_key k ops) ↔ (Member op ops × (vc_key op ≡ k))
Member-on_key k op ops =
    ground (arith, Member-keep_iff (λ o. vc_key o =? k) op ops, vc_key_order.beq_iff (vc_key op) k)

Late-TooLate :
    (txns : List Txn) (k : VcKey) (n : ℕ) → Late n (on_key k (complete_ops txns)) → TooLate txns n
Late-TooLate txns k n ((w, mw, u, t), (r, mr, rd, lt)) =
    let (mw', kw) = (Member-on_key k w (complete_ops txns)).0 mw in
    let (mr', kr) = (Member-on_key k r (complete_ops txns)).0 mr in
    (w, r, mw', mr', kw ∙ sym kr, u, t, rd, lt)

TooLate-Late :
    (txns : List Txn) (n : ℕ) → TooLate txns n → (k : VcKey) × Late n (on_key k (complete_ops txns))
TooLate-Late txns n (w, r, mw, mr, e, u, t, rd, lt) = (
  vc_key r,
  (
    (w, (Member-on_key (vc_key r) w (complete_ops txns)).1 (mw, e), u, t),
    (r, (Member-on_key (vc_key r) r (complete_ops txns)).1 (mr, refl), rd, lt),
  ),
)

aborted_sound : (txns : List Txn) (n : ℕ) → Member n (aborted_ids txns) → TooLate txns n
aborted_sound txns n h = elim (vc_abort_sound n (admit txns []).1 [] h) [
  | inl bad ↦ absurd bad
  | inr (k, vc, m, late) ↦ Late-TooLate txns k n (subst (Late n) (admit-entry txns k vc m) late)
]

pub nonempty_of_Member : {A : Type 0} (a : A) (xs : List A) → Member a xs → xs ≢ []
nonempty_of_Member a [] m e = m
nonempty_of_Member a (x ∷ xs) m e = cc

aborted_complete : (txns : List Txn) (n : ℕ) → TooLate txns n → Member n (aborted_ids txns)
aborted_complete txns n h =
    let (k, late) = TooLate-Late txns n h in
    let (w, mw, u, t) = late.0 in
    vc_abort_complete n k (on_key k (complete_ops txns)) (admit txns []).1 []
      (admit-entry_of_op txns k (nonempty_of_Member w (on_key k (complete_ops txns)) mw)) late

pub contains-aborted_iff :
    (txns : List Txn) (n : ℕ) → (contains (aborted_ids txns) n ≡ true) ↔ TooLate txns n
contains-aborted_iff txns n = (
  (λ h. aborted_sound txns n ((contains_iff (aborted_ids txns) n).0 h)),
  (λ h. (contains_iff (aborted_ids txns) n).1 (aborted_complete txns n h)),
)

pub Member-live_ops :
    (txns : List Txn) (op : Operat) (vc : List Operat)
    → Member op (live_ops (aborted_ids txns) vc)
      ↔ (Member op vc × (¬ TooLate txns op.txn_timestamp_id))
unfolding live_ops
Member-live_ops txns op vc =
    let ids = aborted_ids txns in
    let kept = Member-keep_iff (λ (o : Operat). not (contains ids o.txn_timestamp_id)) op vc in
    let late = contains-aborted_iff txns op.txn_timestamp_id in
    (
      (λ m. ((kept.0 m).0, λ l. clash (contains ids op.txn_timestamp_id) (late.1 l) (kept.0 m).1)),
      (λ e. kept.1 (e.0, fine (contains ids op.txn_timestamp_id) (λ c. e.1 (late.0 c)))),
    )
  where
    clash : (b : Bool) → b ≡ true → not b ≡ true → ⊥
    clash b e f = ground arith

    fine : (b : Bool) → (¬ (b ≡ true)) → not b ≡ true
    fine true h = absurd (h refl)
    fine false h = refl

pub Member-drop_empty :
    (k : VcKey) (vc : List Operat) (chains : Chains)
    → Member (k, vc) (drop_empty chains) ↔ (Member (k, vc) chains × (vc ≢ []))
unfolding drop_empty
Member-drop_empty k vc [] = ground arith
Member-drop_empty k vc ((j, []) ∷ chains) = ground (arith, Member-drop_empty k vc chains)
Member-drop_empty k vc ((j, op ∷ ops) ∷ chains) = ground (arith, Member-drop_empty k vc chains)

pub remove_aborted-entry :
    (ids : List ℕ) (k : VcKey) (vc : List Operat) (chains : Chains)
    → Member (k, vc) (remove_aborted ids chains)
    → (old : List Operat) × Member (k, old) chains × (vc ≡ live_ops ids old)
unfolding remove_aborted
remove_aborted-entry ids k vc [] m = absurd m
remove_aborted-entry ids k vc ((j, old) ∷ chains) (inl e) =
    (old, inl (ap (λ p. (p.0, old)) e), ap (λ p. p.1) e)
remove_aborted-entry ids k vc ((j, old) ∷ chains) (inr m) =
    let (o, m', e) = remove_aborted-entry ids k vc chains m in (o, inr m', e)

pub remove_aborted-of_entry :
    (ids : List ℕ) (k : VcKey) (old : List Operat) (chains : Chains)
    → Member (k, old) chains
    → Member (k, live_ops ids old) (remove_aborted ids chains)
unfolding remove_aborted
remove_aborted-of_entry ids k old [] m = m
remove_aborted-of_entry ids k old ((j, vc) ∷ chains) (inl e) =
    inl (ap (λ p. (p.0, live_ops ids p.1)) e)
remove_aborted-of_entry ids k old ((j, vc) ∷ chains) (inr m) =
    inr (remove_aborted-of_entry ids k old chains m)
