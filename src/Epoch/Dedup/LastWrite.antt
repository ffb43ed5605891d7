-- ===== src/Epoch/Dedup/LastWrite.antt =====
-- The first pass of Dedup finds the last write of a chain whose operation ids go up.
use de_part.Prelude.{
  ℕ, ◌+◌, ◌≤◌, ◌<◌, ◌≡◌, refl, sym, subst, ◌∙◌, ◌⊎◌, inl, inr, true, false, ◌&&◌, List, [], ◌∷◌,
  Option, none, some, arith, ◌==◌, if◌then◌else◌, keep, Bool-cases,
}
use de_part.Epoch.Types.{Operat, vc_key_order, is_write}
use de_part.Epoch.Dedup.{newer, last_update, last_update_op_id}

-- The last write of a chain, alone, or what there was before.
unfoldable pub latest : List Operat → List Operat → List Operat
latest [] acc = acc
latest (op ∷ vc) acc = latest vc (if is_write op.type then op ∷ [] else acc)

-- The ids of a chain go up, above a first bound.
abbrev pub Rising : ℕ → List Operat → Type 0
Rising g [] = Unit
Rising g (op ∷ vc) = (g ≤ op.global_op_id) × Rising (op.global_op_id + 1) vc

abbrev pub chosen : ℕ → List Operat → List Operat
chosen last = keep (λ op. is_write op.type && (op.global_op_id == last))

abbrev Under : ℕ → Option (ℕ × ℕ) → Type 0
Under g none = Unit
Under g (some (ts, id)) = id < g

newer-Under :
    (op : Operat) (acc : Option (ℕ × ℕ))
    → Under op.global_op_id acc
    → newer op acc ≡ some (op.txn_timestamp_id, op.global_op_id)
newer-Under op none h = refl
newer-Under op (some (ts, id)) h = ground arith

Under-mono : (g h : ℕ) (acc : Option (ℕ × ℕ)) → g ≤ h → Under g acc → Under h acc
Under-mono g h none le u = tt
Under-mono g h (some (ts, id)) le u = omega arith

-- No write in the chain, or the last one is found.
abbrev Idle : List Operat → Type 0
Idle vc = ((l : ℕ) → chosen l vc ≡ []) × ((b : List Operat) → latest vc b ≡ b)

abbrev Found : ℕ → List Operat → Type 0
Found l vc = (b : List Operat) → chosen l vc ≡ latest vc b

Idle-read : (op : Operat) (vc : List Operat) → is_write op.type ≡ false → Idle vc → Idle (op ∷ vc)
unfolding latest
Idle-read op vc r (c, l) = ((λ last. ground (arith, c last)), λ b. ground (arith, l b))

Found-read :
    (l : ℕ) (op : Operat) (vc : List Operat)
    → is_write op.type ≡ false
    → Found l vc
    → Found l (op ∷ vc)
unfolding latest
Found-read l op vc r f = λ b. ground (arith, f b)

Found-here :
    (op : Operat) (vc : List Operat)
    → is_write op.type ≡ true
    → Idle vc
    → Found op.global_op_id (op ∷ vc)
unfolding latest
Found-here op vc w (c, l) = λ b. ground (arith, c op.global_op_id, l (op ∷ []))

Found-later :
    (l : ℕ) (op : Operat) (vc : List Operat) → op.global_op_id < l → Found l vc → Found l (op ∷ vc)
unfolding latest
Found-later l op vc lt f = λ b. ground (arith, f (op ∷ []), f b)

-- The first pass finds the last write: the second one sends that and no other.
abbrev Summary : ℕ → Option (ℕ × ℕ) → Option (ℕ × ℕ) → List Operat → Type 0
Summary g acc last vc =
    ((last ≡ acc) × Idle vc) ⊎ ((g ≤ last_update_op_id last) × Found (last_update_op_id last) vc)

Summary-write :
    (op : Operat) (vc : List Operat) (g : ℕ) (acc last : Option (ℕ × ℕ))
    → g ≤ op.global_op_id
    → is_write op.type ≡ true
    → Summary (op.global_op_id + 1) (some (op.txn_timestamp_id, op.global_op_id)) last vc
    → Summary g acc last (op ∷ vc)
Summary-write op vc g acc last le w (inl (e, idle)) =
    subst (λ l. Summary g acc l (op ∷ vc)) (sym e) (inr (le, Found-here op vc w idle))
Summary-write op vc g acc last le w (inr (l, f)) =
    inr (omega arith, Found-later (last_update_op_id last) op vc (omega arith) f)

last_update-latest :
    (vc : List Operat) (g : ℕ) (acc : Option (ℕ × ℕ))
    → Rising g vc
    → Under g acc
    → Summary g acc (last_update acc vc) vc
unfolding last_update latest
last_update-latest [] g acc r u = inl (refl, ((λ l. refl), λ b. refl))
last_update-latest (op ∷ vc) g acc (le, r) u = elim (Bool-cases (is_write op.type)) [
  | inl w ↦
      let found = some (op.txn_timestamp_id, op.global_op_id) in
      let chosen_now : (if is_write op.type then newer op acc else acc) ≡ found =
        rw w (newer-Under op acc (Under-mono g op.global_op_id acc le u)) in
      subst (λ a. Summary g acc (last_update a vc) (op ∷ vc)) (sym chosen_now)
        (Summary-write op vc g acc (last_update found vc) le w
          (last_update-latest vc (op.global_op_id + 1) found r (omega arith)))
  | inr n ↦
      let skipped : (if is_write op.type then newer op acc else acc) ≡ acc = rw n in
      subst (λ a. Summary g acc (last_update a vc) (op ∷ vc)) (sym skipped)
        (elim (last_update-latest vc (op.global_op_id + 1) acc r
          (Under-mono g (op.global_op_id + 1) acc (omega arith) u)) [
            | inl (e, idle) ↦ inl (e, Idle-read op vc n idle)
            | inr (l, f) ↦ inr (omega arith, Found-read _ op vc n f)
          ])
]

pub chosen-latest :
    (vc : List Operat)
    → Rising 0 vc
    → chosen (last_update_op_id (last_update none vc)) vc ≡ latest vc []
chosen-latest vc r = elim (last_update-latest vc 0 none r tt) [
  | inl (e, (c, l)) ↦ c _ ∙ sym (l [])
  | inr (le, f) ↦ f []
]
