-- ===== src/Batch/Groups.antt =====
-- Grouping by server: each server's group is the places of its elements, in order.
use de_part.Prelude.{
  ℕ, ◌+◌, ◌≡◌, sym, List, [], ◌∷◌, ◌++◌, arith, if◌then◌else◌, ℤ, int_key, ◌=?◌, lookup,
  lookup-insert, keys, insert-Distinct, Distinct, places, refl, inl, inr, Option-cases,
  Member-keys_iff, Member, lookup_of_Member,
}
use mathlib.Core.List.{append_assoc, append-nil}
use de_part.Batch.{Groups, or_none, push_to, group_by}

pub group_of : ℤ → Groups → List ℕ
group_of id m = or_none (lookup id m)

group_of-push_to :
    (id j : ℤ) (i : ℕ) (m : Groups)
    → group_of id (push_to j i m) ≡ (if j =? id then group_of id m ++ i ∷ [] else group_of id m)
unfolding group_of push_to
group_of-push_to id j i m =
    ground (arith, lookup-insert j id (or_none (lookup j m) ++ i ∷ []) m, int_key.beq_iff j id)

module _ {A : Type 0} (server : A → ℤ) where
  pub group_of-group_by :
      (id : ℤ) (i : ℕ) (xs : List A) (m : Groups)
      → group_of id (group_by server i xs m) ≡ group_of id m ++ places (λ x. server x =? id) i xs
  unfolding group_by
  group_of-group_by id i [] m = sym (append-nil _)
  group_of-group_by id i (x ∷ xs) m = ground (
    arith,
    group_of-group_by id (i + 1) xs (push_to (server x) i m),
    group_of-push_to id (server x) i m,
    append_assoc (group_of id m) (i ∷ []) (places (λ y. server y =? id) (i + 1) xs),
  )

  pub group_by-Distinct :
      (i : ℕ) (xs : List A) (m : Groups)
      → Distinct (keys m)
      → Distinct (keys (group_by server i xs m))
  unfolding group_by push_to
  group_by-Distinct i [] m d = d
  group_by-Distinct i (x ∷ xs) m d =
      group_by-Distinct (i + 1) xs (push_to (server x) i m) (insert-Distinct (server x) _ m d)

pub group_of-absent :
    (id : ℤ) (groups : Groups) → (¬ Member id (keys groups)) → group_of id groups ≡ []
unfolding group_of
group_of-absent id groups h = elim (Option-cases (lookup id groups)) [
  | inl e ↦ rw e refl
  | inr (l, e) ↦ absurd (h ((Member-keys_iff id groups).1 (λ missing. cc)))
]

pub group_of-cons :
    (id j : ℤ) (slots : List ℕ) (groups : Groups)
    → group_of id ((j, slots) ∷ groups) ≡ (if j =? id then slots else group_of id groups)
unfolding group_of lookup
group_of-cons id j slots groups = ground (arith, int_key.beq_iff j id)

pub group_of-entry :
    (id : ℤ) (slots : List ℕ) (groups : Groups)
    → Distinct (keys groups)
    → Member (id, slots) groups
    → slots ≡ group_of id groups
unfolding group_of
group_of-entry id slots groups d m = rw (lookup_of_Member id slots groups d m) refl
