-- ===== src/Ring/Inv/Entries.antt =====
-- One bucket's entries: what find_entry, the map of real slots and an invalidation see of them.
use de_part.Prelude.{
  ℕ, zero, suc, ◌+◌, ◌≤◌, ◌<◌, ◌≡◌, refl, sym, ap, subst, ◌∙◌, ◌≢◌, inl, inr, Bool, true, false,
  not, ◌&&◌, List, [], ◌∷◌, none, some, arith, ◌==◌, contains, contains_iff, nat_key, ◌=?◌, length,
  get_or, set, get_or-set_ne, Member, Distinct, Bool-cases, range_from, range_from-Distinct,
  length-keep_less, keep_agree, Member-keep, Member-range_from,
}
use de_part.Ring.State.{ChunkKey, chunk_key_order}
use de_part.Ring.Bucket.{find_entry, dummy_slots}

-- An entry's slot is one of the real slots, and valid.
pub find_entry-slot :
    (k : ChunkKey) (valids : List Bool) (addrs : List ChunkKey) (ptrs : List ℕ) (slot : ℕ)
    → find_entry k valids addrs ptrs ≡ some slot
    → Member slot ptrs × Member k addrs × (get_or valids slot false ≡ true)
unfolding find_entry
find_entry-slot k valids [] ptrs slot h = cc
find_entry-slot k valids (a ∷ addrs) [] slot h = cc
find_entry-slot k valids (a ∷ addrs) (p ∷ ptrs) slot h =
    ground (arith, find_entry-slot k valids addrs ptrs slot, chunk_key_order.beq_iff a k)

-- Only the validity of the real slots matters.
find_entry_agree :
    (k : ChunkKey) (v w : List Bool) (addrs : List ChunkKey) (ptrs : List ℕ)
    → ((p : ℕ) → Member p ptrs → get_or w p false ≡ get_or v p false)
    → find_entry k w addrs ptrs ≡ find_entry k v addrs ptrs
unfolding find_entry
find_entry_agree k v w [] ptrs h = refl
find_entry_agree k v w (a ∷ addrs) [] h = refl
find_entry_agree k v w (a ∷ addrs) (p ∷ ptrs) h =
    ground (arith, h p (inl refl), find_entry_agree k v w addrs ptrs (λ q m. h q (inr m)))

find_entry-absent :
    (k : ChunkKey) (valids : List Bool) (addrs : List ChunkKey) (ptrs : List ℕ)
    → (¬ Member k addrs)
    → find_entry k valids addrs ptrs ≡ none
unfolding find_entry
find_entry-absent k valids [] ptrs h = refl
find_entry-absent k valids (a ∷ addrs) [] h = refl
find_entry-absent k valids (a ∷ addrs) (p ∷ ptrs) h = ground (
  arith,
  find_entry-absent k valids addrs ptrs (λ m. h (inr m)),
  chunk_key_order.beq_iff a k,
  λ (e : k ≡ a). h (inl e),
)

get_or-set-false :
    (valids : List Bool) (slot : ℕ) → get_or (set valids slot false) slot false ≡ false
get_or-set-false [] slot = refl
get_or-set-false (v ∷ valids) zero = refl
get_or-set-false (v ∷ valids) (suc slot) = get_or-set-false valids slot

-- Taking an entry's slot out of use removes that entry, …
pub find_entry-invalid_self :
    (k : ChunkKey) (valids : List Bool) (addrs : List ChunkKey) (ptrs : List ℕ) (slot : ℕ)
    → Distinct addrs
    → find_entry k valids addrs ptrs ≡ some slot
    → find_entry k (set valids slot false) addrs ptrs ≡ none
unfolding find_entry
find_entry-invalid_self k valids [] ptrs slot da h = cc
find_entry-invalid_self k valids (a ∷ addrs) [] slot da h = cc
find_entry-invalid_self k valids (a ∷ addrs) (p ∷ ptrs) slot da h = ground (
  arith,
  chunk_key_order.beq_iff a k,
  get_or-set-false valids slot,
  find_entry-slot k valids addrs ptrs slot,
  find_entry-absent k (set valids slot false) addrs ptrs,
  find_entry-invalid_self k valids addrs ptrs slot da.1,
)

-- … and no other one.
pub find_entry-invalid_ne :
    (k j : ChunkKey) (valids : List Bool) (addrs : List ChunkKey) (ptrs : List ℕ) (slot : ℕ)
    → Distinct ptrs
    → j ≢ k
    → find_entry k valids addrs ptrs ≡ some slot
    → find_entry j (set valids slot false) addrs ptrs ≡ find_entry j valids addrs ptrs
unfolding find_entry
find_entry-invalid_ne k j valids [] ptrs slot d ne h = cc
find_entry-invalid_ne k j valids (a ∷ addrs) [] slot d ne h = cc
find_entry-invalid_ne k j valids (a ∷ addrs) (p ∷ ptrs) slot d ne h =
    elim (Bool-cases ((a =? k) && get_or valids p false)) [
      | inl here ↦
          let e : p ≡ slot = ground arith in
          ground (
            arith,
            chunk_key_order.beq_iff a k,
            chunk_key_order.beq_iff a j,
            find_entry_agree j valids (set valids slot false) addrs ptrs (λ q m.
                get_or-set_ne valids slot q false false
                  (λ f. d.0 (subst (λ r. Member r ptrs) (sym f ∙ sym e) m))),
          )
      | inr later ↦
          let h' : find_entry k valids addrs ptrs ≡ some slot = ground arith in
          let m = (find_entry-slot k valids addrs ptrs slot h').0 in
          ground (
            arith,
            find_entry-invalid_ne k j valids addrs ptrs slot d.1 ne h',
            get_or-set_ne valids slot p false false (λ f. d.0 (subst (λ r. Member r ptrs) f m)),
          )
    ]

-- A slot that is not a real one is no entry's.
pub find_entry-invalid_dummy :
    (j : ChunkKey) (valids : List Bool) (addrs : List ChunkKey) (ptrs : List ℕ) (slot : ℕ)
    → (¬ Member slot ptrs)
    → find_entry j (set valids slot false) addrs ptrs ≡ find_entry j valids addrs ptrs
find_entry-invalid_dummy j valids addrs ptrs slot h =
    find_entry_agree j valids (set valids slot false) addrs ptrs (λ q m.
      get_or-set_ne valids slot q false false (λ e. h (subst (λ r. Member r ptrs) (sym e) m)))

-- A read takes at most one dummy out of use.
pub dummy_slots-invalid :
    (size : ℕ) (ptrs : List ℕ) (valids : List Bool) (slot : ℕ)
    → length (dummy_slots size ptrs valids)
      ≤ length (dummy_slots size ptrs (set valids slot false)) + 1
unfolding dummy_slots
dummy_slots-invalid size ptrs valids slot =
    length-keep_less _ _ slot (range_from size 0) (range_from-Distinct size 0) (λ x ne.
      ap (λ v. not (contains ptrs x) && v)
        (get_or-set_ne valids slot x false false (λ e. ne (sym e))))

-- A real slot is none.
pub dummy_slots-invalid_real :
    (size : ℕ) (ptrs : List ℕ) (valids : List Bool) (slot : ℕ)
    → Member slot ptrs
    → dummy_slots size ptrs (set valids slot false) ≡ dummy_slots size ptrs valids
unfolding dummy_slots
dummy_slots-invalid_real size ptrs valids slot m =
    keep_agree _ _ (range_from size 0) (λ x _. same x)
  where
    same :
        (x : ℕ)
        → (not (contains ptrs x) && get_or (set valids slot false) x false)
          ≡ (not (contains ptrs x) && get_or valids x false)
    same x = elim (Bool-cases (slot == x)) [
      | inl e ↦ ground (arith, contains_iff ptrs slot)
      | inr e ↦
          ap (λ v. not (contains ptrs x) && v)
            (get_or-set_ne valids slot x false false (ground arith))
    ]

pub dummy_slots-Member :
    (size : ℕ) (ptrs : List ℕ) (valids : List Bool) (slot : ℕ)
    → Member slot (dummy_slots size ptrs valids)
    → (slot < size) × (¬ Member slot ptrs)
unfolding dummy_slots
dummy_slots-Member size ptrs valids slot m =
    let (i, e) = Member-keep _ slot (range_from size 0) m in
    (
      (omega (arith, Member-range_from size 0 slot i)),
      (λ r. clash (contains ptrs slot) ((contains_iff ptrs slot).1 r) e),
    )
  where
    clash : (b : Bool) → b ≡ true → (not b && get_or valids slot false) ≡ true → ⊥
    clash b e f = ground arith
