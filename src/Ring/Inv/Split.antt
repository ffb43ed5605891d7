-- ===== src/Ring/Inv/Split.antt =====
-- The two halves of WriteBucket's choice: the chunks that leave the stash, and their slots.
use de_part.Prelude.{
  ℕ, zero, suc, ◌≤◌, ◌≡◌, refl, ◌⊎◌, inl, inr, Bool, true, false, List, [], ◌∷◌, none, some, arith,
  if◌then◌else◌, ◌==◌, lookup, lookup-insert, keys, Member-keys_iff, nat_key, ◌=?◌, Bytes, length,
  get_or, Member, Distinct, Bool-cases, Option-cases,
}
use de_part.Ring.State.{ChunkKey, chunk_key_order, Env, Config, find_pos}
use de_part.Ring.Bucket.{find_entry, real_slot_ids}
use de_part.Ring.Write.{belongs, split_stash}
use de_part.Ring.Inv.Entries.{find_entry-slot}

real_slot_ids-Member :
    (addrs : List ChunkKey) (ptrs : List ℕ) (slot : ℕ) (k : ChunkKey)
    → lookup slot (real_slot_ids addrs ptrs) ≡ some k
    → Member slot ptrs × Member k addrs
unfolding real_slot_ids lookup
real_slot_ids-Member [] ptrs slot k h = cc
real_slot_ids-Member (a ∷ addrs) [] slot k h = cc
real_slot_ids-Member (a ∷ addrs) (p ∷ ptrs) slot k h = ground (
  arith,
  real_slot_ids-Member addrs ptrs slot k,
  lookup-insert p slot a (real_slot_ids addrs ptrs),
)

real_slot_ids-cons :
    (a : ChunkKey) (addrs : List ChunkKey) (p : ℕ) (ptrs : List ℕ) (slot : ℕ)
    → (¬ Member p ptrs)
    → lookup slot (real_slot_ids (a ∷ addrs) (p ∷ ptrs))
      ≡ (if p == slot then some a else lookup slot (real_slot_ids addrs ptrs))
unfolding real_slot_ids
real_slot_ids-cons a addrs p ptrs slot new =
    elim (Option-cases (lookup p (real_slot_ids addrs ptrs))) [
      | inl e ↦ ground (arith, e, lookup-insert p slot a (real_slot_ids addrs ptrs))
      | inr (k, e) ↦ absurd (new (real_slot_ids-Member addrs ptrs p k e).0)
    ]

-- A valid slot's chunk is the one that find_entry finds there, and the other way round.
pub real_slot_ids-entry :
    (addrs : List ChunkKey) (ptrs : List ℕ) (valids : List Bool) (slot : ℕ) (k : ChunkKey)
    → Distinct addrs
    → Distinct ptrs
    → lookup slot (real_slot_ids addrs ptrs) ≡ some k
    → get_or valids slot false ≡ true
    → find_entry k valids addrs ptrs ≡ some slot
unfolding find_entry
real_slot_ids-entry [] ptrs valids slot k da dp h g =
    absurd (real_slot_ids-Member [] ptrs slot k h).1
real_slot_ids-entry (a ∷ addrs) [] valids slot k da dp h g =
    absurd (real_slot_ids-Member (a ∷ addrs) [] slot k h).0
real_slot_ids-entry (a ∷ addrs) (p ∷ ptrs) valids slot k da dp h g = ground (
  arith,
  real_slot_ids-cons a addrs p ptrs slot dp.0,
  real_slot_ids-Member addrs ptrs slot k,
  real_slot_ids-entry addrs ptrs valids slot k da.1 dp.1,
  chunk_key_order.beq_iff a k,
)

pub find_entry-real_slot_ids :
    (addrs : List ChunkKey) (ptrs : List ℕ) (valids : List Bool) (slot : ℕ) (k : ChunkKey)
    → Distinct ptrs
    → find_entry k valids addrs ptrs ≡ some slot
    → lookup slot (real_slot_ids addrs ptrs) ≡ some k
unfolding find_entry
find_entry-real_slot_ids [] ptrs valids slot k dp h = cc
find_entry-real_slot_ids (a ∷ addrs) [] valids slot k dp h = cc
find_entry-real_slot_ids (a ∷ addrs) (p ∷ ptrs) valids slot k dp h = ground (
  arith,
  real_slot_ids-cons a addrs p ptrs slot dp.0,
  find_entry-slot k valids addrs ptrs slot,
  find_entry-real_slot_ids addrs ptrs valids slot k dp.1,
  chunk_key_order.beq_iff a k,
)

-- With all slots valid and enough of them, each chunk has its entry.
pub find_entry-full :
    (k : ChunkKey) (valids : List Bool) (addrs : List ChunkKey) (ptrs : List ℕ)
    → length addrs ≤ length ptrs
    → ((p : ℕ) → Member p ptrs → get_or valids p false ≡ true)
    → Member k addrs
    → (slot : ℕ) × (find_entry k valids addrs ptrs ≡ some slot)
unfolding find_entry
find_entry-full k valids [] ptrs l h m = absurd m
find_entry-full k valids (a ∷ addrs) [] l h m = absurd (omega arith)
find_entry-full k valids (a ∷ addrs) (p ∷ ptrs) l h m = elim (Bool-cases (a =? k)) [
  | inl e ↦ (p, ground (arith, h p (inl refl)))
  | inr e ↦
      let m' : Member k addrs = ground (arith, chunk_key_order.beq_iff a k) in
      let (slot, f) = find_entry-full k valids addrs ptrs (omega arith) (λ q n. h q (inr n)) m' in
      (slot, ground (arith, f))
]

module _ (env : Env) (config : Config) (i : ℕ) (pos : List (ℕ × List (ℕ × ℕ))) where
  abbrev split : List (ChunkKey × Bytes) → ℕ → List (ChunkKey × Bytes) × List (ChunkKey × Bytes)
  split m room = split_stash env config i pos m room

  pub split_stash-length :
      (m : List (ChunkKey × Bytes)) (room : ℕ)
      → length (split_stash env config i pos m room).0 ≤ room
  unfolding split_stash
  split_stash-length [] room = omega arith
  split_stash-length (e ∷ m) zero = omega arith
  split_stash-length (e ∷ m) (suc room) =
      ground (arith, split_stash-length m room, split_stash-length m (suc room))

  pub split_stash-belongs :
      (m : List (ChunkKey × Bytes)) (room : ℕ) (k : ChunkKey)
      → Member k (keys (split_stash env config i pos m room).0)
      → belongs env config i (find_pos k pos) ≡ true
  unfolding split_stash
  split_stash-belongs [] room k h = absurd h
  split_stash-belongs (e ∷ m) zero k h = absurd h
  split_stash-belongs (e ∷ m) (suc room) k h =
      ground (arith, split_stash-belongs m room k, split_stash-belongs m (suc room) k)

  split_stash-keys :
      (m : List (ChunkKey × Bytes)) (room : ℕ) (k : ChunkKey)
      → (Member k (keys (split_stash env config i pos m room).0) → Member k (keys m))
        × (Member k (keys (split_stash env config i pos m room).1) → Member k (keys m))
  unfolding split_stash
  split_stash-keys [] room k = ((λ h. h), λ h. h)
  split_stash-keys (e ∷ m) zero k = ((λ h. absurd h), λ h. h)
  split_stash-keys (e ∷ m) (suc room) k =
      ground (arith, split_stash-keys m room k, split_stash-keys m (suc room) k)

  pub split_stash-Distinct :
      (m : List (ChunkKey × Bytes)) (room : ℕ)
      → Distinct (keys m)
      → Distinct (keys (split_stash env config i pos m room).0)
        × Distinct (keys (split_stash env config i pos m room).1)
  unfolding split_stash
  split_stash-Distinct [] room d = (tt, tt)
  split_stash-Distinct (e ∷ m) zero d = (tt, d)
  split_stash-Distinct (e ∷ m) (suc room) d = ground (
    arith,
    split_stash-Distinct m room d.1,
    split_stash-Distinct m (suc room) d.1,
    split_stash-keys m room e.0,
    split_stash-keys m (suc room) e.0,
  )

  -- Each entry of the stash is in one of the halves.
  pub split_stash-lookup :
      (m : List (ChunkKey × Bytes)) (room : ℕ) (k : ChunkKey)
      → Distinct (keys m)
      → ((lookup k (split_stash env config i pos m room).0 ≡ lookup k m)
          × (lookup k (split_stash env config i pos m room).1 ≡ none))
        ⊎ ((lookup k (split_stash env config i pos m room).0 ≡ none)
            × (lookup k (split_stash env config i pos m room).1 ≡ lookup k m))
  unfolding split_stash lookup
  split_stash-lookup [] room k d = inl (refl, refl)
  split_stash-lookup (e ∷ m) zero k d = inr (refl, refl)
  split_stash-lookup (e ∷ m) (suc room) k d = ground (
    arith,
    split_stash-lookup m room k d.1,
    split_stash-lookup m (suc room) k d.1,
    chunk_key_order.beq_iff e.0 k,
    Member-keys_iff e.0 m,
  )
