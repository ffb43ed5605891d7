-- ===== src/Dispatch/Slots.antt =====
-- The slots of one server's batches, and the answers that are placed at them.
use de_part.Prelude.{
  ℕ, ◌<◌, ◌≡◌, refl, sym, ap, subst, ◌∙◌, inl, inr, true, false, not, List, [], ◌∷◌, arith, map,
  ◌==◌, ==_iff, if◌then◌else◌, Bool-cases, int_key, Bytes, length, get_or, set, get_or-set_self,
  get_or-set_ne, keep, Member, length-set,
}
use de_part.Epoch.Types.{Operat}
use de_part.Batch.{slot_dummy}
use de_part.Batch.Order.{is_real}
use de_part.Dispatch.{place_results}
use de_part.Dispatch.Child.{Answers, answer}

length-put :
    (s : ℕ) (r : Bytes) (out : List Bytes)
    → length (if s == slot_dummy then out else set out s r) ≡ length out
length-put s r out = ground (arith, length-set out s r)

pub length-place : (m : List ℕ) (rs out : List Bytes) → length (place_results m rs out) ≡ length out
unfolding place_results
length-place [] rs out = refl
length-place (s ∷ m) [] out = refl
length-place (s ∷ m) (r ∷ rs) out = length-place m rs _ ∙ length-put s r out

-- Placing answers.
module _ (f : ℕ → Operat) (h : ℕ → Bytes) (slot : ℕ) (real : is_real slot ≡ true)
    (wanted : (f slot).is_dummy ≡ false) where
  put_here :
      (s : ℕ) (r : Bytes) (out : List Bytes)
      → slot < length out
      → ((f s).is_dummy ≡ false → r ≡ answer h (f s))
      → slot ≡ s
      → get_or (set out s r) slot [] ≡ answer h (f slot)
  put_here s r out l a now =
      subst (λ k. get_or (set out k r) slot [] ≡ answer h (f slot)) now
        (get_or-set_self out slot r [] l
          ∙ a (subst (λ k. (f k).is_dummy ≡ false) now wanted)
          ∙ ap (λ k. answer h (f k)) (sym now))

  place-keeps :
      (m : List ℕ) (rs out : List Bytes)
      → Answers h (map f m) rs
      → slot < length out
      → get_or out slot [] ≡ answer h (f slot)
      → get_or (place_results m rs out) slot [] ≡ answer h (f slot)
  unfolding place_results
  place-keeps [] [] out a l e = e
  place-keeps [] (r ∷ rs) out a l e = e
  place-keeps (s ∷ m) [] out a l e = e
  place-keeps (s ∷ m) (r ∷ rs) out a l e = elim (Bool-cases (s == slot_dummy)) [
    | inl d ↦ rw d (place-keeps m rs out a.1 l e)
    | inr d ↦ rw d (
        place-keeps m rs (set out s r) a.1 (subst (λ n. slot < n) (sym (length-set out s r)) l)
          (elim (Bool-cases (slot == s)) [
            | inl same ↦ put_here s r out l a.0 ((==_iff slot s).0 same)
            | inr other ↦
                get_or-set_ne out s slot r [] (λ now. cc ((==_iff slot s).1 (sym now))) ∙ e
          ]))
  ]

  pub place-gets :
      (m : List ℕ) (rs out : List Bytes)
      → Answers h (map f m) rs
      → slot < length out
      → Member slot m
      → get_or (place_results m rs out) slot [] ≡ answer h (f slot)
  unfolding place_results
  place-gets [] rs out a l mem = absurd mem
  place-gets (s ∷ m) [] out a l mem = absurd a
  place-gets (s ∷ m) (r ∷ rs) out a l (inl e) = rw (shown) (
      place-keeps m rs (set out s r) a.1 (subst (λ n. slot < n) (sym (length-set out s r)) l)
        (put_here s r out l a.0 e))
    where
      shown : (s == slot_dummy) ≡ false
      shown = subst (λ k. (k == slot_dummy) ≡ false) e (ground (arith, real))
  place-gets (s ∷ m) (r ∷ rs) out a l (inr mem) =
      place-gets m rs (if s == slot_dummy then out else set out s r) a.1
        (subst (λ n. slot < n) (sym (length-put s r out)) l) mem

-- Other slots keep what they hold.
pub place-others :
    (slot : ℕ) (m : List ℕ) (rs out : List Bytes)
    → (¬ Member slot (keep is_real m))
    → get_or (place_results m rs out) slot [] ≡ get_or out slot []
unfolding place_results
place-others slot [] rs out h = refl
place-others slot (s ∷ m) [] out h = refl
place-others slot (s ∷ m) (r ∷ rs) out h = elim (Bool-cases (s == slot_dummy)) [
  | inl d ↦ rw d (
      place-others slot m rs out
        (subst (λ b. ¬ Member slot (if not b then s ∷ keep is_real m else keep is_real m)) d h))
  | inr d ↦
      let h' =
        subst (λ b. ¬ Member slot (if not b then s ∷ keep is_real m else keep is_real m)) d h in
      rw d (
        place-others slot m rs (set out s r) (λ n. h' (inr n))
        ∙ get_or-set_ne out s slot r [] (λ e. h' (inl (sym e))))
]
