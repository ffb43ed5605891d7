-- ===== src/Prelude/Places.antt =====
-- The places at which a test holds: what is there, and that nothing is missed.
use Prim.Native.Nat.{ℕ, zero, suc, ◌+◌}
use mathlib.Core.Path.{◌≡◌, refl, subst}
use mathlib.Core.Logic.{inl, inr}
use mathlib.Core.Bool.{Bool, true}
use mathlib.Core.Option.{some}
use mathlib.Core.List.{List, [], ◌∷◌}
use native.Mathlib.Omega.{arith}
use de_part.Prelude.Tests.{if◌then◌else◌, Bool-cases}
use de_part.Prelude.Lists.{All, Member, get_elem?}
use de_part.Prelude.Sorting.{places}

module _ {A : Type 0} where
  pub places-All_at :
      (P : ℕ → Type 0) (p : A → Bool) (i : ℕ) (xs : List A)
      → ((j : ℕ) (x : A) → get_elem? xs j ≡ some x → p x ≡ true → P (i + j))
      → All P (places p i xs)
  places-All_at P p i [] h = tt
  places-All_at P p i (x ∷ xs) h =
      let later =
        places-All_at P p (i + 1) xs (λ j y f q. subst P (omega arith) (h (suc j) y f q)) in
      elim (Bool-cases (p x)) [
        | inl e ↦ rw e (subst P (omega arith) (h 0 x refl e), later)
        | inr e ↦ rw e later
      ]

  pub Member-places :
      (p : A → Bool) (i k : ℕ) (xs : List A)
      → Member k (places p i xs)
      → (j : ℕ) × (x : A) × (k ≡ i + j) × (get_elem? xs j ≡ some x) × (p x ≡ true)
  Member-places p i k [] m = absurd m
  Member-places p i k (x ∷ xs) m = elim (Bool-cases (p x)) [
    | inl e ↦
        kept e
          (subst (λ b. Member k (if b then i ∷ places p (i + 1) xs else places p (i + 1) xs)) e m)
          (Member-places p (i + 1) k xs)
    | inr e ↦ shift (
        Member-places p (i + 1) k xs
          (subst (λ b. Member k (if b then i ∷ places p (i + 1) xs else places p (i + 1) xs)) e m))
  ]
    where
      shift :
          (j : ℕ) × (y : A) × (k ≡ (i + 1) + j) × (get_elem? xs j ≡ some y) × (p y ≡ true)
          → (j : ℕ) × (y : A) × (k ≡ i + j) × (get_elem? (x ∷ xs) j ≡ some y) × (p y ≡ true)
      shift (j, y, e, f, q) = (suc j, y, omega arith, f, q)

      kept :
          p x ≡ true
          → Member k (i ∷ places p (i + 1) xs)
          → (Member k (places p (i + 1) xs)
              → (j : ℕ) × (y : A) × (k ≡ (i + 1) + j) × (get_elem? xs j ≡ some y) × (p y ≡ true))
          → (j : ℕ) × (y : A) × (k ≡ i + j) × (get_elem? (x ∷ xs) j ≡ some y) × (p y ≡ true)
      kept e (inl f) rec = (0, x, omega arith, refl, e)
      kept e (inr n) rec = shift (rec n)

  pub Member-of_places :
      (p : A → Bool) (i j : ℕ) (xs : List A) (x : A)
      → get_elem? xs j ≡ some x
      → p x ≡ true
      → Member (i + j) (places p i xs)
  Member-of_places p i j [] x e q = cc
  Member-of_places p i zero (y ∷ xs) x e q = ground arith
  Member-of_places p i (suc j) (y ∷ xs) x e q =
      let later : Member (i + suc j) (places p (i + 1) xs) =
        subst (λ k. Member k (places p (i + 1) xs)) (omega arith)
          (Member-of_places p (i + 1) j xs x e q) in
      elim (Bool-cases (p y)) [ inl f ↦ rw f (inr later) | inr f ↦ rw f later ]
