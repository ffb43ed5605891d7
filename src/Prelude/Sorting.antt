-- ===== src/Prelude/Sorting.antt =====
-- std::stable_sort, as an insertion sort: equals keep their order. And the places at which a test
-- holds in a list.
use Prim.Native.Nat.{ℕ, suc, ◌+◌}
use mathlib.Core.Path.{◌≡◌, refl, ap, ◌∙◌}
use mathlib.Core.Bool.{Bool, true, false, not, ◌&&◌}
use mathlib.Core.Option.{some}
use mathlib.Core.List.{List, [], ◌∷◌, ◌++◌, Perm}
use mathlib.Core.List.Perm
use mathlib.Core.Logic.{inl, inr}
use native.Mathlib.Omega.{arith}
use de_part.Prelude.Tests.{if◌then◌else◌, ltb, Bool-cases}
use de_part.Prelude.Lists.{keep, All, get_elem?}

module _ {ℓ} {A : Type ℓ} (before : A → A → Bool) where
  unfoldable pub insert_sorted : A → List A → List A
  insert_sorted x [] = x ∷ []
  insert_sorted x (y ∷ ys) =
      let rest = insert_sorted x ys in if before y x then y ∷ rest else x ∷ y ∷ ys

  unfoldable pub stable_sort : List A → List A
  unfolding insert_sorted
  stable_sort [] = []
  stable_sort (x ∷ xs) = insert_sorted x (stable_sort xs)

  insert_sorted-All :
      (P : A → Type 0) (x : A) (ys : List A) → P x → All P ys → All P (insert_sorted x ys)
  unfolding insert_sorted
  insert_sorted-All P x [] p h = (p, tt)
  insert_sorted-All P x (y ∷ ys) p h = elim (Bool-cases (before y x)) [
    | inl e ↦ rw e (h.0, insert_sorted-All P x ys p h.1)
    | inr e ↦ rw e (p, h)
  ]

  insert_sorted-perm : (x : A) (ys : List A) → Perm (insert_sorted x ys) (x ∷ ys)
  unfolding insert_sorted
  insert_sorted-perm x [] = Perm.rfl
  insert_sorted-perm x (y ∷ ys) = elim (Bool-cases (before y x)) [
    | inl e ↦ rw e (Perm.trans (Perm.cons y (insert_sorted-perm x ys)) (Perm.swap x y ys))
    | inr e ↦ rw e Perm.rfl
  ]

  pub stable_sort-perm : (xs : List A) → Perm (stable_sort xs) xs
  unfolding stable_sort
  stable_sort-perm [] = Perm.rfl
  stable_sort-perm (x ∷ xs) =
      Perm.trans (insert_sorted-perm x (stable_sort xs)) (Perm.cons x (stable_sort-perm xs))

  pub stable_sort-All : (P : A → Type 0) (xs : List A) → All P xs → All P (stable_sort xs)
  unfolding stable_sort
  stable_sort-All P [] h = tt
  stable_sort-All P (x ∷ xs) h =
      insert_sorted-All P x (stable_sort xs) h.0 (stable_sort-All P xs h.1)

-- Sorting by a test puts what passes it first, both parts in their old order.
module _ {ℓ} {A : Type ℓ} (first : A → Bool) where
  abbrev pub goes_first : A → A → Bool
  goes_first a b = ltb (if first a then 0 else 1) (if first b then 0 else 1)

  insert_sorted-front :
      (x : A) (ys : List A) → first x ≡ true → insert_sorted goes_first x ys ≡ x ∷ ys
  unfolding insert_sorted
  insert_sorted-front x [] h = refl
  insert_sorted-front x (y ∷ ys) h = ground arith

  insert_sorted-last :
      (x : A) (ys zs : List A)
      → first x ≡ false
      → All (λ y. first y ≡ true) ys
      → All (λ z. first z ≡ false) zs
      → insert_sorted goes_first x (ys ++ zs) ≡ ys ++ x ∷ zs
  unfolding insert_sorted
  insert_sorted-last x [] [] h a b = refl
  insert_sorted-last x [] (z ∷ zs) h a b = ground (arith, b.0)
  insert_sorted-last x (y ∷ ys) zs h a b = ground (arith, a.0, insert_sorted-last x ys zs h a.1 b)

  keep-All : (xs : List A) → All (λ y. first y ≡ true) (keep first xs)
  keep-All [] = tt
  keep-All (x ∷ xs) = elim (Bool-cases (first x)) [
    | inl e ↦ rw e (e, keep-All xs)
    | inr e ↦ rw e (keep-All xs)
  ]

  keep-not-All : (xs : List A) → All (λ y. first y ≡ false) (keep (λ x. not (first x)) xs)
  keep-not-All [] = tt
  keep-not-All (x ∷ xs) = elim (Bool-cases (first x)) [
    | inl e ↦ rw e (keep-not-All xs)
    | inr e ↦ rw e (e, keep-not-All xs)
  ]

  pub stable_sort-first :
      (xs : List A) → stable_sort goes_first xs ≡ keep first xs ++ keep (λ x. not (first x)) xs
  unfolding stable_sort
  stable_sort-first [] = refl
  stable_sort-first (x ∷ xs) = elim (Bool-cases (first x)) [
    | inl e ↦
        rw (e, stable_sort-first xs)
          (insert_sorted-front x (keep first xs ++ keep (λ y. not (first y)) xs) e)
    | inr e ↦
        rw (e, stable_sort-first xs)
          (insert_sorted-last x (keep first xs) (keep (λ y. not (first y)) xs) e (keep-All xs)
            (keep-not-All xs))
  ]

-- The places `i`, `i + 1`, … of a list at which a test holds.
module _ {ℓ} {A : Type ℓ} where
  abbrev pub places : (A → Bool) → ℕ → List A → List ℕ
  places p i [] = []
  places p i (x ∷ xs) = let rest = places p (i + 1) xs in if p x then i ∷ rest else rest

  -- A test of places that says what a test of the values there says.
  pub keep-places :
      (p r : A → Bool) (q : ℕ → Bool) (i : ℕ) (xs : List A)
      → ((j : ℕ) (x : A) → get_elem? xs j ≡ some x → q (i + j) ≡ r x)
      → keep q (places p i xs) ≡ places (λ x. p x && r x) i xs
  keep-places p r q i [] h = refl
  keep-places p r q i (x ∷ xs) h = ground (arith, keep-places p r q (i + 1) xs later, h 0 x refl)
    where
      later : (j : ℕ) (y : A) → get_elem? xs j ≡ some y → q ((i + 1) + j) ≡ r y
      later j y e = ap q (omega arith) ∙ h (suc j) y e
