-- ===== src/Prelude/Counting.antt =====
-- Lists with no value twice: how many values fit a given collection.
use Prim.Native.Nat.{ℕ, zero, suc, ◌+◌, ◌≤◌, ◌<◌}
use mathlib.Core.Path.{◌≡◌, refl, sym, ap, subst, ◌∙◌}
use mathlib.Core.Logic.{inl, inr, ◌≢◌}
use mathlib.Core.Bool.{Bool, true, false, not}
use mathlib.Core.List.{List, [], ◌∷◌}
use native.Mathlib.Omega.{arith}
use de_part.Prelude.Tests.{if◌then◌else◌, Bool-cases}
use de_part.Prelude.Lists.{length, keep, Member, Distinct}

module _ {A : Type 0} where
  erase_at : (x : A) (ys : List A) → Member x ys → List A
  erase_at x [] m = absurd m
  erase_at x (y ∷ ys) (inl e) = ys
  erase_at x (y ∷ ys) (inr m) = y ∷ erase_at x ys m

  length-erase_at :
      (x : A) (ys : List A) (m : Member x ys) → length (erase_at x ys m) + 1 ≡ length ys
  unfolding erase_at
  length-erase_at x [] m = absurd m
  length-erase_at x (y ∷ ys) (inl e) = omega arith
  length-erase_at x (y ∷ ys) (inr m) = omega (arith, length-erase_at x ys m)

  Member-erase_at :
      (x z : A) (ys : List A) (m : Member x ys) → z ≢ x → Member z ys → Member z (erase_at x ys m)
  unfolding erase_at
  Member-erase_at x z [] m h n = absurd m
  Member-erase_at x z (y ∷ ys) (inl e) h (inl f) = absurd (h (cc))
  Member-erase_at x z (y ∷ ys) (inl e) h (inr n) = n
  Member-erase_at x z (y ∷ ys) (inr m) h (inl f) = inl f
  Member-erase_at x z (y ∷ ys) (inr m) h (inr n) = inr (Member-erase_at x z ys m h n)

  -- The pigeonhole principle.
  pub length-le_of_Distinct :
      (xs ys : List A) → Distinct xs → ((z : A) → Member z xs → Member z ys) → length xs ≤ length ys
  length-le_of_Distinct [] ys d h = omega arith
  length-le_of_Distinct (x ∷ xs) ys d h =
      let m = h x (inl refl) in
      omega (
        arith,
        length-erase_at x ys m,
        length-le_of_Distinct xs (erase_at x ys m) d.1 (λ z n.
            Member-erase_at x z ys m (λ e. d.0 (subst (λ w. Member w xs) e n)) (h z (inr n))),
      )

  pub Member-keep :
      (p : A → Bool) (a : A) (xs : List A) → Member a (keep p xs) → Member a xs × (p a ≡ true)
  Member-keep p a [] m = absurd m
  Member-keep p a (x ∷ xs) m = elim (Bool-cases (p x)) [
    | inl e ↦
        kept e (subst (λ b. Member a (if b then x ∷ keep p xs else keep p xs)) e m)
          (Member-keep p a xs)
    | inr e ↦
        let (i, q) =
          Member-keep p a xs (subst (λ b. Member a (if b then x ∷ keep p xs else keep p xs)) e m) in
        (inr i, q)
  ]
    where
      kept :
          p x ≡ true
          → Member a (x ∷ keep p xs)
          → (Member a (keep p xs) → Member a xs × (p a ≡ true))
          → Member a (x ∷ xs) × (p a ≡ true)
      kept e (inl f) rec = (inl f, ap p f ∙ e)
      kept e (inr n) rec = let (i, q) = rec n in (inr i, q)

  pub Member-of_keep :
      (p : A → Bool) (a : A) (xs : List A) → Member a xs → p a ≡ true → Member a (keep p xs)
  Member-of_keep p a [] m e = m
  Member-of_keep p a (x ∷ xs) m e = ground (arith, Member-of_keep p a xs)

  pub keep-Distinct : (p : A → Bool) (xs : List A) → Distinct xs → Distinct (keep p xs)
  keep-Distinct p [] d = tt
  keep-Distinct p (x ∷ xs) d =
      ground (arith, keep-Distinct p xs d.1, λ (m : Member x (keep p xs)). (Member-keep p x xs m).0)

  -- What a test keeps and what it refuses is all there is.
  pub length-keep-not :
      (p : A → Bool) (xs : List A)
      → length (keep p xs) + length (keep (λ x. not (p x)) xs) ≡ length xs
  length-keep-not p [] = omega arith
  length-keep-not p (x ∷ xs) = ground (arith, length-keep-not p xs)

  pub keep_agree :
      (p q : A → Bool) (xs : List A) → ((x : A) → Member x xs → q x ≡ p x) → keep q xs ≡ keep p xs
  keep_agree p q [] h = refl
  keep_agree p q (x ∷ xs) h = ground (arith, h x (inl refl), keep_agree p q xs (λ y m. h y (inr m)))

  -- A test that refuses one more value loses at most that one.
  pub length-keep_less :
      (p q : A → Bool) (a : A) (xs : List A)
      → Distinct xs
      → ((x : A) → x ≢ a → q x ≡ p x)
      → length (keep p xs) ≤ length (keep q xs) + 1
  length-keep_less p q a [] d h = omega arith
  length-keep_less p q a (x ∷ xs) d h = elim (Bool-cases (p x)) [
    | inr e ↦ ground (arith, length-keep_less p q a xs d.1 h)
    | inl e ↦ elim (Bool-cases (q x)) [
      | inl f ↦ ground (arith, length-keep_less p q a xs d.1 h)
      | inr f ↦
          let same = keep_agree p q xs (λ y m.
            h y (λ y_a.
              differ e f (h x (λ x_a. d.0 (subst (λ z. Member z xs) (y_a ∙ sym x_a) m))))) in
          ground (arith, same)
    ]
  ]
    where
      differ : p x ≡ true → q x ≡ false → q x ≡ p x → ⊥
      differ e f g = cc

-- `i`, `i + 1`, …, `n` of them
abbrev pub range_from : ℕ → ℕ → List ℕ
range_from zero i = []
range_from (suc n) i = i ∷ range_from n (i + 1)

pub Member-range_from : (n i x : ℕ) → Member x (range_from n i) → (i ≤ x) × (x < i + n)
Member-range_from zero i x m = absurd m
Member-range_from (suc n) i x (inl e) = omega arith
Member-range_from (suc n) i x (inr m) =
    let (a, b) = Member-range_from n (i + 1) x m in (omega arith, omega arith)

pub Member-of_range : (n i x : ℕ) → i ≤ x → x < i + n → Member x (range_from n i)
Member-of_range zero i x a b = absurd (omega arith)
Member-of_range (suc n) i x a b = ground (arith, Member-of_range n (i + 1) x)

pub range_from-Distinct : (n i : ℕ) → Distinct (range_from n i)
range_from-Distinct zero i = tt
range_from-Distinct (suc n) i =
    ((λ m. omega (arith, Member-range_from n (i + 1) i m)), range_from-Distinct n (i + 1))

pub length-range_from : (n i : ℕ) → length (range_from n i) ≡ n
length-range_from zero i = refl
length-range_from (suc n) i = ap suc (length-range_from n (i + 1))
