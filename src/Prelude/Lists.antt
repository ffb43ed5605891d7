-- ===== src/Prelude/Lists.antt =====
-- Lists measured and indexed by native numbers, under the library's names, and predicates on them.
use Prim.Native.Nat.{ℕ, zero, suc, ◌+◌, ◌<◌}
use mathlib.Core.Path.{◌≡◌, refl, ap}
use mathlib.Core.Logic.{◌≢◌, ◌⊎◌, inl, inr}
use mathlib.Core.Bool.{Bool}
use mathlib.Core.List.{List, [], ◌∷◌, ◌++◌}
use mathlib.Core.Option.{Option, none, some}
use native.Mathlib.Omega.{arith}
use de_part.Prelude.Tests.{if◌then◌else◌}

module _ {ℓ} {A : Type ℓ} where
  abbrev pub length : List A → ℕ
  length [] = 0
  length (x ∷ xs) = suc (length xs)

  abbrev pub get_elem? : List A → ℕ → Option A
  get_elem? [] i = none
  get_elem? (x ∷ xs) zero = some x
  get_elem? (x ∷ xs) (suc i) = get_elem? xs i

  abbrev pub get_or : List A → ℕ → A → A
  get_or [] i d = d
  get_or (x ∷ xs) zero d = x
  get_or (x ∷ xs) (suc i) d = get_or xs i d

  -- A write out of bounds changes nothing.
  abbrev pub set : List A → ℕ → A → List A
  set [] i v = []
  set (x ∷ xs) zero v = v ∷ xs
  set (x ∷ xs) (suc i) v = x ∷ set xs i v

  abbrev pub take : ℕ → List A → List A
  take zero xs = []
  take (suc n) [] = []
  take (suc n) (x ∷ xs) = x ∷ take n xs

  abbrev pub drop : ℕ → List A → List A
  drop zero xs = xs
  drop (suc n) [] = []
  drop (suc n) (x ∷ xs) = drop n xs

  abbrev pub replicate : ℕ → A → List A
  replicate zero a = []
  replicate (suc n) a = a ∷ replicate n a

  -- What a Boolean test keeps.
  abbrev pub keep : (A → Bool) → List A → List A
  keep p [] = []
  keep p (x ∷ xs) = let rest = keep p xs in if p x then x ∷ rest else rest

  pub length-append : (xs ys : List A) → length (xs ++ ys) ≡ length xs + length ys
  length-append [] ys = omega arith
  length-append (x ∷ xs) ys = omega (arith, length-append xs ys)

module _ {ℓ} {A : Type ℓ} where
  pub get_elem?-append_end : (xs : List A) (y : A) → get_elem? (xs ++ y ∷ []) (length xs) ≡ some y
  get_elem?-append_end [] y = refl
  get_elem?-append_end (x ∷ xs) y = get_elem?-append_end xs y

  pub get_elem?-append_left :
      (xs ys : List A) (i : ℕ) {a : A} → get_elem? xs i ≡ some a → get_elem? (xs ++ ys) i ≡ some a
  get_elem?-append_left [] ys i h = cc
  get_elem?-append_left (x ∷ xs) ys zero h = h
  get_elem?-append_left (x ∷ xs) ys (suc i) h = get_elem?-append_left xs ys i h

  pub length-set : (xs : List A) (i : ℕ) (v : A) → length (set xs i v) ≡ length xs
  length-set [] i v = refl
  length-set (x ∷ xs) zero v = refl
  length-set (x ∷ xs) (suc i) v = ap suc (length-set xs i v)

  pub length-replicate : (n : ℕ) (a : A) → length (replicate n a) ≡ n
  length-replicate zero a = refl
  length-replicate (suc n) a = ap suc (length-replicate n a)

  pub get_or-set_self :
      (xs : List A) (i : ℕ) (v d : A) → i < length xs → get_or (set xs i v) i d ≡ v
  get_or-set_self [] i v d h = elim h [ ]
  get_or-set_self (x ∷ xs) zero v d h = refl
  get_or-set_self (x ∷ xs) (suc i) v d h = get_or-set_self xs i v d (omega arith)

  pub get_or-set_ne :
      (xs : List A) (i j : ℕ) (v d : A) → i ≢ j → get_or (set xs i v) j d ≡ get_or xs j d
  get_or-set_ne [] i j v d h = refl
  get_or-set_ne (x ∷ xs) zero zero v d h = absurd (h refl)
  get_or-set_ne (x ∷ xs) zero (suc j) v d h = refl
  get_or-set_ne (x ∷ xs) (suc i) zero v d h = refl
  get_or-set_ne (x ∷ xs) (suc i) (suc j) v d h = get_or-set_ne xs i j v d (λ e. h (ap suc e))

  pub get_or-replicate : (n i : ℕ) (a d : A) → i < n → get_or (replicate n a) i d ≡ a
  get_or-replicate zero i a d h = elim h [ ]
  get_or-replicate (suc n) zero a d h = refl
  get_or-replicate (suc n) (suc i) a d h = get_or-replicate n i a d (omega arith)

module _ {ℓ} {A : Type ℓ} where
  abbrev pub All {κ} : (A → Type κ) → List A → Type κ
  All P [] = Unit
  All P (x ∷ xs) = P x × All P xs

pub keep-append {ℓ} :
    {A : Type ℓ} (p : A → Bool) (xs ys : List A) → keep p (xs ++ ys) ≡ keep p xs ++ keep p ys
keep-append p [] ys = refl
keep-append p (x ∷ xs) ys = ground (arith, keep-append p xs ys)

-- Membership, over the program's own data.
module _ {A : Type 0} where
  abbrev pub Member : A → List A → Type 0
  Member a [] = ⊥
  Member a (x ∷ xs) = (a ≡ x) ⊎ Member a xs

  -- No value twice.
  abbrev pub Distinct : List A → Type 0
  Distinct [] = Unit
  Distinct (x ∷ xs) = (¬ Member x xs) × Distinct xs

  pub Member-append_left : (a : A) (xs ys : List A) → Member a xs → Member a (xs ++ ys)
  Member-append_left a [] ys m = elim m [ ]
  Member-append_left a (x ∷ xs) ys (inl e) = inl e
  Member-append_left a (x ∷ xs) ys (inr m) = inr (Member-append_left a xs ys m)

  pub Member-append_right : (a : A) (xs ys : List A) → Member a ys → Member a (xs ++ ys)
  Member-append_right a [] ys m = m
  Member-append_right a (x ∷ xs) ys m = inr (Member-append_right a xs ys m)

  pub Member-append_cases :
      (a : A) (xs ys : List A) → Member a (xs ++ ys) → Member a xs ⊎ Member a ys
  Member-append_cases a [] ys m = inr m
  Member-append_cases a (x ∷ xs) ys (inl e) = inl (inl e)
  Member-append_cases a (x ∷ xs) ys (inr m) = elim (Member-append_cases a xs ys m) [
    | inl l ↦ inl (inr l)
    | inr r ↦ inr r
  ]
