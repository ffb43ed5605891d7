-- ===== src/Prelude/Reverse.antt =====
-- A reversed list has the same members.
use mathlib.Core.Path.{subst, sym}
use mathlib.Core.Logic.{inl, inr}
use mathlib.Core.List.{List, [], ◌∷◌, reverse, reverse-cons}
use de_part.Prelude.Lists.{Member, Member-append_left, Member-append_right, Member-append_cases}

pub Member-reverse : {A : Type 0} (x : A) (xs : List A) → Member x (reverse xs) → Member x xs
Member-reverse x [] m = m
Member-reverse x (y ∷ xs) m =
    elim (Member-append_cases x (reverse xs) (y ∷ [])
      (subst (λ ys. Member x ys) (reverse-cons y xs) m)) [
        | inl n ↦ inr (Member-reverse x xs n)
        | inr (inl e) ↦ inl e
        | inr (inr gap) ↦ absurd gap
      ]

pub Member-of_reverse : {A : Type 0} (x : A) (xs : List A) → Member x xs → Member x (reverse xs)
Member-of_reverse x [] m = m
Member-of_reverse x (y ∷ xs) (inl e) =
    subst (λ ys. Member x ys) (sym (reverse-cons y xs))
      (Member-append_right x (reverse xs) (y ∷ []) (inl e))
Member-of_reverse x (y ∷ xs) (inr m) =
    subst (λ ys. Member x ys) (sym (reverse-cons y xs))
      (Member-append_left x (reverse xs) (y ∷ []) (Member-of_reverse x xs m))
