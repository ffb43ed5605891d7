-- ===== src/Prelude/Maps.antt =====
-- std::map and std::set: lists of entries, walked in the order of the keys.
use mathlib.Core.Path.{◌≡◌, refl, sym, ap, ◌∙◌}
use mathlib.Core.Logic.{◌↔◌, ◌≢◌, ◌⊎◌, inl, inr}
use mathlib.Core.Bool.{Bool, true, false, ◌||◌}
use mathlib.Core.List.{List, [], ◌∷◌, ◌++◌}
use mathlib.Core.Option.{Option, none, some}
use native.Mathlib.Omega.{arith}
use de_part.Prelude.Tests.{if◌then◌else◌, Option-cases}
use de_part.Prelude.Lists.{Member, Distinct}
use de_part.Prelude.Keys.{Key, ◌=?◌, beq_refl}

module _ {ℓ κ} {K : Type ℓ} {V : Type κ} ⦃key : Key K⦄ where
  -- `find`
  unfoldable pub lookup : K → List (K × V) → Option V
  lookup k [] = none
  lookup k ((j, v) ∷ m) = if j =? k then some v else lookup k m

  replace : K → V → List (K × V) → List (K × V)
  replace k v [] = []
  replace k v ((j, w) ∷ m) = if j =? k then (j, v) ∷ m else (j, w) ∷ replace k v m

  place : K → V → List (K × V) → List (K × V)
  place k v [] = (k, v) ∷ []
  place k v ((j, w) ∷ m) =
      let rest = place k v m in if key.before k j then (k, v) ∷ (j, w) ∷ m else (j, w) ∷ rest

  -- `m[k] = v`: the entry is overwritten, or a new one takes its place in the order.
  unfoldable pub insert : K → V → List (K × V) → List (K × V)
  unfolding lookup replace place
  insert k v m = elim (lookup k m) [ none ↦ place k v m | some _ ↦ replace k v m ]

-- `insert` and `count` of a std::set, which is kept in no order: the program only asks for members.
module _ {A : Type 0} ⦃key : Key A⦄ where
  unfoldable pub contains : List A → A → Bool
  contains [] a = false
  contains (x ∷ xs) a = (x =? a) || contains xs a

  unfoldable pub add : A → List A → List A
  add a xs = if contains xs a then xs else a ∷ xs

  pub contains_iff : (xs : List A) (a : A) → (contains xs a ≡ true) ↔ Member a xs
  unfolding contains
  contains_iff [] a = ground arith
  contains_iff (x ∷ xs) a = ground (arith, contains_iff xs a, key.beq_iff x a)

  pub Member-add : (a b : A) (xs : List A) → Member a (add b xs) ↔ ((a ≡ b) ⊎ Member a xs)
  unfolding add
  Member-add a b xs = ground (arith, contains_iff xs b)

module _ {ℓ κ} {K : Type ℓ} {V : Type κ} ⦃key : Key K⦄ where
  lookup-replace :
      (k j : K) (v : V) (m : List (K × V))
      → lookup j (replace k v m)
        ≡ (if k =? j then (elim (lookup k m) [ none ↦ none | some _ ↦ some v ]) else lookup j m)
  unfolding lookup replace
  lookup-replace k j v [] = ground (arith, key.beq_iff k j)
  lookup-replace k j v ((i, w) ∷ m) =
      ground (arith, key.beq_iff k j, key.beq_iff i k, key.beq_iff i j, lookup-replace k j v m)

  lookup-place :
      (k j : K) (v : V) (m : List (K × V))
      → lookup k m ≡ none
      → lookup j (place k v m) ≡ (if k =? j then some v else lookup j m)
  unfolding lookup place
  lookup-place k j v [] h = refl
  lookup-place k j v ((i, w) ∷ m) h =
      ground (arith, key.beq_iff k j, key.beq_iff i k, key.beq_iff i j, lookup-place k j v m)

  pub lookup-insert :
      (k j : K) (v : V) (m : List (K × V))
      → lookup j (insert k v m) ≡ (if k =? j then some v else lookup j m)
  unfolding insert
  lookup-insert k j v m = ground (arith, lookup-place k j v m, lookup-replace k j v m)

  pub lookup-insert_self : (k : K) (v : V) (m : List (K × V)) → lookup k (insert k v m) ≡ some v
  lookup-insert_self k v m = rw (lookup-insert, beq_refl)

  pub lookup-insert_ne :
      (k j : K) (v : V) (m : List (K × V)) → k ≢ j → lookup j (insert k v m) ≡ lookup j m
  lookup-insert_ne k j v m h = ground (arith, lookup-insert k j v m, key.beq_iff k j)

  lookup-replace_ne :
      (k j : K) (v : V) (m : List (K × V)) → k ≢ j → lookup j (replace k v m) ≡ lookup j m
  lookup-replace_ne k j v m h = ground (arith, lookup-replace k j v m, key.beq_iff k j)

  replace-replace :
      (k j : K) (v w : V) (m : List (K × V))
      → k ≢ j
      → replace k v (replace j w m) ≡ replace j w (replace k v m)
  unfolding replace
  replace-replace k j v w [] h = refl
  replace-replace k j v w ((i, u) ∷ m) h =
      ground (arith, key.beq_iff i k, key.beq_iff i j, replace-replace k j v w m h)

  insert_found :
      (k : K) (v : V) (m : List (K × V)) → lookup k m ≢ none → insert k v m ≡ replace k v m
  unfolding insert
  insert_found k v m h = elim (Option-cases (lookup k m)) [
    | inl e ↦ absurd (h e)
    | inr (w, e) ↦ ap (λ (o : Option V). elim o [ none ↦ place k v m | some x ↦ replace k v m ]) e
  ]

  -- Entries that are there are overwritten in any order.
  pub insert-insert :
      (k j : K) (v w : V) (m : List (K × V))
      → k ≢ j
      → lookup k m ≢ none
      → lookup j m ≢ none
      → insert k v (insert j w m) ≡ insert j w (insert k v m)
  insert-insert k j v w m h a b =
      ap (insert k v) (insert_found j w m b)
      ∙ insert_found k v (replace j w m)
          (λ e. a (sym (lookup-replace_ne j k w m (λ e'. h (sym e'))) ∙ e))
      ∙ replace-replace k j v w m h
      ∙ sym (insert_found j w (replace k v m) (λ e. b (sym (lookup-replace_ne k j v m h) ∙ e)))
      ∙ sym (ap (insert j w) (insert_found k v m a))

abbrev pub keys {ℓ κ} : {K : Type ℓ} {V : Type κ} → List (K × V) → List K
keys [] = []
keys ((k, v) ∷ m) = k ∷ keys m

-- Walking a map meets each key once, with the value that `lookup` finds.
module _ {K V : Type 0} ⦃key : Key K⦄ where
  pub Member-keys_iff : (k : K) (m : List (K × V)) → Member k (keys m) ↔ (lookup k m ≢ none)
  unfolding lookup
  Member-keys_iff k [] = ground arith
  Member-keys_iff k ((j, v) ∷ m) = ground (arith, Member-keys_iff k m, key.beq_iff j k)

  pub Member-of_lookup : (k : K) (v : V) (m : List (K × V)) → lookup k m ≡ some v → Member (k, v) m
  unfolding lookup
  Member-of_lookup k v [] h = cc
  Member-of_lookup k v ((j, w) ∷ m) h = ground (arith, Member-of_lookup k v m, key.beq_iff j k)

  pub Member-keys_of_entry :
      (k : K) (v : V) (m : List (K × V)) → Member (k, v) m → Member k (keys m)
  Member-keys_of_entry k v [] h = h
  Member-keys_of_entry k v ((j, w) ∷ m) (inl e) = inl (ap (λ p. p.0) e)
  Member-keys_of_entry k v ((j, w) ∷ m) (inr h) = inr (Member-keys_of_entry k v m h)

  pub lookup_of_Member :
      (k : K) (v : V) (m : List (K × V)) → Distinct (keys m) → Member (k, v) m → lookup k m ≡ some v
  unfolding lookup
  lookup_of_Member k v [] d h = absurd h
  lookup_of_Member k v ((j, w) ∷ m) d (inl e) =
      ground (arith, key.beq_iff j k, ap (λ (p : K × V). p.0) e, ap (λ (p : K × V). p.1) e)
  lookup_of_Member k v ((j, w) ∷ m) d (inr h) =
      ground (arith, key.beq_iff j k, Member-keys_of_entry k v m h, lookup_of_Member k v m d.1 h)

  keys-replace : (k : K) (v : V) (m : List (K × V)) → keys (replace k v m) ≡ keys m
  unfolding replace
  keys-replace k v [] = refl
  keys-replace k v ((j, w) ∷ m) = ground (arith, keys-replace k v m)

  Member-keys-place :
      (k j : K) (v : V) (m : List (K × V))
      → Member j (keys (place k v m))
      → (j ≡ k) ⊎ Member j (keys m)
  unfolding place
  Member-keys-place k j v [] h = h
  Member-keys-place k j v ((i, w) ∷ m) h = ground (arith, Member-keys-place k j v m)

  place-Distinct :
      (k : K) (v : V) (m : List (K × V))
      → (¬ Member k (keys m))
      → Distinct (keys m)
      → Distinct (keys (place k v m))
  unfolding place
  place-Distinct k v [] h d = (λ e. e, tt)
  place-Distinct k v ((i, w) ∷ m) h d =
      ground (arith, Member-keys-place k i v m, place-Distinct k v m)

  pub insert-Distinct :
      (k : K) (v : V) (m : List (K × V)) → Distinct (keys m) → Distinct (keys (insert k v m))
  unfolding insert
  insert-Distinct k v m d =
      ground (arith, keys-replace k v m, place-Distinct k v m, Member-keys_iff k m)

  -- Overwriting keeps the keys.
  pub keys-insert_member :
      (k : K) (v : V) (m : List (K × V)) → Member k (keys m) → keys (insert k v m) ≡ keys m
  unfolding insert
  keys-insert_member k v m h = ground (arith, keys-replace k v m, Member-keys_iff k m)

  keys-place_last :
      (k : K) (v : V) (m : List (K × V))
      → ((j : K) → Member j (keys m) → key.before k j ≡ false)
      → keys (place k v m) ≡ keys m ++ k ∷ []
  unfolding place
  keys-place_last k v [] h = refl
  keys-place_last k v ((j, w) ∷ m) h =
      ground (arith, h j (inl refl), keys-place_last k v m (λ i n. h i (inr n)))

  -- A key above all others comes last.
  pub keys-insert_last :
      (k : K) (v : V) (m : List (K × V))
      → (¬ Member k (keys m))
      → ((j : K) → Member j (keys m) → key.before k j ≡ false)
      → keys (insert k v m) ≡ keys m ++ k ∷ []
  unfolding insert
  keys-insert_last k v m new h = ground (arith, keys-place_last k v m h, Member-keys_iff k m)
