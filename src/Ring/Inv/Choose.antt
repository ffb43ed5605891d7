-- ===== src/Ring/Inv/Choose.antt =====
-- The rejection loop of WriteBucket: it ends, with as many distinct slots as there are real blocks.
use native.Mathlib.Nat.{mod-lt}
use de_part.Prelude.{
  ℕ, zero, suc, ◌+◌, ◌%◌, ◌≤◌, ◌<◌, ◌≡◌, refl, sym, ap, subst, ◌∙◌, ◌⊎◌, inl, inr, List, [], ◌∷◌,
  ◌++◌, arith, if◌then◌else◌, ltb, contains, contains_iff, nat_key, length, length-append, Member,
  Member-append_left, Member-append_right, Member-append_cases, Distinct, Bool-cases, range_from,
  range_from-Distinct, length-range_from, Member-range_from, length-le_of_Distinct,
}
use de_part.Ring.State.{Env, Config, Oram}
use de_part.Ring.Write.{choose_slots}
use de_part.Ring.Inv.{Ensures, Lawful}

-- `chosen` are distinct slots of a bucket, at most Z of them.
abbrev pub Slots : Config → List ℕ → Type 0
Slots config chosen = Distinct chosen × ((p : ℕ) → Member p chosen → p < config.bucket_size)

push-Distinct : (xs : List ℕ) (x : ℕ) → (¬ Member x xs) → Distinct xs → Distinct (xs ++ x ∷ [])
push-Distinct [] x h d = ((λ m. m), tt)
push-Distinct (y ∷ xs) x h d = (
  (λ m. elim (Member-append_cases y xs (x ∷ []) m) [
    | inl a ↦ d.0 a
    | inr (inl e) ↦ h (inl (sym e))
    | inr (inr b) ↦ b
  ]),
  push-Distinct xs x (λ m. h (inr m)) d.1,
)

module _ (env : Env) (config : Config) (fits : config.blocks_Z ≤ config.bucket_size)
    (some_slot : 1 ≤ config.bucket_size) where
  pick : List ℕ → ℕ → List ℕ
  pick chosen slot = if contains chosen slot then chosen else chosen ++ slot ∷ []

  pick-Slots :
      (chosen : List ℕ) (slot : ℕ)
      → slot < config.bucket_size
      → Slots config chosen
      → Slots config (pick chosen slot)
  unfolding pick
  pick-Slots chosen slot h (d, b) = elim (Bool-cases (contains chosen slot)) [
    | inl e ↦ subst (λ c. Slots config (if c then chosen else chosen ++ slot ∷ [])) (sym e) (d, b)
    | inr e ↦
        subst (λ c. Slots config (if c then chosen else chosen ++ slot ∷ [])) (sym e)
          (
            push-Distinct chosen slot (ground (arith, contains_iff chosen slot)) d,
            (λ p m. elim (Member-append_cases p chosen (slot ∷ []) m) [
              | inl a ↦ b p a
              | inr (inl f) ↦ omega arith
              | inr (inr x) ↦ absurd x
            ]),
          )
  ]

  pick-length : (chosen : List ℕ) (slot : ℕ) → length (pick chosen slot) ≤ length chosen + 1
  unfolding pick
  pick-length chosen slot = ground (arith, length-append chosen (slot ∷ []))

  pick-Member :
      (chosen : List ℕ) (slot p : ℕ) → (p ≡ slot) ⊎ Member p chosen → Member p (pick chosen slot)
  unfolding pick
  pick-Member chosen slot p h = ground (
    arith,
    h,
    contains_iff chosen slot,
    Member-append_left p chosen (slot ∷ []),
    Member-append_right p chosen (slot ∷ []),
  )

  Shown : ℕ → ℕ → List ℕ → Type 0
  Shown fuel n chosen =
      (p : ℕ)
      → p < config.bucket_size
      → Member p chosen ⊎ ((j : ℕ) × (j < fuel) × (env.coins (n + j) % config.bucket_size ≡ p))

  choose_loop :
      (fuel : ℕ) (chosen : List ℕ) (s : Oram)
      → Slots config chosen
      → length chosen ≤ config.blocks_Z
      → Shown fuel s.draws chosen
      → Ensures (choose_slots env config fuel chosen s) (λ ptrs s'.
        Slots config ptrs
        × (length ptrs ≡ config.blocks_Z)
        × ((n : ℕ) × (s' ≡ record s { draws = n })))
  unfolding choose_slots pick Shown
  choose_loop zero chosen s ok l shown = elim (Bool-cases (ltb (length chosen) config.blocks_Z)) [
    | inl e ↦
        let enough =
          length-le_of_Distinct (range_from config.bucket_size 0) chosen
            (range_from-Distinct config.bucket_size 0)
            (λ p m.
              all_in p (shown p (omega (arith, Member-range_from config.bucket_size 0 p m)))) in
        absurd (ground (arith, enough, length-range_from config.bucket_size 0))
    | inr e ↦ rw e (ok, ground arith, (s.draws, refl))
  ]
    where
      all_in :
          (p : ℕ)
          → Member p chosen
            ⊎ ((j : ℕ) × (j < 0) × (env.coins (s.draws + j) % config.bucket_size ≡ p))
          → Member p chosen
      all_in p (inl m) = m
      all_in p (inr (j, lt, e)) = absurd (omega arith)
  choose_loop (suc fuel) chosen s ok l shown =
      elim (Bool-cases (ltb (length chosen) config.blocks_Z)) [
        | inl e ↦
            let slot = env.coins s.draws % config.bucket_size in
            let less : slot < config.bucket_size = mod-lt (env.coins s.draws) some_slot in
            rw e (
              choose_loop fuel (pick chosen slot) (record s { draws = s.draws + 1 })
                (pick-Slots chosen slot less ok) (ground (arith, pick-length chosen slot))
                (λ p h. later p (shown p h)))
        | inr e ↦ rw e (ok, ground arith, (s.draws, refl))
      ]
    where
      later :
          (p : ℕ)
          → Member p chosen
            ⊎ ((j : ℕ) × (j < suc fuel) × (env.coins (s.draws + j) % config.bucket_size ≡ p))
          → Member p (pick chosen (env.coins s.draws % config.bucket_size))
            ⊎ ((j : ℕ) × (j < fuel) × (env.coins (s.draws + 1 + j) % config.bucket_size ≡ p))
      later p (inl m) = inl (pick-Member chosen (env.coins s.draws % config.bucket_size) p (inr m))
      later p (inr (zero, lt, e)) = inl (
          pick-Member chosen (env.coins s.draws % config.bucket_size) p
            (inl (sym e ∙ ap (λ n. env.coins n % config.bucket_size) (omega arith))))
      later p (inr (suc j, lt, e)) =
          inr (j, omega arith, ap (λ n. env.coins n % config.bucket_size) (omega arith) ∙ e)

  pub choose_slots-Slots :
      (s : Oram)
      → Lawful env config.bucket_size
      → Ensures (choose_slots env config env.tries [] s) (λ ptrs s'.
        Slots config ptrs
        × (length ptrs ≡ config.blocks_Z)
        × ((n : ℕ) × (s' ≡ record s { draws = n })))
  unfolding Shown
  choose_slots-Slots s lawful =
      choose_loop env.tries [] s (tt, λ p m. absurd m) (omega arith)
        (λ p h. inr (lawful.fair s.draws p h))
