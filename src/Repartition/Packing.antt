-- ===== src/Repartition/Packing.antt =====
-- Packing loses no bin and fills each partition but the last up to the threshold.
use de_part.Prelude.{
  ℕ, zero, suc, ◌+◌, ◌*◌, ◌≤◌, ◌<◌, ◌≡◌, refl, sym, ap, ap₂, ◌∙◌, inl, inr, List, [], ◌∷◌, ◌++◌,
  Option, some, arith, leb, leb→le, Bool-cases, ℤ, Bytes, bytes_key, length,
}
use native.Mathlib.Nat.{mul-le-mul_right}
use mathlib.Core.List.{append_assoc, append-nil}
use de_part.Repartition.{Partition, bin_keys, clamp, reached, close_partition, close_rest, pack}

-- The bins of a list of partitions, in order.
unfoldable pub indexes : List Partition → List Bytes
indexes [] = []
indexes (p ∷ parts) = p.index ++ indexes parts

-- What the bins count for in the packing.
unfoldable pub sizes : List (Bytes × ℤ) → ℕ
sizes [] = 0
sizes (b ∷ bins) = clamp b.1 + sizes bins

bin_keys-append : (xs ys : List (Bytes × ℤ)) → bin_keys (xs ++ ys) ≡ bin_keys xs ++ bin_keys ys
bin_keys-append [] ys = refl
bin_keys-append ((k, v) ∷ xs) ys = ap (λ l. k ∷ l) (bin_keys-append xs ys)

at_most_one : (n t : ℕ) → n ≤ 1 → n * t ≤ t
at_most_one zero t h = omega arith
at_most_one (suc zero) t h = omega arith
at_most_one (suc (suc n)) t h = absurd (omega arith)

module _ (synopsis : List (Bytes × ℕ)) where
  indexes-close_rest :
      (opened : List (Bytes × ℤ)) → indexes (close_rest synopsis opened) ≡ bin_keys opened
  unfolding indexes close_rest close_partition
  indexes-close_rest [] = refl
  indexes-close_rest (b ∷ opened) = append-nil (bin_keys (b ∷ opened))

  pub indexes-pack :
      (t : Option ℕ) (acc : ℕ) (opened bins : List (Bytes × ℤ))
      → indexes (pack synopsis t acc opened bins) ≡ bin_keys opened ++ bin_keys bins
  unfolding indexes pack close_partition
  indexes-pack t acc opened [] = indexes-close_rest opened ∙ sym (append-nil (bin_keys opened))
  indexes-pack t acc opened ((k, v) ∷ bins) =
      let grown = bin_keys-append opened ((k, v) ∷ []) in
      let grouped = append_assoc (bin_keys opened) (k ∷ []) (bin_keys bins) in
      elim (Bool-cases (reached t (acc + clamp v))) [
        | inl e ↦ rw e (ap₂ ◌++◌ grown (indexes-pack t 0 [] bins) ∙ grouped)
        | inr e ↦ rw e (
            indexes-pack t (acc + clamp v) (opened ++ (k, v) ∷ []) bins
            ∙ ap (λ l. l ++ bin_keys bins) grown
            ∙ grouped)
      ]

  length-close_rest : (opened : List (Bytes × ℤ)) → length (close_rest synopsis opened) ≤ 1
  unfolding close_rest
  length-close_rest [] = omega arith
  length-close_rest (b ∷ opened) = omega arith

  -- Each partition but the last has taken up `t`.
  length-pack :
      (t acc : ℕ) (opened bins : List (Bytes × ℤ))
      → length (pack synopsis (some t) acc opened bins) * t ≤ acc + sizes bins + t
  unfolding pack sizes
  length-pack t acc opened [] =
      omega (arith, at_most_one (length (close_rest synopsis opened)) t (length-close_rest opened))
  length-pack t acc opened ((k, v) ∷ bins) = elim (Bool-cases (leb t (acc + clamp v))) [
    | inl e ↦ rw e (grind (arith, length-pack t 0 [] bins, leb→le))
    | inr e ↦ rw e (omega (arith, length-pack t (acc + clamp v) (opened ++ (k, v) ∷ []) bins))
  ]

  -- A threshold above the `k`-th part of the sizes leaves at most `k` partitions.
  pub pack-fits :
      (t k : ℕ) (bins : List (Bytes × ℤ))
      → sizes bins < k * t
      → length (pack synopsis (some t) 0 [] bins) ≤ k
  pack-fits t k bins h = fits (length (pack synopsis (some t) 0 [] bins)) (length-pack t 0 [] bins)
    where
      fits : (n : ℕ) → n * t ≤ 0 + sizes bins + t → n ≤ k
      fits n b = not_more (λ more. omega (arith, mul-le-mul_right t more))
        where
          not_more : (¬ (k + 1 ≤ n)) → n ≤ k
          not_more h' = omega arith
