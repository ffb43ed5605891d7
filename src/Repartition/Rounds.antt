-- ===== src/Repartition/Rounds.antt =====
-- Algorithm 3 ends with at most `k_eff` partitions long before MAX_ITER.
use native.Mathlib.Nat.{mul-le-mul_right, mul_assoc}
use de_part.Prelude.{
  ℕ, zero, suc, ◌+◌, ◌*◌, ◌^◌, ◌≤◌, ◌<◌, ◌≡◌, refl, sym, subst, inl, inr, List, [], Option, some,
  arith, leb, leb→le, Bool-cases, ℤ, Bytes, bytes_key, length,
}
use de_part.Repartition.{Partition, pack, raise, fixed_count, max_iter}
use de_part.Repartition.Packing.{sizes, pack-fits}

-- `b ^ n`, by clauses
pub power : ℕ → ℕ → ℕ
power b zero = 1
power b (suc n) = b * power b n

module _ (synopsis : List (Bytes × ℕ)) (scale : ℕ → ℕ) (k : ℕ)
    (grows : (t : ℕ) → 1095 * t ≤ 1000 * scale t) where
  raised : (t : ℕ) → (u : ℕ) × (raise synopsis scale k (some t) ≡ some u) × (1095 * t ≤ 1000 * u)
  unfolding raise
  raised t = elim (Bool-cases (leb (scale t) t)) [
    | inl e ↦ (t + 1, rw e refl, omega (arith, grows t, leb→le (scale t) t e))
    | inr e ↦ (scale t, rw e refl, grows t)
  ]

  -- One round: what the packing gives, if it fits, or else what the other rounds give.
  round-fits :
      (rounds : ℕ) (t : Option ℕ) (parts : List Partition) (bins : List (Bytes × ℤ))
      → length (
          fixed_count synopsis scale k rounds
            (raise synopsis scale k t)
            (pack synopsis t 0 [] bins)
            bins)
        ≤ k
      → length (fixed_count synopsis scale k (suc rounds) t parts bins) ≤ k
  unfolding fixed_count
  round-fits rounds t parts bins later =
      elim (Bool-cases (leb (length (pack synopsis t 0 [] bins)) k)) [
        | inl e ↦ rw e (leb→le (length (pack synopsis t 0 [] bins)) k e)
        | inr e ↦ rw e later
      ]

  last-fits :
      (t : ℕ) (parts : List Partition) (bins : List (Bytes × ℤ))
      → sizes bins < k * t
      → length (
          fixed_count synopsis scale k zero
            (raise synopsis scale k (some t))
            (pack synopsis (some t) 0 [] bins)
            bins)
        ≤ k
  unfolding fixed_count
  last-fits t parts bins h = pack-fits synopsis t k bins h

  grown_enough :
      (t u p q : ℕ)
      → 1095 * t ≤ 1000 * u
      → 2 ^ 64 * (1000 * p) ≤ t * (1095 * q)
      → 2 ^ 64 * p ≤ u * q
  grown_enough t u p q a h =
      let b : (1095 * t) * q ≤ (1000 * u) * q = mul-le-mul_right q a in
      let e1 : t * (1095 * q) ≡ (1095 * t) * q = grind arith in
      let e2 : (1000 * u) * q ≡ 1000 * (u * q) = mul_assoc 1000 u q in omega arith

  fixed_count-fits_from :
      (rounds t : ℕ) (parts : List Partition) (bins : List (Bytes × ℤ))
      → sizes bins < 2 ^ 64
      → 1 ≤ k
      → 2 ^ 64 * power 1000 rounds ≤ t * power 1095 rounds
      → length (fixed_count synopsis scale k (suc rounds) (some t) parts bins) ≤ k
  unfolding power
  fixed_count-fits_from zero t parts bins small low h =
      let big : 1 * t ≤ k * t = mul-le-mul_right t low in
      round-fits zero (some t) parts bins (last-fits t parts bins (omega arith))
  fixed_count-fits_from (suc rounds) t parts bins small low h =
      let (u, e, more) = raised t in
      round-fits (suc rounds) (some t) parts bins (
        subst
          (λ o.
            length
              (fixed_count synopsis scale k (suc rounds) o (pack synopsis (some t) 0 [] bins) bins)
            ≤ k)
          (sym e)
          (fixed_count-fits_from rounds u (pack synopsis (some t) 0 [] bins) bins small low
            (grown_enough t u (power 1000 rounds) (power 1095 rounds) more h)))

  enough_rounds : (t : ℕ) → 1 ≤ t → 2 ^ 64 * power 1000 499 ≤ t * power 1095 499
  unfolding power
  enough_rounds t h =
      let one : 1 * power 1095 499 ≤ t * power 1095 499 = mul-le-mul_right (power 1095 499) h in
      let big : 2 ^ 64 * power 1000 499 ≤ power 1095 499 = omega arith in omega (arith, one, big)

  -- For a cap of at least one partition, a first threshold of at least 1, a rounded product that is
  -- at least 1.095 times the threshold, and bins that count for fewer than 2^64 records in the
  -- packing, the loop of Algorithm 3 returns at most `k_eff` partitions: it does not run into
  -- MAX_ITER, where it would accept more.
  pub fixed_count-fits :
      (t : ℕ) (bins : List (Bytes × ℤ))
      → 1 ≤ k
      → 1 ≤ t
      → sizes bins < 2 ^ 64
      → length (fixed_count synopsis scale k max_iter (some t) [] bins) ≤ k
  fixed_count-fits t bins low first small =
      fixed_count-fits_from 499 t [] bins small low (enough_rounds t first)
