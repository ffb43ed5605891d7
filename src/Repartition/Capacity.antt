-- ===== src/Repartition/Capacity.antt =====
-- The capacities of partitions, and what Repartition_Main returns as a whole.
use de_part.Prelude.{
  ℕ, zero, suc, ◌+◌, ◌*◌, ◌/◌, ◌≤◌, ◌<◌, ◌^◌, ◌≡◌, refl, sym, ap, subst, ◌∙◌, ◌⊎◌, inl, inr, Bool,
  true, false, List, [], ◌∷◌, ◌++◌, Option, some, arith, leb, ltb, if◌then◌else◌, Bool-cases, ℤ,
  Bytes, bytes_key, map, length, All, keys, stable_sort, stable_sort-perm,
}
use mathlib.Core.List.{Perm}
use mathlib.Core.List.Perm
use de_part.Bins.{BinInfo}
use de_part.Repartition.{
  Partition, bin_keys, pack, raise, fixed_count, fixed_threshold, max_iter, effective_k, clamp,
  first_threshold, signed_total, noised_bins, make_sorted_bins, bin_before, set_capacity,
  set_capacities, choose_parts, repartition,
}
use de_part.Repartition.Packing.{indexes, indexes-pack, sizes}
use de_part.Repartition.Rounds.{fixed_count-fits}

-- The tree of a partition has room for at least one record; with the records that overflow into
-- the stash it holds exactly the real records and the dummies; and there is either no dummy or
-- no overflow.
abbrev pub Fitting : Partition → Type 0
Fitting p =
    (1 ≤ p.noisy_synopsis)
    × (p.noisy_synopsis + p.stash_overflow_count ≡ p.synopsis + p.dummy_num)
    × ((p.dummy_num ≡ 0) ⊎ (p.stash_overflow_count ≡ 0))

set_capacity-Fitting : (p : Partition) → Fitting (set_capacity p)
unfolding set_capacity
set_capacity-Fitting p = ground arith

set_capacities-Fitting : (parts : List Partition) → All Fitting (set_capacities parts)
unfolding set_capacities
set_capacities-Fitting [] = tt
set_capacities-Fitting (p ∷ parts) = (set_capacity-Fitting p, set_capacities-Fitting parts)

indexes-set_capacities : (parts : List Partition) → indexes (set_capacities parts) ≡ indexes parts
unfolding set_capacities set_capacity indexes
indexes-set_capacities [] = refl
indexes-set_capacities (p ∷ parts) = ap (λ l. p.index ++ l) (indexes-set_capacities parts)

length-set_capacities : (parts : List Partition) → length (set_capacities parts) ≡ length parts
unfolding set_capacities
length-set_capacities [] = refl
length-set_capacities (p ∷ parts) = ap suc (length-set_capacities parts)

indexes-fixed_count :
    (synopsis : List (Bytes × ℕ)) (scale : ℕ → ℕ) (k rounds : ℕ) (t : Option ℕ)
    (parts : List Partition) (bins : List (Bytes × ℤ))
    → indexes parts ≡ bin_keys bins
    → indexes (fixed_count synopsis scale k rounds t parts bins) ≡ bin_keys bins
unfolding fixed_count
indexes-fixed_count synopsis scale k zero t parts bins h = h
indexes-fixed_count synopsis scale k (suc rounds) t parts bins h =
    elim (Bool-cases (leb (length (pack synopsis t 0 [] bins)) k)) [
      | inl e ↦ rw e (indexes-pack synopsis t 0 [] bins)
      | inr e ↦ rw e (
          indexes-fixed_count synopsis scale k rounds (raise synopsis scale k t) _ bins
            (indexes-pack synopsis t 0 [] bins))
    ]

bin_keys-noised_bins :
    (noise : Bytes → ℤ) (synopsis : List (Bytes × ℕ))
    → bin_keys (noised_bins noise synopsis) ≡ keys synopsis
unfolding noised_bins
bin_keys-noised_bins noise [] = refl
bin_keys-noised_bins noise ((key, count) ∷ bins) =
    ap (λ l. key ∷ l) (bin_keys-noised_bins noise bins)

bin_keys-map : (bins : List (Bytes × ℤ)) → bin_keys bins ≡ map (λ (b : Bytes × ℤ). b.0) bins
bin_keys-map [] = refl
bin_keys-map ((key, v) ∷ bins) = ap (λ l. key ∷ l) (bin_keys-map bins)

-- Algorithm 3 tries at least one packing.
indexes-fixed_count_some :
    (synopsis : List (Bytes × ℕ)) (scale : ℕ → ℕ) (k rounds : ℕ) (t : Option ℕ)
    (parts : List Partition) (bins : List (Bytes × ℤ))
    → indexes (fixed_count synopsis scale k (suc rounds) t parts bins) ≡ bin_keys bins
unfolding fixed_count
indexes-fixed_count_some synopsis scale k rounds t parts bins =
    elim (Bool-cases (leb (length (pack synopsis t 0 [] bins)) k)) [
      | inl e ↦ rw e (indexes-pack synopsis t 0 [] bins)
      | inr e ↦ rw e (
          indexes-fixed_count synopsis scale k rounds (raise synopsis scale k t) _ bins
            (indexes-pack synopsis t 0 [] bins))
    ]

module _ (noise : Bytes → ℤ) (scale : ℕ → ℕ) (info : BinInfo) (threshold_pub : Option ℕ)
    (fixed_number_part : Bool) (fixed_part_num num_servers : ℕ) where
  bins_of : List (Bytes × ℤ)
  unfolding make_sorted_bins noised_bins
  bins_of = make_sorted_bins (noised_bins noise info.synopsis)

  abbrev parts_of : List Partition
  parts_of =
      (repartition noise scale info threshold_pub fixed_number_part fixed_part_num num_servers).1

  choose : Bool → List Partition
  choose b =
      let k = effective_k fixed_part_num num_servers in
      if b
      then fixed_count info.synopsis scale k max_iter
          (first_threshold (clamp (signed_total (noised_bins noise info.synopsis))) k) [] bins_of
      else fixed_threshold info.synopsis threshold_pub bins_of

  parts_of-eq : parts_of ≡ set_capacities (choose fixed_number_part)
  unfolding repartition choose_parts choose bins_of
  parts_of-eq = refl

  choose-fits :
      (t : ℕ)
      → first_threshold
          (clamp (signed_total (noised_bins noise info.synopsis)))
          (effective_k fixed_part_num num_servers)
        ≡ some t
      → length (
          fixed_count info.synopsis scale
            (effective_k fixed_part_num num_servers)
            max_iter
            (some t)
            []
            bins_of)
        ≤ effective_k fixed_part_num num_servers
      → length (choose true) ≤ effective_k fixed_part_num num_servers
  unfolding choose
  choose-fits t e h =
      subst
        (λ o.
          length (
            fixed_count info.synopsis scale (effective_k fixed_part_num num_servers) max_iter o []
              bins_of)
          ≤ effective_k fixed_part_num num_servers)
        (sym e) h

  indexes-choose : (b : Bool) → indexes (choose b) ≡ bin_keys bins_of
  unfolding choose
  indexes-choose true = indexes-fixed_count_some info.synopsis scale _ 499 _ [] bins_of
  indexes-choose false = indexes-pack info.synopsis threshold_pub 0 [] bins_of

  bins_of-perm : Perm (bin_keys bins_of) (keys info.synopsis)
  unfolding bins_of make_sorted_bins
  bins_of-perm =
      let noised = noised_bins noise info.synopsis in
      subst (λ l. Perm l (keys info.synopsis)) (sym (bin_keys-map (stable_sort bin_before noised)))
        (subst (λ l. Perm (map (λ (b : Bytes × ℤ). b.0) (stable_sort bin_before noised)) l)
          (sym (bin_keys-map noised) ∙ bin_keys-noised_bins noise info.synopsis)
          (Perm.map (λ (b : Bytes × ℤ). b.0) (stable_sort-perm bin_before noised)))

  -- Whatever the noise and the thresholds, the bins of the partitions, one partition after the
  -- other, are the bins of the synopsis in another order: none is lost and none is in two
  -- partitions. In each partition the noisy count is at least 1, noisy count and stash overflow
  -- are real count and dummies, and there are no dummies or there is no overflow.
  pub repartition-perm :
      Perm
        (indexes
          (repartition noise scale info threshold_pub fixed_number_part fixed_part_num
            num_servers).1)
        (keys info.synopsis)
      × All Fitting
          (repartition noise scale info threshold_pub fixed_number_part fixed_part_num
            num_servers).1
  repartition-perm =
      let parts = choose fixed_number_part in
      subst (λ l. Perm (indexes l) (keys info.synopsis) × All Fitting l) (sym parts_of-eq)
        (
          subst (λ l. Perm l (keys info.synopsis))
              (sym (indexes-set_capacities parts ∙ indexes-choose fixed_number_part)) bins_of-perm,
          set_capacities-Fitting parts,
        )

first_threshold-positive :
    (total k : ℕ) → 1 ≤ k → (t : ℕ) × (first_threshold total k ≡ some t) × (1 ≤ t)
unfolding first_threshold
first_threshold-positive total zero h = absurd (omega arith)
first_threshold-positive total (suc k) h = elim (Bool-cases (ltb ((total + k) / suc k) 1)) [
  | inl e ↦ (1, rw e refl, omega arith)
  | inr e ↦ ((total + k) / suc k, rw e refl, ground (arith, e))
]

-- In Algorithm 3, with a cap of at least one partition, a rounded product that is at least 1.095
-- times the threshold, and bins that count for fewer than 2^64 records in the packing, there
-- are at most k_eff partitions: the smaller of the hint and the number of servers, or the hint
-- where no servers are given.
pub repartition-fits :
    (noise : Bytes → ℤ) (scale : ℕ → ℕ) (info : BinInfo) (threshold_pub : Option ℕ)
    (fixed_part_num num_servers : ℕ)
    → ((t : ℕ) → 1095 * t ≤ 1000 * scale t)
    → 1 ≤ effective_k fixed_part_num num_servers
    → sizes (make_sorted_bins (noised_bins noise info.synopsis)) < 2 ^ 64
    → length (repartition noise scale info threshold_pub true fixed_part_num num_servers).1
      ≤ effective_k fixed_part_num num_servers
unfolding bins_of
repartition-fits noise scale info threshold_pub fixed_part_num num_servers grows low small =
    let k = effective_k fixed_part_num num_servers in
    let (t, e, positive) =
      first_threshold-positive (clamp (signed_total (noised_bins noise info.synopsis))) k low in
    let bins = bins_of noise scale info threshold_pub true fixed_part_num num_servers in
    subst (λ l. length l ≤ k)
      (sym (parts_of-eq noise scale info threshold_pub true fixed_part_num num_servers))
      (subst (λ n. n ≤ k) (sym (length-set_capacities _))
        (choose-fits noise scale info threshold_pub true fixed_part_num num_servers t e
          (fixed_count-fits info.synopsis scale k grows t bins low positive small)))
