-- ===== src/Tests/PartitionRuns.antt =====
-- Five lines in three bins, packed into partitions and placed on servers.
use de_part.Prelude.{
  ℕ, ◌+◌, ◌*◌, ◌/◌, ◌≤◌, ◌≡◌, refl, ◌≢◌, ◌⊎◌, true, List, [], ◌∷◌, none, arith, ℤ, pos, negsuc,
  int_key, nat_key, bytes_key, Bytes, lookup, insert, length, Member, All, keys,
}
use mathlib.Core.List.{Perm}
use de_part.Bins.{
  BinInfo, thrown, made, no_attributes, invalid_attribute, compute_synopsis, combine, comma,
  split_csv_line,
}
use de_part.Repartition.{
  repartition, effective_k, make_sorted_bins, noised_bins, pack, fixed_count, first_threshold,
  signed_total,
}
use de_part.Bins.Fields.{join, split_csv_line-join}
use de_part.Bins.Synopsis.{InRange, OutOfRange, CountsLines, compute_synopsis-counts}
use de_part.Repartition.Packing.{indexes, sizes}
use de_part.Repartition.Capacity.{Fitting, repartition-perm, repartition-fits}

-- '1' to '3'
abbrev pub one : ℕ
one = 49

abbrev pub two : ℕ
two = 50

abbrev pub three : ℕ
three = 51

abbrev sample_lines : List Bytes
sample_lines =
    (two ∷ comma ∷ one ∷ [])
    ∷ (one ∷ comma ∷ one ∷ [])
    ∷ (two ∷ comma ∷ two ∷ [])
    ∷ (three ∷ comma ∷ one ∷ [])
    ∷ (two ∷ comma ∷ three ∷ [])
    ∷ []

split_csv_line-join_example :
    split_csv_line (join ((one ∷ []) ∷ [] ∷ (two ∷ []) ∷ [])) ≡ (one ∷ []) ∷ [] ∷ (two ∷ []) ∷ []
split_csv_line-join_example =
    split_csv_line-join ((one ∷ []) ∷ [] ∷ (two ∷ []) ∷ [])
      (((λ e. omega arith), tt), (tt, (((λ e. omega arith), tt), tt))) (λ e. cc)

-- A trailing empty field is lost.
trailing_field : split_csv_line (one ∷ comma ∷ []) ≡ (one ∷ []) ∷ []
unfolding split_csv_line
trailing_field = refl

abbrev pub sample_info : BinInfo
sample_info = record {
  synopsis = (one ∷ [], 1) ∷ (two ∷ [], 3) ∷ (three ∷ [], 1) ∷ [];
  noised_synopsis = [];
  data_index_to_bin_key = (two ∷ []) ∷ (one ∷ []) ∷ (two ∷ []) ∷ (three ∷ []) ∷ (two ∷ []) ∷ [];
  bin_key_to_data_indices =
      (one ∷ [], 1 ∷ []) ∷ (two ∷ [], 0 ∷ 2 ∷ 4 ∷ []) ∷ (three ∷ [], 3 ∷ []) ∷ [];
  primary_key_to_data_index = [];
}

synopsis_run :
    compute_synopsis sample_lines 2 (pos 0 ∷ []) (comma ∷ []) (negsuc 0) ≡ made sample_info
unfolding compute_synopsis combine split_csv_line lookup insert
synopsis_run = refl

synopsis_refused :
    compute_synopsis sample_lines 2 (pos 2 ∷ []) (comma ∷ []) (negsuc 0)
    ≡ thrown (invalid_attribute (pos 2))
unfolding compute_synopsis
synopsis_refused = refl

compute_synopsis-counts_example :
    ((◌≡◌ {A = List ℤ} (pos 0 ∷ []) [])
      × (compute_synopsis sample_lines 2 (pos 0 ∷ []) (comma ∷ []) (negsuc 0)
          ≡ thrown no_attributes))
    ⊎ ((a : ℤ) × Member a (pos 0 ∷ [])
        × OutOfRange 2 a
        × (compute_synopsis sample_lines 2 (pos 0 ∷ []) (comma ∷ []) (negsuc 0)
            ≡ thrown (invalid_attribute a)))
    ⊎ ((idxs : List ℕ) × (info : BinInfo) × (◌≢◌ {A = List ℤ} (pos 0 ∷ []) [])
        × InRange 2 (pos 0 ∷ []) idxs
        × (compute_synopsis sample_lines 2 (pos 0 ∷ []) (comma ∷ []) (negsuc 0) ≡ made info)
        × CountsLines idxs (comma ∷ []) (negsuc 0) sample_lines info)
compute_synopsis-counts_example =
    compute_synopsis-counts sample_lines 2 (pos 0 ∷ []) (comma ∷ []) (negsuc 0) (omega arith)

-- One record fewer in each bin.
abbrev sample_noise : Bytes → ℤ
sample_noise key = negsuc 0

abbrev eleven_tenths : ℕ → ℕ
eleven_tenths t = (11 * t + 9) / 10

repartition-perm_example :
    Perm
      (indexes (repartition sample_noise eleven_tenths sample_info none true 2 3).1)
      (keys sample_info.synopsis)
    × All Fitting (repartition sample_noise eleven_tenths sample_info none true 2 3).1
repartition-perm_example = repartition-perm sample_noise eleven_tenths sample_info none true 2 3

repartition-fits_example :
    length (repartition sample_noise eleven_tenths sample_info none true 2 3).1 ≤ effective_k 2 3
unfolding make_sorted_bins noised_bins sizes
repartition-fits_example =
    repartition-fits sample_noise eleven_tenths sample_info none 2 3 (λ t. omega arith)
      (omega arith) (omega arith)

-- Two partitions: the first has lost two records to the noise, and the second has a tree of one.
partition_run :
    (repartition sample_noise eleven_tenths sample_info none true 2 3).1
    ≡ record {
      index = (one ∷ []) ∷ (two ∷ []) ∷ [];
      synopsis = 4;
      noisy_synopsis = 2;
      dummy_num = 0;
      stash_overflow_count = 2;
    }
      ∷ record {
        index = (three ∷ []) ∷ [];
        synopsis = 1;
        noisy_synopsis = 1;
        dummy_num = 0;
        stash_overflow_count = 0;
      }
      ∷ []
unfolding repartition make_sorted_bins noised_bins pack fixed_count first_threshold signed_total
    lookup
partition_run = refl
