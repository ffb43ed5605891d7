-- ===== src/Repartition.antt =====
-- src/Repartition.cpp, include/Repartition.h: the noise of the synopsis, and the packing of
-- bins into partitions (Algorithms 2, 3 and 4). The noise that is drawn for a bin and the rounding of
-- `ceil(1.1 * T)` in doubles are parameters. Counts are unbounded, but for the uint32_t fields; a
-- threshold is the least whole count that reaches it, `none` where none does. std::sort, which
-- leaves the order of equal bins open, is the stable sort.
pub mod Packing
pub mod Rounds
pub mod Capacity
use de_part.Prelude.{
  ℕ, zero, suc, ◌+◌, ◌-◌, ◌*◌, ◌/◌, ◌≡◌, Bool, true, false, not, ◌&&◌, ◌||◌, List, [], ◌∷◌, ◌++◌,
  Option, none, some, min, ltb, leb, ◌==◌, if◌then◌else◌, ℤ, pos, negsuc, int_before, Bytes,
  bytes_before, bytes_key, lookup, insert, length, get_elem?, to_u32, inc32, stable_sort,
}
use de_part.Bins.{
  comma, BinInfo, or_zero, bin_key, SynopsisError, SynopsisResult, compute_synopsis, thrown, made,
}

-- Sums of signed counts.
infixl 65 ◌+ℤ◌
◌+ℤ◌ : ℤ → ℤ → ℤ
pos a +ℤ pos b = pos (a + b)
pos a +ℤ negsuc b =
    if ltb b a then pos (a - (b + 1)) else if a == b + 1 then pos 0 else negsuc (b - a)
negsuc a +ℤ pos b =
    if ltb a b then pos (b - (a + 1)) else if b == a + 1 then pos 0 else negsuc (a - b)
negsuc a +ℤ negsuc b = negsuc (a + b + 1)

-- `v > 0 ? v : 0`
abbrev pub clamp : ℤ → ℕ
clamp (pos n) = n
clamp (negsuc n) = 0

-- Noised_Synopsis: `noise key` is what is drawn for the bin, rounded.
unfoldable pub noised_bins : (Bytes → ℤ) → List (Bytes × ℕ) → List (Bytes × ℤ)
unfolding ◌+ℤ◌
noised_bins noise [] = []
noised_bins noise ((key, count) ∷ bins) = (key, pos count +ℤ noise key) ∷ noised_bins noise bins

public_bins : List (Bytes × ℤ) → List (Bytes × ℕ)
public_bins [] = []
public_bins ((key, v) ∷ bins) = (key, to_u32 (clamp v)) ∷ public_bins bins

unfoldable pub signed_total : List (Bytes × ℤ) → ℤ
unfolding ◌+ℤ◌
signed_total [] = pos 0
signed_total ((key, v) ∷ bins) = v +ℤ signed_total bins

-- std::stoll: blanks, a sign, and digits; `none` where it throws.
abbrev is_space : ℕ → Bool
is_space c = (c == 32) || (leb 9 c && leb c 13)

abbrev is_digit : ℕ → Bool
is_digit c = leb 48 c && leb c 57

digits : Option ℕ → Bytes → Option ℕ
digits acc [] = acc
digits acc (c ∷ s) =
    let more = digits (some (or_zero acc * 10 + (c - 48))) s in if is_digit c then more else acc

abbrev long_positive : Option ℕ → Option ℤ
long_positive none = none
long_positive (some n) = if ltb n 9223372036854775808 then some (pos n) else none

abbrev long_negative : Option ℕ → Option ℤ
long_negative none = none
long_negative (some n) =
    if n == 0
    then some (pos 0)
    else if leb n 9223372036854775808
    then some (negsuc (n - 1))
    else none

signed_digits : Bytes → Option ℤ
unfolding digits
signed_digits [] = none
signed_digits (c ∷ s) =
    if c == 45
    then long_negative (digits none s)
    else long_positive (if c == 43 then digits none s else digits none (c ∷ s))

stoll : Bytes → Option ℤ
unfolding signed_digits
stoll [] = none
stoll (c ∷ s) = let more = stoll s in if is_space c then more else signed_digits (c ∷ s)

-- The comparison of make_sorted_bins.
abbrev numbers_before : Option ℤ → Option ℤ → Bool → Bool
numbers_before none y text = text
numbers_before (some x) none text = text
numbers_before (some x) (some y) text = int_before x y

pub bin_before : Bytes × ℤ → Bytes × ℤ → Bool
unfolding stoll
bin_before x y = numbers_before (stoll x.0) (stoll y.0) (bytes_before x.0 y.0)

unfoldable pub make_sorted_bins : List (Bytes × ℤ) → List (Bytes × ℤ)
unfolding stable_sort bin_before
make_sorted_bins bins = stable_sort bin_before bins

pub record Partition : Type 0 where
  pub index : List Bytes
  pub synopsis : ℕ
  pub noisy_synopsis : ℕ
  pub dummy_num : ℕ
  pub stash_overflow_count : ℕ

abbrev pub bin_keys : List (Bytes × ℤ) → List Bytes
bin_keys [] = []
bin_keys ((key, v) ∷ bins) = key ∷ bin_keys bins

abbrev pub reached : Option ℕ → ℕ → Bool
reached none acc = false
reached (some t) acc = leb t acc

module _ (synopsis : List (Bytes × ℕ)) where
  -- `cur.synopsis += bin_info.synopsis.at(bin_key)`; the keys are all there
  real_count : List (Bytes × ℤ) → ℕ
  unfolding lookup
  real_count [] = 0
  real_count ((key, v) ∷ bins) = to_u32 (or_zero (lookup key synopsis) + real_count bins)

  -- the partition of these bins
  pub close_partition : List (Bytes × ℤ) → Partition
  unfolding real_count signed_total
  close_partition bins = record {
    index = bin_keys bins;
    synopsis = real_count bins;
    noisy_synopsis = to_u32 (clamp (signed_total bins));
    dummy_num = 0;
    stash_overflow_count = 0;
  }

  -- Remaining bins, if any.
  pub close_rest : List (Bytes × ℤ) → List Partition
  unfolding close_partition
  close_rest [] = []
  close_rest (b ∷ bins) = close_partition (b ∷ bins) ∷ []

  -- The loop over the sorted bins; `opened` are those from `start_idx` on.
  unfoldable pub pack : Option ℕ → ℕ → List (Bytes × ℤ) → List (Bytes × ℤ) → List Partition
  unfolding close_partition close_rest
  pack t acc opened [] = close_rest opened
  pack t acc opened (b ∷ bins) =
      let closed = close_partition (opened ++ b ∷ []) ∷ pack t 0 [] bins in
      let longer = pack t (acc + clamp b.1) (opened ++ b ∷ []) bins in
      if reached t (acc + clamp b.1) then closed else longer

  -- Algorithm 4
  abbrev pub fixed_threshold : Option ℕ → List (Bytes × ℤ) → List Partition
  fixed_threshold t bins = pack t 0 [] bins

  module _ (scale : ℕ → ℕ) (k_eff : ℕ) where
    -- `new_T`: at least one more
    pub raise : Option ℕ → Option ℕ
    raise none = none
    raise (some t) = some (if leb (scale t) t then t + 1 else scale t)

    -- Algorithm 3: rounds that are left, threshold, and the partitions of the round before.
    unfoldable pub fixed_count : ℕ → Option ℕ → List Partition → List (Bytes × ℤ) → List Partition
    unfolding pack raise
    fixed_count zero t parts bins = parts
    fixed_count (suc rounds) t parts bins =
        let parts' = pack t 0 [] bins in
        let later = fixed_count rounds (raise t) parts' bins in
        if leb (length parts') k_eff then parts' else later

-- MAX_ITER
abbrev pub max_iter : ℕ
max_iter = 500

abbrev pub effective_k : ℕ → ℕ → ℕ
effective_k fixed_part_num num_servers =
    if ltb 0 num_servers then min fixed_part_num num_servers else fixed_part_num

-- `ceil(total / k_eff)`, at least 1; a division by zero gives a threshold that nothing reaches.
unfoldable pub first_threshold : ℕ → ℕ → Option ℕ
first_threshold total zero = none
first_threshold total (suc k) = let t = (total + k) / suc k in some (if ltb t 1 then 1 else t)

-- What Repartition_Main comes to: the exception of computeSynopsis, or `bin_info_` and the result.
pub data MainResult : Type 0 where
  failed : SynopsisError → MainResult
  partitioned : BinInfo → List Partition → MainResult

-- The capacity of a partition.
pub set_capacity : Partition → Partition
set_capacity p =
    let noisy = if ltb p.noisy_synopsis 1 then 1 else p.noisy_synopsis in
    record p {
      noisy_synopsis = noisy;
      dummy_num = if leb p.synopsis noisy then noisy - p.synopsis else 0;
      stash_overflow_count = if leb p.synopsis noisy then 0 else p.synopsis - noisy;
    }

pub set_capacities : List Partition → List Partition
unfolding set_capacity
set_capacities [] = []
set_capacities (p ∷ parts) = set_capacity p ∷ set_capacities parts

module _ (noise : Bytes → ℤ) (scale : ℕ → ℕ) where
  -- The partitions before their capacities are set; `threshold_pub` is the one of Algorithm 4.
  pub choose_parts : List (Bytes × ℕ) → Option ℕ → Bool → ℕ → ℕ → List Partition
  choose_parts synopsis threshold_pub fixed_number_part fixed_part_num num_servers =
      let noised = noised_bins noise synopsis in
      let bins = make_sorted_bins noised in
      let k_eff = effective_k fixed_part_num num_servers in
      if fixed_number_part
      then fixed_count synopsis scale k_eff max_iter
          (first_threshold (clamp (signed_total noised)) k_eff) [] bins
      else fixed_threshold synopsis threshold_pub bins

  -- Repartition_Main once the synopsis is made.
  unfoldable pub repartition : BinInfo → Option ℕ → Bool → ℕ → ℕ → BinInfo × List Partition
  unfolding choose_parts set_capacities public_bins
  repartition info threshold_pub fixed_number_part fixed_part_num num_servers = (
    record info { noised_synopsis = public_bins (noised_bins noise info.synopsis) },
    set_capacities
        (choose_parts info.synopsis threshold_pub fixed_number_part fixed_part_num num_servers),
  )

  after_synopsis : SynopsisResult → Option ℕ → Bool → ℕ → ℕ → BinInfo → MainResult
  unfolding repartition
  after_synopsis (thrown e) threshold_pub fixed_number_part fixed_part_num num_servers old =
      failed e
  after_synopsis (made info) threshold_pub fixed_number_part fixed_part_num num_servers old =
      let (info', parts) =
        repartition info threshold_pub fixed_number_part fixed_part_num num_servers in
      partitioned info' parts

  -- The whole of Repartition_Main; `old` is the `bin_info_` before. A synopsis of some lines is
  -- never empty, so that the code's check for an empty one is left out.
  unfoldable pub repartition_main :
      List Bytes → ℕ → List ℤ → Option ℕ → Bool → ℕ → ℤ → ℕ → BinInfo → MainResult
  unfolding after_synopsis compute_synopsis
  repartition_main [] num_fields attributes threshold_pub fixed_number_part fixed_part_num
        primary_key_col num_servers old =
      partitioned old []
  repartition_main (line ∷ lines) num_fields attributes threshold_pub fixed_number_part
        fixed_part_num primary_key_col num_servers old =
      after_synopsis
        (compute_synopsis (line ∷ lines) num_fields attributes (comma ∷ []) primary_key_col)
        threshold_pub fixed_number_part fixed_part_num num_servers old
