-- ===== src/Bins.antt =====
-- src/Repartition.cpp, include/Repartition.h: splitCSVLine and computeSynopsis, which counts the lines
-- of each bin. Strings are bytes; the counts are uint32_t.
pub mod Fields
pub mod Synopsis
use de_part.Prelude.{
  ℕ, zero, suc, ◌+◌, ◌-◌, ◌*◌, ◌/◌, ◌≡◌, Bool, true, false, not, ◌&&◌, ◌||◌, List, [], ◌∷◌, ◌++◌,
  Option, none, some, min, ltb, leb, ◌==◌, if◌then◌else◌, ℤ, pos, negsuc, int_before, Bytes,
  bytes_before, bytes_key, lookup, insert, length, get_elem?, to_u32, inc32, stable_sort,
}

-- `splitCSVLine`: std::getline on a separator. What follows the last separator is a token unless
-- it is empty.
pub split_from : ℕ → Bytes → Bytes → List Bytes
split_from delimiter [] [] = []
split_from delimiter (b ∷ token) [] = (b ∷ token) ∷ []
split_from delimiter token (c ∷ line) =
    let more = split_from delimiter (token ++ c ∷ []) line in
    let next = split_from delimiter [] line in if c == delimiter then token ∷ next else more

-- ','
abbrev pub comma : ℕ
comma = 44

unfoldable pub split_csv_line : Bytes → List Bytes
unfolding split_from
split_csv_line line = split_from comma [] line

pub record BinInfo : Type 0 where
  pub synopsis : List (Bytes × ℕ)
  pub noised_synopsis : List (Bytes × ℕ)
  pub data_index_to_bin_key : List Bytes
  pub bin_key_to_data_indices : List (Bytes × List ℕ)
  pub primary_key_to_data_index : List (Bytes × ℕ)

abbrev pub new_bin_info : BinInfo
new_bin_info = record {
  synopsis = [];
  noised_synopsis = [];
  data_index_to_bin_key = [];
  bin_key_to_data_indices = [];
  primary_key_to_data_index = [];
}

abbrev pub or_zero : Option ℕ → ℕ
or_zero none = 0
or_zero (some n) = n

abbrev pub or_no_index : Option (List ℕ) → List ℕ
or_no_index none = []
or_no_index (some l) = l

-- `combined_value`: the fields of the attributes with the separator between them, up to the first
-- that the line does not have. The flag is `i > 0`.
unfoldable pub combine : Bool → Bytes → List Bytes → List ℕ → Bytes
combine later separator fields [] = []
combine later separator fields (idx ∷ attributes) = elim (get_elem? fields idx) [
  | none ↦ []
  | some field ↦
      (if later then separator else []) ++ (field ++ combine true separator fields attributes)
]

-- `if (primary_key_col >= 0 && primary_key_col < fields.size())`
abbrev key_field : ℤ → List Bytes → Option Bytes
key_field (pos col) fields = get_elem? fields col
key_field (negsuc n) fields = none

note_key : Option Bytes → ℕ → List (Bytes × ℕ) → List (Bytes × ℕ)
unfolding insert
note_key none data_idx m = m
note_key (some key) data_idx m = insert key (to_u32 data_idx) m

module _ (attributes : List ℕ) (separator : Bytes) (primary_key_col : ℤ) where
  abbrev pub bin_key : Bytes → Bytes
  bin_key line = combine false separator (split_csv_line line) attributes

  pub add_line : ℕ → Bytes → BinInfo → BinInfo
  unfolding lookup insert note_key
  add_line data_idx line info =
      let v = combine false separator (split_csv_line line) attributes in
      record info {
        synopsis = insert v (inc32 (or_zero (lookup v info.synopsis))) info.synopsis;
        data_index_to_bin_key = info.data_index_to_bin_key ++ v ∷ [];
        bin_key_to_data_indices =
            insert v (or_no_index (lookup v info.bin_key_to_data_indices) ++ to_u32 data_idx ∷ [])
              info.bin_key_to_data_indices;
        primary_key_to_data_index =
            note_key (key_field primary_key_col (split_csv_line line)) data_idx
              info.primary_key_to_data_index;
      }

  pub add_lines : ℕ → List Bytes → BinInfo → BinInfo
  unfolding add_line
  add_lines data_idx [] info = info
  add_lines data_idx (line ∷ data') info =
      add_lines (data_idx + 1) data' (add_line data_idx line info)

-- The std::invalid_argument of computeSynopsis.
pub data SynopsisError : Type 0 where
  no_attributes : SynopsisError
  invalid_attribute : ℤ → SynopsisError

pub data SynopsisResult : Type 0 where
  thrown : SynopsisError → SynopsisResult
  made : BinInfo → SynopsisResult

-- The checks of the attribute indices, which are then all naturals.
pub checked : ℕ → List ℤ → (List ℕ → SynopsisResult) → SynopsisResult
checked num_fields [] rest = rest []
checked num_fields (negsuc n ∷ attributes) rest = thrown (invalid_attribute (negsuc n))
checked num_fields (pos idx ∷ attributes) rest =
    let later = checked num_fields attributes (λ idxs. rest (idx ∷ idxs)) in
    if ltb idx num_fields then later else thrown (invalid_attribute (pos idx))

unfoldable pub compute_synopsis : List Bytes → ℕ → List ℤ → Bytes → ℤ → SynopsisResult
unfolding checked add_lines
compute_synopsis lines num_fields [] separator primary_key_col = thrown no_attributes
compute_synopsis lines num_fields (a ∷ attributes) separator primary_key_col =
    checked num_fields (a ∷ attributes)
      (λ idxs. made (add_lines idxs separator primary_key_col 0 lines new_bin_info))
