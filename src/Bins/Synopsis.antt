-- ===== src/Bins/Synopsis.antt =====
-- The synopsis counts the lines of each bin, and the index lists say which they are.
use de_part.Prelude.{
  ℕ, true, false, Option, none, some, subst, fun_ext, get_elem?, ◌+◌, ◌≤◌, ◌<◌, ◌≡◌, refl, sym, ap,
  ◌∙◌, ◌≢◌, ◌⊎◌, inl, inr, Member, ltb→lt, Bool, List, [], ◌∷◌, ◌++◌, arith, ltb, if◌then◌else◌,
  Bool-cases, ℤ, pos, negsuc, Bytes, bytes_key, ◌=?◌, map, length, places, lookup, lookup-insert,
  inc32, to_u32, u32_mod,
}
use mathlib.Core.List.{append_assoc, append-nil}
use de_part.Bins.{
  BinInfo, new_bin_info, or_zero, or_no_index, bin_key, add_line, add_lines, SynopsisResult, thrown,
  made, no_attributes, invalid_attribute, checked, compute_synopsis, combine, split_csv_line,
}

-- Each bin's count and places, and the bin of each line, where `key` gives a line its bin.
abbrev pub Counts : (Bytes → Bytes) → List Bytes → BinInfo → Type 0
Counts key lines info =
    (info.data_index_to_bin_key ≡ map key lines)
    × ((v : Bytes)
        → (or_zero (lookup v info.synopsis)
            ≡ length (places (λ (line : Bytes). key line =? v) 0 lines))
          × (or_no_index (lookup v info.bin_key_to_data_indices)
              ≡ places (λ (line : Bytes). key line =? v) 0 lines))

-- The fields of the attributes, up to the first that the line does not have.
pub selected : List Bytes → List ℕ → List Bytes
selected fields [] = []
selected fields (idx ∷ attributes) = elim (get_elem? fields idx) [
  | none ↦ []
  | some field ↦ field ∷ selected fields attributes
]

-- Strings with a separator between each two.
pub joined : Bytes → List Bytes → Bytes
joined separator [] = []
joined separator (f ∷ []) = f
joined separator (f ∷ g ∷ fs) = f ++ (separator ++ joined separator (g ∷ fs))

-- a separator before the next string, where there is one
led : Bytes → List Bytes → Bytes
unfolding joined
led separator [] = []
led separator (f ∷ fs) = separator ++ joined separator (f ∷ fs)

joined-cons :
    (separator f : Bytes) (fs : List Bytes) → joined separator (f ∷ fs) ≡ f ++ led separator fs
unfolding joined led
joined-cons separator f [] = sym (append-nil f)
joined-cons separator f (g ∷ fs) = refl

combine-led :
    (separator : Bytes) (fields : List Bytes) (attributes : List ℕ)
    → combine true separator fields attributes ≡ led separator (selected fields attributes)
unfolding combine led selected
combine-led separator fields [] = refl
combine-led separator fields (idx ∷ attributes) =
    at (get_elem? fields idx) (combine-led separator fields attributes)
  where
    at :
        (o : Option Bytes)
        → combine true separator fields attributes ≡ led separator (selected fields attributes)
        → (elim o [
          | none ↦ []
          | some field ↦ separator ++ (field ++ combine true separator fields attributes)
        ])
          ≡ led separator (elim o [ none ↦ [] | some field ↦ field ∷ selected fields attributes ])
    at none later = refl
    at (some field) later =
        ap (λ l. separator ++ (field ++ l)) (later)
        ∙ ap (λ l. separator ++ l) (sym (joined-cons separator field (selected fields attributes)))

combine-joined :
    (separator : Bytes) (fields : List Bytes) (attributes : List ℕ)
    → combine false separator fields attributes ≡ joined separator (selected fields attributes)
unfolding combine joined selected led
combine-joined separator fields [] = refl
combine-joined separator fields (idx ∷ attributes) =
    at (get_elem? fields idx) (combine-led separator fields attributes)
  where
    at :
        (o : Option Bytes)
        → combine true separator fields attributes ≡ led separator (selected fields attributes)
        → (elim o [ none ↦ [] | some field ↦ field ++ combine true separator fields attributes ])
          ≡ joined separator
              (elim o [ none ↦ [] | some field ↦ field ∷ selected fields attributes ])
    at none later = refl
    at (some field) later =
        ap (λ l. field ++ l) (later)
        ∙ sym (joined-cons separator field (selected fields attributes))

module _ (attributes : List ℕ) (separator : Bytes) (primary_key_col : ℤ) where
  -- the bin of a line
  abbrev of_bin : Bytes → Bytes → Bool
  of_bin v line = bin_key attributes separator primary_key_col line =? v

  add_line-count :
      (i : ℕ) (line v : Bytes) (info : BinInfo)
      → or_zero (lookup v (add_line attributes separator primary_key_col i line info).synopsis) ≡ (
          if of_bin v line
          then inc32 (or_zero (lookup v info.synopsis))
          else or_zero (lookup v info.synopsis))
  unfolding add_line
  add_line-count i line v info = ground (
    arith,
    lookup-insert (bin_key attributes separator primary_key_col line) v
        (inc32 (or_zero (lookup (bin_key attributes separator primary_key_col line) info.synopsis)))
        info.synopsis,
    bytes_key.beq_iff (bin_key attributes separator primary_key_col line) v,
  )

  add_line-indices :
      (i : ℕ) (line v : Bytes) (info : BinInfo)
      → or_no_index (
          lookup v
            (add_line attributes separator primary_key_col i line info).bin_key_to_data_indices)
        ≡ (if of_bin v line
            then or_no_index (lookup v info.bin_key_to_data_indices) ++ to_u32 i ∷ []
            else or_no_index (lookup v info.bin_key_to_data_indices))
  unfolding add_line
  add_line-indices i line v info = ground (
    arith,
    lookup-insert (bin_key attributes separator primary_key_col line) v
        (or_no_index (
            lookup (bin_key attributes separator primary_key_col line) info.bin_key_to_data_indices)
          ++ to_u32 i ∷ [])
        info.bin_key_to_data_indices,
    bytes_key.beq_iff (bin_key attributes separator primary_key_col line) v,
  )

  add_lines-count :
      (i : ℕ) (lines : List Bytes) (v : Bytes) (info : BinInfo)
      → or_zero (lookup v info.synopsis) + length lines < u32_mod
      → or_zero (lookup v (add_lines attributes separator primary_key_col i lines info).synopsis)
        ≡ or_zero (lookup v info.synopsis) + length (places (of_bin v) i lines)
  unfolding add_lines
  add_lines-count i [] v info h = omega arith
  add_lines-count i (line ∷ lines) v info h =
      let info' = add_line attributes separator primary_key_col i line info in
      let step = add_line-count i line v info in
      elim (Bool-cases (of_bin v line)) [
        | inl e ↦
            let one : or_zero (lookup v info'.synopsis) ≡ or_zero (lookup v info.synopsis) + 1 =
              step ∙ rw e (omega arith) in
            rw e (omega (arith, add_lines-count (i + 1) lines v info' (omega arith), one))
        | inr e ↦
            let same : or_zero (lookup v info'.synopsis) ≡ or_zero (lookup v info.synopsis) =
              step ∙ rw e refl in
            rw e (omega (arith, add_lines-count (i + 1) lines v info' (omega arith), same))
      ]

  add_lines-indices :
      (i : ℕ) (lines : List Bytes) (v : Bytes) (info : BinInfo)
      → i + length lines < u32_mod
      → or_no_index (
          lookup v
            (add_lines attributes separator primary_key_col i lines info).bin_key_to_data_indices)
        ≡ or_no_index (lookup v info.bin_key_to_data_indices) ++ places (of_bin v) i lines
  unfolding add_lines
  add_lines-indices i [] v info h = sym (append-nil _)
  add_lines-indices i (line ∷ lines) v info h =
      let info' = add_line attributes separator primary_key_col i line info in
      let old = or_no_index (lookup v info.bin_key_to_data_indices) in
      let small : to_u32 i ≡ i = omega arith in
      let later = add_lines-indices (i + 1) lines v info' (omega arith) in
      elim (Bool-cases (of_bin v line)) [
        | inl e ↦ rw e (
            later
            ∙ ap (λ l. l ++ places (of_bin v) (i + 1) lines)
                (add_line-indices i line v info ∙ rw e (ap (λ n. old ++ n ∷ []) small))
            ∙ append_assoc old (i ∷ []) (places (of_bin v) (i + 1) lines))
        | inr e ↦ rw e (
            later
            ∙ ap (λ l. l ++ places (of_bin v) (i + 1) lines)
                (add_line-indices i line v info ∙ rw e refl))
      ]

  add_lines-keys :
      (i : ℕ) (lines : List Bytes) (info : BinInfo)
      → (add_lines attributes separator primary_key_col i lines info).data_index_to_bin_key
        ≡ info.data_index_to_bin_key ++ map (bin_key attributes separator primary_key_col) lines
  unfolding add_lines add_line
  add_lines-keys i [] info = sym (append-nil _)
  add_lines-keys i (line ∷ lines) info =
      let v = bin_key attributes separator primary_key_col line in
      add_lines-keys (i + 1) lines (add_line attributes separator primary_key_col i line info)
      ∙ append_assoc info.data_index_to_bin_key (v ∷ [])
          (map (bin_key attributes separator primary_key_col) lines)

  add_lines-Counts :
      (lines : List Bytes)
      → length lines < u32_mod
      → Counts
          (bin_key attributes separator primary_key_col)
          lines
          (add_lines attributes separator primary_key_col 0 lines new_bin_info)
  unfolding lookup
  add_lines-Counts lines h = (
    add_lines-keys 0 lines new_bin_info,
    λ v. (
      add_lines-count 0 lines v new_bin_info (omega arith) ∙ omega arith,
      add_lines-indices 0 lines v new_bin_info (omega arith),
    ),
  )

  -- What computeSynopsis makes of the lines with these attributes.
  abbrev pub CountsLines : List Bytes → BinInfo → Type 0
  CountsLines = Counts (λ line. joined separator (selected (split_csv_line line) attributes))

  add_lines-CountsLines :
      (lines : List Bytes)
      → length lines < u32_mod
      → CountsLines lines (add_lines attributes separator primary_key_col 0 lines new_bin_info)
  add_lines-CountsLines lines h =
      subst
        (λ (f : Bytes → Bytes).
          Counts f lines (add_lines attributes separator primary_key_col 0 lines new_bin_info))
        (fun_ext (λ line. combine-joined separator (split_csv_line line) attributes))
        (add_lines-Counts lines h)

-- The attribute indices as naturals, where all are in range.
abbrev pub InRange : ℕ → List ℤ → List ℕ → Type 0
InRange num_fields [] [] = Unit
InRange num_fields [] (i ∷ idxs) = ⊥
InRange num_fields (a ∷ attributes) [] = ⊥
InRange num_fields (a ∷ attributes) (i ∷ idxs) =
    (a ≡ pos i) × (i < num_fields) × InRange num_fields attributes idxs

abbrev pub OutOfRange : ℕ → ℤ → Type 0
OutOfRange num_fields (pos i) = num_fields ≤ i
OutOfRange num_fields (negsuc n) = Unit

checked-cases :
    (num_fields : ℕ) (attributes : List ℤ) (rest : List ℕ → SynopsisResult)
    → ((idxs : List ℕ) × InRange num_fields attributes idxs
        × (checked num_fields attributes rest ≡ rest idxs))
      ⊎ ((a : ℤ) × Member a attributes
          × OutOfRange num_fields a
          × (checked num_fields attributes rest ≡ thrown (invalid_attribute a)))
unfolding checked
checked-cases num_fields [] rest = inl ([], tt, refl)
checked-cases num_fields (negsuc n ∷ attributes) rest = inr (negsuc n, inl refl, tt, refl)
checked-cases num_fields (pos idx ∷ attributes) rest = elim (Bool-cases (ltb idx num_fields)) [
  | inr e ↦ inr (pos idx, inl refl, ground (arith, e), rw e refl)
  | inl e ↦ elim (checked-cases num_fields attributes (λ idxs. rest (idx ∷ idxs))) [
    | inl (idxs, inside, same) ↦
        inl (idx ∷ idxs, (refl, ltb→lt idx num_fields e, inside), rw e same)
    | inr (a, m, outside, same) ↦ inr (a, inr m, outside, rw e same)
  ]
]

-- For fewer than 2^32 lines, computeSynopsis throws exactly where there are no attributes or, with
-- one that is such, where an attribute index is negative or not below the number of fields.
-- Otherwise it counts for every bin the lines whose fields at the attributes, up to the first that
-- the line lacks, joined by the separator, are the bin's key, lists the places of these lines in
-- order, and records each line's bin.
pub compute_synopsis-counts :
    (lines : List Bytes) (num_fields : ℕ) (attributes : List ℤ) (separator : Bytes)
    (primary_key_col : ℤ)
    → length lines < u32_mod
    → ((attributes ≡ [])
        × (compute_synopsis lines num_fields attributes separator primary_key_col
            ≡ thrown no_attributes))
      ⊎ ((a : ℤ) × Member a attributes
          × OutOfRange num_fields a
          × (compute_synopsis lines num_fields attributes separator primary_key_col
              ≡ thrown (invalid_attribute a)))
      ⊎ ((idxs : List ℕ) × (info : BinInfo) × (attributes ≢ [])
          × InRange num_fields attributes idxs
          × (compute_synopsis lines num_fields attributes separator primary_key_col ≡ made info)
          × CountsLines idxs separator primary_key_col lines info)
unfolding compute_synopsis
compute_synopsis-counts lines num_fields [] separator primary_key_col h = inl (refl, refl)
compute_synopsis-counts lines num_fields (a ∷ attributes) separator primary_key_col h =
    elim (checked-cases num_fields (a ∷ attributes)
      (λ idxs. made (add_lines idxs separator primary_key_col 0 lines new_bin_info))) [
        | inr (b, m, outside, same) ↦ inr (inl (b, m, outside, same))
        | inl (idxs, inside, same) ↦ inr (
            inr (
              idxs,
              add_lines idxs separator primary_key_col 0 lines new_bin_info,
              (λ e. cc),
              inside,
              same,
              add_lines-CountsLines idxs separator primary_key_col lines h,
            ))
      ]
