-- ===== src/Placement/Blocks.antt =====
-- The blocks of one partition are numbered in the order in which its records are inserted.
use de_part.Prelude.{
  ℕ, zero, suc, ◌+◌, ◌<◌, ◌≡◌, refl, sym, ap, subst, ◌∙◌, ◌≢◌, inl, inr, List, [], ◌∷◌, ◌++◌, some,
  arith, int_key, nat_key, Bytes, bytes_key, lookup, insert, lookup-insert_self, lookup-insert_ne,
  length, get_elem?, Member, inc32, u32_mod,
}
use mathlib.Core.List.{append_assoc, append-nil}
use de_part.Bins.{BinInfo}
use de_part.Placement.{Walk, place_record, place_records, records_of_bin, place_bins}

module _ (pk_mapper : ℕ → ℕ) (info : BinInfo) where
  -- The records of a list of bins, in order.
  unfoldable pub records_of : List Bytes → List ℕ
  unfolding lookup
  records_of [] = []
  records_of (bin_key ∷ index) = records_of_bin pk_mapper info bin_key ++ records_of index

  -- Everything but the bins' partitions.
  abbrev SameBlocks : Walk → Walk → Type 0
  SameBlocks v w =
      (v.assigned ≡ w.assigned)
      × (v.server_pkmap ≡ w.server_pkmap)
      × (v.block_counter ≡ w.block_counter)

  place_records-same :
      (idxs : List ℕ) (v w : Walk)
      → SameBlocks v w
      → SameBlocks (place_records pk_mapper info idxs v) (place_records pk_mapper info idxs w)
  unfolding place_records place_record
  place_records-same [] v w h = h
  place_records-same (i ∷ idxs) v w (a, m, c) =
      place_records-same idxs (place_record pk_mapper info i v) (place_record pk_mapper info i w) (
        ap (λ l. l ++ i ∷ []) a,
        ap (λ x. insert (pk_mapper i) x v.server_pkmap) c
            ∙ ap (insert (pk_mapper i) w.block_counter) m,
        ap inc32 c,
      )

  place_records-append :
      (xs ys : List ℕ) (w : Walk)
      → place_records pk_mapper info (xs ++ ys) w
        ≡ place_records pk_mapper info ys (place_records pk_mapper info xs w)
  unfolding place_records
  place_records-append [] ys w = refl
  place_records-append (x ∷ xs) ys w = place_records-append xs ys (place_record pk_mapper info x w)

  SameBlocks-trans : (a b c : Walk) → SameBlocks a b → SameBlocks b c → SameBlocks a c
  SameBlocks-trans a b c (p, q, r) (p', q', r') = (p ∙ p', q ∙ q', r ∙ r')

  pub place_bins-records :
      (part_id : ℕ) (index : List Bytes) (w : Walk)
      → SameBlocks
          (place_bins pk_mapper info part_id index w)
          (place_records pk_mapper info (records_of index) w)
  unfolding place_bins records_of place_records
  place_bins-records part_id [] w = (refl, refl, refl)
  place_bins-records part_id (bin_key ∷ index) w =
      let r = records_of_bin pk_mapper info bin_key in
      let noted : Walk = record w { bins = insert bin_key part_id w.bins } in
      SameBlocks-trans
        (place_bins pk_mapper info part_id index (place_records pk_mapper info r noted))
        (place_records pk_mapper info (records_of index) (place_records pk_mapper info r noted))
        (place_records pk_mapper info (r ++ records_of index) w)
        (place_bins-records part_id index (place_records pk_mapper info r noted))
        (subst
          (SameBlocks (
            place_records pk_mapper info (records_of index) (place_records pk_mapper info r noted)))
          (sym (place_records-append r (records_of index) w))
          (place_records-same (records_of index) (place_records pk_mapper info r noted)
            (place_records pk_mapper info r w) (place_records-same r noted w (refl, refl, refl))))

  pub assigned-place_records :
      (idxs : List ℕ) (w : Walk)
      → (place_records pk_mapper info idxs w).assigned ≡ w.assigned ++ idxs
  unfolding place_records place_record
  assigned-place_records [] w = sym (append-nil w.assigned)
  assigned-place_records (i ∷ idxs) w =
      assigned-place_records idxs (place_record pk_mapper info i w)
      ∙ append_assoc w.assigned (i ∷ []) idxs

  -- No other record has this one's key.
  abbrev KeyApart : ℕ → List ℕ → Type 0
  KeyApart i idxs = (j : ℕ) → Member j idxs → pk_mapper j ≢ pk_mapper i

  place_records-others :
      (i : ℕ) (idxs : List ℕ) (w : Walk)
      → KeyApart i idxs
      → lookup (pk_mapper i) (place_records pk_mapper info idxs w).server_pkmap
        ≡ lookup (pk_mapper i) w.server_pkmap
  unfolding place_records place_record
  place_records-others i [] w h = refl
  place_records-others i (j ∷ idxs) w h =
      place_records-others i idxs (place_record pk_mapper info j w) (λ k m. h k (inr m))
      ∙ lookup-insert_ne (pk_mapper j) (pk_mapper i) w.block_counter w.server_pkmap (h j (inl refl))

  -- Different records have different keys.
  abbrev pub Keyed : List ℕ → Type 0
  Keyed [] = Unit
  Keyed (i ∷ idxs) = KeyApart i idxs × Keyed idxs

  pub place_records-lookup :
      (idxs : List ℕ) (n i : ℕ) (w : Walk)
      → Keyed idxs
      → get_elem? idxs n ≡ some i
      → w.block_counter + length idxs < u32_mod
      → lookup (pk_mapper i) (place_records pk_mapper info idxs w).server_pkmap
        ≡ some (w.block_counter + n)
  unfolding place_records place_record
  place_records-lookup [] n i w k e h = cc
  place_records-lookup (j ∷ idxs) zero i w k e h =
      let same : j ≡ i = cc in
      subst
        (λ x.
          lookup (pk_mapper x)
            (place_records pk_mapper info idxs (place_record pk_mapper info j w)).server_pkmap
          ≡ some (w.block_counter + 0))
        same
        (place_records-others j idxs (place_record pk_mapper info j w) k.0
          ∙ lookup-insert_self (pk_mapper j) w.block_counter w.server_pkmap
          ∙ ap some (omega arith))
  place_records-lookup (j ∷ idxs) (suc n) i w k e h =
      let next : inc32 w.block_counter ≡ w.block_counter + 1 = omega arith in
      place_records-lookup idxs n i (place_record pk_mapper info j w) k.1 e (omega arith)
      ∙ ap some (omega arith)
