-- ===== src/Placement/Servers.antt =====
-- After the distribution, every record, bin and partition is found on its server.
use de_part.Prelude.{
  ℕ, ◌+◌, ◌≤◌, ◌<◌, ◌≡◌, refl, sym, ap, subst, ◌∙◌, inl, inr, List, [], ◌∷◌, some, arith, ℤ,
  int_key, nat_key, Bytes, bytes_key, lookup, insert, lookup-insert_self, lookup-insert_ne, length,
  get_elem?, Member, Member-append_left, Member-append_right, Distinct, u32_mod,
}
use de_part.Bins.{BinInfo}
use de_part.Repartition.{Partition}
use de_part.Repartition.Packing.{indexes}
use de_part.Sending.{lookup_block_id, find_block, block_or_none}
use de_part.Placement.{
  ServerInfo, Placed, Walk, or_no_blocks, place_record, place_records, records_of_bin, place_bins,
  place_partition, after_place, place_partitions,
}
use de_part.Placement.Blocks.{records_of, place_bins-records, Keyed, place_records-lookup}

unfoldable pub server_ids : List ServerInfo → List ℤ
server_ids [] = []
server_ids (s ∷ servers) = s.server_id ∷ server_ids servers

module _ (pk_mapper : ℕ → ℕ) (info : BinInfo) where
  -- The bins that a partition's loop notes.
  place_records-bins :
      (idxs : List ℕ) (w : Walk) → (place_records pk_mapper info idxs w).bins ≡ w.bins
  unfolding place_records place_record
  place_records-bins [] w = refl
  place_records-bins (i ∷ idxs) w = place_records-bins idxs (place_record pk_mapper info i w)

  place_bins-others :
      (part_id : ℕ) (index : List Bytes) (w : Walk) (key : Bytes)
      → (¬ Member key index)
      → lookup key (place_bins pk_mapper info part_id index w).bins ≡ lookup key w.bins
  unfolding place_bins
  place_bins-others part_id [] w key h = refl
  place_bins-others part_id (k ∷ index) w key h =
      let r = records_of_bin pk_mapper info k in
      let noted : Walk = record w { bins = insert k part_id w.bins } in
      place_bins-others part_id index (place_records pk_mapper info r noted) key (λ m. h (inr m))
      ∙ ap (lookup key) (place_records-bins r noted)
      ∙ lookup-insert_ne k key part_id w.bins (λ e. h (inl (sym e)))

  place_bins-own :
      (part_id : ℕ) (index : List Bytes) (w : Walk) (key : Bytes)
      → Distinct index
      → Member key index
      → lookup key (place_bins pk_mapper info part_id index w).bins ≡ some part_id
  unfolding place_bins
  place_bins-own part_id [] w key d m = absurd m
  place_bins-own part_id (k ∷ index) w key d (inl e) =
      let r = records_of_bin pk_mapper info k in
      let noted : Walk = record w { bins = insert k part_id w.bins } in
      place_bins-others part_id index (place_records pk_mapper info r noted) key
        (λ m. d.0 (subst (λ x. Member x index) e m))
      ∙ ap (lookup key) (place_records-bins r noted)
      ∙ ap (λ x. lookup x (insert k part_id w.bins)) e
      ∙ lookup-insert_self k part_id w.bins
  place_bins-own part_id (k ∷ index) w key d (inr m) =
      place_bins-own part_id index
        (place_records pk_mapper info (records_of_bin pk_mapper info k)
          (record w { bins = insert k part_id w.bins }))
        key d.1 m

  -- What the later partitions leave alone.
  abbrev Keeps : ℕ → List Partition → List ServerInfo → Placed → Placed → Type 0
  Keeps part_id partitions servers st st' =
      ((id : ℤ)
        → (¬ Member id (server_ids servers))
        → lookup id st'.pk_to_blockid ≡ lookup id st.pk_to_blockid)
      × ((p : ℕ)
          → p < part_id
          → lookup p st'.partition_id_to_server_id ≡ lookup p st.partition_id_to_server_id)
      × ((key : Bytes)
          → (¬ Member key (indexes partitions))
          → lookup key st'.bin_key_to_partition_id ≡ lookup key st.bin_key_to_partition_id)

  pub place_partitions-Keeps :
      (part_id : ℕ) (partitions : List Partition) (servers : List ServerInfo) (st : Placed)
      → length partitions ≤ length servers
      → (servers' : List ServerInfo) × (st' : Placed) × (place_partitions pk_mapper info part_id
            partitions servers st
          ≡ some (servers', st'))
        × Keeps part_id partitions servers st st'
  unfolding place_partitions after_place place_partition server_ids indexes
  place_partitions-Keeps part_id [] servers st h =
      (servers, st, refl, (λ id n. refl, λ p n. refl, λ key n. refl))
  place_partitions-Keeps part_id (part ∷ partitions) [] st h = absurd (omega arith)
  place_partitions-Keeps part_id (part ∷ partitions) (server ∷ servers) st h =
      let placed = place_partition pk_mapper info part_id part server st in
      let (servers', st', e, keeps) =
        place_partitions-Keeps (part_id + 1) partitions servers placed.1 (omega arith) in
      (
        placed.0 ∷ servers',
        st',
        ap (after_place pk_mapper info placed.0) e,
        (
          λ id n.
              keeps.0 id (λ m. n (inr m))
              ∙ lookup-insert_ne server.server_id id _ st.pk_to_blockid (λ q. n (inl (sym q))),
          λ p n.
              keeps.1 p (omega arith)
              ∙ lookup-insert_ne part_id p server.server_id st.partition_id_to_server_id
                  (omega arith),
          λ key n.
              keeps.2 key (λ m. n (Member-append_right key part.index (indexes partitions) m))
              ∙ place_bins-others part_id part.index
                  (record {
                    assigned = server.assigned_data_indices;
                    server_pkmap = or_no_blocks (lookup server.server_id st.pk_to_blockid);
                    block_counter = 0;
                    bins = st.bin_key_to_partition_id;
                  })
                  key (λ m. n (Member-append_left key part.index (indexes partitions) m)),
        ),
      )

  -- Where the partition `p` with these bins is on this server.
  pub record Found (p : ℕ) (part : Partition) (server : ServerInfo) (st : Placed) : Type 0 where
    pub blocks :
        (i idx : ℕ)
        → get_elem? (records_of pk_mapper info part.index) i ≡ some idx
        → lookup_block_id st.pk_to_blockid server.server_id (pk_mapper idx) ≡ i
    pub on_server : lookup p st.partition_id_to_server_id ≡ some server.server_id
    pub bins_here :
        (key : Bytes) → Member key part.index → lookup key st.bin_key_to_partition_id ≡ some p

  -- One partition, just placed.
  start_walk : ServerInfo → Placed → Walk
  start_walk server st = record {
    assigned = server.assigned_data_indices;
    server_pkmap = or_no_blocks (lookup server.server_id st.pk_to_blockid);
    block_counter = 0;
    bins = st.bin_key_to_partition_id;
  }

  module _ (part_id : ℕ) (part : Partition) (server : ServerInfo) (st st' : Placed)
      (keyed : Keyed pk_mapper info (records_of pk_mapper info part.index))
      (small : length (records_of pk_mapper info part.index) < u32_mod) (once : Distinct part.index)
      (same_blocks : lookup server.server_id st'.pk_to_blockid
        ≡ lookup server.server_id
            (place_partition pk_mapper info part_id part server st).1.pk_to_blockid)
      (same_server : lookup part_id st'.partition_id_to_server_id
        ≡ lookup part_id
            (place_partition pk_mapper info part_id part server st).1.partition_id_to_server_id)
      (same_bins : (key : Bytes)
        → Member key part.index
        → lookup key st'.bin_key_to_partition_id
          ≡ lookup key
              (place_partition pk_mapper info part_id part server
                st).1.bin_key_to_partition_id) where
    pub Found-placed : Found part_id part server st'
    unfolding place_partition start_walk lookup_block_id
    Found-placed =
        let w = start_walk server st in
        let rs = records_of pk_mapper info part.index in
        let walked = place_bins-records pk_mapper info part_id part.index w in
        record {
          blocks = λ i idx e.
              let found =
                ap (lookup (pk_mapper idx)) walked.1
                ∙ place_records-lookup pk_mapper info rs i idx w keyed e (omega arith) in
              let here = same_blocks ∙ lookup-insert_self server.server_id _ st.pk_to_blockid in
              ap (find_block (pk_mapper idx)) here ∙ ap block_or_none found ∙ omega arith;
          on_server =
              same_server
              ∙ lookup-insert_self part_id server.server_id st.partition_id_to_server_id;
          bins_here = λ key m. same_bins key m ∙ place_bins-own part_id part.index w key once m;
        }
