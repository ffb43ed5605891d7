-- ===== src/Placement.antt =====
-- src/MultiRingORAM_Servers.cpp: distributeDataToPartitions, which assigns the records of the
-- partitions' bins to the servers and numbers their blocks, and getServerIdForBinKey and
-- getServerIdForPartition. `pk_mapper` is the mapper that the application sets.
pub mod Blocks
pub mod Servers
pub mod Distribution
use de_part.Prelude.{
  ℕ, zero, suc, ◌+◌, List, [], ◌∷◌, ◌++◌, Option, none, some, ℤ, negsuc, int_key, nat_key, Bytes,
  bytes_key, lookup, insert, inc32,
}
use de_part.Bins.{BinInfo, or_no_index}
use de_part.Repartition.{Partition}
use de_part.Sending.{PkMap}

pub record ServerInfo : Type 0 where
  pub server_id : ℤ
  pub assigned_data_indices : List ℕ

-- The maps of MultiRingORAM_Servers.
pub record Placed : Type 0 where
  pub pk_to_blockid : PkMap
  pub partition_id_to_server_id : List (ℕ × ℤ)
  pub server_id_to_partition_id : List (ℤ × ℕ)
  pub bin_key_to_partition_id : List (Bytes × ℕ)

-- What the loop over one partition's bins changes.
pub record Walk : Type 0 where
  pub assigned : List ℕ
  pub server_pkmap : List (ℕ × ℕ)
  pub block_counter : ℕ
  pub bins : List (Bytes × ℕ)

abbrev pub or_no_blocks : Option (List (ℕ × ℕ)) → List (ℕ × ℕ)
or_no_blocks none = []
or_no_blocks (some m) = m

module _ (pk_mapper : ℕ → ℕ) (info : BinInfo) where
  pub place_record : ℕ → Walk → Walk
  unfolding insert
  place_record data_idx w = record w {
    assigned = w.assigned ++ data_idx ∷ [];
    server_pkmap = insert (pk_mapper data_idx) w.block_counter w.server_pkmap;
    block_counter = inc32 w.block_counter;
  }

  pub place_records : List ℕ → Walk → Walk
  unfolding place_record
  place_records [] w = w
  place_records (data_idx ∷ idxs) w = place_records idxs (place_record data_idx w)

  -- the data indices of a bin; none where the bin is not in the map
  abbrev pub records_of_bin : Bytes → List ℕ
  records_of_bin bin_key = or_no_index (lookup bin_key info.bin_key_to_data_indices)

  pub place_bins : ℕ → List Bytes → Walk → Walk
  unfolding place_records lookup insert
  place_bins part_id [] w = w
  place_bins part_id (bin_key ∷ index) w =
      place_bins part_id index
        (place_records (records_of_bin bin_key) (record w { bins = insert bin_key part_id w.bins }))

  -- One partition on its server.
  pub place_partition : ℕ → Partition → ServerInfo → Placed → ServerInfo × Placed
  unfolding place_bins lookup insert
  place_partition part_id part server st =
      let w = place_bins part_id part.index (record {
        assigned = server.assigned_data_indices;
        server_pkmap = or_no_blocks (lookup server.server_id st.pk_to_blockid);
        block_counter = 0;
        bins = st.bin_key_to_partition_id;
      }) in
      (
        record server { assigned_data_indices = w.assigned },
        record {
          pk_to_blockid = insert server.server_id w.server_pkmap st.pk_to_blockid;
          partition_id_to_server_id = insert part_id server.server_id st.partition_id_to_server_id;
          server_id_to_partition_id = insert server.server_id part_id st.server_id_to_partition_id;
          bin_key_to_partition_id = w.bins;
        },
      )

  after_place :
      ServerInfo → Option ((List ServerInfo) × Placed) → Option ((List ServerInfo) × Placed)
  after_place server none = none
  after_place server (some (servers, st)) = some (server ∷ servers, st)

  -- The loop over the partitions; `none` where there are fewer servers than partitions, which the
  -- code does not check.
  pub place_partitions :
      ℕ → List Partition → List ServerInfo → Placed → Option ((List ServerInfo) × Placed)
  unfolding place_partition after_place
  place_partitions part_id [] servers st = some (servers, st)
  place_partitions part_id (part ∷ partitions) [] st = none
  place_partitions part_id (part ∷ partitions) (server ∷ servers) st =
      let placed = place_partition part_id part server st in
      after_place placed.0 (place_partitions (part_id + 1) partitions servers placed.1)

  unfoldable pub distribute_data_to_partitions :
      List Partition → List ServerInfo → Placed → Option ((List ServerInfo) × Placed)
  unfolding place_partitions
  distribute_data_to_partitions partitions servers st =
      place_partitions 0 partitions servers (record st { pk_to_blockid = [] })

abbrev pub server_or_none : Option ℤ → ℤ
server_or_none none = negsuc 0
server_or_none (some id) = id

pub get_server_id_for_partition : Placed → ℕ → ℤ
unfolding lookup
get_server_id_for_partition st part_id =
    server_or_none (lookup part_id st.partition_id_to_server_id)

abbrev pub server_of_partition : Placed → Option ℕ → ℤ
server_of_partition st none = negsuc 0
server_of_partition st (some part_id) = server_or_none (lookup part_id st.partition_id_to_server_id)

pub get_server_id_for_bin_key : Placed → Bytes → ℤ
unfolding lookup
get_server_id_for_bin_key st bin_key =
    server_of_partition st (lookup bin_key st.bin_key_to_partition_id)
