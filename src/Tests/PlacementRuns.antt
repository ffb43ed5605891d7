-- ===== src/Tests/PlacementRuns.antt =====
-- Two partitions of sample bins on two servers.
use de_part.Prelude.{
  ℕ, ◌<◌, ◌≡◌, refl, List, [], ◌∷◌, some, arith, pos, int_key, nat_key, bytes_key, Bytes, lookup,
  length, get_elem?, Member, Distinct,
}
use de_part.Repartition.{Partition}
use de_part.Repartition.Packing.{indexes}
use de_part.Sending.{lookup_block_id}
use de_part.Placement.{
  ServerInfo, Placed, distribute_data_to_partitions, get_server_id_for_partition,
  get_server_id_for_bin_key,
}
use de_part.Placement.Blocks.{records_of, Keyed}
use de_part.Placement.Servers.{server_ids}
use de_part.Placement.Distribution.{distribute_data-finds}
use de_part.Tests.PartitionRuns.{one, two, three, sample_info}

abbrev part_of : List Bytes → Partition
part_of index = record {
  index = index;
  synopsis = 0;
  noisy_synopsis = 1;
  dummy_num = 0;
  stash_overflow_count = 0;
}

abbrev sample_parts : List Partition
sample_parts = part_of ((one ∷ []) ∷ (two ∷ []) ∷ []) ∷ part_of ((three ∷ []) ∷ []) ∷ []

abbrev server : ℕ → ServerInfo
server n = record { server_id = pos n; assigned_data_indices = [] }

abbrev nowhere : Placed
nowhere = record {
  pk_to_blockid = [];
  partition_id_to_server_id = [];
  server_id_to_partition_id = [];
  bin_key_to_partition_id = [];
}

abbrev same : ℕ → ℕ
same pk = pk

bins_apart : Distinct (indexes sample_parts)
unfolding indexes
bins_apart = ((λ m. ground arith), ((λ m. ground arith), ((λ m. m), tt)))

servers_apart : Distinct (server_ids (server 5 ∷ server 6 ∷ []))
unfolding server_ids
servers_apart = ((λ m. ground arith), ((λ m. m), tt))

abbrev placed_records : List ℕ
placed_records = records_of same sample_info ((one ∷ []) ∷ (two ∷ []) ∷ [])

records_run : placed_records ≡ 1 ∷ 0 ∷ 2 ∷ 4 ∷ []
unfolding records_of lookup
records_run = refl

records-Keyed : Keyed same sample_info placed_records
unfolding records_of lookup
records-Keyed = (
  (λ j m. ground arith),
  ((λ j m. ground arith), ((λ j m. ground arith), ((λ j m. absurd m), tt))),
)

few_records : length placed_records < 4294967296
unfolding records_of lookup
few_records = omega arith

distribute_data-finds_example :
    (servers' : List ServerInfo) × (st' : Placed) × (distribute_data_to_partitions same sample_info
        sample_parts
        (server 5 ∷ server 6 ∷ [])
        nowhere
      ≡ some (servers', st'))
    × ((i idx : ℕ)
        → get_elem? placed_records i ≡ some idx
        → lookup_block_id st'.pk_to_blockid (pos 5) idx ≡ i)
    × (get_server_id_for_partition st' 0 ≡ pos 5)
    × ((key : Bytes)
        → Member key ((one ∷ []) ∷ (two ∷ []) ∷ [])
        → get_server_id_for_bin_key st' key ≡ pos 5)
distribute_data-finds_example =
    distribute_data-finds same sample_info sample_parts (server 5 ∷ server 6 ∷ []) nowhere 0
      (part_of ((one ∷ []) ∷ (two ∷ []) ∷ [])) (server 5) (omega arith) servers_apart bins_apart
      refl refl records-Keyed few_records
