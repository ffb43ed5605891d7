-- ===== src/Placement/Distribution.antt =====
-- distributeDataToPartitions as a whole.
use de_part.Prelude.{
  ℕ, zero, suc, ◌+◌, ◌≤◌, ◌<◌, ◌≡◌, sym, ap, subst, ◌∙◌, inl, inr, List, [], ◌∷◌, ◌++◌, some, arith,
  int_key, nat_key, Bytes, bytes_key, lookup, length, get_elem?, Member, Member-append_left,
  Member-append_right, Distinct, u32_mod,
}
use de_part.Bins.{BinInfo}
use de_part.Repartition.{Partition}
use de_part.Repartition.Packing.{indexes}
use de_part.Sending.{lookup_block_id}
use de_part.Placement.{
  ServerInfo, Placed, place_partition, after_place, place_partitions, distribute_data_to_partitions,
  get_server_id_for_partition, get_server_id_for_bin_key, server_of_partition, server_or_none,
}
use de_part.Placement.Blocks.{records_of, Keyed}
use de_part.Placement.Servers.{server_ids, place_partitions-Keeps, Found, Found-placed}

Distinct-append_parts :
    {A : Type 0} (xs ys : List A)
    → Distinct (xs ++ ys)
    → Distinct xs × Distinct ys × ((a : A) → Member a xs → ¬ Member a ys)
Distinct-append_parts [] ys d = (tt, d, λ a m n. m)
Distinct-append_parts (x ∷ xs) ys d =
    let (dx, dy, apart) = Distinct-append_parts xs ys d.1 in
    (
      ((λ m. d.0 (Member-append_left x xs ys m)), dx),
      dy,
      λ a m n. elim m [
        | inl e ↦ d.0 (Member-append_right x xs ys (subst (λ z. Member z ys) e n))
        | inr l ↦ apart a l n
      ],
    )

module _ (pk_mapper : ℕ → ℕ) (info : BinInfo) where
  place_partitions-Found :
      (n part_id : ℕ) (partitions : List Partition) (servers : List ServerInfo) (st : Placed)
      (part : Partition) (server : ServerInfo)
      → length partitions ≤ length servers
      → Distinct (server_ids servers)
      → Distinct (indexes partitions)
      → get_elem? partitions n ≡ some part
      → get_elem? servers n ≡ some server
      → Keyed pk_mapper info (records_of pk_mapper info part.index)
      → length (records_of pk_mapper info part.index) < u32_mod
      → (servers' : List ServerInfo) × (st' : Placed) × (place_partitions pk_mapper info part_id
            partitions servers st
          ≡ some (servers', st'))
        × Found pk_mapper info (part_id + n) part server st'
  unfolding place_partitions after_place server_ids indexes
  place_partitions-Found n part_id [] servers st part server h ds di e f k small = cc
  place_partitions-Found n part_id (q ∷ partitions) [] st part server h ds di e f k small = cc
  place_partitions-Found zero part_id (q ∷ partitions) (s ∷ servers) st part server h ds di e f k
        small =
      let placed = place_partition pk_mapper info part_id q s st in
      let (servers', st', eq, keeps) =
        place_partitions-Keeps pk_mapper info (part_id + 1) partitions servers placed.1
          (omega arith) in
      let (once, rest, apart) = Distinct-append_parts q.index (indexes partitions) di in
      let part_is : q ≡ part = cc in
      let server_is : s ≡ server = cc in
      (
        placed.0 ∷ servers',
        st',
        ap (after_place pk_mapper info placed.0) eq,
        subst (λ p. Found pk_mapper info p part server st') (omega arith)
            (subst (λ x. Found pk_mapper info part_id x server st') part_is
              (subst (λ x. Found pk_mapper info part_id q x st') server_is
                (Found-placed pk_mapper info part_id q s st st'
                  (subst (λ x. Keyed pk_mapper info (records_of pk_mapper info x.index))
                    (sym part_is) k)
                  (subst (λ x. length (records_of pk_mapper info x.index) < u32_mod) (sym part_is)
                    small)
                  once (keeps.0 s.server_id ds.0) (keeps.1 part_id (omega arith))
                  (λ key m. keeps.2 key (apart key m))))),
      )
  place_partitions-Found (suc n) part_id (q ∷ partitions) (s ∷ servers) st part server h ds di e f k
        small =
      let placed = place_partition pk_mapper info part_id q s st in
      let (once, rest, apart) = Distinct-append_parts q.index (indexes partitions) di in
      let (servers', st', eq, found) =
        place_partitions-Found n (part_id + 1) partitions servers placed.1 part server (omega arith)
          ds.1 rest e f k small in
      (
        placed.0 ∷ servers',
        st',
        ap (after_place pk_mapper info placed.0) eq,
        subst (λ p. Found pk_mapper info p part server st') (omega arith) found,
      )

  -- If there are at least as many servers as partitions, with different ids, no bin is twice in the
  -- partitions, and the records of the n-th partition are fewer than 2^32 and have different keys,
  -- then the distribution comes to an end, and afterwards lookupBlockId gives for the key of the
  -- i-th record of that partition, on the n-th server, the block id i; getServerIdForPartition of n
  -- and getServerIdForBinKey of each bin of the partition give the n-th server.
  pub distribute_data-finds :
      (partitions : List Partition) (servers : List ServerInfo) (st : Placed) (n : ℕ)
      (part : Partition) (server : ServerInfo)
      → length partitions ≤ length servers
      → Distinct (server_ids servers)
      → Distinct (indexes partitions)
      → get_elem? partitions n ≡ some part
      → get_elem? servers n ≡ some server
      → Keyed pk_mapper info (records_of pk_mapper info part.index)
      → length (records_of pk_mapper info part.index) < u32_mod
      → (servers' : List ServerInfo) × (st' : Placed) × (distribute_data_to_partitions pk_mapper
            info partitions servers st
          ≡ some (servers', st'))
        × ((i idx : ℕ)
            → get_elem? (records_of pk_mapper info part.index) i ≡ some idx
            → lookup_block_id st'.pk_to_blockid server.server_id (pk_mapper idx) ≡ i)
        × (get_server_id_for_partition st' n ≡ server.server_id)
        × ((key : Bytes)
            → Member key part.index
            → get_server_id_for_bin_key st' key ≡ server.server_id)
  unfolding distribute_data_to_partitions get_server_id_for_partition get_server_id_for_bin_key
  distribute_data-finds partitions servers st n part server h ds di e f k small =
      let (servers', st', eq, found) =
        place_partitions-Found n 0 partitions servers (record st { pk_to_blockid = [] }) part server
          h ds di e f k small in
      let there : lookup n st'.partition_id_to_server_id ≡ some server.server_id =
        ap (λ p. lookup p st'.partition_id_to_server_id) (omega arith) ∙ found.on_server in
      (
        servers',
        st',
        eq,
        found.blocks,
        ap server_or_none there,
        λ key m.
            ap (server_of_partition st') (found.bins_here key m ∙ ap some (omega arith))
            ∙ ap server_or_none there,
      )
