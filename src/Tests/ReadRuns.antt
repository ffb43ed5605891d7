-- ===== src/Tests/ReadRuns.antt =====
-- Reads and evictions of the sample ORAM.
use de_part.Prelude.{◌+◌, ◌≤◌, ◌<◌, ◌≡◌, refl, some, List, [], ◌++◌, Bytes, lookup, length, arith}
use de_part.Ring.State.{ChunkKey, chunk_key_order, ◌>>=◌, update}
use de_part.Ring.Path.{path}
use de_part.Ring.Bucket.{read_path}
use de_part.Ring.Write.{early_reshuffle, evict_path}
use de_part.Ring.Access.{split_chunks, access_insert, access_read}
use de_part.Ring.Inv.{Ensures}
use de_part.Ring.Inv.Node.{Reading}
use de_part.Ring.Inv.Trip.{read_path-Reading}
use de_part.Ring.Inv.Evict.{Settled, early_reshuffle-Settled, evict_path-Settled}
use de_part.Ring.Write.{flush_stash_if_needed}
use de_part.Ring.Contract.Flush.{Flushed, flush_stash_if_needed-Flushed}
use de_part.Ring.Contract.{Represents, Reply}
use de_part.Ring.Contract.Reads.{access_read-returns}
use de_part.Ring.Contract.Writes.{next_chunks, access_insert-adds}
use de_part.Ring.Contract.Roundtrip.{insert-read}
use de_part.Tests.Samples.{
  sample_env, sample_config, sample_sized, sample_lawful, sample_plain, sample_known, sample_value,
  sample_at, sample_chunk, sample_oram, sample_Inv, sample_Maps, sample_Represents,
}

access_read-returns_example : Ensures (access_read sample_env sample_config 7 sample_oram) (λ r s'.
    Reply (some sample_plain) r
    × Represents sample_env sample_config sample_sized sample_lawful sample_known sample_value s')
access_read-returns_example =
    access_read-returns sample_env sample_config sample_sized sample_lawful sample_known
      sample_value sample_oram 7 sample_Represents

read_path-Reading_example :
    Ensures (read_path sample_env sample_config 1 (7, 0) sample_oram) (λ r s'.
      Reading sample_env sample_config sample_known sample_at
        (λ k. sample_chunk)
        (7, 0)
        sample_oram
        s'
        (path 2 1)
        r
      × (lookup (7, 0) s'.stash ≡ some sample_chunk))
read_path-Reading_example =
    read_path-Reading sample_env sample_config sample_known sample_at (λ k. sample_chunk)
      sample_oram (7, 0) 1 sample_sized refl (λ i hi. omega arith) sample_Inv

early_reshuffle-Settled_example :
    Ensures (early_reshuffle sample_env sample_config 1 sample_oram) (λ u s'.
      Settled sample_env sample_config sample_known sample_at
        (λ k. sample_chunk)
        sample_sized
        sample_lawful
        sample_oram
        s')
early_reshuffle-Settled_example =
    early_reshuffle-Settled sample_env sample_config sample_known sample_at (λ k. sample_chunk)
      sample_sized sample_lawful sample_oram 1 (omega arith) (λ j hj out. omega arith) sample_Inv
      sample_Maps

evict_path-Settled_example : Ensures (evict_path sample_env sample_config sample_oram) (λ u s'.
    Settled sample_env sample_config sample_known sample_at
      (λ k. sample_chunk)
      sample_sized
      sample_lawful
      sample_oram
      s')
evict_path-Settled_example =
    evict_path-Settled sample_env sample_config sample_known sample_at (λ k. sample_chunk)
      sample_sized sample_lawful sample_oram sample_Inv sample_Maps (λ i hi. omega arith)

sample_room :
    length sample_known + length (next_chunks sample_env sample_config sample_oram sample_plain)
    ≤ 54
unfolding split_chunks
sample_room = omega arith

sample_small :
    length sample_known + length (next_chunks sample_env sample_config sample_oram sample_plain)
    < 4294967296
unfolding split_chunks
sample_small = omega arith

access_insert-adds_example :
    Ensures (access_insert sample_env sample_config 8 sample_plain sample_oram) (λ answer s'.
      (answer ≡ [])
      × (known' : List ChunkKey) × (length known'
          ≡ length sample_known
            + length (next_chunks sample_env sample_config sample_oram sample_plain))
      × Represents sample_env sample_config sample_sized sample_lawful known'
          (update sample_value 8 (some sample_plain))
          s')
access_insert-adds_example =
    access_insert-adds sample_env sample_config sample_sized sample_lawful sample_known sample_value
      sample_oram 8 sample_plain sample_Represents refl sample_room sample_small

insert-read_example :
    Ensures
      ((access_insert sample_env sample_config 8 sample_plain >>= λ answer.
          access_read sample_env sample_config 8)
        sample_oram)
      (λ answer s'. (tail : Bytes) × (answer ≡ sample_plain ++ tail))
insert-read_example =
    insert-read sample_env sample_config sample_sized sample_lawful sample_known sample_value
      sample_oram 8 sample_plain sample_Represents refl sample_room sample_small

flush_stash_if_needed-Flushed_example :
    Flushed sample_env sample_config sample_sized sample_lawful sample_known 5 sample_value
      sample_oram
      (flush_stash_if_needed sample_env sample_config sample_oram)
flush_stash_if_needed-Flushed_example =
    flush_stash_if_needed-Flushed sample_env sample_config sample_sized sample_lawful sample_known
      sample_value sample_oram sample_Represents
