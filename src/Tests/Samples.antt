-- ===== src/Tests/Samples.antt =====
-- A tree of three buckets, with five slots of 64 bytes in each, that holds one block in its stash.
use de_part.Prelude.{
  ℕ, ◌+◌, ◌-◌, ◌%◌, ◌≡◌, inl, refl, ap, subst, keys, true, List, [], ◌∷◌, ◌++◌, Option, none, some,
  arith, if◌then◌else◌, ◌==◌, ==_iff, replicate, Bytes, length-replicate, lookup, ◌=?◌, nat_key,
  contains,
}
use de_part.Ring.State.{
  ChunkKey, chunk_key_order, BucketBlock, Env, Config, Oram, chunks_of, find_pos,
}
use de_part.Ring.Bucket.{find_entry, dummy_slots}
use de_part.Ring.Inv.{Sized, Lawful, BucketOk, Inv, Maps}
use de_part.Ring.Inv.Block.{ids_of}
use de_part.Ring.Contract.{Stored, Represents}

abbrev pub sample_env : Env
sample_env = record {
  coins = λ n. n;
  ivs = λ n. replicate 16 n;
  noise = λ n len. replicate len n;
  encrypt = λ iv plain. plain;
  decrypt = λ iv cipher. cipher;
  tries = 5;
}

abbrev pub sample_config : Config
sample_config = record {
  height = 2;
  num_leaves = 2;
  blocks_Z = 2;
  dummies_S = 3;
  bucket_size = 5;
  block_size = 64;
  eviction_A = 2;
  permanent_stash_reserve = 10;
}

pub sample_sized : Sized sample_config
sample_sized = record {
  tall = omega arith;
  leaves = refl;
  split = refl;
  some_dummy = omega arith;
  wide = omega arith;
  fits = omega arith;
  evicts = omega arith;
}

pub sample_lawful : Lawful sample_env 5
sample_lawful = record {
  length-encrypt = λ iv plain. refl;
  decrypt-encrypt = λ iv plain rest. (rest, refl, refl);
  length-iv = λ n. length-replicate 16 n;
  length-noise = λ n len. length-replicate len n;
  fair = λ n slot h. ((slot + 5 - n % 5) % 5, omega arith, omega arith);
}

abbrev pub sample_plain : Bytes
sample_plain = 1 ∷ 2 ∷ 3 ∷ []

abbrev pub sample_chunk : Bytes
sample_chunk = replicate 16 0 ++ (sample_plain ++ replicate 45 0)

abbrev sample_bucket : BucketBlock
sample_bucket = record { count = 0; valids = replicate 5 true; addrs = []; ptrs = 1 ∷ 3 ∷ [] }

abbrev pub sample_oram : Oram
sample_oram = record {
  block_chunks_pos = (7, (0, 1) ∷ []) ∷ [];
  stash = ((7, 0), sample_chunk) ∷ [];
  bucket_blockdata = λ i. sample_bucket;
  round = 1;
  next_evict_G = 0;
  stash_limit = 54;
  stash_high_watermark = 1;
  slots = λ id. replicate 64 9;
  draws = 20;
}

abbrev pub sample_known : List ChunkKey
sample_known = (7, 0) ∷ []

abbrev pub sample_at : ChunkKey → Option ℕ
sample_at k = if (7, 0) =? k then some 1 else none

abbrev pub sample_value : ℕ → Option Bytes
sample_value bid = if bid == 7 then some sample_plain else none

bucket_Ok : BucketOk sample_config sample_bucket
unfolding dummy_slots contains
bucket_Ok = record {
  valids_length = refl;
  ptrs_length = refl;
  ptrs_in = (omega arith, (omega arith, tt));
  ptrs_distinct = ((λ m. ground arith), ((λ m. m), tt));
  addrs_distinct = tt;
  addrs_length = omega arith;
  dummies = omega arith;
}

pub sample_Inv : Inv sample_env sample_config sample_known sample_at (λ k. sample_chunk) sample_oram
unfolding find_entry lookup
sample_Inv = record {
  room = omega arith;
  small = omega arith;
  placed = λ k leaf e.
      (inl (ground (arith, chunk_key_order.beq_iff (7, 0) k, e)), ground (arith, e), refl);
  stash_distinct = ((λ m. m), tt);
  stash_content = λ k c e. (ground (arith, e), 1, ground (arith, e));
  tree_content = λ i k slot hi e. absurd (cc);
  held = λ k leaf e. inl (λ f. ground (arith, e, f));
  buckets = λ i hi. bucket_Ok;
}

pub sample_Maps : Maps sample_at sample_oram
unfolding find_pos lookup
sample_Maps = λ k. ground (arith, ==_iff 7 k.0, ==_iff 0 k.1)

sample_Stored : Stored sample_env (λ k. sample_chunk) sample_oram 7 sample_plain
unfolding lookup
sample_Stored = record {
  some_chunk = λ e. cc;
  distinct = ((λ m. m), tt);
  iv = replicate 16 0;
  pad = replicate 45 0;
  iv_length = refl;
  whole = refl;
}

sample_missing : (bid : ℕ) → sample_value bid ≡ none → ids_of bid sample_oram.block_chunks_pos ≡ []
unfolding lookup
sample_missing bid e =
    let l : lookup bid sample_oram.block_chunks_pos ≡ none =
      ground (arith, e, ==_iff 7 bid, ==_iff bid 7) in
    ap (λ o. keys (chunks_of o)) l

sample_there :
    (bid : ℕ) (plain : Bytes)
    → sample_value bid ≡ some plain
    → Stored sample_env (λ k. sample_chunk) sample_oram bid plain
sample_there bid plain e =
    let same : 7 ≡ bid = ground (arith, e, ==_iff bid 7) in
    let text : sample_plain ≡ plain = ground (arith, e) in
    subst (λ b. Stored sample_env (λ k. sample_chunk) sample_oram b plain) same
      (subst (λ p. Stored sample_env (λ k. sample_chunk) sample_oram 7 p) text sample_Stored)

pub sample_Represents :
    Represents sample_env sample_config sample_sized sample_lawful sample_known sample_value
      sample_oram
sample_Represents = record {
  at = sample_at;
  content = λ k. sample_chunk;
  good = record { inv = sample_Inv; maps = sample_Maps; ready = λ i hi. omega arith };
  absent = sample_missing;
  stored = sample_there;
}
