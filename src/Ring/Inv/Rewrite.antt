-- ===== src/Ring/Inv/Rewrite.antt =====
-- WriteBucket after ReadBucket: the bucket is filled again from the stash, and the invariant is kept.
use de_part.Prelude.{
  ℕ, ◌+◌, ◌≤◌, ◌≡◌, refl, inl, inr, Bool, true, false, not, ◌&&◌, List, [], ◌∷◌, arith, contains,
  contains_iff, nat_key, length, length-replicate, get_or, get_or-replicate, replicate, keep, All,
  Member, Distinct, range_from, range_from-Distinct, length-range_from, Member-range_from,
  Member-keep, keep-Distinct, length-keep-not, length-le_of_Distinct,
}
use de_part.Ring.State.{ChunkKey, chunk_key_order, BucketBlock, Config}
use de_part.Ring.Bucket.{dummy_slots}
use de_part.Ring.Inv.{BucketOk}
use de_part.Ring.Inv.Choose.{Slots}

-- A bucket as WriteBucket leaves it.
abbrev pub fresh : Config → List ChunkKey → List ℕ → BucketBlock
fresh config addrs ptrs = record {
  count = 0;
  valids = replicate config.bucket_size true;
  addrs = addrs;
  ptrs = ptrs;
}

All-of : {P : ℕ → Type 0} (xs : List ℕ) → ((x : ℕ) → Member x xs → P x) → All P xs
All-of [] h = tt
All-of (x ∷ xs) h = (h x (inl refl), All-of xs (λ y m. h y (inr m)))

-- All slots but the Z real ones are dummies.
fresh-dummies :
    (config : Config) (ptrs : List ℕ)
    → config.bucket_size ≡ config.blocks_Z + config.dummies_S
    → length ptrs ≡ config.blocks_Z
    → config.dummies_S
      ≤ length (dummy_slots config.bucket_size ptrs (replicate config.bucket_size true))
unfolding dummy_slots
fresh-dummies config ptrs split l =
    let size = config.bucket_size in
    let all = range_from size 0 in
    let few =
      length-le_of_Distinct (keep (λ x. not (free x)) all) ptrs
        (keep-Distinct (λ x. not (free x)) all (range_from-Distinct size 0))
        (λ x m. taken x (Member-keep (λ y. not (free y)) x all m)) in
    omega (arith, length-keep-not free all, length-range_from size 0, few)
  where
    free : ℕ → Bool
    free x = not (contains ptrs x) && get_or (replicate config.bucket_size true) x false

    taken :
        (x : ℕ) → Member x (range_from config.bucket_size 0) × (not (free x) ≡ true) → Member x ptrs
    taken x (m, e) =
        let v : get_or (replicate config.bucket_size true) x false ≡ true =
          get_or-replicate config.bucket_size x true false
            (omega (arith, Member-range_from config.bucket_size 0 x m)) in
        (contains_iff ptrs x).0
          (in_use (contains ptrs x) (get_or (replicate config.bucket_size true) x false) v e)
      where
        in_use : (a b : Bool) → b ≡ true → not (not a && b) ≡ true → a ≡ true
        in_use a b p q = ground arith

pub fresh-Ok :
    (config : Config) (addrs : List ChunkKey) (ptrs : List ℕ)
    → config.bucket_size ≡ config.blocks_Z + config.dummies_S
    → Distinct addrs
    → length addrs ≤ config.blocks_Z
    → Slots config ptrs
    → length ptrs ≡ config.blocks_Z
    → BucketOk config (fresh config addrs ptrs)
fresh-Ok config addrs ptrs split da la (dp, bp) lp = record {
  valids_length = length-replicate config.bucket_size true;
  ptrs_length = lp;
  ptrs_in = All-of ptrs bp;
  ptrs_distinct = dp;
  addrs_distinct = da;
  addrs_length = la;
  dummies = omega (arith, fresh-dummies config ptrs split lp);
}
