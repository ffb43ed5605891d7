-- ===== src/Ring/Contract/Roundtrip.antt =====
-- A read of a block that has just been inserted.
use de_part.Prelude.{
  ℕ, ◌+◌, ◌≤◌, ◌<◌, ◌≡◌, subst, List, [], ◌++◌, Option, none, some, arith, ==_iff, nat_key, Bytes,
  length, u32_mod,
}
use de_part.Ring.State.{ChunkKey, Env, Config, Oram, ◌>>=◌, update}
use de_part.Ring.Access.{access_insert, access_read}
use de_part.Ring.Inv.{Ensures, Ensures-bind, Ensures-mono, Sized, Lawful}
use de_part.Ring.Contract.{Represents, Reply}
use de_part.Ring.Contract.Reads.{access_read-returns}
use de_part.Ring.Contract.Writes.{next_chunks, access_insert-adds}

module _ (env : Env) (config : Config) (sized : Sized config)
    (lawful : Lawful env config.bucket_size) where
  -- In a sized configuration and with a lawful environment, if the ORAM represents a map without
  -- the block, and the stash limit and 32 bits leave room for the chunks of its cipher text
  -- besides all chunks there are, then access(INSERT) of the block and a read of it right after
  -- end without a fault, and the read returns the plain text, followed by what the padding
  -- decrypts to.
  pub insert-read :
      (known : List ChunkKey) (value : ℕ → Option Bytes) (s : Oram) (bid : ℕ) (plain : Bytes)
      → Represents env config sized lawful known value s
      → value bid ≡ none
      → length known + length (next_chunks env config s plain) ≤ s.stash_limit
      → length known + length (next_chunks env config s plain) < u32_mod
      → Ensures
          ((access_insert env config bid plain >>= λ answer. access_read env config bid) s)
          (λ answer s'. (tail : Bytes) × (answer ≡ plain ++ tail))
  insert-read known value s bid plain r new room small =
      Ensures-bind (access_insert env config bid plain s) (λ answer. access_read env config bid)
        (λ answer s'.
          (answer ≡ [])
          × (known' : List ChunkKey) × (length known'
              ≡ length known + length (next_chunks env config s plain))
          × Represents env config sized lawful known' (update value bid (some plain)) s')
        (λ answer s'. (tail : Bytes) × (answer ≡ plain ++ tail))
        (access_insert-adds env config sized lawful known value s bid plain r new room small)
        (λ answer s1 h.
          Ensures-mono (access_read env config bid s1)
            (λ c s'.
              Reply (update value bid (some plain) bid) c
              × Represents env config sized lawful h.1 (update value bid (some plain)) s')
            (λ c s'. (tail : Bytes) × (c ≡ plain ++ tail))
            (access_read-returns env config sized lawful h.1 (update value bid (some plain)) s1 bid
              h.3)
            (λ c s' q. subst (λ o. Reply o c) there q.0))
    where
      there : update value bid (some plain) bid ≡ some plain
      there = ground (arith, ==_iff bid bid)
