-- ===== src/Ring/Contract.antt =====
-- What a Ring ORAM promises its caller: it is a map from block ids to plain texts.
pub mod Reads
pub mod Chunks
pub mod Writes
pub mod Roundtrip
pub mod Flush
use de_part.Prelude.{ℕ, ◌≡◌, ◌≢◌, List, [], ◌∷◌, ◌++◌, Option, none, some, Distinct, Bytes, length}
use de_part.Ring.State.{ChunkKey, Env, Config, Oram}
use de_part.Ring.Access.{concat}
use de_part.Ring.Inv.{Sized, Lawful}
use de_part.Ring.Inv.Chunk.{Good}
use de_part.Ring.Inv.Block.{ids_of, contents}

-- The chunks of a block, put together, are its cipher text behind the IV, and padding.
pub record Stored (env : Env) (content : ChunkKey → Bytes) (s : Oram) (bid : ℕ) (plain : Bytes)
    : Type 0 where
  pub some_chunk : ids_of bid s.block_chunks_pos ≢ []
  pub distinct : Distinct (ids_of bid s.block_chunks_pos)
  pub iv : Bytes
  pub pad : Bytes
  pub iv_length : length iv ≡ 16
  pub whole :
      concat (contents content bid (ids_of bid s.block_chunks_pos))
      ≡ iv ++ (env.encrypt iv plain ++ pad)

-- `value` is what the blocks hold, `known` the chunks that were ever put.
pub record Represents (env : Env) (config : Config) (sized : Sized config)
    (lawful : Lawful env config.bucket_size) (known : List ChunkKey) (value : ℕ → Option Bytes)
    (s : Oram) : Type 0 where
  pub at : ChunkKey → Option ℕ
  pub content : ChunkKey → Bytes
  pub good : Good env config known content sized lawful at s
  pub absent : (bid : ℕ) → value bid ≡ none → ids_of bid s.block_chunks_pos ≡ []
  pub stored : (bid : ℕ) (plain : Bytes) → value bid ≡ some plain → Stored env content s bid plain

-- The answer to a read: nothing for an unknown block, else its plain text, and what the padding decrypts to.
abbrev pub Reply : Option Bytes → Bytes → Type 0
Reply none r = r ≡ []
Reply (some plain) r = (tail : Bytes) × (r ≡ plain ++ tail)
