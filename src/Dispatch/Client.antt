-- ===== src/Dispatch/Client.antt =====
-- The ORAM at the end of a pipe is RingORAM::access: it keeps what the dispatch relies on.
use de_part.Prelude.{
  ℕ, ◌≡◌, refl, sym, ap, ◌∙◌, true, List, [], ◌∷◌, Option, none, some, Bytes, lookup, nat_key,
}
use de_part.Epoch.Types.{OpType, is_write}
use de_part.Ring.State.{
  ChunkKey, Env, Config, Oram, M, Outcome, done, fault, continue, pure, ◌>>=◌, chunks_of,
}
use de_part.Ring.Access.{
  access_chunks, put_block, next_round, access_insert, access_read, access_update, or_unknown,
}
use de_part.Ring.Setup.{access}
use de_part.Ring.Inv.{Ensures, Sized, Lawful}
use de_part.Ring.Inv.Block.{ids_of, Served}
use de_part.Ring.Contract.{Represents, Reply}
use de_part.Ring.Contract.Reads.{
  read_back, access_read-Served, read_back-Reply, Served-Represents, content-Served,
}
use de_part.Sending.{Access}
use de_part.Dispatch.Child.{OramLaws}

-- The ORAM of a child, with what its constructor fixed.
pub record Client : Type 0 where
  pub env : Env
  pub config : Config
  pub oram : Oram

abbrev answer_of : Client → Outcome (Bytes × Oram) → Option (Bytes × Client)
answer_of c (done (r, s)) = some (r, record c { oram = s })
answer_of c (fault e) = none

-- `oram->access` of the child.
unfoldable pub ring_access : Access Client
unfolding access
ring_access bid type v c = answer_of c (access c.env c.config bid type v c.oram)

answer_of-Ensures :
    (c : Client) (m : Outcome (Bytes × Oram)) (P : Bytes → Oram → Type 0)
    → Ensures m P
    → (r : Bytes) × (s : Oram) × (answer_of c m ≡ some (r, record c { oram = s })) × P r s
answer_of-Ensures c (done (r, s)) P h = (r, s, refl, h)
answer_of-Ensures c (fault e) P h = absurd h

-- The answer, where there is one, is the empty string.
abbrev Silent : Outcome (Bytes × Oram) → Type 0
Silent (done (r, s)) = r ≡ []
Silent (fault e) = Unit

then-Silent :
    {A : Type 0} (m : M A) (f : A → M Bytes)
    → ((a : A) (s : Oram) → Silent (f a s))
    → (s : Oram) → Silent ((m >>= f) s)
then-Silent m f h s = go (m s)
  where
    go : (o : Outcome (_ × Oram)) → Silent (continue o f)
    go (done (a, s')) = h a s'
    go (fault e) = tt

Silent-answer :
    (c c' : Client) (m : Outcome (Bytes × Oram)) (r : Bytes)
    → Silent m
    → answer_of c m ≡ some (r, c')
    → r ≡ []
Silent-answer c c' (done (q, s)) r h e = ap first (sym e) ∙ h
  where
    first : Option (Bytes × Client) → Bytes
    first none = []
    first (some (x, y)) = x
Silent-answer c c' (fault e') r h e = cc

module _ (env : Env) (config : Config) where
  insert-Silent : (bid : ℕ) (v : Bytes) (s : Oram) → Silent (access_insert env config bid v s)
  unfolding access_insert
  insert-Silent bid v =
      then-Silent (put_block env config bid v) (λ u. next_round env config >>= λ u'. pure [])
        (λ u. then-Silent (next_round env config) (λ u'. pure []) (λ u' s. refl))

  update-Silent : (bid : ℕ) (v : Bytes) (s : Oram) → Silent (access_update env config bid v s)
  unfolding access_update
  update-Silent bid v s = go (chunks_of (lookup bid s.block_chunks_pos))
    where
      put_back : List (ℕ × ℕ) → M (Unit {0})
      put_back chunks = access_chunks env config bid chunks >>= λ u. put_block env config bid v

      go :
          (chunks : List (ℕ × ℕ))
          → Silent (
              or_unknown env config chunks
                (λ cs. put_back cs >>= λ u. next_round env config >>= λ u'. pure [])
                s)
      go [] = refl
      go (c ∷ chunks) =
          then-Silent (put_back (c ∷ chunks)) (λ u. next_round env config >>= λ u'. pure [])
            (λ u. then-Silent (next_round env config) (λ u'. pure []) (λ u' s'. refl)) s

-- The ORAM represents a map.
pub record Serving (value : ℕ → Option Bytes) (c : Client) : Type 0 where
  pub sized : Sized c.config
  pub lawful : Lawful c.env c.config.bucket_size
  pub known : List ChunkKey
  pub represents : Represents c.env c.config sized lawful known value c.oram

-- What its blocks read as.
pub reads_as : (value : ℕ → Option Bytes) (c : Client) → Serving value c → ℕ → Bytes
reads_as value c h bid =
    read_back c.env c.config h.sized h.lawful h.known value h.represents.content bid
      (ids_of bid c.oram.block_chunks_pos)

abbrev RingHolds : (ℕ → Bytes) → Client → Type 0
RingHolds h c =
    (value : ℕ → Option Bytes) × (serving : Serving value c) × ((bid : ℕ)
      → h bid ≡ reads_as value c serving bid)

pub ring_read :
    (h : ℕ → Bytes) (bid : ℕ) (v : Bytes) (c : Client)
    → RingHolds h c
    → (c' : Client) × (ring_access bid OpType.read v c ≡ some (h bid, c')) × RingHolds h c'
unfolding ring_access reads_as
ring_read h bid v c (value, serving, same) =
    let r = serving.represents in
    let (answer, s', e, (reads, served)) =
      answer_of-Ensures c (access_read c.env c.config bid c.oram)
        (λ a s'.
          (a ≡ reads_as value c serving bid)
          × Served c.env c.config serving.known r.content serving.sized serving.lawful c.oram s')
        (access_read-Served c.env c.config serving.sized serving.lawful serving.known value c.oram
          bid r) in
    let c' : Client = record c { oram = s' } in
    (
      c',
      e ∙ ap (λ x. some (x, c')) (reads ∙ sym (same bid)),
      (
        value,
        record {
          sized = serving.sized;
          lawful = serving.lawful;
          known = serving.known;
          represents =
              Served-Represents c.env c.config serving.sized serving.lawful serving.known value
                c.oram s' r served;
        },
        λ b.
            same b
            ∙ ap
                (read_back c.env c.config serving.sized serving.lawful serving.known value r.content
                  b)
                (sym (served.ids_kept b))
            ∙ ap
                (λ content.
                  read_back c.env c.config serving.sized serving.lawful serving.known value content
                    b (ids_of b s'.block_chunks_pos))
                (sym (
                  content-Served c.env c.config serving.sized serving.lawful serving.known value
                    c.oram s' r served)),
      ),
    )

pub ring_write :
    (bid : ℕ) (type : OpType) (v r : Bytes) (c c' : Client)
    → is_write type ≡ true
    → ring_access bid type v c ≡ some (r, c')
    → r ≡ []
unfolding ring_access
ring_write bid OpType.read v r c c' w e = cc
ring_write bid OpType.update v r c c' w e =
    Silent-answer c c' _ r (update-Silent c.env c.config bid v c.oram) e
ring_write bid OpType.insert v r c c' w e =
    Silent-answer c c' _ r (insert-Silent c.env c.config bid v c.oram) e

-- RingORAM::access as the dispatch sees it.
abbrev pub ring_laws : OramLaws ring_access
ring_laws = record { Holds = RingHolds; read = ring_read; write_answer = ring_write }

pub reads_as-Reply :
    (value : ℕ → Option Bytes) (c : Client) (h : Serving value c) (bid : ℕ)
    → Reply (value bid) (reads_as value c h bid)
unfolding reads_as
reads_as-Reply value c h bid =
    read_back-Reply c.env c.config h.sized h.lawful h.known value c.oram bid h.represents
