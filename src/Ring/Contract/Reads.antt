-- ===== src/Ring/Contract/Reads.antt =====
-- access(READ) returns what the block holds, and keeps all blocks.
use de_part.Prelude.{
  ℕ, zero, suc, ◌≡◌, refl, sym, ap, subst, ◌∙◌, ◌≢◌, inl, inr, List, [], ◌∷◌, ◌++◌, Option, none,
  some, arith, lookup, lookup_of_Member, keys, nat_key, Bytes, length, take, drop, Member, Distinct,
  Option-cases,
}
use de_part.Ring.State.{ChunkKey, Env, Config, Oram, pure, ◌>>=◌, chunks_of, find_chunk, find_pos}
use de_part.Ring.Access.{access_chunks, access_read, aes_decrypt, concat, or_unknown}
use de_part.Ring.Inv.{Ensures, Ensures-bind, Ensures-mono, Sized, Lawful, Maps}
use de_part.Ring.Inv.Block.{ids_of, contents, Standing, Served, access_chunks-Served}
use de_part.Ring.Contract.{Stored, Represents, Reply}

take-front : (n : ℕ) (xs ys : Bytes) → length xs ≡ n → take n (xs ++ ys) ≡ xs
take-front zero [] ys h = refl
take-front zero (x ∷ xs) ys h = absurd (omega arith)
take-front (suc n) [] ys h = absurd (omega arith)
take-front (suc n) (x ∷ xs) ys h = ap (λ r. x ∷ r) (take-front n xs ys (omega arith))

drop-front : (n : ℕ) (xs ys : Bytes) → length xs ≡ n → drop n (xs ++ ys) ≡ ys
drop-front zero [] ys h = refl
drop-front zero (x ∷ xs) ys h = absurd (omega arith)
drop-front (suc n) [] ys h = absurd (omega arith)
drop-front (suc n) (x ∷ xs) ys h = drop-front n xs ys (omega arith)

-- A block's list of chunks is what the position map says of them.
Standing-of :
    (at : ChunkKey → Option ℕ) (bid : ℕ) (chunks : List (ℕ × ℕ))
    → ((cid leaf : ℕ) → Member (cid, leaf) chunks → at (bid, cid) ≡ some leaf)
    → Standing at bid chunks
Standing-of at bid [] h = tt
Standing-of at bid ((cid, leaf) ∷ chunks) h =
    (h cid leaf (inl refl), Standing-of at bid chunks (λ c l m. h c l (inr m)))

leaf_at :
    (at : ChunkKey → Option ℕ) (s : Oram) (bid cid leaf : ℕ)
    → Maps at s
    → Distinct (ids_of bid s.block_chunks_pos)
    → Member (cid, leaf) (chunks_of (lookup bid s.block_chunks_pos))
    → at (bid, cid) ≡ some leaf
unfolding find_pos
leaf_at at s bid cid leaf maps d m =
    sym (maps (bid, cid)) ∙ inside (lookup bid s.block_chunks_pos) d m
  where
    inside :
        (o : Option (List (ℕ × ℕ)))
        → Distinct (keys (chunks_of o))
        → Member (cid, leaf) (chunks_of o)
        → find_chunk cid o ≡ some leaf
    inside none d' m' = absurd m'
    inside (some chunks) d' m' = lookup_of_Member cid leaf chunks d' m'

module _ (env : Env) (config : Config) (sized : Sized config)
    (lawful : Lawful env config.bucket_size) (known : List ChunkKey)
    (value : ℕ → Option Bytes) where
  aes_decrypt-Stored :
      (content : ChunkKey → Bytes) (s : Oram) (bid : ℕ) (plain : Bytes)
      → Stored env content s bid plain
      → Reply
          (some plain)
          (aes_decrypt env config (concat (contents content bid (ids_of bid s.block_chunks_pos))))
  unfolding aes_decrypt
  aes_decrypt-Stored content s bid plain st =
      let rest = env.encrypt st.iv plain ++ st.pad in
      let (tail, e, l) = lawful.decrypt-encrypt st.iv plain st.pad in
      (
        tail,
        ap (λ c. env.decrypt (take 16 c) (drop 16 c)) st.whole
            ∙ ap (λ iv. env.decrypt iv (drop 16 (st.iv ++ rest)))
                (take-front 16 st.iv rest st.iv_length)
            ∙ ap (env.decrypt st.iv) (drop-front 16 st.iv rest st.iv_length)
            ∙ e,
      )

  pub Served-Represents :
      (s s' : Oram) (r : Represents env config sized lawful known value s)
      → Served env config known r.content sized lawful s s'
      → Represents env config sized lawful known value s'
  Served-Represents s s' r served = record {
    at = served.at;
    content = r.content;
    good = served.good;
    absent = λ bid e. served.ids_kept bid ∙ r.absent bid e;
    stored = λ bid plain e. again bid plain (r.stored bid plain e);
  }
    where
      again :
          (bid : ℕ) (plain : Bytes)
          → Stored env r.content s bid plain
          → Stored env r.content s' bid plain
      again bid plain st = record {
        some_chunk = subst (λ xs. xs ≢ []) (sym (served.ids_kept bid)) st.some_chunk;
        distinct = subst Distinct (sym (served.ids_kept bid)) st.distinct;
        iv = st.iv;
        pad = st.pad;
        iv_length = st.iv_length;
        whole = ap (λ xs. concat (contents r.content bid xs)) (served.ids_kept bid) ∙ st.whole;
      }

  pub content-Served :
      (s s' : Oram) (r : Represents env config sized lawful known value s)
      (served : Served env config known r.content sized lawful s s')
      → (Served-Represents s s' r served).content ≡ r.content
  unfolding Served-Represents
  content-Served s s' r served = refl

  -- What a block reads as, from what its chunks hold.
  abbrev pub read_back : (ChunkKey → Bytes) → ℕ → List ℕ → Bytes
  read_back content bid [] = []
  read_back content bid (cid ∷ cids) =
      aes_decrypt env config (concat (contents content bid (cid ∷ cids)))

  ids-Distinct :
      (s : Oram) (bid : ℕ)
      → Represents env config sized lawful known value s
      → Distinct (ids_of bid s.block_chunks_pos)
  ids-Distinct s bid r = elim (Option-cases (value bid)) [
    | inl e ↦ subst Distinct (sym (r.absent bid e)) tt
    | inr (plain, e) ↦ (r.stored bid plain e).distinct
  ]

  pub access_read-Served :
      (s : Oram) (bid : ℕ) (r : Represents env config sized lawful known value s)
      → Ensures (access_read env config bid s) (λ c s'.
        (c ≡ read_back r.content bid (ids_of bid s.block_chunks_pos))
        × Served env config known r.content sized lawful s s')
  unfolding access_read
  access_read-Served s bid r =
      go (chunks_of (lookup bid s.block_chunks_pos)) (ids-Distinct s bid r) (λ cid m. m)
        (Standing-of r.at bid (chunks_of (lookup bid s.block_chunks_pos))
          (λ cid leaf m. leaf_at r.at s bid cid leaf r.good.maps (ids-Distinct s bid r) m))
    where
      go :
          (chunks : List (ℕ × ℕ))
          → Distinct (keys chunks)
          → ((cid : ℕ) → Member cid (keys chunks) → Member cid (ids_of bid s.block_chunks_pos))
          → Standing r.at bid chunks
          → Ensures
              (or_unknown env config chunks
                (λ cs. access_chunks env config bid cs >>= λ data'.
                  pure (aes_decrypt env config (concat data')))
                s)
              (λ c s'.
                (c ≡ read_back r.content bid (keys chunks))
                × Served env config known r.content sized lawful s s')
      go [] d here st = (refl, record { at = r.at; good = r.good; ids_kept = λ b. refl })
      go (c ∷ chunks) d here st =
          Ensures-bind (access_chunks env config bid (c ∷ chunks) s)
            (λ cs. pure (aes_decrypt env config (concat cs)))
            (λ cs s'.
              (cs ≡ contents r.content bid (keys (c ∷ chunks)))
              × Served env config known r.content sized lawful s s')
            (λ x s'.
              (x ≡ read_back r.content bid (keys (c ∷ chunks)))
              × Served env config known r.content sized lawful s s')
            (access_chunks-Served env config known r.content sized lawful (c ∷ chunks) bid r.at s d
              here st r.good)
            (λ cs s' h. (ap (λ x. aes_decrypt env config (concat x)) h.0, h.1))

  some_ids :
      (content : ChunkKey → Bytes) (bid : ℕ) (ids : List ℕ)
      → ids ≢ []
      → read_back content bid ids ≡ aes_decrypt env config (concat (contents content bid ids))
  some_ids content bid [] h = absurd (h refl)
  some_ids content bid (cid ∷ cids) h = refl

  -- It is the block's plain text, and what the padding decrypts to.
  pub read_back-Reply :
      (s : Oram) (bid : ℕ) (r : Represents env config sized lawful known value s)
      → Reply (value bid) (read_back r.content bid (ids_of bid s.block_chunks_pos))
  read_back-Reply s bid r = elim (Option-cases (value bid)) [
    | inl e ↦
        subst (λ o. Reply o (read_back r.content bid (ids_of bid s.block_chunks_pos))) (sym e)
          (ap (read_back r.content bid) (r.absent bid e))
    | inr (plain, e) ↦
        let st = r.stored bid plain e in
        let same = some_ids r.content bid (ids_of bid s.block_chunks_pos) st.some_chunk in
        subst (λ o. Reply o (read_back r.content bid (ids_of bid s.block_chunks_pos))) (sym e)
          (subst (Reply (some plain)) (sym same) (aes_decrypt-Stored r.content s bid plain st))
  ]

  -- In a sized configuration and with a lawful environment, if the ORAM represents a map of
  -- blocks, access(READ) ends without a fault and returns the block's plain text, followed by what
  -- the padding of its last chunk decrypts to, or the empty string for a block that is not there;
  -- and the ORAM represents the same map afterwards.
  pub access_read-returns :
      (s : Oram) (bid : ℕ)
      → Represents env config sized lawful known value s
      → Ensures
          (access_read env config bid s)
          (λ r s'. Reply (value bid) r × Represents env config sized lawful known value s')
  access_read-returns s bid r =
      Ensures-mono (access_read env config bid s)
        (λ c s'.
          (c ≡ read_back r.content bid (ids_of bid s.block_chunks_pos))
          × Served env config known r.content sized lawful s s')
        (λ c s'. Reply (value bid) c × Represents env config sized lawful known value s')
        (access_read-Served s bid r)
        (λ c s' h. (
          subst (Reply (value bid)) (sym h.0) (read_back-Reply s bid r),
          Served-Represents s s' r h.1,
        ))
