-- ===== src/Ring/Contract/Flush.antt =====
-- flush_stash_if_needed moves chunks from the stash into the tree.
use de_part.Prelude.{
  ◌≤◌, ◌<◌, ◌⊎◌, refl, arith, if◌then◌else◌, leb→le, ℕ, zero, suc, ◌+◌, ◌*◌, ◌≡◌, sym, ap, subst,
  ◌∙◌, ◌≢◌, inl, inr, List, [], Option, leb, Bytes, length, to_u32, Distinct, Bool-cases,
}
use de_part.Ring.State.{ChunkKey, Env, Config, Oram, M, Outcome, done, fault, continue, ◌>>=◌}
use de_part.Ring.Write.{evict_path, flush_loop, flush_stash_if_needed}
use de_part.Ring.Access.{concat}
use de_part.Ring.Inv.{Ensures, Ensures-mono, Sized, Lawful}
use de_part.Ring.Inv.Block.{ids_of, contents}
use de_part.Ring.Inv.Evict.{Settled, evict_path-Settled}
use de_part.Ring.Contract.{Stored, Represents}

module _ (env : Env) (config : Config) (sized : Sized config)
    (lawful : Lawful env config.bucket_size) (known : List ChunkKey) where
  Settled-Represents :
      (value : ℕ → Option Bytes) (s s' : Oram)
      (r : Represents env config sized lawful known value s)
      → Settled env config known r.at r.content sized lawful s s'
      → Represents env config sized lawful known value s'
  Settled-Represents value s s' r settled = record {
    at = r.at;
    content = r.content;
    good = record { inv = settled.inv; maps = settled.maps; ready = settled.ready };
    absent = λ bid e. same bid ∙ r.absent bid e;
    stored = λ bid plain e. again bid plain (r.stored bid plain e);
  }
    where
      same : (bid : ℕ) → ids_of bid s'.block_chunks_pos ≡ ids_of bid s.block_chunks_pos
      same bid = ap (ids_of bid) settled.positions

      again :
          (bid : ℕ) (plain : Bytes)
          → Stored env r.content s bid plain
          → Stored env r.content s' bid plain
      again bid plain st = record {
        some_chunk = subst (λ xs. xs ≢ []) (sym (same bid)) st.some_chunk;
        distinct = subst Distinct (sym (same bid)) st.distinct;
        iv = st.iv;
        pad = st.pad;
        iv_length = st.iv_length;
        whole = ap (λ xs. concat (contents r.content bid xs)) (same bid) ∙ st.whole;
      }

  -- `n` evictions, one after the other
  pub evictions : ℕ → M (Unit {0})
  unfolding evict_path
  evictions zero s = done (tt, s)
  evictions (suc n) s = (evict_path env config >>= λ u. evictions n) s

  -- the size down to which the stash is brought
  abbrev target : ℕ
  target = to_u32 (config.eviction_A + config.permanent_stash_reserve)

  -- The loop is the least number of evictions after which the stash is small enough, or all its
  -- rounds; and the map is kept.
  abbrev pub Flushed : ℕ → (ℕ → Option Bytes) → Oram → Outcome (Unit {0} × Oram) → Type 0
  Flushed rounds value s flushed =
      (n : ℕ) × (n ≤ rounds)
      × (flushed ≡ evictions n s)
      × Ensures flushed (λ u s'.
        Represents env config sized lawful known value s'
        × ((length s'.stash ≤ target) ⊎ (n ≡ rounds)))
      × ((j : ℕ) → j < n → Ensures (evictions j s) (λ u s'. target < length s'.stash))

  -- one eviction before the others
  earlier :
      (n : ℕ) (s s1 : Oram) (u : Unit {0})
      → evict_path env config s ≡ done (u, s1)
      → target < length s.stash
      → ((j : ℕ) → j < n → Ensures (evictions j s1) (λ v s'. target < length s'.stash))
      → (j : ℕ) → j < suc n
      → Ensures (evictions j s) (λ v s'. target < length s'.stash)
  unfolding evictions
  earlier n s s1 u same big before zero h = big
  earlier n s s1 u same big before (suc j) h =
      subst (λ o. Ensures (continue o (λ v. evictions j)) (λ v s'. target < length s'.stash))
        (sym same) (before j (omega arith))

  onwards :
      (rounds : ℕ) (value : ℕ → Option Bytes) (s : Oram) (o : Outcome (Unit {0} × Oram))
      (r : Represents env config sized lawful known value s)
      → evict_path env config s ≡ o
      → Ensures o (λ u s1. Settled env config known r.at r.content sized lawful s s1)
      → target < length s.stash
      → ((s1 : Oram)
          → Represents env config sized lawful known value s1
          → Flushed rounds value s1 (flush_loop env config rounds s1))
      → Flushed
          (suc rounds)
          value
          s
          (continue (evict_path env config s) (λ u. flush_loop env config rounds))
  unfolding evictions
  onwards rounds value s (fault e) r same settled big later = absurd settled
  onwards rounds value s (done (u, s1)) r same settled big later =
      let (n, le, e, ends, before) = later s1 (Settled-Represents value s s1 r settled) in
      subst (λ o. Flushed (suc rounds) value s (continue o (λ v. flush_loop env config rounds)))
        (sym same)
        (
          suc n,
          omega arith,
          e ∙ sym (ap (λ o. continue o (λ v. evictions n)) same),
          Ensures-mono (flush_loop env config rounds s1)
              (λ v s'.
                Represents env config sized lawful known value s'
                × ((length s'.stash ≤ target) ⊎ (n ≡ rounds)))
              (λ v s'.
                Represents env config sized lawful known value s'
                × ((length s'.stash ≤ target) ⊎ (suc n ≡ suc rounds)))
              ends
              (λ v s' h. (h.0, elim h.1 [ inl small ↦ inl small | inr all ↦ inr (ap suc all) ])),
          earlier n s s1 u same big before,
        )

  flush_loop-Flushed :
      (rounds : ℕ) (value : ℕ → Option Bytes) (s : Oram)
      → Represents env config sized lawful known value s
      → Flushed rounds value s (flush_loop env config rounds s)
  unfolding flush_loop evictions
  flush_loop-Flushed zero value s r =
      (0, omega arith, refl, (r, inr refl), λ j h. absurd (omega arith))
  flush_loop-Flushed (suc rounds) value s r =
      let again = continue (evict_path env config s) (λ u. flush_loop env config rounds) in
      elim (Bool-cases (leb (length s.stash) target)) [
        | inl b ↦
            subst (λ x. Flushed (suc rounds) value s (if x then done (tt, s) else again)) (sym b)
              (
                0,
                omega arith,
                refl,
                (r, inl (leb→le (length s.stash) target b)),
                λ j h. absurd (omega arith),
              )
        | inr b ↦
            subst (λ x. Flushed (suc rounds) value s (if x then done (tt, s) else again)) (sym b)
              (onwards rounds value s (evict_path env config s) r refl
                (evict_path-Settled env config known r.at r.content sized lawful s r.good.inv
                  r.good.maps r.good.ready)
                (ground (arith, b)) (flush_loop-Flushed rounds value))
      ]

  -- In a sized configuration and with a lawful environment, if the ORAM represents a map of blocks,
  -- flush_stash_if_needed ends without a fault, and the ORAM represents the same map. It runs the
  -- least number of evictions after which the stash has at most A and the reserve, and no more
  -- than twice the leaves and one.
  pub flush_stash_if_needed-Flushed :
      (value : ℕ → Option Bytes) (s : Oram)
      → Represents env config sized lawful known value s
      → Flushed (2 * config.num_leaves + 1) value s (flush_stash_if_needed env config s)
  unfolding flush_stash_if_needed
  flush_stash_if_needed-Flushed value s r = flush_loop-Flushed (2 * config.num_leaves + 1) value s r
