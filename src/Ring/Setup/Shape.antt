-- ===== src/Ring/Setup/Shape.antt =====
-- What the constructor accepts, and the tree that it makes of it.
use native.Mathlib.Nat.{pow-suc}
use de_part.Prelude.{
  ℕ, zero, suc, ◌+◌, ◌-◌, ◌*◌, ◌^◌, ◌≤◌, ◌<◌, ◌≡◌, sym, ap, subst, ◌∙◌, ◌⊎◌, inl, inr, true, false,
  arith, leb, ◌==◌, ==_iff, u32_mod, Bool-cases,
}
use de_part.Ring.State.{Config}
use de_part.Ring.Setup.{log_loop, tree_height, configure}
use de_part.Ring.Inv.{Sized, total}

-- The loop ends at a power of two that is large enough, and no smaller one is.
log_loop_lem :
    (fuel h n : ℕ)
    → n ≤ 2 ^ (h + fuel)
    → (n ≤ 2 ^ log_loop fuel h n) × ((i : ℕ) → h ≤ i → i < log_loop fuel h n → 2 ^ i < n)
unfolding log_loop
log_loop_lem zero h n l =
    let e : h + 0 ≡ h = omega arith in (subst (λ m. n ≤ 2 ^ m) e l, λ i a b. absurd (omega arith))
log_loop_lem (suc fuel) h n l =
    let e : h + suc fuel ≡ h + 1 + fuel = omega arith in
    let ih = log_loop_lem fuel (h + 1) n (subst (λ m. n ≤ 2 ^ m) e l) in
    elim (Bool-cases (leb n (2 ^ h))) [
      | inl b ↦ rw b (ground arith, λ i a c. absurd (omega arith))
      | inr b ↦ rw b (ih.0, λ i a c. below i a c b ih.1 (Bool-cases (i == h)))
    ]
  where
    below :
        (i : ℕ)
        → h ≤ i
        → i < log_loop fuel (h + 1) n
        → leb n (2 ^ h) ≡ false
        → ((j : ℕ) → h + 1 ≤ j → j < log_loop fuel (h + 1) n → 2 ^ j < n)
        → (((i == h) ≡ true) ⊎ ((i == h) ≡ false))
        → 2 ^ i < n
    below i a c b ih (inl s) = subst (λ j. 2 ^ j < n) (sym ((==_iff i h).0 s)) (ground (arith, b))
    below i a c b ih (inr s) = ih i (ground (arith, s, a)) c

configured :
    (n buck_size block_length dummies reserve : ℕ) (config : Config)
    → configure n buck_size block_length dummies reserve ≡ inr config
    → (1 ≤ n)
      × (dummies ≤ buck_size)
      × (config ≡ record {
        height = tree_height n;
        num_leaves = 2 ^ (tree_height n - 1);
        blocks_Z = buck_size - dummies;
        dummies_S = dummies;
        bucket_size = buck_size;
        block_size = block_length;
        eviction_A = tree_height n;
        permanent_stash_reserve = reserve;
      })
unfolding configure
configured n buck_size block_length dummies reserve config h = ground arith

-- If the constructor accepts its arguments, with blocks of at least 20 bytes, at least one dummy
-- in a bucket, fewer than 2^32 blocks and a tree whose bytes fit 32 bits, then the configuration
-- is sized; the leaves are at least as many as the blocks, and fewer than twice as many.
pub configure-Sized :
    (n buck_size block_length dummies reserve : ℕ) (config : Config)
    → configure n buck_size block_length dummies reserve ≡ inr config
    → 20 ≤ block_length
    → 1 ≤ dummies
    → n < u32_mod
    → total config * config.bucket_size * config.block_size ≤ u32_mod
    → Sized config × (n ≤ config.num_leaves) × (config.num_leaves < 2 * n)
unfolding tree_height
configure-Sized n buck_size block_length dummies reserve config h wide some small fits =
    let (n1, d, e) = configured n buck_size block_length dummies reserve config h in
    let top = log_loop 32 0 n in
    let found = log_loop_lem 32 0 n (omega arith) in
    let leaves : config.num_leaves ≡ 2 ^ top =
      ap (λ (c : Config). c.num_leaves) e ∙ ap (λ m. 2 ^ m) (omega arith) in
    (
      record {
        tall = omega (arith, ap (λ (c : Config). c.height) e);
        leaves =
            ap (λ (c : Config). c.num_leaves) e
            ∙ ap (λ m. 2 ^ (m - 1)) (sym (ap (λ (c : Config). c.height) e));
        split = omega (
          arith,
          ap (λ (c : Config). c.bucket_size) e,
          ap (λ (c : Config). c.blocks_Z) e,
          ap (λ (c : Config). c.dummies_S) e,
          d,
        );
        some_dummy = omega (arith, ap (λ (c : Config). c.dummies_S) e);
        wide = omega (arith, ap (λ (c : Config). c.block_size) e);
        fits = fits;
        evicts = omega (arith, ap (λ (c : Config). c.eviction_A) e);
      },
      omega (arith, leaves, found.0),
      omega (arith, leaves, half top found.1, n1),
    )
  where
    half : (t : ℕ) → ((i : ℕ) → 0 ≤ i → i < t → 2 ^ i < n) → 2 ^ t < 2 * n
    half zero f = omega (arith, configured n buck_size block_length dummies reserve config h)
    half (suc t) f = omega (arith, f t (omega arith) (omega arith), pow-suc 2 t)
