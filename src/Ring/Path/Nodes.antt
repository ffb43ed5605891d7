-- ===== src/Ring/Path/Nodes.antt =====
-- The buckets of a path: in the tree, one on each level, each the parent of the next.
use native.Mathlib.Nat.{
  pow-suc, pow-zero, mul-one, mul_assoc, div-lt_iff_lt-mul, div-div-eq-div-mul, div-one,
  div-eq_of_lt, pow-le-pow_right,
}
use de_part.Prelude.{
  ℕ, zero, suc, ◌+◌, ◌-◌, ◌*◌, ◌/◌, ◌^◌, ◌≤◌, ◌<◌, ◌≡◌, refl, sym, ap, subst, ◌∙◌, inl, inr, arith,
  Member, Distinct, All, nat_key,
}
use de_part.Ring.Path.{node, nodes_from, path}

pow-add : (a b : ℕ) → 2 ^ (a + b) ≡ 2 ^ a * 2 ^ b
pow-add a zero = let e : a + 0 ≡ a = omega arith in rw (e, pow-zero) (sym (mul-one (2 ^ a)))
pow-add a (suc b) =
    let e : a + suc b ≡ suc (a + b) = omega arith in
    rw (e, pow-suc, pow-suc, pow-add a b) (mul_assoc (2 ^ a) (2 ^ b) 2)

pub pow_pos : (n : ℕ) → 0 < 2 ^ n
pow_pos zero = omega arith
pow_pos (suc n) = rw pow-suc (omega (arith, pow_pos n))

pow_suc2 : (n : ℕ) → 2 ^ (n + 1) ≡ 2 * 2 ^ n
pow_suc2 n = let e : n + 1 ≡ suc n = omega arith in rw (e, pow-suc) (omega arith)

node_bounds :
    (height leaf level : ℕ)
    → level < height
    → leaf < 2 ^ (height - 1)
    → (2 ^ level ≤ node height leaf level + 1) × (node height leaf level + 1 < 2 ^ (level + 1))
unfolding node
node_bounds height leaf level hl h =
    let down = height - 1 - level in
    let e : level + down ≡ height - 1 = omega arith in
    let whole : 2 ^ (height - 1) ≡ 2 ^ level * 2 ^ down =
      ap (λ n. 2 ^ n) (sym e) ∙ pow-add level down in
    let q : leaf / 2 ^ down < 2 ^ level =
      (div-lt_iff_lt-mul (pow_pos down)).1 (subst (λ n. leaf < n) whole h) in
    (omega (arith, pow_pos level), omega (arith, pow_pos level, pow_suc2 level, q))

pow_mono : (a b : ℕ) → a ≤ b → 2 ^ a ≤ 2 ^ b
pow_mono a b h = pow-le-pow_right (omega arith) h

node_in_tree :
    (height leaf level : ℕ)
    → level < height
    → leaf < 2 ^ (height - 1)
    → node height leaf level < 2 ^ height - 1
node_in_tree height leaf level hl h =
    omega (arith, node_bounds height leaf level hl h, pow_mono (level + 1) height (omega arith))

nodes_from-in_tree :
    (height leaf n i : ℕ)
    → i + n ≤ height
    → leaf < 2 ^ (height - 1)
    → All (λ b. b < 2 ^ height - 1) (nodes_from height leaf n i)
unfolding nodes_from
nodes_from-in_tree height leaf zero i hi h = tt
nodes_from-in_tree height leaf (suc n) i hi h = (
  node_in_tree height leaf i (omega arith) h,
  nodes_from-in_tree height leaf n (i + 1) (omega arith) h,
)

-- Below level `i` nothing of the rest of the path is met again.
nodes_from-above :
    (height leaf n i b : ℕ)
    → i + n ≤ height
    → leaf < 2 ^ (height - 1)
    → Member b (nodes_from height leaf n i)
    → 2 ^ i ≤ b + 1
unfolding nodes_from
nodes_from-above height leaf zero i b hi h m = absurd m
nodes_from-above height leaf (suc n) i b hi h (inl e) =
    rw e ((node_bounds height leaf i (omega arith) h).0)
nodes_from-above height leaf (suc n) i b hi h (inr m) = omega (
  arith,
  nodes_from-above height leaf n (i + 1) b (omega arith) h m,
  pow_mono i (i + 1) (omega arith),
)

nodes_from-Distinct :
    (height leaf n i : ℕ)
    → i + n ≤ height
    → leaf < 2 ^ (height - 1)
    → Distinct (nodes_from height leaf n i)
unfolding nodes_from
nodes_from-Distinct height leaf zero i hi h = tt
nodes_from-Distinct height leaf (suc n) i hi h = (
  (λ m. omega (
    arith,
    nodes_from-above height leaf n (i + 1) (node height leaf i) (omega arith) h m,
    node_bounds height leaf i (omega arith) h,
  )),
  nodes_from-Distinct height leaf n (i + 1) (omega arith) h,
)

pub path-Distinct : (height leaf : ℕ) → leaf < 2 ^ (height - 1) → Distinct (path height leaf)
unfolding path
path-Distinct height leaf h = nodes_from-Distinct height leaf height 0 (omega arith) h

pub path-in_tree :
    (height leaf : ℕ) → leaf < 2 ^ (height - 1) → All (λ b. b < 2 ^ height - 1) (path height leaf)
unfolding path
path-in_tree height leaf h = nodes_from-in_tree height leaf height 0 (omega arith) h

-- A path starts at the root, bucket 0, ends at the bucket of its leaf, and each bucket on it is
-- the parent, in a binary heap, of the next one; all of them are buckets of the tree.
pub path-heap :
    (height leaf : ℕ)
    → 1 ≤ height
    → leaf < 2 ^ (height - 1)
    → (node height leaf 0 ≡ 0)
      × (node height leaf (height - 1) ≡ 2 ^ (height - 1) - 1 + leaf)
      × ((level : ℕ)
          → level + 1 < height
          → (node height leaf level ≡ (node height leaf (level + 1) - 1) / 2)
            × (node height leaf (level + 1) < 2 ^ height - 1))
unfolding node
path-heap height leaf h0 h = (
  omega (
    arith,
    div-eq_of_lt {n = leaf} {m = 2 ^ (height - 1 - 0)} (subst (λ n. leaf < 2 ^ n) (omega arith) h),
  ),
  (let e : height - 1 - (height - 1) ≡ 0 = omega arith in rw (e, pow-zero, div-one) refl),
  (λ level hl. (halves level hl, node_in_tree height leaf (level + 1) hl h)),
)
  where
    halves :
        (level : ℕ)
        → level + 1 < height
        → 2 ^ level - 1 + leaf / 2 ^ (height - 1 - level)
          ≡ (2 ^ (level + 1) - 1 + leaf / 2 ^ (height - 1 - (level + 1)) - 1) / 2
    halves level hl =
        let down = height - 1 - (level + 1) in
        let e : height - 1 - level ≡ down + 1 = omega arith in
        let half : leaf / 2 ^ (down + 1) ≡ leaf / 2 ^ down / 2 =
          ap (λ n. leaf / n) (pow_suc2 down ∙ omega arith)
          ∙ sym (div-div-eq-div-mul leaf (2 ^ down) 2) in
        omega (arith, ap (λ n. leaf / 2 ^ n) e, half, pow_suc2 level, pow_pos level)
