-- ===== src/Ring/Path.antt =====
-- The tree of buckets: GetNodeOnPath's formula, which src/RingORAM.cpp writes out at each use, and
-- the reverse-lexicographic order of evictions. Heights up to 31 keep these numbers below 2^31.
pub mod Nodes
pub mod Slots
pub mod Reverse
use de_part.Prelude.{
  ℕ, zero, suc, ◌+◌, ◌-◌, ◌*◌, ◌/◌, ◌%◌, ◌^◌, List, [], ◌∷◌, Bool, ◌==◌, if◌then◌else◌,
}

-- `(1 << level) - 1 + (leaf >> (height - 1 - level))`
pub node : ℕ → ℕ → ℕ → ℕ
node height leaf level = 2 ^ level - 1 + leaf / 2 ^ (height - 1 - level)

-- The levels `i`, `i + 1`, … of a path, `n` of them.
pub nodes_from : ℕ → ℕ → ℕ → ℕ → List ℕ
unfolding node
nodes_from height leaf zero i = []
nodes_from height leaf (suc n) i = node height leaf i ∷ nodes_from height leaf n (i + 1)

-- From the root to the leaf.
unfoldable pub path : ℕ → ℕ → List ℕ
unfolding nodes_from
path height leaf = nodes_from height leaf height 0

-- The loop of reverse_bits, bit `i` of `val` to bit `bitlen - 1 - i`; `n` rounds are left. The bits set
-- are different ones, so `|=` is an addition.
pub reverse_loop : ℕ → ℕ → ℕ → ℕ → ℕ → ℕ
reverse_loop zero i bitlen val res = res
reverse_loop (suc n) i bitlen val res =
    reverse_loop n (i + 1) bitlen val
      (if val / 2 ^ i % 2 == 1 then res + 2 ^ (bitlen - 1 - i) else res)

unfoldable pub reverse_bits : ℕ → ℕ → ℕ
unfolding reverse_loop
reverse_bits val bitlen = reverse_loop bitlen 0 bitlen (val % 2 ^ bitlen) 0
