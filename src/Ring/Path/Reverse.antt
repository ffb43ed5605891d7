-- ===== src/Ring/Path/Reverse.antt =====
-- reverse_bits gives a leaf of the tree.
use native.Mathlib.Nat.{pow-suc, pow-zero}
use de_part.Prelude.{ℕ, zero, suc, ◌+◌, ◌-◌, ◌*◌, ◌%◌, ◌^◌, ◌≤◌, ◌<◌, ◌≡◌, ap, arith, nat_key}
use de_part.Ring.State.{chunk_key_order}
use de_part.Ring.Path.{reverse_loop, reverse_bits}

-- The result of reverse_bits has no more bits than it is asked for.
reverse_loop-lt :
    (n i bitlen val res : ℕ)
    → i + n ≡ bitlen
    → res + 2 ^ n ≤ 2 ^ bitlen
    → reverse_loop n i bitlen val res < 2 ^ bitlen
unfolding reverse_loop
reverse_loop-lt zero i bitlen val res e h = omega (arith, h, pow-zero 2)
reverse_loop-lt (suc n) i bitlen val res e h =
    let top : 2 ^ (bitlen - 1 - i) ≡ 2 ^ n = ap (λ m. 2 ^ m) (omega arith) in
    let twice : 2 ^ suc n ≡ 2 ^ n * 2 = pow-suc 2 n in
    reverse_loop-lt n (i + 1) bitlen val _ (omega arith) (ground (arith, top, twice, h))

pub reverse_bits-lt : (val bitlen : ℕ) → reverse_bits val bitlen < 2 ^ bitlen
unfolding reverse_bits
reverse_bits-lt val bitlen =
    reverse_loop-lt bitlen 0 bitlen (val % 2 ^ bitlen) 0 (omega arith) (omega arith)
