-- ===== src/Ring/Path/Slots.antt =====
-- Where the slots of the tree lie on the server: apart from each other, until the ids wrap.
use native.Mathlib.Nat.{
  mod-eq_of_lt, add-mul, mul_assoc, mul-le-mul_right, mul-div_cancel, mul-add-div_right,
  div-eq_of_lt, mul-add-mod_self_right, add-zero,
}
use de_part.Prelude.{ℕ, ◌+◌, ◌*◌, ◌/◌, ◌%◌, ◌≤◌, ◌<◌, ◌≡◌, sym, ap, ◌∙◌, arith, u32_mod, to_u32}
use de_part.Ring.State.{Env, Config, global_slot_id}

-- The plain offset of a slot, before it is cut to 32 bits.
abbrev offset : Config → ℕ → ℕ → ℕ
offset config i slot = i * config.bucket_size * config.block_size + slot * config.block_size

offset_lem :
    (config : Config) (i slot : ℕ)
    → offset config i slot ≡ (i * config.bucket_size + slot) * config.block_size
offset_lem config i slot = sym (add-mul (i * config.bucket_size) slot config.block_size)

-- A slot lies wholly below the end of the tree.
offset-lt :
    (config : Config) (total i slot : ℕ)
    → i < total
    → slot < config.bucket_size
    → 0 < config.block_size
    → offset config i slot < total * config.bucket_size * config.block_size
offset-lt config total i slot hi hs hb =
    let rows : (i + 1) * config.bucket_size ≤ total * config.bucket_size =
      mul-le-mul_right config.bucket_size hi' in
    let cells : i * config.bucket_size + slot + 1 ≤ total * config.bucket_size =
      omega (arith, rows, add-mul i 1 config.bucket_size) in
    let bytes = mul-le-mul_right config.block_size cells in
    omega (
      arith,
      bytes,
      offset_lem config i slot,
      add-mul (i * config.bucket_size + slot) 1 config.block_size,
    )
  where
    hi' : i + 1 ≤ total
    hi' = omega arith

module _ (env : Env) (config : Config) (total : ℕ)
    (fits : total * config.bucket_size * config.block_size ≤ u32_mod)
    (positive : 0 < config.block_size) where
  global_slot_id_lem :
      (i slot : ℕ)
      → i < total
      → slot < config.bucket_size
      → global_slot_id env config i slot ≡ (i * config.bucket_size + slot) * config.block_size
  unfolding global_slot_id
  global_slot_id_lem i slot hi hs =
      mod-eq_of_lt (omega (arith, offset-lt config total i slot hi hs positive))
      ∙ offset_lem config i slot

  cell :
      (i slot : ℕ)
      → i < total
      → slot < config.bucket_size
      → global_slot_id env config i slot / config.block_size ≡ i * config.bucket_size + slot
  cell i slot hi hs =
      ap (λ n. n / config.block_size) (global_slot_id_lem i slot hi hs)
      ∙ mul-div_cancel (i * config.bucket_size + slot) positive

  -- While the bytes of `total` buckets fit 32 bits and a block has some byte, two slots with the
  -- same id are the same slot of the same bucket.
  pub global_slot_id-injective :
      (i j slot slot' : ℕ)
      → i < total
      → j < total
      → slot < config.bucket_size
      → slot' < config.bucket_size
      → global_slot_id env config i slot ≡ global_slot_id env config j slot'
      → (i ≡ j) × (slot ≡ slot')
  global_slot_id-injective i j slot slot' hi hj hs hs' e =
      let same : i * config.bucket_size + slot ≡ j * config.bucket_size + slot' =
        sym (cell i slot hi hs) ∙ ap (λ n. n / config.block_size) e ∙ cell j slot' hj hs' in
      (
        sym (row i slot hs) ∙ ap (λ n. n / config.bucket_size) same ∙ row j slot' hs',
        sym (column i slot hs) ∙ ap (λ n. n % config.bucket_size) same ∙ column j slot' hs',
      )
    where
      row :
          (i slot : ℕ)
          → slot < config.bucket_size
          → (i * config.bucket_size + slot) / config.bucket_size ≡ i
      row i slot h =
          mul-add-div_right (omega arith) i slot ∙ ap (λ n. i + n) (div-eq_of_lt h) ∙ add-zero i

      column :
          (i slot : ℕ)
          → slot < config.bucket_size
          → (i * config.bucket_size + slot) % config.bucket_size ≡ slot
      column i slot h = mul-add-mod_self_right i config.bucket_size slot ∙ mod-eq_of_lt h

-- If the bytes of `turn` buckets are exactly 2^32, the bucket that lies `turn` buckets after
-- another one has its slots at the same ids.
pub global_slot_id_wraps :
    (env : Env) (config : Config) (i slot turn : ℕ)
    → turn * (config.bucket_size * config.block_size) ≡ u32_mod
    → global_slot_id env config (i + turn) slot ≡ global_slot_id env config i slot
unfolding global_slot_id
global_slot_id_wraps env config i slot turn e =
    let apart : offset config (i + turn) slot ≡ offset config i slot + u32_mod = omega (
      arith,
      ap (λ n. n * config.block_size) (add-mul i turn config.bucket_size),
      add-mul (i * config.bucket_size) (turn * config.bucket_size) config.block_size,
      mul_assoc turn config.bucket_size config.block_size,
      e,
    ) in
    ap to_u32 apart ∙ omega arith
