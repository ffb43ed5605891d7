-- ===== src/Ring/Inv/Padding.antt =====
-- Texts cut and padded to the block size, and the dummies, which have it.
use de_part.Prelude.{
  ℕ, zero, suc, ◌+◌, ◌-◌, ◌≤◌, ◌≡◌, refl, sym, ap, ◌∙◌, false, [], ◌∷◌, ◌++◌, arith, ltb, nat_key,
  Bytes, length, length-append, length-replicate, take, replicate,
}
use de_part.Ring.State.{chunk_key_order, Env, Config, Oram, done, resize, aes_encrypt}
use de_part.Ring.Write.{dummy_cipher}
use de_part.Ring.Inv.{Lawful}

length-take : (n : ℕ) (xs : Bytes) → n ≤ length xs → length (take n xs) ≡ n
length-take zero xs h = refl
length-take (suc n) [] h = absurd (omega arith)
length-take (suc n) (x ∷ xs) h = ap suc (length-take n xs (omega arith))

take-append : (xs ys : Bytes) → take (length xs) (xs ++ ys) ≡ xs
take-append [] ys = refl
take-append (x ∷ xs) ys = ap (λ r. x ∷ r) (take-append xs ys)

pub length-resize : (n : ℕ) (xs : Bytes) → length (resize n xs) ≡ n
unfolding resize
length-resize n xs =
    length-take n (xs ++ replicate n 0)
      (omega (arith, length-append xs (replicate n 0), length-replicate {A = ℕ} n 0))

-- A text of the right size is kept.
pub resize_exact : (n : ℕ) (xs : Bytes) → length xs ≡ n → resize n xs ≡ xs
unfolding resize
resize_exact n xs h =
    ap (λ m. take m (xs ++ replicate n 0)) (sym h) ∙ take-append xs (replicate n 0)

pub dummy_cipher_lem :
    (env : Env) (config : Config) (s : Oram)
    → Lawful env config.bucket_size
    → 20 ≤ config.block_size
    → (c : Bytes) × (length c ≡ config.block_size)
      × (dummy_cipher env config s ≡ done (c, record s { draws = s.draws + 1 + 1 }))
unfolding dummy_cipher aes_encrypt
dummy_cipher_lem env config s lawful wide =
    let iv = env.ivs (s.draws + 1) in
    let plain = 255 ∷ 255 ∷ 255 ∷ 255 ∷ env.noise s.draws (config.block_size - 16 - 4) in
    let big : ltb config.block_size 20 ≡ false = ground arith in
    (
      iv ++ env.encrypt iv plain,
      omega (
        arith,
        length-append iv (env.encrypt iv plain),
        lawful.length-iv (s.draws + 1),
        lawful.length-encrypt iv plain,
        lawful.length-noise s.draws (config.block_size - 16 - 4),
      ),
      rw big refl,
    )
