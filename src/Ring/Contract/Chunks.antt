-- ===== src/Ring/Contract/Chunks.antt =====
-- The chunks into which INSERT cuts a cipher text are all of one size, and give the text back.
use mathlib.Core.List.{append_assoc, append-nil}
use de_part.Prelude.{
  ℕ, zero, suc, ◌-◌, ◌≤◌, ◌≡◌, refl, sym, ap, ap₂, ◌∙◌, inl, inr, [], ◌∷◌, ◌++◌, arith, leb,
  Bool-cases, Bytes, length, take, drop, replicate, All,
}
use de_part.Ring.State.{resize}
use de_part.Ring.Access.{split_chunks, concat}
use de_part.Ring.Inv.Padding.{length-resize}

take-drop : (n : ℕ) (xs : Bytes) → take n xs ++ drop n xs ≡ xs
take-drop zero xs = refl
take-drop (suc n) [] = refl
take-drop (suc n) (x ∷ xs) = ap (λ r. x ∷ r) (take-drop n xs)

length-drop : (n : ℕ) (xs : Bytes) → length (drop n xs) ≡ length xs - n
length-drop zero xs = omega arith
length-drop (suc n) [] = omega arith
length-drop (suc n) (x ∷ xs) = omega (arith, length-drop n xs)

-- A short text is padded, …
take-past :
    (n : ℕ) (xs ys : Bytes) → length xs ≤ n → take n (xs ++ ys) ≡ xs ++ take (n - length xs) ys
take-past n [] ys h = ap (λ m. take m ys) (omega arith)
take-past zero (x ∷ xs) ys h = absurd (omega arith)
take-past (suc n) (x ∷ xs) ys h =
    let e : n - length xs ≡ suc n - length (x ∷ xs) = omega arith in
    ap (λ r. x ∷ r) (take-past n xs ys (omega arith) ∙ ap (λ m. xs ++ take m ys) e)

take-whole : (n : ℕ) (xs : Bytes) → length xs ≤ n → (take n xs ≡ xs) × (drop n xs ≡ [])
take-whole zero [] h = (refl, refl)
take-whole zero (x ∷ xs) h = absurd (omega arith)
take-whole (suc n) [] h = (refl, refl)
take-whole (suc n) (x ∷ xs) h = let (a, b) = take-whole n xs (omega arith) in (ap (λ r. x ∷ r) a, b)

-- … and a long one is cut.
take-of_long : (n : ℕ) (xs ys : Bytes) → n ≤ length xs → take n (take n xs ++ ys) ≡ take n xs
take-of_long zero xs ys h = refl
take-of_long (suc n) [] ys h = absurd (omega arith)
take-of_long (suc n) (x ∷ xs) ys h = ap (λ r. x ∷ r) (take-of_long n xs ys (omega arith))

pub split_chunks-sizes :
    (size fuel : ℕ) (xs : Bytes) → All (λ c. length c ≡ size) (split_chunks size fuel xs)
unfolding split_chunks
split_chunks-sizes size zero xs = tt
split_chunks-sizes size (suc fuel) [] = tt
split_chunks-sizes size (suc fuel) (x ∷ xs) =
    (length-resize size (take size (x ∷ xs)), split_chunks-sizes size fuel (drop size (x ∷ xs)))

split_chunks-nil : (size fuel : ℕ) → split_chunks size fuel [] ≡ []
unfolding split_chunks
split_chunks-nil size zero = refl
split_chunks-nil size (suc fuel) = refl

pub split_chunks-some :
    (size fuel : ℕ) (xs : Bytes)
    → 1 ≤ length xs
    → length xs ≤ fuel
    → 1 ≤ length (split_chunks size fuel xs)
unfolding split_chunks
split_chunks-some size zero xs h l = absurd (omega arith)
split_chunks-some size (suc fuel) [] h l = absurd (omega arith)
split_chunks-some size (suc fuel) (x ∷ xs) h l = omega arith

-- The chunks put together are the text and padding, if the fuel is at least the text's length.
pub split_chunks-concat :
    (fuel size : ℕ) (xs : Bytes)
    → 1 ≤ size
    → length xs ≤ fuel
    → (pad : Bytes) × (concat (split_chunks size fuel xs) ≡ xs ++ pad)
unfolding split_chunks resize
split_chunks-concat zero size [] h l = ([], refl)
split_chunks-concat zero size (x ∷ xs) h l = absurd (omega arith)
split_chunks-concat (suc fuel) size [] h l = ([], refl)
split_chunks-concat (suc fuel) size (x ∷ xs) h l = elim (Bool-cases (leb size (length (x ∷ xs)))) [
  | inl long ↦
      let text = x ∷ xs in
      let (pad, e) =
        split_chunks-concat fuel size (drop size text) h (omega (arith, length-drop size text)) in
      let cut = take-of_long size text (replicate size 0) (ground arith) in
      (
        pad,
        ap₂ ◌++◌ cut e
            ∙ sym (append_assoc (take size text) (drop size text) pad)
            ∙ ap (λ t. t ++ pad) (take-drop size text),
      )
  | inr short ↦
      let text = x ∷ xs in
      let fits : length text ≤ size = ground arith in
      let (whole, rest) = take-whole size text fits in
      let pad = take (size - length text) (replicate size 0) in
      (
        pad,
        ap₂ ◌++◌
              (ap (λ t. take size (t ++ replicate size 0)) whole
                ∙ take-past size text (replicate size 0) fits)
              (ap (λ t. concat (split_chunks size fuel t)) rest
                ∙ ap concat (split_chunks-nil size fuel))
            ∙ append-nil (text ++ pad),
      )
]
