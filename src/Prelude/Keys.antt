-- ===== src/Prelude/Keys.antt =====
-- Keys of maps: an equality test that decides equality, and the order in which a std::map is walked.
use Prim.Native.Nat.{ℕ}
use mathlib.Core.Path.{◌≡◌, refl}
use mathlib.Core.Logic.{◌↔◌, ◌≢◌}
use mathlib.Core.Bool.{Bool, true, false, ◌&&◌, ◌||◌}
use mathlib.Core.List.{List, [], ◌∷◌}
use native.Mathlib.Omega.{arith}
use de_part.Prelude.Tests.{ltb, ◌==◌, ==_iff}

-- A string of the program: its bytes.
abbrev pub Bytes : Type 0
Bytes = List ℕ

-- `int`; `negsuc n` is -(n + 1).
pub data ℤ : Type 0 where
  pos : ℕ → ℤ
  negsuc : ℕ → ℤ

pub record Key {ℓ} (A : Type ℓ) : Type ℓ where
  pub beq : A → A → Bool
  pub beq_iff : (a b : A) → (beq a b ≡ true) ↔ (a ≡ b)
  pub before : A → A → Bool

module _ {ℓ} {A : Type ℓ} ⦃k : Key A⦄ where
  infix 50 ◌=?◌
  abbrev pub ◌=?◌ : A → A → Bool
  a =? b = k.beq a b

  pub beq_refl : (a : A) → (a =? a) ≡ true
  beq_refl a = (k.beq_iff a a).1 refl

  pub beq→eq : (a b : A) → (a =? b) ≡ true → a ≡ b
  beq→eq a b = (k.beq_iff a b).0

  pub beq→ne : (a b : A) → (a =? b) ≡ false → a ≢ b
  beq→ne a b h e = cc ((k.beq_iff a b).1 e)

abbrev pub int_beq : ℤ → ℤ → Bool
int_beq (pos a) (pos b) = a == b
int_beq (pos a) (negsuc b) = false
int_beq (negsuc a) (pos b) = false
int_beq (negsuc a) (negsuc b) = a == b

abbrev pub int_before : ℤ → ℤ → Bool
int_before (pos a) (pos b) = ltb a b
int_before (pos a) (negsuc b) = false
int_before (negsuc a) (pos b) = true
int_before (negsuc a) (negsuc b) = ltb b a

pub int_beq_iff : (a b : ℤ) → (int_beq a b ≡ true) ↔ (a ≡ b)
int_beq_iff (pos a) (pos b) = ground arith
int_beq_iff (pos a) (negsuc b) = ground arith
int_beq_iff (negsuc a) (pos b) = ground arith
int_beq_iff (negsuc a) (negsuc b) = ground arith

abbrev pub bytes_beq : Bytes → Bytes → Bool
bytes_beq [] [] = true
bytes_beq [] (b ∷ bs) = false
bytes_beq (a ∷ as') [] = false
bytes_beq (a ∷ as') (b ∷ bs) = (a == b) && bytes_beq as' bs

-- Lexicographic, as `operator<` on std::string.
abbrev pub bytes_before : Bytes → Bytes → Bool
bytes_before [] [] = false
bytes_before [] (b ∷ bs) = true
bytes_before (a ∷ as') [] = false
bytes_before (a ∷ as') (b ∷ bs) = ltb a b || ((a == b) && bytes_before as' bs)

pub bytes_beq_iff : (a b : Bytes) → (bytes_beq a b ≡ true) ↔ (a ≡ b)
bytes_beq_iff [] [] = ground arith
bytes_beq_iff [] (b ∷ bs) = ground arith
bytes_beq_iff (a ∷ as') [] = ground arith
bytes_beq_iff (a ∷ as') (b ∷ bs) = ground (arith, bytes_beq_iff as' bs)

instance abbrev pub nat_key : Key ℕ
nat_key = record { beq = ◌==◌; beq_iff = ==_iff; before = ltb }

instance abbrev pub int_key : Key ℤ
int_key = record { beq = int_beq; beq_iff = int_beq_iff; before = int_before }

instance abbrev pub bytes_key : Key Bytes
bytes_key = record { beq = bytes_beq; beq_iff = bytes_beq_iff; before = bytes_before }

module _ {ℓ κ} {A : Type ℓ} {B : Type κ} ⦃ka : Key A⦄ ⦃kb : Key B⦄ where
  abbrev pub pair_beq : A × B → A × B → Bool
  pair_beq p q = ka.beq p.0 q.0 && kb.beq p.1 q.1

  pub pair_beq_iff : (p q : A × B) → (pair_beq p q ≡ true) ↔ (p ≡ q)
  pair_beq_iff (a, b) (c, d) = ground (arith, ka.beq_iff a c, kb.beq_iff b d)

  -- std::pair compares its first parts, then its second parts.
  instance abbrev pub pair_key : Key (A × B)
  pair_key = record {
    beq = pair_beq;
    beq_iff = pair_beq_iff;
    before = λ p q. ka.before p.0 q.0 || (ka.beq p.0 q.0 && kb.before p.1 q.1);
  }
