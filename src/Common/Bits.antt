-- ===== src/Common/Bits.antt =====
-- Bits of natural numbers: the native `bit_and` and `bit_or` digit by digit, at every width.
pub mod Shift
pub mod Single
use Prim.Native.Nat.{ℕ, zero, suc, ◌+◌, ◌*◌, ◌/◌, ◌%◌, ◌≤◌, min, max, bit_and, bit_or}
use Prim.Native.Nat.{digits, bit_and-bitwise, bit_or-bitwise}
use mathlib.Core.Path.{◌≡◌, refl, ap, ◌∙◌}
use native.Mathlib.Decide.{dec_le}
use native.Mathlib.Omega.{arith}

module _ (z : ℕ → ℕ) (op : ℕ → ℕ → ℕ) where
  -- Fuel beyond the first number is never used.
  digits_more : (n a b : ℕ) → a ≤ n → digits z op (suc n) a b ≡ digits z op n a b
  digits_more zero zero b le = refl
  digits_more zero (suc a) b le = elim le [ ]
  digits_more (suc n) zero b le = refl
  digits_more (suc n) (suc a) b le = rw (digits_more n (suc a / 2) (b / 2) (omega arith))

  digits_enough : (n a b : ℕ) → a ≤ n → digits z op n a b ≡ digits z op a a b
  digits_enough zero a b le = ap (λ fuel. digits z op fuel a b) {x = 0} (omega arith)
  digits_enough (suc n) a b le = elim (dec_le a n) [
    | yes below ↦ digits_more n a b below ∙ digits_enough n a b below
    | no above ↦ ap (λ fuel. digits z op fuel a b) {x = suc n} (omega arith)
  ]

  digits-half :
      (a b : ℕ)
      → digits z op (suc a) (suc a) b
        ≡ digits z op (suc a / 2) (suc a / 2) (b / 2) * 2 + op (suc a % 2) (b % 2)
  digits-half a b = rw (digits_enough a (suc a / 2) (b / 2) (omega arith))

pub bit_or-half : (a b : ℕ) → bit_or a b ≡ bit_or (a / 2) (b / 2) * 2 + max (a % 2) (b % 2)
bit_or-half zero b = simp bit_or-bitwise (omega arith)
bit_or-half (suc a) b = simp bit_or-bitwise (digits-half (λ rest. rest) max a b)

pub bit_and-half : (a b : ℕ) → bit_and a b ≡ bit_and (a / 2) (b / 2) * 2 + min (a % 2) (b % 2)
bit_and-half zero b = simp bit_and-bitwise (omega arith)
bit_and-half (suc a) b = simp bit_and-bitwise (digits-half (λ rest. 0) min a b)

-- Bit `i` of a number, by recursion on the position.
abbrev pub bit : ℕ → ℕ → ℕ
bit a zero = a % 2
bit a (suc i) = bit (a / 2) i

pub bit-le-one : (a i : ℕ) → bit a i ≤ 1
bit-le-one a zero = omega arith
bit-le-one a (suc i) = bit-le-one (a / 2) i

pub bit-zero : (i : ℕ) → bit 0 i ≡ 0
bit-zero zero = refl
bit-zero (suc i) = bit-zero i

pub bit-bit_and : (a b i : ℕ) → bit (bit_and a b) i ≡ min (bit a i) (bit b i)
bit-bit_and a b zero = omega (arith, bit_and-half a b)
bit-bit_and a b (suc i) = ap (λ t. bit t i) half ∙ bit-bit_and (a / 2) (b / 2) i
  where
    half : bit_and a b / 2 ≡ bit_and (a / 2) (b / 2)
    half = omega (arith, bit_and-half a b)

pub bit-bit_or : (a b i : ℕ) → bit (bit_or a b) i ≡ max (bit a i) (bit b i)
bit-bit_or a b zero = omega (arith, bit_or-half a b)
bit-bit_or a b (suc i) = ap (λ t. bit t i) half ∙ bit-bit_or (a / 2) (b / 2) i
  where
    half : bit_or a b / 2 ≡ bit_or (a / 2) (b / 2)
    half = omega (arith, bit_or-half a b)

-- Numbers with the same bits are equal.
bit_ext_below : (n a b : ℕ) → a ≤ n → b ≤ n → ((i : ℕ) → bit a i ≡ bit b i) → a ≡ b
bit_ext_below zero a b p q h = omega arith
bit_ext_below (suc n) a b p q h =
    omega (arith, h 0, bit_ext_below n (a / 2) (b / 2) (omega arith) (omega arith) (λ i. h (suc i)))

pub bit_ext : (a b : ℕ) → ((i : ℕ) → bit a i ≡ bit b i) → a ≡ b
bit_ext a b h = bit_ext_below (a + b) a b (omega arith) (omega arith) h
