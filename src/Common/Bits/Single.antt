-- ===== src/Common/Bits/Single.antt =====
-- Masks of a single bit: testing and setting bit `i`.
use mathlib.Core.Path.{◌≡◌, ap, ◌∙◌, sym}
use mathlib.Core.Logic.{◌≢◌}
use Prim.Native.Nat.{ℕ, suc, ◌-◌, ◌*◌, ◌^◌, bit_and, bit_or}
use native.Mathlib.Decide.{dec_lt, ℕ_discrete}
use native.Mathlib.Omega.{arith}
use imxrt_usbd.Common.Tests.{◌==◌}
use imxrt_usbd.Common.Bits.{bit, bit-zero, bit_ext, bit-bit_and, bit-bit_or, bit-le-one}
use imxrt_usbd.Common.Bits.Shift.{two-pow-pos, bit-shift_low, bit-shift_high, bit-div, bit_and_mask}

bit_one-suc : (i : ℕ) → bit 1 (suc i) ≡ 0
bit_one-suc i = bit-zero i

pow-one : (i : ℕ) → 1 * 2 ^ i ≡ 2 ^ i
pow-one i = omega arith

pub bit-pow_self : (i : ℕ) → bit (2 ^ i) i ≡ 1
bit-pow_self i = rw (sym (pow-one i)) (bit-shift_high 1 i 0 i (omega arith))

pub bit-pow_ne : (i j : ℕ) → i ≢ j → bit (2 ^ i) j ≡ 0
bit-pow_ne i j ne = ap (λ t. bit t j) (sym (pow-one i)) ∙ elim (dec_lt j i) [
  | yes low ↦ bit-shift_low 1 i j low
  | no high ↦ bit-shift_high 1 i (suc (j - i - 1)) j (omega arith) ∙ bit-zero (j - i - 1)
]

pub bit_and_comm : (a b : ℕ) → bit_and a b ≡ bit_and b a
bit_and_comm a b = bit_ext _ _ λ i. omega (arith, bit-bit_and a b i, bit-bit_and b a i)

-- `(1 << i) & m`.
pub bit_and-pow : (i m : ℕ) → bit_and (2 ^ i) m ≡ bit m i * 2 ^ i
bit_and-pow i m =
    bit_and_comm (2 ^ i) m
    ∙ ap (bit_and m) (sym (pow-one i))
    ∙ bit_and_mask i 1 m
    ∙ ap (λ t. t * 2 ^ i) (bit-div m i 0 i (omega arith))

pub test_bit : (i m : ℕ) → (bit_and (2 ^ i) m == 0) ≡ (bit m i == 0)
test_bit i m = rw (bit_and-pow i m) (grind (arith, two-pow-pos i, bit-le-one m i))

pub test_bit_right : (i m : ℕ) → (bit_and m (2 ^ i) == 0) ≡ (bit m i == 0)
test_bit_right i m = rw (bit_and_comm m (2 ^ i)) (test_bit i m)

-- `m | (1 << i)`.
pub bit-set_self : (m i : ℕ) → bit (bit_or m (2 ^ i)) i ≡ 1
bit-set_self m i = omega (arith, bit-bit_or m (2 ^ i) i, bit-pow_self i, bit-le-one m i)

pub bit-set_ne : (m i j : ℕ) → i ≢ j → bit (bit_or m (2 ^ i)) j ≡ bit m j
bit-set_ne m i j ne = omega (arith, bit-bit_or m (2 ^ i) j, bit-pow_ne i j ne)

pub bit-set_again : (m i : ℕ) → bit m i ≡ 1 → bit_or m (2 ^ i) ≡ m
bit-set_again m i h = bit_ext _ _ λ j. elim (ℕ_discrete i j) [
  | yes same ↦ rw (sym same) (bit-set_self m i ∙ sym h)
  | no ne ↦ bit-set_ne m i j ne
]
