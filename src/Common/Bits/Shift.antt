-- ===== src/Common/Bits/Shift.antt =====
-- The bits of shifted numbers, of masks, of complements and of single bits.
use mathlib.Core.Path.{◌≡◌, ap, ◌∙◌, sym}
use Prim.Native.Nat.{ℕ, zero, suc, ◌+◌, ◌-◌, ◌*◌, ◌/◌, ◌%◌, ◌^◌, ◌≤◌, ◌<◌, min, bit_and}
use native.Mathlib.Nat.{
  pow-suc, one-le-pow, mul_comm, div-div-eq-div-mul, mod-eq-sub-div-mul, div-mul-le_self, mod-lt,
}
use native.Mathlib.Decide.{dec_lt}
use native.Mathlib.Omega.{arith}
use imxrt_usbd.Common.Bits.{bit, bit-zero, bit_ext, bit-bit_and, bit-le-one}

pub two-pow-pos : (k : ℕ) → 1 ≤ 2 ^ k
two-pow-pos k = one-le-pow k 2 (omega arith)

mul-pow-suc : (a k : ℕ) → a * 2 ^ suc k ≡ a * 2 ^ k * 2
mul-pow-suc a k = omega (arith, ap (λ (t : ℕ). a * t) (pow-suc 2 k))

div-pow-suc : (a k : ℕ) → a / 2 ^ suc k ≡ a / 2 / 2 ^ k
div-pow-suc a k = rw (pow-suc, mul_comm (2 ^ k) 2, div-div-eq-div-mul)

mod-pow-suc : (a w : ℕ) → (a % 2 ^ suc w % 2 ≡ a % 2) × (a % 2 ^ suc w / 2 ≡ a / 2 % 2 ^ w)
mod-pow-suc a w = omega (
  arith,
  mod-eq-sub-div-mul a (2 ^ suc w),
  mod-eq-sub-div-mul (a / 2) (2 ^ w),
  div-pow-suc a w,
  ap (λ (t : ℕ). t * 2 ^ suc w) (div-pow-suc a w),
  mul-pow-suc (a / 2 / 2 ^ w) w,
  div-mul-le_self (a / 2) (2 ^ w),
)

bit_cong : {a b : ℕ} (i : ℕ) → a ≡ b → bit a i ≡ bit b i
bit_cong i e = ap (λ t. bit t i) e

-- `a << k` has no bit below `k`.
pub bit-shift_low : (a k i : ℕ) → i < k → bit (a * 2 ^ k) i ≡ 0
bit-shift_low a zero i h = elim h [ ]
bit-shift_low a (suc k) zero h = omega (arith, mul-pow-suc a k)
bit-shift_low a (suc k) (suc i) h =
    bit_cong i (omega (arith, mul-pow-suc a k)) ∙ bit-shift_low a k i (omega arith)

-- From `k` on, `a << k` has the bits of `a`.
pub bit-shift_high : (a k i j : ℕ) → j ≡ k + i → bit (a * 2 ^ k) j ≡ bit a i
bit-shift_high a zero i j e =
    bit_cong {b = a} j (omega arith) ∙ ap (bit a) {x = j} {y = i} (omega arith)
bit-shift_high a (suc k) i zero e = absurd (omega arith)
bit-shift_high a (suc k) i (suc j) e =
    bit_cong j (omega (arith, mul-pow-suc a k)) ∙ bit-shift_high a k i j (omega arith)

-- `a >> k`.
pub bit-div : (a k i j : ℕ) → j ≡ k + i → bit (a / 2 ^ k) i ≡ bit a j
bit-div a zero i j e = bit_cong {b = a} i (omega arith) ∙ ap (bit a) {x = i} {y = j} (omega arith)
bit-div a (suc k) i zero e = absurd (omega arith)
bit-div a (suc k) i (suc j) e = bit_cong i (div-pow-suc a k) ∙ bit-div (a / 2) k i j (omega arith)

-- A mask of `w` ones.
pub bit-ones_low : (w i : ℕ) → i < w → bit (2 ^ w - 1) i ≡ 1
bit-ones_low zero i h = elim h [ ]
bit-ones_low (suc w) zero h = omega (arith, pow-suc 2 w, two-pow-pos w)
bit-ones_low (suc w) (suc i) h =
    bit_cong i (omega (arith, pow-suc 2 w, two-pow-pos w)) ∙ bit-ones_low w i (omega arith)

pub bit_of_lt : (w a i : ℕ) → a < 2 ^ w → w ≤ i → bit a i ≡ 0
bit_of_lt zero a i h le = bit_cong i (omega arith) ∙ bit-zero i
bit_of_lt (suc w) a zero h le = elim le [ ]
bit_of_lt (suc w) a (suc i) h le = bit_of_lt w (a / 2) i (omega (arith, pow-suc 2 w)) (omega arith)

pub bit-ones_high : (w i : ℕ) → w ≤ i → bit (2 ^ w - 1) i ≡ 0
bit-ones_high w i h = bit_of_lt w (2 ^ w - 1) i (omega (arith, two-pow-pos w)) h

-- `!m` at `w` bits.
pub bit-not : (w m i : ℕ) → m < 2 ^ w → i < w → bit (2 ^ w - 1 - m) i ≡ 1 - bit m i
bit-not zero m i h lt = elim lt [ ]
bit-not (suc w) m zero h lt = omega (arith, pow-suc 2 w, two-pow-pos w)
bit-not (suc w) m (suc i) h lt =
    bit_cong i (omega (arith, pow-suc 2 w, two-pow-pos w))
    ∙ bit-not w (m / 2) i (omega (arith, pow-suc 2 w)) (omega arith)

-- `a % 2 ^ w` keeps the low `w` bits.
pub bit-mod_low : (w a i : ℕ) → i < w → bit (a % 2 ^ w) i ≡ bit a i
bit-mod_low zero a i h = elim h [ ]
bit-mod_low (suc w) a zero h = (mod-pow-suc a w).0
bit-mod_low (suc w) a (suc i) h =
    bit_cong i (mod-pow-suc a w).1 ∙ bit-mod_low w (a / 2) i (omega arith)

-- A number with no bit from `w` on is below `2 ^ w`.
pub lt_of_bits : (w a : ℕ) → ((i : ℕ) → w ≤ i → bit a i ≡ 0) → a < 2 ^ w
lt_of_bits w a h = rw (sym low) (mod-lt a (two-pow-pos w))
  where
    low : a % 2 ^ w ≡ a
    low = bit_ext _ _ λ i. elim (dec_lt i w) [
      | yes inside ↦ bit-mod_low w a i inside
      | no above ↦
          bit_of_lt w (a % 2 ^ w) i (mod-lt a (two-pow-pos w)) (omega arith)
          ∙ sym (h i (omega arith))
    ]

-- `a & mask`, for a mask of `w` ones from `k` on.
pub bit_and_mask : (k w a : ℕ) → bit_and a ((2 ^ w - 1) * 2 ^ k) ≡ a / 2 ^ k % 2 ^ w * 2 ^ k
bit_and_mask k w a = bit_ext _ _ λ i. elim (dec_lt i k) [
  | yes low ↦ omega (
    arith,
    bit-bit_and a ((2 ^ w - 1) * 2 ^ k) i,
    bit-shift_low (2 ^ w - 1) k i low,
    bit-shift_low (a / 2 ^ k % 2 ^ w) k i low,
  )
  | no high ↦ bit-bit_and a ((2 ^ w - 1) * 2 ^ k) i ∙ at_field i (i - k) (omega arith)
]
  where
    at_field :
        (i j : ℕ)
        → i ≡ k + j
        → min (bit a i) (bit ((2 ^ w - 1) * 2 ^ k) i) ≡ bit (a / 2 ^ k % 2 ^ w * 2 ^ k) i
    at_field i j e = elim (dec_lt j w) [
      | yes inside ↦ omega (
        arith,
        bit-shift_high (2 ^ w - 1) k j i e,
        bit-shift_high (a / 2 ^ k % 2 ^ w) k j i e,
        bit-ones_low w j inside,
        bit-mod_low w (a / 2 ^ k) j inside,
        bit-div a k j i e,
        bit-le-one a i,
      )
      | no above ↦ omega (
        arith,
        bit-shift_high (2 ^ w - 1) k j i e,
        bit-shift_high (a / 2 ^ k % 2 ^ w) k j i e,
        bit-ones_high w j (omega arith),
        bit_of_lt w (a / 2 ^ k % 2 ^ w) j (mod-lt (a / 2 ^ k) (two-pow-pos w)) (omega arith),
      )
    ]
