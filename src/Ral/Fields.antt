-- ===== src/Ral/Fields.antt =====
-- What reading and setting the fields of a register do to one another.
use mathlib.Core.Path.{◌∙◌}
use native.Mathlib.Decide.{dec_lt}
use native.Mathlib.Nat.{mod-lt, mul-div_cancel, mul-pos}
use imxrt_usbd.Common.{
  ℕ, zero, suc, ◌+◌, ◌-◌, ◌*◌, ◌/◌, ◌%◌, ◌^◌, ◌≤◌, ◌<◌, min, max, bit_and, ◌==◌, ◌≡◌, refl, ap,
  arith,
}
use imxrt_usbd.Common.Bits.{bit, bit-le-one, bit-zero, bit-bit_and, bit-bit_or, bit_ext}
use imxrt_usbd.Common.Bits.Shift.{
  two-pow-pos, bit-shift_low, bit-shift_high, bit-div, bit-ones_low, bit-ones_high, bit_of_lt,
  bit-not, bit-mod_low, lt_of_bits, bit_and_mask,
}
use imxrt_usbd.Ral.{Field, Ral}

-- `f` is `w` bits wide: its mask is `w` ones from `offset` on, within 32 bits.
pub record IsField (f : Field) (w : ℕ) : Type 0 where
  pub mask_eq : f.mask ≡ (2 ^ w - 1) * 2 ^ f.offset
  pub fits : f.offset + w ≤ 32
  pub small : f.mask < 2 ^ 32

-- Two fields that have no bit in common.
abbrev pub AreDisjoint : Field → Field → Type 0
AreDisjoint f g = bit_and f.mask g.mask ≡ 0

zero_test : (x n : ℕ) → 1 ≤ n → (x * n == 0) ≡ (x == 0)
zero_test zero n h = ground arith
zero_test (suc x) n h = ground (arith, mul-pos {m = suc x} {n = n} (omega arith) (omega arith))

module _ {f : Field} {w : ℕ} (is_field : IsField f w) where
  mask_low : (i : ℕ) → i < f.offset → bit f.mask i ≡ 0
  mask_low i h = rw is_field.mask_eq (bit-shift_low (2 ^ w - 1) f.offset i h)

  mask_in : (i j : ℕ) → j ≡ f.offset + i → i < w → bit f.mask j ≡ 1
  mask_in i j e h =
      rw is_field.mask_eq (bit-shift_high (2 ^ w - 1) f.offset i j e ∙ bit-ones_low w i h)

  mask_high : (i j : ℕ) → j ≡ f.offset + i → w ≤ i → bit f.mask j ≡ 0
  mask_high i j e h =
      rw is_field.mask_eq (bit-shift_high (2 ^ w - 1) f.offset i j e ∙ bit-ones_high w i h)

  mask_above : (i : ℕ) → 32 ≤ i → bit f.mask i ≡ 0
  mask_above i h = bit_of_lt 32 f.mask i is_field.small h

module _ (ral : Ral) where
  -- Bit `j` of a register after `f` is set to `v`.
  bit-modify :
      {f : Field} {w : ℕ}
      → IsField f w
      → (v r j : ℕ) → j < 32
      → bit (ral.modify f v r) j
        ≡ max (min (bit r j) (1 - bit f.mask j)) (min (bit (v * 2 ^ f.offset) j) (bit f.mask j))
  bit-modify {f} c v r j h = rw (
    ral.modify_eq f v r,
    bit-bit_or (bit_and r (2 ^ 32 - 1 - f.mask)) (bit_and (v * 2 ^ f.offset % 2 ^ 32) f.mask) j,
    bit-bit_and r (2 ^ 32 - 1 - f.mask) j,
    bit-bit_and (v * 2 ^ f.offset % 2 ^ 32) f.mask j,
    bit-not 32 f.mask j c.small h,
    bit-mod_low 32 (v * 2 ^ f.offset) j h,
  )

  bit-read :
      (f : Field) (r i : ℕ)
      → bit (ral.read f r) i ≡ min (bit r (f.offset + i)) (bit f.mask (f.offset + i))
  bit-read f r i = rw (ral.read_eq f r) (
      bit-div (bit_and r f.mask) f.offset i (f.offset + i) refl
      ∙ bit-bit_and r f.mask (f.offset + i))

  pub read-modify_self :
      {f : Field} {w : ℕ} → IsField f w → (v r : ℕ) → ral.read f (ral.modify f v r) ≡ v % 2 ^ w
  read-modify_self {f} {w} c v r = bit_ext _ _ λ i. elim (dec_lt i w) [
    | yes h ↦ omega (
      arith,
      bit-read f (ral.modify f v r) i,
      bit-modify c v r (f.offset + i) (omega (arith, c.fits)),
      mask_in c i (f.offset + i) refl h,
      bit-shift_high v f.offset i (f.offset + i) refl,
      bit-mod_low w v i h,
      bit-le-one r (f.offset + i),
      bit-le-one v i,
    )
    | no h ↦ omega (
      arith,
      bit-read f (ral.modify f v r) i,
      mask_high c i (f.offset + i) refl (omega arith),
      bit_of_lt w (v % 2 ^ w) i (mod-lt v (two-pow-pos w)) (omega arith),
    )
  ]

  pub read-modify_other :
      {f g : Field} {w u : ℕ}
      → IsField f w
      → IsField g u
      → AreDisjoint f g
      → (v r : ℕ) → ral.read g (ral.modify f v r) ≡ ral.read g r
  read-modify_other {f} {g} {w} {u} c d apart v r = bit_ext _ _ λ i.
      elim (dec_lt (g.offset + i) 32) [
        | yes h ↦ omega (
          arith,
          bit-read g (ral.modify f v r) i,
          bit-read g r i,
          bit-modify c v r (g.offset + i) h,
          bit-bit_and f.mask g.mask (g.offset + i),
          ap (λ (t : ℕ). bit t (g.offset + i)) apart,
          bit-zero (g.offset + i),
          bit-le-one f.mask (g.offset + i),
          bit-le-one g.mask (g.offset + i),
          bit-le-one r (g.offset + i),
        )
        | no h ↦ omega (
          arith,
          bit-read g (ral.modify f v r) i,
          bit-read g r i,
          mask_above d (g.offset + i) (omega arith),
        )
      ]

  pub read-lt : {f : Field} {w : ℕ} → IsField f w → (r : ℕ) → ral.read f r < 2 ^ w
  read-lt {f} {w} c r =
      lt_of_bits w (ral.read f r)
        λ i h. omega (arith, bit-read f r i, mask_high c i (f.offset + i) refl h)

  -- A register stays within 32 bits.
  pub modify-lt : {f : Field} {w : ℕ} → IsField f w → (v r : ℕ) → ral.modify f v r < 2 ^ 32
  modify-lt {f} c v r = lt_of_bits 32 (ral.modify f v r) λ i h. rw (ral.modify_eq f v r) (
      omega (
        arith,
        bit-bit_or (bit_and r (2 ^ 32 - 1 - f.mask)) (bit_and (v * 2 ^ f.offset % 2 ^ 32) f.mask) i,
        bit-bit_and r (2 ^ 32 - 1 - f.mask) i,
        bit-bit_and (v * 2 ^ f.offset % 2 ^ 32) f.mask i,
        bit_of_lt 32 (2 ^ 32 - 1 - f.mask) i (omega arith) h,
        mask_above c i h,
      ))

  pub read-zero : (f : Field) → ral.read f 0 ≡ 0
  read-zero f = bit_ext _ _ λ i. omega (arith, bit-read f 0 i, bit-zero (f.offset + i), bit-zero i)

  -- A test under the mask of a field is a test of the field.
  pub mask_test :
      {f : Field} {w : ℕ} → IsField f w → (r : ℕ) → (bit_and r f.mask == 0) ≡ (ral.read f r == 0)
  mask_test {f} {w} c r =
      rw (ral.read_eq f r, c.mask_eq, bit_and_mask f.offset w r)
        (let x = r / 2 ^ f.offset % 2 ^ w in
          rw (mul-div_cancel x (two-pow-pos f.offset))
            (zero_test x (2 ^ f.offset) (two-pow-pos f.offset)))
