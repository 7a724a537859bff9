-- ===== src/Ral.antt =====
-- Register fields and the field access macros `read_reg!`, `write_reg!` and `modify_reg!` of
-- imxrt-ral, which src/ral.rs re-exports. The macros are code of another crate: they are
-- parameters, `Ral`, with the expansion that the crate documents as laws.
pub mod Fields
use imxrt_usbd.Common.{ℕ, ◌-◌, ◌*◌, ◌/◌, ◌%◌, ◌^◌, bit_and, bit_or, ◌≡◌, Bool, ◌==◌}

-- A field of a 32-bit register: a module with the constants `offset` and `mask`.
pub record Field : Type 0 where
  pub offset : ℕ
  pub mask : ℕ

-- `modify f v r` is what a register that holds `r` holds after `f` is set to `v`, and `read f r`
-- the value of `f` in it. `write_reg!` with a field is `modify` over zero, and a macro with
-- several fields is a chain of `modify`.
pub record Ral : Type 0 where
  pub read : Field → ℕ → ℕ
  pub modify : Field → ℕ → ℕ → ℕ
  pub read_eq : (f : Field) (r : ℕ) → read f r ≡ bit_and r f.mask / 2 ^ f.offset
  pub modify_eq :
      (f : Field) (v r : ℕ)
      → modify f v r
        ≡ bit_or (bit_and r (2 ^ 32 - 1 - f.mask)) (bit_and (v * 2 ^ f.offset % 2 ^ 32) f.mask)

-- The macro `bitflags!`, of the crate bitflags: the operations of a flag type whose flags together
-- are `all`.
pub record Bitflags : Type 0 where
  pub from_bits_truncate : ℕ → ℕ → ℕ
  pub contains : ℕ → ℕ → Bool
  pub truncate_eq : (all bits : ℕ) → from_bits_truncate all bits ≡ bit_and bits all
  pub contains_eq : (flags flag : ℕ) → contains flags flag ≡ (bit_and flags flag == flag)
