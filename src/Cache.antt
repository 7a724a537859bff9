-- ===== src/Cache.antt =====
-- src/cache.rs: cleaning and invalidating the D-cache by address.
pub mod Cover
pub mod Tests
use imxrt_usbd.Common.{
  ℕ, zero, suc, ◌+◌, ◌-◌, ◌/◌, bit_and, Bool, if◌then◌else◌, ◌==◌, M, pure, lift, ◌>>=◌, ◌>>◌,
}
use imxrt_usbd.Machine.{World, dccimvac, dsb, isb, emit, add32}

abbrev pub line_size : ℕ
line_size = 32

-- The loop `for _ in 0..num_lines`; `addr` is advanced after the last write too.
pub clean_lines : Bool → ℕ → ℕ → M World (Unit {0})
clean_lines checks zero addr = pure tt
clean_lines checks (suc n) addr =
    (λ w. emit (dccimvac addr w.mem) w) >> lift (add32 checks addr line_size) >>= λ next.
    clean_lines checks n next

unfoldable pub clean_invalidate_dcache_by_address : Bool → ℕ → ℕ → M World (Unit {0})
clean_invalidate_dcache_by_address checks addr size = if size == 0 then pure tt else do
  emit dsb
  clean_lines checks ((size - 1) / line_size + 1) (bit_and addr 0xFFFF_FFE0)
  emit dsb
  emit isb
