-- ===== src/Cache/Tests.antt =====
-- Cleaning the cache: a run of each theorem, its hypotheses met.
use imxrt_usbd.Common.{
  ℕ, ◌+◌, ◌-◌, ◌*◌, ◌%◌, ◌<◌, ◌≡◌, ◌↔◌, arith, true, List, [], done, ltb, leb, ◌&&◌, ◌||◌,
}
use imxrt_usbd.Machine.{Access, World}
use imxrt_usbd.Cache.{clean_invalidate_dcache_by_address}
use imxrt_usbd.Cache.Cover.{cleans, line, num_lines, reg_log, clean-cleans, clean-last_byte}

abbrev world0 : World
world0 = record { log = []; mem = λ at. 0 }

clean-cleans_example :
    (log : List Access) × (clean_invalidate_dcache_by_address true 0x2020_0010 64 world0
      ≡ done (tt, record world0 { log = log }))
    × ((b : ℕ)
        → cleans log b ≡ (
            ltb 0 64 && (leb (line 0x2020_0010) b && ltb b (line 0x2020_0010 + 32 * num_lines 64))
            || cleans [] b))
    × (reg_log log ≡ [])
clean-cleans_example = clean-cleans true 0x2020_0010 64 world0 (omega arith)

-- 64 bytes from the middle of a line on: the last is not reached.
clean-last_byte_example :
    (0x2020_0010 + 64 - 1 < line 0x2020_0010 + 32 * num_lines 64)
    ↔ (0x2020_0010 % 32 + (64 - 1) % 32 < 32)
clean-last_byte_example = clean-last_byte 0x2020_0010 64 (omega arith)
