-- ===== src/Cache/Cover.antt =====
-- Which bytes a clean of the D-cache reaches, and what it writes back.
use imxrt_usbd.Common.{
  ℕ, zero, suc, ◌+◌, ◌-◌, ◌*◌, ◌/◌, ◌^◌, ◌<◌, bit_and, ◌≡◌, refl, arith, Bool, false, ◌&&◌, ◌||◌,
  List, [], ◌∷◌, ltb, leb, done, ◌%◌, ◌↔◌, Option, none, some, ◌==◌, if◌then◌else◌,
}
use imxrt_usbd.Common.Bits.Shift.{bit_and_mask}
use imxrt_usbd.Machine.{World, Access, rd, wr, dccimvac, setup_read, td_store, qh_store, dsb, isb}
use imxrt_usbd.Cache.{clean_lines, clean_invalidate_dcache_by_address}

-- Whether one of the accesses cleaned the cache line that holds byte `b`.
abbrev pub cleans : List Access → ℕ → Bool
cleans [] b = false
cleans (dccimvac a _ ∷ log) b = leb a b && ltb b (a + 32) || cleans log b
cleans (rd _ _ ∷ log) b = cleans log b
cleans (wr _ _ ∷ log) b = cleans log b
cleans (setup_read _ _ ∷ log) b = cleans log b
cleans (td_store _ _ ∷ log) b = cleans log b
cleans (qh_store _ _ ∷ log) b = cleans log b
cleans (dsb ∷ log) b = cleans log b
cleans (isb ∷ log) b = cleans log b

-- What the last clean of its line wrote back for byte `b`, where there was one: what the controller
-- finds there, as long as the processor has stored nothing else.
abbrev pub written_back : List Access → ℕ → Option ℕ
written_back [] b = none
written_back (dccimvac a mem ∷ log) b =
    if leb a b && ltb b (a + 32) then some (mem b) else written_back log b
written_back (rd _ _ ∷ log) b = written_back log b
written_back (wr _ _ ∷ log) b = written_back log b
written_back (setup_read _ _ ∷ log) b = written_back log b
written_back (td_store _ _ ∷ log) b = written_back log b
written_back (qh_store _ _ ∷ log) b = written_back log b
written_back (dsb ∷ log) b = written_back log b
written_back (isb ∷ log) b = written_back log b

-- The words that were last stored to the descriptor at an address, and to the queue head there.
abbrev pub last_td : ℕ → List Access → Option (List ℕ)
last_td at [] = none
last_td at (td_store a words ∷ log) = if a == at then some words else last_td at log
last_td at (dccimvac _ _ ∷ log) = last_td at log
last_td at (rd _ _ ∷ log) = last_td at log
last_td at (wr _ _ ∷ log) = last_td at log
last_td at (setup_read _ _ ∷ log) = last_td at log
last_td at (qh_store _ _ ∷ log) = last_td at log
last_td at (dsb ∷ log) = last_td at log
last_td at (isb ∷ log) = last_td at log

abbrev pub last_qh : ℕ → List Access → Option (List ℕ)
last_qh at [] = none
last_qh at (qh_store a words ∷ log) = if a == at then some words else last_qh at log
last_qh at (dccimvac _ _ ∷ log) = last_qh at log
last_qh at (rd _ _ ∷ log) = last_qh at log
last_qh at (wr _ _ ∷ log) = last_qh at log
last_qh at (setup_read _ _ ∷ log) = last_qh at log
last_qh at (td_store _ _ ∷ log) = last_qh at log
last_qh at (dsb ∷ log) = last_qh at log
last_qh at (isb ∷ log) = last_qh at log

-- The start of the cache line that holds `addr`, and how many lines are cleaned.
abbrev pub line : ℕ → ℕ
line addr = addr / 32 * 32

abbrev pub num_lines : ℕ → ℕ
num_lines size = (size - 1) / 32 + 1

pub bit_and-line : (addr : ℕ) → addr < 2 ^ 32 → bit_and addr 0xFFFF_FFE0 ≡ line addr
bit_and-line addr h = omega (arith, bit_and_mask 5 27 addr)

-- The accesses of registers among all accesses.
abbrev pub reg_log : List Access → List Access
reg_log [] = []
reg_log (rd r v ∷ log) = rd r v ∷ reg_log log
reg_log (wr r v ∷ log) = wr r v ∷ reg_log log
reg_log (dccimvac _ _ ∷ log) = reg_log log
reg_log (setup_read _ _ ∷ log) = reg_log log
reg_log (td_store _ _ ∷ log) = reg_log log
reg_log (qh_store _ _ ∷ log) = reg_log log
reg_log (dsb ∷ log) = reg_log log
reg_log (isb ∷ log) = reg_log log

-- What cleaning some bytes leaves as it was, and what it writes back: `within` says of which bytes.
pub record IsCleaned (within : ℕ → Bool) (w : World) (log : List Access) : Type 0 where
  pub covers : (b : ℕ) → cleans log b ≡ (within b || cleans w.log b)
  pub writes_back :
      (b : ℕ) → written_back log b ≡ (if within b then some (w.mem b) else written_back w.log b)
  pub same_td : (at : ℕ) → last_td at log ≡ last_td at w.log
  pub same_qh : (at : ℕ) → last_qh at log ≡ last_qh at w.log
  pub same_regs : reg_log log ≡ reg_log w.log

pub clean_lines_lem :
    (checks : Bool) (n addr : ℕ) (w : World)
    → addr + 32 * n < 2 ^ 32
    → (log : List Access) × (clean_lines checks n addr w ≡ done (tt, record w { log = log }))
      × IsCleaned (λ b. leb addr b && ltb b (addr + 32 * n)) w log
unfolding clean_lines
clean_lines_lem checks zero addr w h = (
  w.log,
  refl,
  record {
    covers = λ b. ground arith;
    writes_back = λ b. ground arith;
    same_td = λ at. refl;
    same_qh = λ at. refl;
    same_regs = refl;
  },
)
clean_lines_lem checks (suc n) addr w h =
    let (log, ran, c) =
      clean_lines_lem checks n (addr + 32) (record w { log = dccimvac addr w.mem ∷ w.log })
        (omega arith) in
    (
      log,
      ground (arith, ran),
      record {
        covers = λ b. ground (arith, c.covers b);
        writes_back = λ b. ground (arith, c.writes_back b);
        same_td = c.same_td;
        same_qh = c.same_qh;
        same_regs = c.same_regs;
      },
    )

-- The bytes of `num_lines size` lines from the start of the line of `addr` on, none for no bytes.
abbrev pub lines_of : ℕ → ℕ → ℕ → Bool
lines_of addr size b = ltb 0 size && (leb (line addr) b && ltb b (line addr + 32 * num_lines size))

-- Cleaning leaves all else as it was, and writes back the memory as it is.
pub clean-IsCleaned :
    (checks : Bool) (addr size : ℕ) (w : World)
    → addr + size + 32 < 2 ^ 32
    → (log : List Access) × (clean_invalidate_dcache_by_address checks addr size w
        ≡ done (tt, record w { log = log }))
      × IsCleaned (lines_of addr size) w log
unfolding clean_invalidate_dcache_by_address
clean-IsCleaned checks addr zero w fits = (
  w.log,
  refl,
  record {
    covers = λ b. ground arith;
    writes_back = λ b. ground arith;
    same_td = λ at. refl;
    same_qh = λ at. refl;
    same_regs = refl;
  },
)
clean-IsCleaned checks addr (suc size) w fits =
    let (log, ran, c) =
      clean_lines_lem checks (num_lines (suc size)) (line addr) (record w { log = dsb ∷ w.log })
        (omega arith) in
    (
      isb ∷ dsb ∷ log,
      ground (arith, ran, bit_and-line addr (omega arith)),
      record {
        covers = λ b. ground (arith, c.covers b);
        writes_back = λ b. ground (arith, c.writes_back b);
        same_td = c.same_td;
        same_qh = c.same_qh;
        same_regs = c.same_regs;
      },
    )

-- For bytes that end below the last line of the address space, cleaning `size` bytes at `addr`
-- returns and leaves memory and the registers alone. It cleans nothing for no bytes, and otherwise
-- exactly the bytes of `num_lines size` lines from the start of the line of `addr` on.
pub clean-cleans :
    (checks : Bool) (addr size : ℕ) (w : World)
    → addr + size + 32 < 2 ^ 32
    → (log : List Access) × (clean_invalidate_dcache_by_address checks addr size w
        ≡ done (tt, record w { log = log }))
      × ((b : ℕ)
          → cleans log b ≡ (
              ltb 0 size && (leb (line addr) b && ltb b (line addr + 32 * num_lines size))
              || cleans w.log b))
      × (reg_log log ≡ reg_log w.log)
clean-cleans checks addr size w fits =
    let (log, ran, c) = clean-IsCleaned checks addr size w fits in (log, ran, c.covers, c.same_regs)

-- The last of the `size` bytes at `addr` is reached exactly when the offset of `addr` in its line and
-- the rest of the size fit one line together: always for an aligned address, not for all others.
pub clean-last_byte :
    (addr size : ℕ)
    → 0 < size
    → (addr + size - 1 < line addr + 32 * num_lines size) ↔ (addr % 32 + (size - 1) % 32 < 32)
clean-last_byte addr size pos = (λ h. omega arith, λ h. omega arith)
