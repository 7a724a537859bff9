-- ===== src/Td.antt =====
-- src/td.rs: transfer descriptors. A `VCell` (src/vcell.rs) is the value that it holds.
pub mod Laws
pub mod Tests
pub mod Pages
use imxrt_usbd.Common.{
  ℕ, zero, suc, ◌-◌, ◌*◌, ◌%◌, ◌^◌, bit_and, bit_or, Bool, true, false, List, [], ◌∷◌,
  if◌then◌else◌, ◌==◌, Outcome, done, and_then, M,
}
use imxrt_usbd.Machine.{World, add32, sub32}
use imxrt_usbd.Cache.{clean_invalidate_dcache_by_address}
use imxrt_usbd.Ral.{Field, Ral, Bitflags}

pub record Td : Type 0 where
  pub next : ℕ
  pub token : ℕ
  pub buffer_pointers : List ℕ
  pub last_transfer_size : ℕ

-- The words of a descriptor that the controller reads.
abbrev pub words : Td → List ℕ
words td = td.next ∷ td.token ∷ td.buffer_pointers

abbrev pub new : Td
new = record {
  next = 0;
  token = 0;
  buffer_pointers = 0 ∷ 0 ∷ 0 ∷ 0 ∷ 0 ∷ [];
  last_transfer_size = 0;
}

-- The fields of TOKEN, and the flags of STATUS.
abbrev pub status_field : Field
status_field = record { offset = 0; mask = 0xFF * 2 ^ 0 }

abbrev pub ioc : Field
ioc = record { offset = 15; mask = 1 * 2 ^ 15 }

abbrev pub total_bytes : Field
total_bytes = record { offset = 16; mask = 0x7FFF * 2 ^ 16 }

abbrev pub active : ℕ
active = 2 ^ 7

abbrev pub halted : ℕ
halted = 2 ^ 6

abbrev pub data_buffer_error : ℕ
data_buffer_error = 2 ^ 5

abbrev pub transaction_error : ℕ
transaction_error = 2 ^ 3

abbrev pub all_flags : ℕ
all_flags = bit_or active (bit_or halted (bit_or data_buffer_error transaction_error))

abbrev pub ptr_alignment : ℕ
ptr_alignment = 4096

abbrev pub ptr_mask : ℕ
ptr_mask = 2 ^ 32 - 1 - (ptr_alignment - 1)

-- The loop over `BUFFER_POINTERS[1..]`, `n` entries from one that follows `ptr`.
pub next_pages : Bool → ℕ → ℕ → Outcome (List ℕ)
next_pages checks zero ptr = done []
next_pages checks (suc n) ptr =
    and_then (add32 checks (bit_and ptr ptr_mask) ptr_alignment)
      λ page. and_then (next_pages checks n page) λ rest. done (page ∷ rest)

-- The buffer pointers of a transfer at `ptr`.
pub pages : Bool → ℕ → Outcome (List ℕ)
pages checks ptr = and_then (next_pages checks 4 (ptr % 2 ^ 32)) λ rest. done (ptr % 2 ^ 32 ∷ rest)

-- Clean and invalidate from D-cache: `slot` is the address of the local variable `self`, which
-- `&self as *const _` denotes in a method that takes `&self`.
unfoldable pub clean_invalidate_dcache : Bool → ℕ → M World (Unit {0})
clean_invalidate_dcache checks slot = clean_invalidate_dcache_by_address checks slot 32

module _ (ral : Ral) where
  unfoldable pub set_buffer : Bool → ℕ → ℕ → Td → Outcome Td
  set_buffer checks ptr size td =
      let td' = record td {
        token = ral.modify total_bytes (size % 2 ^ 32) td.token;
        last_transfer_size = size;
      } in
      if size == 0
      then done (record td' { buffer_pointers = 0 ∷ 0 ∷ 0 ∷ 0 ∷ 0 ∷ [] })
      else and_then (pages checks ptr) λ ptrs. done (record td' { buffer_pointers = ptrs })

  unfoldable pub bytes_transferred : Bool → Td → Outcome ℕ
  bytes_transferred checks td = sub32 checks td.last_transfer_size (ral.read total_bytes td.token)

  unfoldable pub status : Bitflags → Td → ℕ
  status flags td = flags.from_bits_truncate all_flags (ral.read status_field td.token)

  unfoldable pub clear_status : Td → Td
  clear_status td = record td { token = ral.modify status_field 0 td.token }

  unfoldable pub set_active : Td → Td
  set_active td = record td { token = ral.modify status_field active td.token }

  unfoldable pub set_interrupt_on_complete : Bool → Td → Td
  set_interrupt_on_complete on td = record td {
    token = ral.modify ioc (if on then 1 else 0) td.token;
  }

unfoldable pub set_terminate : Td → Td
set_terminate td = record td { next = 1 }

unfoldable pub set_next : ℕ → Td → Td
set_next next td = record td { next = next % 2 ^ 32 }
