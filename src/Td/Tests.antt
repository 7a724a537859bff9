-- ===== src/Td/Tests.antt =====
-- Transfer descriptors: a run of each theorem, its hypotheses met.
use imxrt_usbd.Common.{
  ℕ, ◌+◌, ◌-◌, ◌*◌, ◌/◌, ◌%◌, ◌^◌, ◌≤◌, ◌≡◌, arith, true, [], ◌∷◌, some, done, get_elem?,
}
use imxrt_usbd.Td.{Td, set_buffer, bytes_transferred, total_bytes}
use imxrt_usbd.Td.Laws.{bytes_transferred_lem}
use imxrt_usbd.Td.Pages.{set_buffer-covers}
use imxrt_usbd.Manual.{macros}

abbrev td0 : Td
td0 = record {
  next = 1;
  token = 16 * 2 ^ 16;
  buffer_pointers = 0 ∷ 0 ∷ 0 ∷ 0 ∷ 0 ∷ [];
  last_transfer_size = 64;
}

set_buffer-covers_example :
    (td' : Td) × (q : ℕ) × (set_buffer macros true 0x2020_0FF0 64 td0 ≡ done td')
    × (get_elem? td'.buffer_pointers 0 ≡ some 0x2020_0FF0)
    × (get_elem? td'.buffer_pointers ((0x2020_0FF0 % 4096 + 32) / 4096) ≡ some q)
    × (q / 4096 * 4096 + (0x2020_0FF0 % 4096 + 32) % 4096 ≡ 0x2020_0FF0 + 32)
set_buffer-covers_example =
    set_buffer-covers macros true 0x2020_0FF0 64 32 td0 (omega arith) (omega arith) (omega arith)

left : macros.read total_bytes td0.token ≤ 64
left = omega arith

bytes_transferred_example :
    bytes_transferred macros true td0 ≡ done (64 - macros.read total_bytes td0.token)
bytes_transferred_example = bytes_transferred_lem macros true td0 left
