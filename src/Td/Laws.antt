-- ===== src/Td/Laws.antt =====
-- The fields of a transfer descriptor: each operation sets its own and keeps the others.
use imxrt_usbd.Common.{
  ℕ, ◌-◌, ◌%◌, ◌^◌, ◌≤◌, ◌<◌, ◌≡◌, refl, arith, Bool, done, panic, true, ◌∙◌, if◌then◌else◌,
}
use imxrt_usbd.Ral.{Ral}
use imxrt_usbd.Ral.Fields.{IsField, read-modify_self, read-modify_other}
use imxrt_usbd.Td.{
  Td, status_field, ioc, total_bytes, active, set_buffer, bytes_transferred, clear_status,
  set_active, set_interrupt_on_complete,
}

pub status-IsField : IsField status_field 8
status-IsField = omega arith

pub ioc-IsField : IsField ioc 1
ioc-IsField = omega arith

pub total_bytes-IsField : IsField total_bytes 15
total_bytes-IsField = omega arith

-- What the three fields of TOKEN hold.
abbrev pub Holds : Ral → Td → ℕ → ℕ → ℕ → Type 0
Holds ral td total complete state =
    (ral.read total_bytes td.token ≡ total)
    × (ral.read ioc td.token ≡ complete)
    × (ral.read status_field td.token ≡ state)

module _ (ral : Ral) (td : Td) (total complete state : ℕ)
    (h : Holds ral td total complete state) where
  pub set_active-Holds : Holds ral (set_active ral td) total complete active
  unfolding set_active
  set_active-Holds = (
    read-modify_other ral status-IsField total_bytes-IsField refl active td.token ∙ h.0,
    read-modify_other ral status-IsField ioc-IsField refl active td.token ∙ h.1,
    read-modify_self ral status-IsField active td.token,
  )

  pub clear_status-Holds : Holds ral (clear_status ral td) total complete 0
  unfolding clear_status
  clear_status-Holds = (
    read-modify_other ral status-IsField total_bytes-IsField refl 0 td.token ∙ h.0,
    read-modify_other ral status-IsField ioc-IsField refl 0 td.token ∙ h.1,
    read-modify_self ral status-IsField 0 td.token,
  )

  pub set_interrupt_on_complete-Holds :
      (on : Bool)
      → Holds ral (set_interrupt_on_complete ral on td) total (if on then 1 else 0) state
  unfolding set_interrupt_on_complete
  set_interrupt_on_complete-Holds on = (
    read-modify_other ral ioc-IsField total_bytes-IsField refl (if on then 1 else 0) td.token ∙ h.0,
    read-modify_self ral ioc-IsField (if on then 1 else 0) td.token ∙ below on,
    read-modify_other ral ioc-IsField status-IsField refl (if on then 1 else 0) td.token ∙ h.2,
  )
    where
      below : (on : Bool) → (if on then 1 else 0) % 2 ^ 1 ≡ (if on then 1 else 0)
      below on = ground arith

  -- Where `set_buffer` returns, the byte count is in TOTAL_BYTES, cut to its 15 bits, and kept whole
  -- beside; the other fields are as they were.
  pub set_buffer-Holds :
      (checks : Bool) (ptr size : ℕ) {td' : Td}
      → set_buffer ral checks ptr size td ≡ done td'
      → Holds ral td' (size % 2 ^ 15) complete state
        × (td'.last_transfer_size ≡ size)
        × (td'.next ≡ td.next)
  unfolding set_buffer
  set_buffer-Holds checks ptr size e = ground (
    arith,
    read-modify_self ral total_bytes-IsField (size % 2 ^ 32) td.token,
    read-modify_other ral total_bytes-IsField ioc-IsField refl (size % 2 ^ 32) td.token,
    read-modify_other ral total_bytes-IsField status-IsField refl (size % 2 ^ 32) td.token,
  )

-- Bytes transferred: what was scheduled less what the controller leaves in TOTAL_BYTES.
pub bytes_transferred_lem :
    (ral : Ral) (checks : Bool) (td : Td)
    → ral.read total_bytes td.token ≤ td.last_transfer_size
    → bytes_transferred ral checks td ≡ done (td.last_transfer_size - ral.read total_bytes td.token)
unfolding bytes_transferred
bytes_transferred_lem ral checks td h = ground arith

pub bytes_transferred_overflow :
    (ral : Ral) (td : Td)
    → td.last_transfer_size < ral.read total_bytes td.token
    → bytes_transferred ral true td ≡ panic
unfolding bytes_transferred
bytes_transferred_overflow ral td h = ground arith
