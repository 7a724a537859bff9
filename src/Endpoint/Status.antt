-- ===== src/Endpoint/Status.antt =====
-- When an endpoint reports a failed transfer.
use imxrt_usbd.Common.{ℕ, ◌/◌, ◌%◌, bit_and, ◌≡◌, arith, Bool, ◌||◌, if◌then◌else◌, ◌==◌}
use imxrt_usbd.Common.Bits.{bit-bit_and}
use imxrt_usbd.Common.Bits.Shift.{bit_and_mask}
use imxrt_usbd.Td
use imxrt_usbd.Platform.{Platform, ok, err, invalid_state}
use imxrt_usbd.Endpoint.{Endpoint, check_errors}

module _ (p : Platform) where
  -- The status bits that report a failure: halted, data buffer error, transaction error.
  abbrev pub failed : ℕ → Bool
  failed state = state / 64 % 2 == 1 || state / 32 % 2 == 1 || state / 8 % 2 == 1

  -- An endpoint is in error exactly when its descriptor's status has one of the three bits set.
  pub check_errors_lem :
      (ep : Endpoint)
      → check_errors p ep
        ≡ (if failed (p.ral.read Td.status_field ep.td.token) then err invalid_state else ok tt)
  unfolding check_errors Td.status
  check_errors_lem ep =
      let state = p.ral.read Td.status_field ep.td.token in
      ground (
        arith,
        p.flags.truncate_eq Td.all_flags state,
        p.flags.contains_eq (bit_and state Td.all_flags) Td.transaction_error,
        p.flags.contains_eq (bit_and state Td.all_flags) Td.data_buffer_error,
        p.flags.contains_eq (bit_and state Td.all_flags) Td.halted,
        bit_and_mask 3 1 (bit_and state Td.all_flags),
        bit_and_mask 5 1 (bit_and state Td.all_flags),
        bit_and_mask 6 1 (bit_and state Td.all_flags),
        bit-bit_and state Td.all_flags 3,
        bit-bit_and state Td.all_flags 5,
        bit-bit_and state Td.all_flags 6,
      )
