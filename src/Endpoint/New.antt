-- ===== src/Endpoint/New.antt =====
-- What a new endpoint starts with.
use Prim.Native.Nat.{min}
use imxrt_usbd.Common.{ℕ, ◌≡◌, refl, false, ◌&&◌, if◌then◌else◌}
use imxrt_usbd.Buffer.{Buffer}
use imxrt_usbd.Td
use imxrt_usbd.Td.{Td}
use imxrt_usbd.Td.Laws.{clear_status-Holds}
use imxrt_usbd.Qh.{Qh}
use imxrt_usbd.Qh.Laws.{
  Holds, set_zero_length_termination-Holds, set_max_packet_len-Holds, set_interrupt_on_setup-Holds,
}
use imxrt_usbd.Platform.{Platform, EndpointAddress, EndpointType}
use imxrt_usbd.Endpoint.{new, is_control, is_out}

module _ (p : Platform) where
  -- A new endpoint, whatever its queue head and descriptor held before: the packet size is that of
  -- the buffer, at most 1024, zero length termination is off, setup interrupts are on for a control
  -- OUT endpoint only, and the descriptor ends its list with an empty status.
  pub new_lem :
      (address : EndpointAddress) (qh : Qh) (qh_at : ℕ) (td : Td) (td_at : ℕ) (buffer : Buffer)
      (kind : EndpointType)
      → let ep = new p address qh qh_at td td_at buffer kind in
        Holds p.ral ep.qh
          (min buffer.len 1024)
          1
          (if is_control kind && is_out (p.direction address) then 1 else 0)
        × (p.ral.read Td.status_field ep.td.token ≡ 0)
        × (ep.td.next ≡ 1)
        × (ep.address ≡ address)
        × (ep.buffer ≡ buffer)
        × (ep.kind ≡ kind)
  unfolding new Td.set_terminate Td.clear_status
  new_lem address qh qh_at td td_at buffer kind =
      let off = set_zero_length_termination-Holds p.ral qh _ _ _ (refl, refl, refl) false in
      let sized = set_max_packet_len-Holds p.ral _ _ _ _ off buffer.len in
      let on = is_control kind && is_out (p.direction address) in
      let cleared = clear_status-Holds p.ral (record td { next = 1 }) _ _ _ (refl, refl, refl) in
      (set_interrupt_on_setup-Holds p.ral _ _ _ _ sized on, cleared.2, refl, refl, refl, refl)
