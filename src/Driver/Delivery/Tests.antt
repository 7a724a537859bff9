-- ===== src/Driver/Delivery/Tests.antt =====
-- A packet to and a packet from the small device.
use Prim.Native.Nat.{min}
use imxrt_usbd.Common.{◌+◌, ◌*◌, ◌^◌, ◌<◌, ◌≡◌, refl, arith, [], ◌∷◌, some, done}
use imxrt_usbd.Machine.{endptprime}
use imxrt_usbd.Cache.Cover.{line, num_lines}
use imxrt_usbd.Td
use imxrt_usbd.Qh
use imxrt_usbd.Platform.{Platform, ok}
use imxrt_usbd.Platform.Waits.{Settles}
use imxrt_usbd.State.{endpoint_set, slot}
use imxrt_usbd.State.Allocate.{endpoint_set-IsValid}
use imxrt_usbd.Endpoint.{Endpoint, Session}
use imxrt_usbd.Endpoint.Data.{FitsPacket}
use imxrt_usbd.Endpoint.Status.{check_errors_lem}
use imxrt_usbd.Endpoint.Transfer.{IsReady, IsPrepared}
use imxrt_usbd.Driver.{Driver}
use imxrt_usbd.Driver.Lookup.{found}
use imxrt_usbd.Driver.Transfers.{ep_read, ep_write}
use imxrt_usbd.Driver.Delivery.{IsReceived, fetched, ep_read-received, ep_write-fetched}
use imxrt_usbd.Manual.{platform, quiet}
use imxrt_usbd.Manual.Device.{world0, driver0, ep_out1, ep_in1, allocator0, allocator0-IsValid}

abbrev at_rest : Platform
at_rest = platform quiet 0

-- The OUT endpoint with a transfer of 64 bytes, active, and after three of them have come.
abbrev waiting : Endpoint
waiting = record ep_out1 {
  td = record (ep_out1.td) { token = 64 * 2 ^ 16 + 2 ^ 15 + 128; last_transfer_size = 64 };
}

abbrev arrived : Endpoint
arrived = record waiting { td = record (waiting.td) { token = 61 * 2 ^ 16 + 2 ^ 15 } }

abbrev driver1 : Driver
driver1 = record driver0 { ep_allocator = endpoint_set at_rest 1 arrived driver0.ep_allocator }

found_in : found at_rest 129 driver0 ≡ some ep_in1
unfolding slot
found_in = refl

in1-IsReady : IsReady at_rest (record { ep = ep_in1; world = world0 })
in1-IsReady = record {
  low_buffer = omega arith;
  low_stack = λ log. omega arith;
  has_bit = omega arith;
}

settles : Settles at_rest endptprime 1
settles log = (0, omega arith, refl)

fits_in : FitsPacket at_rest ep_in1
unfolding Qh.max_packet_len
fits_in = omega arith

in_packet : 1 < min (Qh.max_packet_len (at_rest.ral) ep_in1.qh) 2
unfolding Qh.max_packet_len
in_packet = omega arith

covered :
    ep_in1.buffer.ptr + 1
    < line ep_in1.buffer.ptr + 32 * num_lines (min (Qh.max_packet_len (at_rest.ral) ep_in1.qh) 2)
unfolding Qh.max_packet_len
covered = omega arith

ep_write-fetched_example :
    (s' : Session) × (ep_write at_rest 1 (7 ∷ 8 ∷ []) 129 driver0
      ≡ done (
        ok (min (Qh.max_packet_len (at_rest.ral) ep_in1.qh) 2),
        record driver0 {
          ep_allocator = endpoint_set at_rest 129 s'.ep driver0.ep_allocator;
          world = s'.world;
        },
      ))
    × ((at_rest.ral).read Td.total_bytes s'.ep.td.token
        ≡ min (Qh.max_packet_len (at_rest.ral) ep_in1.qh) 2)
    × (fetched s'.ep.td s'.world.log 1 ≡ some 8)
ep_write-fetched_example =
    ep_write-fetched at_rest 1 (7 ∷ 8 ∷ []) 129 driver0 ep_in1 (allocator0-IsValid quiet 0) found_in
      1 (check_errors_lem at_rest ep_in1) refl fits_in (omega arith) in1-IsReady settles in_packet
      covered

found_out : found at_rest 1 driver0 ≡ some ep_out1
unfolding slot
found_out = refl

found-arrived : found at_rest 1 driver1 ≡ some arrived
unfolding slot endpoint_set
found-arrived = refl

prepared : IsPrepared at_rest (Qh.max_packet_len (at_rest.ral) waiting.qh) waiting.td
unfolding Qh.max_packet_len
prepared = record { fields = (refl, refl, refl); last_size = refl; ends = refl }

received : IsReceived at_rest (0x40 ∷ 0x41 ∷ 0x42 ∷ []) waiting arrived world0.mem
received = record {
  same_address = refl;
  same_buffer = refl;
  same_size = refl;
  same_packet = refl;
  fewer = refl;
  no_failure = refl;
  stored = refl;
}

arrived-IsReady : IsReady at_rest (record { ep = arrived; world = world0 })
arrived-IsReady = record {
  low_buffer = omega arith;
  low_stack = λ log. omega arith;
  has_bit = omega arith;
}

fits_out : FitsPacket at_rest arrived
unfolding Qh.max_packet_len
fits_out = omega arith

ep_read-received_example :
    (s' : Session) × (ep_read at_rest 1 (7 ∷ 8 ∷ 9 ∷ 10 ∷ []) 1 driver1
      ≡ done (
        (ok 3, 0x40 ∷ 0x41 ∷ 0x42 ∷ 10 ∷ []),
        record driver1 {
          ep_allocator = endpoint_set at_rest 1 s'.ep driver1.ep_allocator;
          world = s'.world;
        },
      ))
    × IsPrepared at_rest (Qh.max_packet_len (at_rest.ral) arrived.qh) s'.ep.td
ep_read-received_example =
    ep_read-received at_rest 1 (7 ∷ 8 ∷ 9 ∷ 10 ∷ []) 1 driver1 arrived
      (endpoint_set-IsValid at_rest allocator0 (allocator0-IsValid quiet 0) 1 ep_out1 arrived
        found_out refl)
      found-arrived waiting (0x40 ∷ 0x41 ∷ 0x42 ∷ []) prepared received (omega arith) refl refl
      fits_out arrived-IsReady settles
