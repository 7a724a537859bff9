-- ===== src/Driver/Tests.antt =====
-- The driver on the small device: a run of each theorem, its hypotheses met.
pub mod Control
use imxrt_usbd.Common.{
  ℕ, ◌+◌, ◌*◌, ◌^◌, ◌≡◌, refl, arith, true, List, [], ◌∷◌, ◌++◌, done, drop, take, some, min, inl,
  inr,
}
use imxrt_usbd.Machine.{
  Reg, Access, World, rd, wr, usbsts, endptcomplete, endptsetupstat, endptprime,
}
use imxrt_usbd.Cache.Cover.{reg_log}
use imxrt_usbd.Buffer.Copy.{bytes}
use imxrt_usbd.Td
use imxrt_usbd.Qh
use imxrt_usbd.Platform.{Platform, get, uri, ui, ti0, etce, erce, ok, err, would_block}
use imxrt_usbd.Platform.Waits.{Settles}
use imxrt_usbd.State.{endpoint_set, slot}
use imxrt_usbd.State.Slots.{IsValid}
use imxrt_usbd.Endpoint.{Session, check_errors}
use imxrt_usbd.Endpoint.Data.{FitsPacket}
use imxrt_usbd.Endpoint.Status.{check_errors_lem}
use imxrt_usbd.Endpoint.Transfer.{IsReady, IsScheduled}
use imxrt_usbd.Driver.{Driver, reset, nothing, traffic, poll}
use imxrt_usbd.Driver.Lookup.{found}
use imxrt_usbd.Driver.Poll.{poll-reset, poll-nothing, poll_traffic_lem}
use imxrt_usbd.Driver.Transfers.{ep_read, ep_write}
use imxrt_usbd.Driver.Reads.{ep_read_refused, ep_read_data, read_size, after_clear, after_stat}
use imxrt_usbd.Driver.Writes.{ep_write_refused, ep_write_data, nack_log}
use imxrt_usbd.Manual.{platform, quiet, showing}
use imxrt_usbd.Manual.Device.{world0, driver0, ep_out1, ep_in1, allocator0-IsValid}

-- The status register shows a reset and traffic, or traffic and the timer 0.
abbrev in_reset : Platform
in_reset = platform (showing usbsts 65) 0

abbrev busy : List Access → Reg → ℕ
busy log Reg.usbsts = 2 ^ 24 + 1
busy log Reg.endptcomplete = 4 * 2 ^ 16 + 2
busy log _ = 0

abbrev in_traffic : Platform
in_traffic = platform busy 0

-- The IN endpoint 1 is primed.
abbrev primed_in : Platform
primed_in = platform (showing Reg.endptstat (2 ^ 17)) 0

abbrev at_rest : Platform
at_rest = platform quiet 0

poll-reset_example :
    (x : ℕ) × (poll in_reset driver0
      ≡ done (
        reset,
        record driver0 { world = record world0 { log = wr usbsts x ∷ rd usbsts 65 ∷ [] } },
      ))
    × (get in_reset uri x ≡ 1)
    × (get in_reset ui x ≡ 0)
poll-reset_example = poll-reset in_reset driver0 ui (λ e. omega (arith, e)) refl (λ e. ground arith)

poll_traffic_lem_example :
    (x y : ℕ) × (log1 log2 log3 : List Access) × (log1 ≡ wr usbsts x ∷ rd usbsts (2 ^ 24 + 1) ∷ [])
    × (log2 ≡ rd endptcomplete (4 * 2 ^ 16 + 2) ∷ log1)
    × (log3 ≡ wr endptcomplete y ∷ rd endptcomplete (4 * 2 ^ 16 + 2) ∷ log2)
    × (poll in_traffic driver0
        ≡ done (
          traffic 2 4 0,
          record driver0 { ep_out = 2; world = record world0 { log = rd endptsetupstat 0 ∷ log3 } },
        ))
    × (get in_traffic ui x ≡ 1)
    × (get in_traffic uri x ≡ 0)
    × (get in_traffic ti0 x ≡ 0)
    × (get in_traffic etce y ≡ 4)
    × (get in_traffic erce y ≡ 0)
poll_traffic_lem_example =
    poll_traffic_lem in_traffic driver0 ti0 refl (λ e. ground (arith, e)) refl
      (λ e. omega (arith, e))

fine : (answer : List Access → Reg → ℕ) → check_errors (platform answer 0) ep_out1 ≡ ok tt
fine answer = check_errors_lem (platform answer 0) ep_out1

fine_in : (answer : List Access → Reg → ℕ) → check_errors (platform answer 0) ep_in1 ≡ ok tt
fine_in answer = check_errors_lem (platform answer 0) ep_in1

-- The driver with this mask of completed reads.
abbrev polled : ℕ → Driver
polled mask = record driver0 { ep_out = mask }

found_out :
    (answer : List Access → Reg → ℕ) (mask : ℕ)
    → found (platform answer 0) 1 (polled mask) ≡ some ep_out1
unfolding slot
found_out answer mask = refl

found_in :
    (answer : List Access → Reg → ℕ) (mask : ℕ)
    → found (platform answer 0) 129 (polled mask) ≡ some ep_in1
unfolding slot
found_in answer mask = refl

abbrev out1 : Session
out1 = record { ep = ep_out1; world = world0 }

abbrev in1 : Session
in1 = record { ep = ep_in1; world = world0 }

settles : Settles at_rest endptprime 1
settles log = (0, omega arith, refl)

out1-IsReady : IsReady at_rest out1
out1-IsReady = record {
  low_buffer = omega arith;
  low_stack = λ log. omega arith;
  has_bit = omega arith;
}

in1-IsReady : IsReady at_rest in1
in1-IsReady = record {
  low_buffer = omega arith;
  low_stack = λ log. omega arith;
  has_bit = omega arith;
}

fits : FitsPacket at_rest ep_out1
unfolding Qh.max_packet_len
fits = omega arith

fits_in : FitsPacket at_rest ep_in1
unfolding Qh.max_packet_len
fits_in = omega arith

transferred : Td.bytes_transferred (at_rest.ral) true ep_out1.td ≡ done 4
unfolding Td.bytes_transferred
transferred = refl

ep_read_refused_example :
    ep_read at_rest 1 (7 ∷ 8 ∷ []) 1 (polled 0)
    ≡ done (
      (err would_block, 7 ∷ 8 ∷ []),
      record (polled 0) { world = record world0 { log = rd Reg.endptstat 0 ∷ [] } },
    )
ep_read_refused_example =
    ep_read_refused at_rest 1 (7 ∷ 8 ∷ []) 1 (polled 0) ep_out1 (allocator0-IsValid quiet 0)
      (found_out quiet 0) would_block (rd Reg.endptstat 0 ∷ []) (omega arith)
      (inr (fine quiet, inr refl, refl, refl))

ep_write_refused_example :
    ep_write primed_in 1 (7 ∷ 8 ∷ []) 129 (polled 0)
    ≡ done (
      err would_block,
      record (polled 0) { world = record world0 { log = rd Reg.endptstat (2 ^ 17) ∷ [] } },
    )
ep_write_refused_example =
    ep_write_refused primed_in 1 (7 ∷ 8 ∷ []) 129 (polled 0) ep_in1
      (allocator0-IsValid (showing Reg.endptstat (2 ^ 17)) 0)
      (found_in (showing Reg.endptstat (2 ^ 17)) 0) would_block (rd Reg.endptstat (2 ^ 17) ∷ [])
      (omega arith) (inr (fine_in (showing Reg.endptstat (2 ^ 17)), refl, refl, refl))

ep_read_data_example :
    (s' : Session) × (ep_read at_rest 1 (7 ∷ 8 ∷ []) 1 (polled 2)
      ≡ done (
        (
          ok (read_size at_rest (7 ∷ 8 ∷ []) 4 out1),
          bytes world0.mem 0x2020_0040 (read_size at_rest (7 ∷ 8 ∷ []) 4 out1)
              ++ drop (read_size at_rest (7 ∷ 8 ∷ []) 4 out1) (7 ∷ 8 ∷ []),
        ),
        record (polled 2) {
          ep_allocator = endpoint_set at_rest 1 s'.ep driver0.ep_allocator;
          world = s'.world;
        },
      ))
    × IsScheduled at_rest
        (Qh.max_packet_len (at_rest.ral) ep_out1.qh)
        (after_clear at_rest (after_stat at_rest out1))
        s'
    × IsValid at_rest (endpoint_set at_rest 1 s'.ep driver0.ep_allocator)
ep_read_data_example =
    ep_read_data at_rest 1 (7 ∷ 8 ∷ []) 1 (polled 2) ep_out1 (allocator0-IsValid quiet 0)
      (found_out quiet 2) 4 (omega arith) (fine quiet) refl refl fits transferred out1-IsReady
      settles

ep_write_data_example :
    (n : ℕ) × (w : World) × (s' : Session) × (n ≡ min (Qh.max_packet_len (at_rest.ral) ep_in1.qh) 2)
    × (ep_write at_rest 1 (7 ∷ 8 ∷ []) 129 (polled 0)
        ≡ done (
          ok n,
          record (polled 0) {
            ep_allocator = endpoint_set at_rest 129 s'.ep driver0.ep_allocator;
            world = s'.world;
          },
        ))
    × IsScheduled at_rest n (record { ep = ep_in1; world = w }) s'
    × IsValid at_rest (endpoint_set at_rest 129 s'.ep driver0.ep_allocator)
    × (reg_log w.log ≡ reg_log (nack_log at_rest in1))
    × (bytes s'.world.mem 0x2020_0000 n ≡ take n (7 ∷ 8 ∷ []))
    × (s'.world.mem 5 ≡ 5)
ep_write_data_example =
    ep_write_data at_rest 1 (7 ∷ 8 ∷ []) 129 (polled 0) ep_in1 (allocator0-IsValid quiet 0)
      (found_in quiet 0) 5 (fine_in quiet) refl fits_in (omega arith) in1-IsReady settles
      (inl (omega arith))
