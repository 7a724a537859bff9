-- ===== src/Driver/Tests/Control.antt =====
-- Endpoint 0 and stalls on the small device: a run of each theorem, its hypotheses met.
use Prim.Native.Nat.{min}
use imxrt_usbd.Common.{
  ℕ, ◌^◌, ◌≡◌, inl, inr, refl, arith, true, false, List, [], ◌∷◌, ◌++◌, some, take, drop, done,
}
use imxrt_usbd.Machine.{Reg, Access, World, rd, endptctrl, endptprime}
use imxrt_usbd.Buffer.Copy.{bytes}
use imxrt_usbd.Td
use imxrt_usbd.Qh
use imxrt_usbd.Platform.{Platform, get, rxs, rxe, ok, err, would_block}
use imxrt_usbd.Platform.Waits.{Settles}
use imxrt_usbd.State.{endpoint_set, slot}
use imxrt_usbd.State.Slots.{IsValid}
use imxrt_usbd.Endpoint.{Session}
use imxrt_usbd.Endpoint.Control.{changed}
use imxrt_usbd.Endpoint.Data.{FitsPacket}
use imxrt_usbd.Endpoint.Setup.{holds}
use imxrt_usbd.Endpoint.Status.{check_errors_lem}
use imxrt_usbd.Endpoint.Transfer.{IsReady, IsScheduled}
use imxrt_usbd.Driver.{Driver}
use imxrt_usbd.Driver.Lookup.{found}
use imxrt_usbd.Driver.Transfers.{ctrl0_read, ctrl0_write, ep_stall}
use imxrt_usbd.Driver.Reads.{after_clear, after_stat, read_size}
use imxrt_usbd.Driver.Control.{
  after_ask, after_setup, setup_tried, IsRefilled, ended, ctrl0_read_setup, ctrl0_read_data,
}
use imxrt_usbd.Driver.Status.{IsAwaiting, ctrl0_write_refused, ctrl0_write_status}
use imxrt_usbd.Driver.Stalls.{IsReprimed, ep_stall_lem}
use imxrt_usbd.Manual.{platform, quiet, memory}
use imxrt_usbd.Manual.Device.{world0}
use imxrt_usbd.Manual.Control.{ep_out0, ep_in0, driver1, allocator1, allocator1-IsValid}

-- A setup packet of endpoint 0 is there, and the command register holds what is written to it.
abbrev asking : List Access → Reg → ℕ
asking log Reg.endptsetupstat = 1
asking log Reg.usbcmd = memory log Reg.usbcmd
asking log _ = 0

abbrev in_setup : Platform
in_setup = platform asking 0x0100_0680

abbrev at_rest : Platform
at_rest = platform quiet 0

abbrev out0 : Session
out0 = record { ep = ep_out0; world = world0 }

abbrev in0 : Session
in0 = record { ep = ep_in0; world = world0 }

found_out :
    (answer : List Access → Reg → ℕ) (setup : ℕ)
    → found (platform answer setup) 0 driver1 ≡ some ep_out0
unfolding slot
found_out answer setup = refl

found_in : found at_rest 128 driver1 ≡ some ep_in0
unfolding slot
found_in = refl

out0-IsReady : (answer : List Access → Reg → ℕ) (setup : ℕ) → IsReady (platform answer setup) out0
out0-IsReady answer setup = record {
  low_buffer = omega arith;
  low_stack = λ log. omega arith;
  has_bit = omega arith;
}

in0-IsReady : IsReady at_rest in0
in0-IsReady = record {
  low_buffer = omega arith;
  low_stack = λ log. omega arith;
  has_bit = omega arith;
}

settles : Settles at_rest endptprime 1
settles log = (0, omega arith, refl)

in_setup-Settles : Settles in_setup endptprime 1
in_setup-Settles log = (0, omega arith, refl)

fits : FitsPacket at_rest ep_out0
unfolding Qh.max_packet_len
fits = omega arith

fits_in : FitsPacket at_rest ep_in0
unfolding Qh.max_packet_len
fits_in = omega arith

transferred : Td.bytes_transferred (at_rest.ral) true ep_out0.td ≡ done 4
unfolding Td.bytes_transferred
transferred = refl

abbrev eight : List ℕ
eight = 9 ∷ 9 ∷ 9 ∷ 9 ∷ 9 ∷ 9 ∷ 9 ∷ 9 ∷ []

ctrl0_read_setup_example :
    (m : ℕ) × (s' : Session) × (holds in_setup 0x2000_1000
        (setup_tried in_setup (after_ask in_setup out0) m)
      ≡ true)
    × (ctrl0_read in_setup 1 eight driver1
        ≡ done ((ok 8, 0x80 ∷ 6 ∷ 0 ∷ 1 ∷ 0 ∷ 0 ∷ 0 ∷ 0 ∷ []), ended in_setup driver1 s'))
    × IsRefilled in_setup (after_setup in_setup (after_ask in_setup out0) m) s'
ctrl0_read_setup_example =
    ctrl0_read_setup in_setup 1 eight driver1 ep_out0 (allocator1-IsValid asking 0x0100_0680)
      (found_out asking 0x0100_0680) 0 refl (omega arith) (omega arith) refl
      (out0-IsReady asking 0x0100_0680) in_setup-Settles

ctrl0_read_data_example :
    (s' : Session) × (ctrl0_read at_rest 1 (7 ∷ 8 ∷ []) driver1
      ≡ done (
        (
          ok (read_size at_rest (7 ∷ 8 ∷ []) 4 out0),
          bytes world0.mem 0x2020_0080 (read_size at_rest (7 ∷ 8 ∷ []) 4 out0)
              ++ drop (read_size at_rest (7 ∷ 8 ∷ []) 4 out0) (7 ∷ 8 ∷ []),
        ),
        ended at_rest driver1 s',
      ))
    × IsScheduled at_rest
        (Qh.max_packet_len (at_rest.ral) ep_out0.qh)
        (after_clear at_rest (after_stat at_rest (after_ask at_rest out0)))
        s'
    × IsValid at_rest (endpoint_set at_rest 0 s'.ep allocator1)
ctrl0_read_data_example =
    ctrl0_read_data at_rest 1 (7 ∷ 8 ∷ []) driver1 ep_out0 (allocator1-IsValid quiet 0)
      (found_out quiet 0) 4 (inl refl) (check_errors_lem at_rest ep_out0) refl fits transferred
      (out0-IsReady quiet 0) settles

-- The IN half of endpoint 0 is primed.
abbrev sending : List Access → Reg → ℕ
sending log Reg.endptstat = 2 ^ 16
sending log _ = 0

abbrev in_sending : Platform
in_sending = platform sending 0

found_sending : found in_sending 128 driver1 ≡ some ep_in0
unfolding slot
found_sending = refl

ctrl0_write_refused_example :
    ctrl0_write in_sending 1 (7 ∷ []) driver1
    ≡ done (
      err would_block,
      record driver1 { world = record world0 { log = rd Reg.endptstat (2 ^ 16) ∷ [] } },
    )
ctrl0_write_refused_example =
    ctrl0_write_refused in_sending 1 (7 ∷ []) driver1 ep_in0 (allocator1-IsValid sending 0)
      found_sending would_block (rd Reg.endptstat (2 ^ 16) ∷ []) (omega arith)
      (inr (check_errors_lem in_sending ep_in0, refl, refl, refl))

ctrl0_write_status_example :
    let n = min (Qh.max_packet_len (at_rest.ral) ep_in0.qh) 2 in
    (w : World) × (s : Session) × (s' : Session) × (d' : Driver) × (ctrl0_write at_rest 1
        (7 ∷ 8 ∷ [])
        driver1
      ≡ done (ok n, d'))
    × (d' ≡ record driver1 {
      ep_allocator = endpoint_set at_rest 0 s'.ep (endpoint_set at_rest 128 s.ep allocator1);
      world = s'.world;
    })
    × IsScheduled at_rest n (record in0 { world = w }) s
    × IsAwaiting at_rest (record { ep = ep_out0; world = s.world }) s'
    × (bytes d'.world.mem 0x2020_00C0 n ≡ take n (7 ∷ 8 ∷ []))
    × (d'.world.mem 5 ≡ 5)
    × IsValid at_rest d'.ep_allocator
ctrl0_write_status_example =
    ctrl0_write_status at_rest 1 (7 ∷ 8 ∷ []) driver1 ep_in0 (allocator1-IsValid quiet 0) found_in 5
      ep_out0 (found_out quiet 0) (check_errors_lem at_rest ep_in0) refl fits_in (omega arith)
      in0-IsReady (out0-IsReady quiet 0) settles (inl (omega arith))

ep_stall_lem_example :
    (x' : ℕ) × (s' : Session) × (d' : Driver) × (ep_stall at_rest 1 false 0 driver1 ≡ done (tt, d'))
    × (d' ≡ record driver1 {
      ep_allocator = endpoint_set at_rest 0 s'.ep allocator1;
      world = s'.world;
    })
    × (get at_rest rxs x' ≡ 0)
    × (get at_rest rxe x' ≡ 0)
    × IsReprimed at_rest false 0 (changed at_rest out0 (endptctrl 0) 0 x') s'
    × IsValid at_rest d'.ep_allocator
ep_stall_lem_example =
    ep_stall_lem at_rest 1 false 0 driver1 ep_out0 rxe (allocator1-IsValid quiet 0)
      (found_out quiet 0) (omega arith) refl (λ e. ground arith) (out0-IsReady quiet 0) settles
