-- ===== src/Driver/Reads.antt =====
-- What reading from an endpoint but endpoint 0 gives, on each of its branches.
use Prim.Native.Nat.{min}
use imxrt_usbd.Common.{
  ℕ, ◌^◌, ◌<◌, ◌≡◌, ◌⊎◌, inl, inr, ap, ◌∙◌, arith, true, false, List, ◌∷◌, ◌++◌, some, length, drop,
  done,
}
use imxrt_usbd.Common.Bits.{bit}
use imxrt_usbd.Common.Bits.Single.{test_bit_right}
use imxrt_usbd.Machine.{Access, wr, endptcomplete, endptnak, endptprime}
use imxrt_usbd.Buffer.Copy.{bytes}
use imxrt_usbd.Td
use imxrt_usbd.Qh
use imxrt_usbd.Platform.{
  Platform, EndpointAddress, put, etce, erce, eptn, eprn, ok, err, UsbError, would_block,
}
use imxrt_usbd.Platform.Waits.{Settles}
use imxrt_usbd.State.{endpoint_set}
use imxrt_usbd.State.Slots.{IsValid}
use imxrt_usbd.State.Allocate.{endpoint_set-IsValid}
use imxrt_usbd.Endpoint.{
  Endpoint, Session, by_direction, check_errors, clear_complete, clear_nack, write_bit,
}
use imxrt_usbd.Endpoint.Data.{FitsPacket, read_lem}
use imxrt_usbd.Endpoint.Transfer.{IsReady, IsScheduled, schedule_transfer-IsScheduled}
use imxrt_usbd.Driver.{Driver, schedule_packet}
use imxrt_usbd.Driver.Lookup.{
  found, with_ep-found, endpoint_set-same, primed, stat_log, is_primed_lem,
}
use imxrt_usbd.Driver.Transfers.{ep_read, read_completed, read_data}

module _ (p : Platform) where
  -- The accesses that clear the completion and the NAK of an endpoint.
  abbrev pub cleared : Session → List Access
  cleared s =
      let mask = 2 ^ p.index s.ep.address in
      wr endptnak (put p (by_direction p s.ep eptn eprn) mask 0)
      ∷ wr endptcomplete (put p (by_direction p s.ep etce erce) mask 0)
      ∷ s.world.log

  abbrev pub after_clear : Session → Session
  after_clear s = record s { world = record (s.world) { log = cleared s } }

  abbrev pub after_stat : Session → Session
  after_stat s = record s { world = record (s.world) { log = stat_log p s } }

  -- How many bytes a read gives.
  abbrev pub read_size : List ℕ → ℕ → Session → ℕ
  read_size buffer transferred s =
      min (min (Qh.max_packet_len p.ral s.ep.qh) (length buffer)) transferred

  pub read_data_lem :
      (fuel : ℕ) (buffer : List ℕ) (s : Session) (transferred : ℕ)
      → FitsPacket p s.ep
      → Td.bytes_transferred p.ral p.checks s.ep.td ≡ done transferred
      → IsReady p s
      → Settles p endptprime fuel
      → (s' : Session) × (read_data p fuel buffer s
          ≡ done (
            (
              ok (read_size buffer transferred s),
              bytes s.world.mem s.ep.buffer.ptr (read_size buffer transferred s)
                  ++ drop (read_size buffer transferred s) buffer,
            ),
            s',
          ))
        × IsScheduled p (Qh.max_packet_len p.ral s.ep.qh) (after_clear s) s'
  unfolding read_data clear_complete clear_nack write_bit schedule_packet
  read_data_lem fuel buffer s transferred fits moved ready settles =
      let ready' : IsReady p (after_clear s) = record {
        low_buffer = ready.low_buffer;
        low_stack = ready.low_stack;
        has_bit = ready.has_bit;
      } in
      let (s', ran, scheduled) =
        schedule_transfer-IsScheduled p fuel (Qh.max_packet_len p.ral s.ep.qh) (after_clear s)
          ready' settles in
      (
        s',
        ground
            (arith, ready.has_bit, read_lem p buffer (after_clear s) transferred fits moved, ran),
        scheduled,
      )

  module _ (fuel : ℕ) (buffer : List ℕ) (addr : EndpointAddress) (d : Driver) (ep : Endpoint)
      (v : IsValid p d.ep_allocator) (there : found p addr d ≡ some ep) where
    abbrev start : Session
    start = record { ep = ep; world = d.world }

    -- Over a valid endpoint allocator, a read from an endpoint whose last transfer failed gives
    -- that error and changes nothing.
    pub ep_read_failed :
        (e : UsbError)
        → check_errors p ep ≡ err e
        → ep_read p fuel buffer addr d ≡ done ((err e, buffer), d)
    unfolding ep_read read_completed
    ep_read_failed e failed =
        with_ep-found p addr d v ep (read_completed p fuel d.ep_out buffer) there
        ∙ ground (arith, failed, endpoint_set-same p addr d v ep there)

    -- Over a valid endpoint allocator, a read of an endpoint with index below 16 whose last
    -- transfer did not fail would block if the endpoint is primed, or if the mask of the last poll
    -- does not have its bit. Then only the status register is read, and nothing changes, the
    -- caller's slice included.
    pub ep_read_would_block :
        p.index ep.address < 16
        → check_errors p ep ≡ ok tt
        → (primed p start ≡ true) ⊎ (bit d.ep_out (p.index ep.address) ≡ 0)
        → ep_read p fuel buffer addr d
          ≡ done (
            (err would_block, buffer),
            record d { world = record (d.world) { log = stat_log p start } },
          )
    unfolding ep_read read_completed
    ep_read_would_block small fine why =
        with_ep-found p addr d v ep (read_completed p fuel d.ep_out buffer) there
        ∙ ground (
          arith,
          fine,
          is_primed_lem p start (omega arith),
          test_bit_right (p.index ep.address) d.ep_out,
          endpoint_set-same p addr d v ep there,
        )

    -- Over a valid endpoint allocator, a read from an endpoint with index below 16 is refused with the
    -- error of its last transfer, if that failed. If not, it would block when the endpoint is primed,
    -- or when the mask of the last poll does not have its bit. Then at most the status register is
    -- read, and nothing else changes, the caller's slice included.
    pub ep_read_refused :
        (e : UsbError) (log : List Access)
        → p.index ep.address < 16
        → ((check_errors p ep ≡ err e) × (log ≡ d.world.log))
          ⊎ ((check_errors p ep ≡ ok tt)
              × ((primed p start ≡ true) ⊎ (bit d.ep_out (p.index ep.address) ≡ 0))
              × (e ≡ would_block)
              × (log ≡ stat_log p start))
        → ep_read p fuel buffer addr d
          ≡ done ((err e, buffer), record d { world = record (d.world) { log = log } })
    ep_read_refused e log small (inl (failed, same)) = rw same (ep_read_failed e failed)
    ep_read_refused e log small (inr (fine, why, blocks, same)) =
        rw (same, blocks) (ep_read_would_block small fine why)

    -- Over a valid endpoint allocator, with no obstacle to a transfer (`IsReady`), a packet size
    -- that fits the buffer and a controller that takes a prime within `fuel` reads: a read of
    -- endpoints 0 to 15 gives data when the last transfer of the endpoint did not fail, the
    -- endpoint is not primed and the mask of the last poll has its bit. The data is the front of
    -- the endpoint's buffer, as much as the packet size, the caller's slice and the transfer
    -- allow, and the rest of the slice stays. The endpoint's status is read and its completion and
    -- NAK are cleared before a transfer of the maximum packet size is scheduled, and the endpoint
    -- as it is then is put back, which keeps the allocator valid.
    pub ep_read_data :
        (transferred : ℕ)
        → p.index ep.address < 16
        → check_errors p ep ≡ ok tt
        → primed p start ≡ false
        → bit d.ep_out (p.index ep.address) ≡ 1
        → FitsPacket p ep
        → Td.bytes_transferred p.ral p.checks ep.td ≡ done transferred
        → IsReady p start
        → Settles p endptprime fuel
        → (s' : Session) × (ep_read p fuel buffer addr d
            ≡ done (
              (
                ok (read_size buffer transferred start),
                bytes d.world.mem ep.buffer.ptr (read_size buffer transferred start)
                    ++ drop (read_size buffer transferred start) buffer,
              ),
              record d {
                ep_allocator = endpoint_set p addr s'.ep d.ep_allocator;
                world = s'.world;
              },
            ))
          × IsScheduled p (Qh.max_packet_len p.ral ep.qh) (after_clear (after_stat start)) s'
          × IsValid p (endpoint_set p addr s'.ep d.ep_allocator)
    unfolding ep_read read_completed
    ep_read_data transferred small fine idle polled fits moved ready settles =
        let ready' : IsReady p (after_stat start) = record {
          low_buffer = ready.low_buffer;
          low_stack = ready.low_stack;
          has_bit = ready.has_bit;
        } in
        let (s', ran, scheduled) =
          read_data_lem fuel buffer (after_stat start) transferred fits moved ready' settles in
        (
          s',
          with_ep-found p addr d v ep (read_completed p fuel d.ep_out buffer) there
              ∙ ground (
                arith,
                fine,
                is_primed_lem p start (omega arith),
                test_bit_right (p.index ep.address) d.ep_out,
                ran,
              ),
          scheduled,
          endpoint_set-IsValid p d.ep_allocator v addr ep s'.ep there
              (ap (λ e. e.address) scheduled.kept),
        )
