-- ===== src/Driver/Status.antt =====
-- What writing to endpoint 0 does: the write itself, and the transfer for the status phase after it.
use Prim.Native.Nat.{min}
use imxrt_usbd.Common.{
  ℕ, ◌+◌, ◌^◌, ◌<◌, ◌≤◌, ◌≡◌, ◌≢◌, ◌⊎◌, inl, inr, refl, ap, ◌∙◌, arith, true, false, List, some,
  length, take, done, Bool-cases, get_elem?-set_ne,
}
use imxrt_usbd.Machine.{Access, World, endptprime}
use imxrt_usbd.Buffer.Copy.{bytes}
use imxrt_usbd.Qh
use imxrt_usbd.Platform.{Platform, UsbError, dir_in, dir_out, ok, err, would_block}
use imxrt_usbd.Platform.Waits.{Settles}
use imxrt_usbd.State.{slot, endpoint_set}
use imxrt_usbd.State.Slots.{IsValid, at_slot, slot-from_parts}
use imxrt_usbd.State.Allocate.{endpoint_set-IsValid}
use imxrt_usbd.Endpoint.{Endpoint, Session, check_errors, clear_nack, clear_complete, write_bit}
use imxrt_usbd.Endpoint.Data.{FitsPacket}
use imxrt_usbd.Endpoint.Transfer.{IsReady, IsScheduled, schedule_transfer-IsScheduled}
use imxrt_usbd.Driver.{Driver, ctrl_ep0_out, ctrl_ep0_in}
use imxrt_usbd.Driver.Lookup.{
  found, with_ep-found, endpoint_set-same, primed, stat_log, is_primed_lem,
}
use imxrt_usbd.Driver.Transfers.{ctrl0_write, write_data, status_phase, then_status}
use imxrt_usbd.Driver.Reads.{after_clear, after_stat}
use imxrt_usbd.Driver.Writes.{write_data_lem}

module _ (p : Platform) where
  -- The two directions of endpoint 0 have different slots.
  halves_differ : slot p (ctrl_ep0_in p) ≢ slot p (ctrl_ep0_out p)
  halves_differ e = absurd (
      ground (
        arith,
        e,
        slot-from_parts p 0 dir_in (omega arith),
        slot-from_parts p 0 dir_out (omega arith),
      ))

  -- A primed endpoint is left alone; another is scheduled for no bytes, its completion and its NAK
  -- cleared.
  abbrev pub IsAwaiting : Session → Session → Type 0
  IsAwaiting s s' =
      ((primed p s ≡ true) × (s' ≡ after_stat p s))
      ⊎ ((primed p s ≡ false) × IsScheduled p 0 (after_clear p (after_stat p s)) s')

  status_phase_lem :
      (fuel : ℕ) (s : Session)
      → IsReady p s
      → Settles p endptprime fuel
      → (s' : Session) × (status_phase p fuel s ≡ done (tt, s'))
        × IsAwaiting s s'
        × (s'.world.mem ≡ s.world.mem)
        × (s'.ep.address ≡ s.ep.address)
  unfolding status_phase clear_complete clear_nack write_bit
  status_phase_lem fuel s ready settles = elim (Bool-cases (primed p s)) [
    | inl busy ↦ (
      after_stat p s,
      ground (arith, is_primed_lem p s ready.has_bit, busy),
      inl (busy, refl),
      refl,
      refl,
    )
    | inr idle ↦
        let ready' : IsReady p (after_clear p (after_stat p s)) = record {
          low_buffer = ready.low_buffer;
          low_stack = ready.low_stack;
          has_bit = ready.has_bit;
        } in
        let (s', ran, scheduled) =
          schedule_transfer-IsScheduled p fuel 0 (after_clear p (after_stat p s)) ready' settles in
        (
          s',
          ground (arith, is_primed_lem p s ready.has_bit, idle, ready.has_bit, ran),
          inr (idle, scheduled),
          scheduled.same_mem,
          ap (λ e. e.address) scheduled.kept,
        )
  ]

  module _ (fuel : ℕ) (buffer : List ℕ) (d : Driver) (ep : Endpoint) (v : IsValid p d.ep_allocator)
      (there : found p (ctrl_ep0_in p) d ≡ some ep) where
    abbrev pub start : Session
    start = record { ep = ep; world = d.world }

    -- Over a valid endpoint allocator, with the index of the endpoint that stands at endpoint 0 IN below
    -- 32: a write to endpoint 0 whose last transfer failed gives that error, and one that did not fail
    -- and is primed would block. Then at most the status register is read, nothing else changes, and
    -- nothing is asked of endpoint 0 OUT, which need not be there.
    pub ctrl0_write_refused :
        (e : UsbError) (log : List Access)
        → p.index ep.address < 32
        → ((check_errors p ep ≡ err e) × (log ≡ d.world.log))
          ⊎ ((check_errors p ep ≡ ok tt)
              × (primed p start ≡ true)
              × (e ≡ would_block)
              × (log ≡ stat_log p start))
        → ctrl0_write p fuel buffer d
          ≡ done (err e, record d { world = record (d.world) { log = log } })
    unfolding ctrl0_write then_status write_data
    ctrl0_write_refused e log small (inl (failed, same)) = ground (
      arith,
      with_ep-found p (ctrl_ep0_in p) d v ep (write_data p fuel buffer) there,
      failed,
      same,
      endpoint_set-same p (ctrl_ep0_in p) d v ep there,
    )
    ctrl0_write_refused e log small (inr (fine, busy, why, same)) = ground (
      arith,
      with_ep-found p (ctrl_ep0_in p) d v ep (write_data p fuel buffer) there,
      fine,
      busy,
      why,
      same,
      is_primed_lem p start small,
      endpoint_set-same p (ctrl_ep0_in p) d v ep there,
    )

    -- The driver when the write has ended as `s`.
    abbrev written : Session → Driver
    written s = record d {
      ep_allocator = endpoint_set p (ctrl_ep0_in p) s.ep d.ep_allocator;
      world = s.world;
    }

    still_found :
        (s : Session) (out : Endpoint)
        → found p (ctrl_ep0_out p) d ≡ some out
        → found p (ctrl_ep0_out p) (written s) ≡ some out
    unfolding endpoint_set
    still_found s out waits =
        rw
          (
            get_elem?-set_ne d.ep_allocator.ep_list (slot p (ctrl_ep0_in p))
                (slot p (ctrl_ep0_out p)) (some s.ep) halves_differ,
            at_slot,
          )
          waits

    -- Over a valid endpoint allocator with both directions of endpoint 0, neither with an obstacle to
    -- a transfer (`IsReady`), packets of the IN endpoint that fit its buffer, that buffer away from
    -- the end of the address space, and a controller that takes a prime within `fuel` reads: a write
    -- to endpoint 0, when its last transfer did not fail and it is not primed, schedules a transfer of
    -- the front of the slice, as much as the packet size allows, and returns its length. Then, if the
    -- OUT endpoint is not primed, its completion and its NAK are cleared and a transfer of no bytes is
    -- scheduled for the status phase; if it is, only its status is read. At the end memory holds the
    -- bytes to send, any byte `at` outside them is unchanged, and the allocator is valid.
    pub ctrl0_write_status :
        (at : ℕ) (out : Endpoint)
        → found p (ctrl_ep0_out p) d ≡ some out
        → check_errors p ep ≡ ok tt
        → primed p start ≡ false
        → FitsPacket p ep
        → ep.buffer.ptr + ep.buffer.len + 32 < 2 ^ 32
        → IsReady p start
        → IsReady p (record { ep = out; world = d.world })
        → Settles p endptprime fuel
        → (at < ep.buffer.ptr)
          ⊎ (ep.buffer.ptr + min (Qh.max_packet_len p.ral ep.qh) (length buffer) ≤ at)
        → let n = min (Qh.max_packet_len p.ral ep.qh) (length buffer) in
          (w : World) × (s : Session) × (s' : Session) × (d' : Driver) × (ctrl0_write p fuel buffer
              d
            ≡ done (ok n, d'))
          × (d' ≡ record d {
            ep_allocator =
                endpoint_set p
                  (ctrl_ep0_out p)
                  s'.ep
                  (endpoint_set p (ctrl_ep0_in p) s.ep d.ep_allocator);
            world = s'.world;
          })
          × IsScheduled p n (record start { world = w }) s
          × IsAwaiting (record { ep = out; world = s.world }) s'
          × (bytes d'.world.mem ep.buffer.ptr n ≡ take n buffer)
          × (d'.world.mem at ≡ d.world.mem at)
          × IsValid p d'.ep_allocator
    unfolding ctrl0_write then_status
    ctrl0_write_status at out waits fine idle fits room ready ready_out settles outside =
        let n = min (Qh.max_packet_len p.ral ep.qh) (length buffer) in
        let (w, s, wrote, scheduled, _, stored, kept, _) =
          write_data_lem p fuel buffer at start fine idle fits room ready settles outside in
        let ready' : IsReady p (record { ep = out; world = s.world }) = record {
          low_buffer = ready_out.low_buffer;
          low_stack = ready_out.low_stack;
          has_bit = ready_out.has_bit;
        } in
        let (s', awaited, awaiting, same, same_address) =
          status_phase_lem fuel (record { ep = out; world = s.world }) ready' settles in
        let valid : IsValid p (written s).ep_allocator =
          endpoint_set-IsValid p d.ep_allocator v (ctrl_ep0_in p) ep s.ep there
            (ap (λ e. e.address) scheduled.kept) in
        (
          w,
          s,
          s',
          _,
          rw
              (
                with_ep-found p (ctrl_ep0_in p) d v ep (write_data p fuel buffer) there,
                wrote,
                with_ep-found p (ctrl_ep0_out p) (written s) valid out (status_phase p fuel)
                    (still_found s out waits),
                awaited,
              )
              refl,
          refl,
          scheduled,
          awaiting,
          ap (λ m. bytes m ep.buffer.ptr n) same ∙ stored,
          ap (λ m. m at) same ∙ kept,
          endpoint_set-IsValid p ((written s).ep_allocator) valid (ctrl_ep0_out p) out s'.ep
              (still_found s out waits) same_address,
        )
