-- ===== src/Driver/Control.antt =====
-- What reading from endpoint 0 gives: a setup packet, or the data of a transfer.
use imxrt_usbd.Common.{
  ℕ, ◌^◌, ◌<◌, ◌≤◌, ◌≡◌, ◌⊎◌, inl, inr, refl, ap, ◌∙◌, arith, Bool, true, false, List, ◌∷◌, ◌++◌,
  ◌==◌, some, length, drop, done, Bool-cases,
}
use imxrt_usbd.Common.Bits.{bit, bit-le-one}
use imxrt_usbd.Common.Bits.Single.{test_bit_right}
use imxrt_usbd.Machine.{Access, rd, wr, endptsetupstat, endptprime}
use imxrt_usbd.Buffer.Copy.{bytes}
use imxrt_usbd.Td
use imxrt_usbd.Qh
use imxrt_usbd.Platform.{Platform, ok}
use imxrt_usbd.Platform.Waits.{Settles}
use imxrt_usbd.State.{endpoint_set}
use imxrt_usbd.State.Slots.{IsValid}
use imxrt_usbd.State.Allocate.{endpoint_set-IsValid}
use imxrt_usbd.Endpoint.{Endpoint, Session, check_errors, clear_nack, write_bit, has_setup}
use imxrt_usbd.Endpoint.Data.{FitsPacket}
use imxrt_usbd.Endpoint.Setup.{armed, attempt, attempts, disarmed, holds, read_setup_lem}
use imxrt_usbd.Endpoint.Transfer.{IsReady, IsScheduled, schedule_transfer-IsScheduled}
use imxrt_usbd.Driver.{Driver, schedule_packet, ctrl_ep0_out}
use imxrt_usbd.Driver.Lookup.{found, with_ep-found, primed, is_primed_lem}
use imxrt_usbd.Driver.Transfers.{to_le_bytes, ctrl0_read, control_setup, control_status}
use imxrt_usbd.Driver.Reads.{after_clear, after_stat, read_size, read_data_lem}
use imxrt_usbd.Driver.Writes.{nack_log}

module _ (p : Platform) where
  -- Whether the controller says that it has a setup packet of the endpoint.
  abbrev pub pending : Session → Bool
  pending s = bit (p.answer s.world.log endptsetupstat) (p.index s.ep.address) == 1

  abbrev pub after_ask : Session → Session
  after_ask s = record s {
    world = record (s.world) {
      log = rd endptsetupstat (p.answer s.world.log endptsetupstat) ∷ s.world.log;
    };
  }

  has_setup_lem :
      (s : Session) → p.index s.ep.address < 32 → has_setup p s ≡ done (pending s, after_ask s)
  unfolding has_setup
  has_setup_lem s small =
      let v = p.answer s.world.log endptsetupstat in
      ground (arith, test_bit_right (p.index s.ep.address) v, bit-le-one v (p.index s.ep.address))

  -- The accesses before the setup buffer is read, and after `m` attempts that were disturbed and one
  -- that was not.
  abbrev pub setup_start : Session → List Access
  setup_start s = wr endptsetupstat (2 ^ p.index s.ep.address) ∷ s.world.log

  abbrev pub setup_tried : Session → ℕ → List Access
  setup_tried s m = attempts p s.ep.qh_at (setup_start s) m

  abbrev pub after_setup : Session → ℕ → Session
  after_setup s m = record s {
    world = record (s.world) {
      log = disarmed p s.ep.qh_at (attempt p s.ep.qh_at (setup_tried s m));
    };
  }

  abbrev pub after_nack : Session → Session
  after_nack s = record s { world = record (s.world) { log = nack_log p s } }

  -- Nothing more is done to a primed endpoint; another is scheduled for a packet.
  abbrev pub IsRefilled : Session → Session → Type 0
  IsRefilled s s' =
      ((primed p s ≡ true) × (s' ≡ after_stat p s))
      ⊎ ((primed p s ≡ false) × IsScheduled p (Qh.max_packet_len p.ral s.ep.qh) (after_nack s) s')

  control_setup_lem :
      (fuel n : ℕ) (buffer : List ℕ) (s : Session)
      → n < fuel
      → holds p s.ep.qh_at (setup_tried s n) ≡ true
      → IsReady p s
      → Settles p endptprime fuel
      → (m : ℕ) × (s' : Session) × (holds p s.ep.qh_at (setup_tried s m) ≡ true)
        × (control_setup p fuel buffer s
            ≡ done (
              (
                ok 8,
                to_le_bytes p (p.setup_of (armed p s.ep.qh_at (setup_tried s m)) s.ep.qh_at)
                    ++ drop 8 buffer,
              ),
              s',
            ))
        × IsRefilled (after_setup s m) s'
  unfolding control_setup schedule_packet clear_nack write_bit
  control_setup_lem fuel n buffer s lt held ready settles =
      let (m, held', ran) = read_setup_lem p fuel n s ready.has_bit lt held in
      let s1 = after_setup s m in
      elim (Bool-cases (primed p s1)) [
        | inl busy ↦ (
          m,
          after_stat p s1,
          held',
          ground (arith, ran, is_primed_lem p s1 ready.has_bit, busy),
          inl (busy, refl),
        )
        | inr idle ↦
            let ready' : IsReady p (after_nack s1) = record {
              low_buffer = ready.low_buffer;
              low_stack = ready.low_stack;
              has_bit = ready.has_bit;
            } in
            let (s', went, scheduled) =
              schedule_transfer-IsScheduled p fuel (Qh.max_packet_len p.ral s.ep.qh) (after_nack s1)
                ready' settles in
            (
              m,
              s',
              held',
              ground (arith, ran, is_primed_lem p s1 ready.has_bit, idle, ready.has_bit, went),
              inr (idle, scheduled),
            )
      ]

  -- The driver when a session with endpoint 0 OUT has ended as `s`.
  abbrev pub ended : Driver → Session → Driver
  ended d s = record d {
    ep_allocator = endpoint_set p (ctrl_ep0_out p) s.ep d.ep_allocator;
    world = s.world;
  }

  module _ (fuel : ℕ) (buffer : List ℕ) (d : Driver) (ep : Endpoint) (v : IsValid p d.ep_allocator)
      (there : found p (ctrl_ep0_out p) d ≡ some ep) where
    abbrev pub start : Session
    start = record { ep = ep; world = d.world }

    -- Over a valid endpoint allocator, a read of endpoint 0 into a slice of 8 bytes or more, when the
    -- controller says that a setup packet is there, nothing stands in the way of a transfer
    -- (`IsReady`), the controller takes a prime within `fuel` reads and one of the first `fuel`
    -- attempts finds the tripwire armed: the setup bit is cleared, and the first 8 bytes of the slice
    -- are the setup buffer, lowest byte first, as it was loaded by an attempt that found the tripwire
    -- armed still; the rest of the slice stays. That the last transfer failed does not matter. If the
    -- endpoint is not primed then, its NAK is cleared and a transfer of the packet size is scheduled;
    -- if it is, only its status is read.
    pub ctrl0_read_setup :
        (n : ℕ)
        → pending start ≡ true
        → 8 ≤ length buffer
        → n < fuel
        → holds p ep.qh_at (setup_tried (after_ask start) n) ≡ true
        → IsReady p start
        → Settles p endptprime fuel
        → (m : ℕ) × (s' : Session) × (holds p ep.qh_at (setup_tried (after_ask start) m) ≡ true)
          × (ctrl0_read p fuel buffer d
              ≡ done (
                (
                  ok 8,
                  to_le_bytes p
                        (p.setup_of (armed p ep.qh_at (setup_tried (after_ask start) m)) ep.qh_at)
                      ++ drop 8 buffer,
                ),
                ended d s',
              ))
          × IsRefilled (after_setup (after_ask start) m) s'
    unfolding ctrl0_read
    ctrl0_read_setup n asked long lt held ready settles =
        let ready' : IsReady p (after_ask start) = record {
          low_buffer = ready.low_buffer;
          low_stack = ready.low_stack;
          has_bit = ready.has_bit;
        } in
        let (m, s', held', ran, refilled) =
          control_setup_lem fuel n buffer (after_ask start) lt held ready' settles in
        (
          m,
          s',
          held',
          with_ep-found p (ctrl_ep0_out p) d v ep _ there
              ∙ ground (arith, has_setup_lem start ready.has_bit, asked, long, ran),
          refilled,
        )

    -- Over a valid endpoint allocator, with no obstacle to a transfer (`IsReady`), a packet size that
    -- fits the buffer and a controller that takes a prime within `fuel` reads: a read of endpoint 0,
    -- when no setup packet is there or the slice is shorter than 8 bytes, the last transfer did not
    -- fail and the endpoint is not primed, gives the front of the endpoint's buffer, as much as the
    -- packet size, the slice and the transfer allow, whatever the mask of the last poll says. The
    -- rest of the slice stays, and a transfer of the packet size is scheduled.
    pub ctrl0_read_data :
        (transferred : ℕ)
        → (pending start ≡ false) ⊎ (length buffer < 8)
        → check_errors p ep ≡ ok tt
        → primed p (after_ask start) ≡ false
        → FitsPacket p ep
        → Td.bytes_transferred p.ral p.checks ep.td ≡ done transferred
        → IsReady p start
        → Settles p endptprime fuel
        → (s' : Session) × (ctrl0_read p fuel buffer d
            ≡ done (
              (
                ok (read_size p buffer transferred start),
                bytes d.world.mem ep.buffer.ptr (read_size p buffer transferred start)
                    ++ drop (read_size p buffer transferred start) buffer,
              ),
              ended d s',
            ))
          × IsScheduled p
              (Qh.max_packet_len p.ral ep.qh)
              (after_clear p (after_stat p (after_ask start)))
              s'
          × IsValid p (endpoint_set p (ctrl_ep0_out p) s'.ep d.ep_allocator)
    unfolding ctrl0_read control_status
    ctrl0_read_data transferred none_or_short fine idle fits moved ready settles =
        let ready' : IsReady p (after_stat p (after_ask start)) = record {
          low_buffer = ready.low_buffer;
          low_stack = ready.low_stack;
          has_bit = ready.has_bit;
        } in
        let (s', ran, scheduled) =
          read_data_lem p fuel buffer (after_stat p (after_ask start)) transferred fits moved ready'
            settles in
        (
          s',
          with_ep-found p (ctrl_ep0_out p) d v ep _ there
              ∙ ground (
                arith,
                none_or_short,
                has_setup_lem start ready.has_bit,
                fine,
                is_primed_lem p (after_ask start) ready.has_bit,
                idle,
                ran,
              ),
          scheduled,
          endpoint_set-IsValid p d.ep_allocator v (ctrl_ep0_out p) ep s'.ep there
              (ap (λ e. e.address) scheduled.kept),
        )
