-- ===== src/Driver/Writes.antt =====
-- What writing to an endpoint but endpoint 0 does, on each of its branches.
use Prim.Native.Nat.{min}
use imxrt_usbd.Common.{
  ℕ, ◌+◌, ◌^◌, ◌≤◌, ◌<◌, ◌≡◌, ◌⊎◌, inl, inr, refl, sym, ap, ◌∙◌, arith, true, false, List, ◌∷◌,
  some, length, take, done,
}
use imxrt_usbd.Machine.{Access, World, wr, endptnak, endptprime}
use imxrt_usbd.Cache.Cover.{reg_log, written_back, lines_of}
use imxrt_usbd.Buffer.Copy.{bytes}
use imxrt_usbd.Qh
use imxrt_usbd.Platform.{Platform, EndpointAddress, put, eptn, eprn, ok, err, UsbError, would_block}
use imxrt_usbd.Platform.Waits.{Settles}
use imxrt_usbd.State.{endpoint_set}
use imxrt_usbd.State.Slots.{IsValid}
use imxrt_usbd.State.Allocate.{endpoint_set-IsValid}
use imxrt_usbd.Endpoint.{Endpoint, Session, by_direction, check_errors, clear_nack, write_bit}
use imxrt_usbd.Endpoint.Data.{FitsPacket, write_lem}
use imxrt_usbd.Endpoint.Transfer.{IsReady, IsScheduled, schedule_transfer-IsScheduled}
use imxrt_usbd.Driver.{Driver}
use imxrt_usbd.Driver.Lookup.{
  found, with_ep-found, endpoint_set-same, primed, stat_log, is_primed_lem,
}
use imxrt_usbd.Driver.Transfers.{ep_write, write_data}

-- The accesses of a write before the data: the endpoint's status is read and its NAK cleared.
abbrev pub nack_log : Platform → Session → List Access
nack_log p s =
    wr endptnak (put p (by_direction p s.ep eptn eprn) (2 ^ p.index s.ep.address) 0) ∷ stat_log p s

-- A write to an endpoint that did not fail and is not primed. The bytes of the lines that it cleans
-- are written back as they are in the end.
pub write_data_lem :
    (p : Platform) (fuel : ℕ) (buffer : List ℕ) (at : ℕ) (s : Session)
    → check_errors p s.ep ≡ ok tt
    → primed p s ≡ false
    → FitsPacket p s.ep
    → s.ep.buffer.ptr + s.ep.buffer.len + 32 < 2 ^ 32
    → IsReady p s
    → Settles p endptprime fuel
    → (at < s.ep.buffer.ptr)
      ⊎ (s.ep.buffer.ptr + min (Qh.max_packet_len p.ral s.ep.qh) (length buffer) ≤ at)
    → let n = min (Qh.max_packet_len p.ral s.ep.qh) (length buffer) in
      (w : World) × (s' : Session) × (write_data p fuel buffer s ≡ done (ok n, s'))
      × IsScheduled p n (record s { world = w }) s'
      × (reg_log w.log ≡ reg_log (nack_log p s))
      × (bytes s'.world.mem s.ep.buffer.ptr n ≡ take n buffer)
      × (s'.world.mem at ≡ s.world.mem at)
      × ((b : ℕ)
          → lines_of s.ep.buffer.ptr n b ≡ true
          → written_back s'.world.log b ≡ some (s'.world.mem b))
unfolding write_data clear_nack write_bit
write_data_lem p fuel buffer at s fine idle fits room ready settles outside =
    let s1 : Session = record s { world = record (s.world) { log = nack_log p s } } in
    let n = min (Qh.max_packet_len p.ral s.ep.qh) (length buffer) in
    let (w, wrote, stored, kept, regs, back) = write_lem p buffer s1 fits room in
    let ready' : IsReady p (record s { world = w }) = record {
      low_buffer = ready.low_buffer;
      low_stack = ready.low_stack;
      has_bit = ready.has_bit;
    } in
    let (s', ran, scheduled) =
      schedule_transfer-IsScheduled p fuel n (record s { world = w }) ready' settles in
    (
      w,
      s',
      ground (arith, fine, is_primed_lem p s ready.has_bit, ready.has_bit, wrote, ran),
      scheduled,
      regs,
      ap (λ m. bytes m s.ep.buffer.ptr n) scheduled.same_mem ∙ stored,
      ap (λ m. m at) scheduled.same_mem ∙ kept at outside,
      λ b covered. elim (scheduled.written b) [
        | inl before ↦
            before ∙ back b ∙ rw covered refl ∙ ap (λ m. some (m b)) (sym scheduled.same_mem)
        | inr after ↦ after ∙ ap (λ m. some (m b)) (sym scheduled.same_mem)
      ],
    )

module _ (p : Platform) (fuel : ℕ) (buffer : List ℕ) (addr : EndpointAddress) (d : Driver)
    (ep : Endpoint) (v : IsValid p d.ep_allocator) (there : found p addr d ≡ some ep) where
  abbrev start : Session
  start = record { ep = ep; world = d.world }

  -- Over a valid endpoint allocator, a write to an endpoint whose last transfer failed gives that
  -- error and changes nothing.
  pub ep_write_failed :
      (e : UsbError) → check_errors p ep ≡ err e → ep_write p fuel buffer addr d ≡ done (err e, d)
  unfolding ep_write write_data
  ep_write_failed e failed =
      with_ep-found p addr d v ep (write_data p fuel buffer) there
      ∙ ground (arith, failed, endpoint_set-same p addr d v ep there)

  -- Over a valid endpoint allocator, a write to a primed endpoint with index below 32 whose last
  -- transfer did not fail would block: only the status register is read, and nothing changes.
  pub ep_write_would_block :
      p.index ep.address < 32
      → check_errors p ep ≡ ok tt
      → primed p start ≡ true
      → ep_write p fuel buffer addr d
        ≡ done (err would_block, record d { world = record (d.world) { log = stat_log p start } })
  unfolding ep_write write_data
  ep_write_would_block small fine busy =
      with_ep-found p addr d v ep (write_data p fuel buffer) there
      ∙ ground (arith, fine, is_primed_lem p start small, endpoint_set-same p addr d v ep there)

  -- Over a valid endpoint allocator, a write to an endpoint with index below 32 is refused with the
  -- error of its last transfer, if that failed, and would block if it did not fail and is primed.
  -- Then at most the status register is read, and nothing else changes.
  pub ep_write_refused :
      (e : UsbError) (log : List Access)
      → p.index ep.address < 32
      → ((check_errors p ep ≡ err e) × (log ≡ d.world.log))
        ⊎ ((check_errors p ep ≡ ok tt)
            × (primed p start ≡ true)
            × (e ≡ would_block)
            × (log ≡ stat_log p start))
      → ep_write p fuel buffer addr d
        ≡ done (err e, record d { world = record (d.world) { log = log } })
  ep_write_refused e log small (inl (failed, same)) = rw same (ep_write_failed e failed)
  ep_write_refused e log small (inr (fine, busy, blocks, same)) =
      rw (same, blocks) (ep_write_would_block small fine busy)

  -- Over a valid endpoint allocator, with no obstacle to a transfer (`IsReady`), a packet size
  -- that fits the buffer, a buffer that ends below the last 32 bytes of the address space and a
  -- controller that takes a prime within `fuel` reads: a write to an endpoint that did not fail
  -- and is not primed succeeds. It reads the endpoint's status and clears its NAK, stores the
  -- front of the slice, as much as the packet size allows, at the front of the endpoint's buffer
  -- and changes no byte `at` elsewhere, accesses no register meanwhile, and then schedules a
  -- transfer of just those bytes, which memory still holds. The count is returned, and the
  -- allocator stays valid.
  pub ep_write_data :
      (at : ℕ)
      → check_errors p ep ≡ ok tt
      → primed p start ≡ false
      → FitsPacket p ep
      → ep.buffer.ptr + ep.buffer.len + 32 < 2 ^ 32
      → IsReady p start
      → Settles p endptprime fuel
      → (at < ep.buffer.ptr)
        ⊎ (ep.buffer.ptr + min (Qh.max_packet_len p.ral ep.qh) (length buffer) ≤ at)
      → (n : ℕ) × (w : World) × (s' : Session) × (n
          ≡ min (Qh.max_packet_len p.ral ep.qh) (length buffer))
        × (ep_write p fuel buffer addr d
            ≡ done (
              ok n,
              record d {
                ep_allocator = endpoint_set p addr s'.ep d.ep_allocator;
                world = s'.world;
              },
            ))
        × IsScheduled p n (record { ep = ep; world = w }) s'
        × IsValid p (endpoint_set p addr s'.ep d.ep_allocator)
        × (reg_log w.log ≡ reg_log (nack_log p start))
        × (bytes s'.world.mem ep.buffer.ptr n ≡ take n buffer)
        × (s'.world.mem at ≡ d.world.mem at)
  unfolding ep_write
  ep_write_data at fine idle fits room ready settles outside =
      let (w, s', ran, scheduled, regs, stored, kept, _) =
        write_data_lem p fuel buffer at start fine idle fits room ready settles outside in
      (
        min (Qh.max_packet_len p.ral ep.qh) (length buffer),
        w,
        s',
        refl,
        with_ep-found p addr d v ep (write_data p fuel buffer) there ∙ rw ran refl,
        scheduled,
        endpoint_set-IsValid p d.ep_allocator v addr ep s'.ep there
            (ap (λ e. e.address) scheduled.kept),
        regs,
        stored,
        kept,
      )
