-- ===== src/Bus/Grants.antt =====
-- Allocating an endpoint through the bus returns on a sound driver, and leaves it sound.
use imxrt_usbd.Common.{
  ℕ, zero, suc, ◌+◌, ◌-◌, ◌^◌, ◌*◌, ◌≤◌, ◌<◌, ◌≡◌, refl, ◌∙◌, arith, bit_or, none, some, length,
  set, Option-cases, inl, inr, done,
}
use native.Mathlib.Decide.{dec_lt}
use imxrt_usbd.Buffer.{Buffer, EndpointMemory}
use imxrt_usbd.Buffer.Alloc as AllocLaws
use imxrt_usbd.Buffer.Alloc.{allocate_granted}
use imxrt_usbd.Platform.{Platform, UsbDirection, EndpointType, EndpointAddress, Result, ok}
use imxrt_usbd.State.{slot}
use imxrt_usbd.State.Slots.{slot-from_parts}
use imxrt_usbd.State.Allocate.{allocate_endpoint_made}
use imxrt_usbd.Endpoint
use imxrt_usbd.Endpoint.{Endpoint, is_out}
use imxrt_usbd.Driver.{Driver, allocate_buffer, allocate_ep}
use imxrt_usbd.Driver.Lookup.{found, is_allocated_lem}
use imxrt_usbd.Driver.Reachable.{allocate_endpoint-IsValid}
use imxrt_usbd.Driver.Sound.{IsSound}
use imxrt_usbd.Driver.Sound.Grown.{new-fits, grown, grown-IsSound}
use imxrt_usbd.Bus.{alloc, alloc_at, alloc_from}
use imxrt_usbd.Bus.Alloc.{alloc_at_full, alloc_from-some, alloc_from-none, alloc_taken}

module _ (p : Platform) (m : EndpointMemory) (mem : ℕ → ℕ) (needs : EndpointAddress → Type 0)
    (kind : EndpointType) (size : ℕ) (d : Driver) (s : IsSound p m mem needs d) where
  abbrev Answer : Type 0
  Answer = Result EndpointAddress

  start-valid : AllocLaws.IsValid d.buffer_allocator
  start-valid = omega (arith, s.starts, s.above)

  module _ (addr : EndpointAddress) (free : found p addr d ≡ none)
      (in_range : slot p addr < length d.ep_allocator.qh_list) where
    alloc_at-made :
        size ≤ AllocLaws.remaining d.buffer_allocator
        → (d' : Driver) × (alloc_at p addr kind size d ≡ done (ok addr, d'))
          × IsSound p m mem needs d'
    unfolding alloc_at allocate_buffer allocate_ep
    alloc_at-made room =
        let a = d.ep_allocator in
        let i = slot p addr in
        let buffer : Buffer = record { ptr = d.buffer_allocator.ptr - size; len = size } in
        let (qh, td, there, ran) =
          allocate_endpoint_made p a s.valid addr buffer kind in_range free in
        let ep = Endpoint.new p addr qh (a.qh_base + 64 * i) td (a.td_base + 32 * i) buffer kind in
        let (packet, counted, at_top) =
          new-fits p addr qh (a.qh_base + 64 * i) td (a.td_base + 32 * i) buffer kind
            (s.fresh i td there) in
        let mask = bit_or a.alloc_mask (2 ^ i) in
        (
          grown p m mem needs d s i mask size ep,
          rw (allocate_granted d.buffer_allocator size start-valid room, ran) refl,
          grown-IsSound p m mem needs d s i mask size ep (omega (arith, s.valid.same_ep)) free room
              packet counted at_top
              (allocate_endpoint-IsValid p addr buffer kind a
                (some ep, record a { alloc_mask = mask; ep_list = set a.ep_list i (some ep) })
                s.valid ran),
        )

    pub alloc_at-returns :
        (r : Answer) × (d' : Driver) × (alloc_at p addr kind size d ≡ done (r, d'))
        × IsSound p m mem needs d'
    alloc_at-returns = elim (dec_lt (AllocLaws.remaining d.buffer_allocator) size) [
      | yes full ↦ (_, d, alloc_at_full p d s.valid addr kind size start-valid full, s)
      | no room ↦ let (d', ran, s') = alloc_at-made (omega arith) in (ok addr, d', ran, s')
    ]

  idx_in_range :
      (idx : ℕ) (ep_dir : UsbDirection)
      → length d.ep_allocator.qh_list ≡ 16
      → idx < 8
      → slot p (p.from_parts idx ep_dir) < length d.ep_allocator.qh_list
  idx_in_range idx ep_dir full lt = ground (arith, slot-from_parts p idx ep_dir (omega arith))

  alloc_from-returns :
      (idx left : ℕ) (ep_dir : UsbDirection)
      → length d.ep_allocator.qh_list ≡ 16
      → idx + left ≤ 8
      → (r : Answer) × (d' : Driver) × (alloc_from p idx left ep_dir kind size d ≡ done (r, d'))
        × IsSound p m mem needs d'
  unfolding alloc_from
  alloc_from-returns idx zero ep_dir full le = (_, d, refl, s)
  alloc_from-returns idx (suc left) ep_dir full le =
      elim (Option-cases (found p (p.from_parts idx ep_dir) d)) [
        | inl free ↦
            let (r, d', ran, s') =
              alloc_at-returns (p.from_parts idx ep_dir) free
                (idx_in_range idx ep_dir full (omega arith)) in
            (r, d', alloc_from-none p d s.valid idx left ep_dir kind size free ∙ ran, s')
        | inr (ep, there) ↦
            let (r, d', ran, s') = alloc_from-returns (idx + 1) left ep_dir full (omega arith) in
            (r, d', alloc_from-some p d s.valid idx left ep_dir kind size ep there ∙ ran, s')
      ]

  pub alloc_any-returns :
      (ep_dir : UsbDirection)
      → length d.ep_allocator.qh_list ≡ 16
      → (r : Answer) × (d' : Driver) × (alloc p ep_dir none kind size d ≡ done (r, d'))
        × IsSound p m mem needs d'
  unfolding alloc
  alloc_any-returns ep_dir full = alloc_from-returns 1 7 ep_dir full (omega arith)

  pub alloc_given-returns :
      (ep_dir : UsbDirection) (addr : EndpointAddress)
      → slot p addr < length d.ep_allocator.qh_list
      → (r : Answer) × (d' : Driver) × (alloc p ep_dir (some addr) kind size d ≡ done (r, d'))
        × IsSound p m mem needs d'
  unfolding alloc
  alloc_given-returns ep_dir addr in_range = elim (Option-cases (found p addr d)) [
    | inl free ↦
        let (r, d', ran, s') = alloc_at-returns addr free in_range in
        (r, d', rw (is_allocated_lem p addr d s.valid, free) ran, s')
    | inr (ep, there) ↦ (_, d, alloc_taken p d s.valid ep_dir addr kind size ep there, s)
  ]
