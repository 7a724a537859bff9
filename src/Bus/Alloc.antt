-- ===== src/Bus/Alloc.antt =====
-- Allocating endpoints through the bus.
use imxrt_usbd.Common.{
  ℕ, zero, suc, ◌+◌, ◌-◌, set, ◌≤◌, ◌<◌, ◌≡◌, refl, ap, ◌∙◌, arith, none, some, length, done,
}
use imxrt_usbd.Buffer.{Buffer}
use imxrt_usbd.Buffer.Alloc as AllocLaws
use imxrt_usbd.Buffer.Alloc.{allocate_granted, allocate_refused}
use imxrt_usbd.Platform.{
  Platform, UsbDirection, EndpointType, EndpointAddress, ok, err, invalid_endpoint,
  endpoint_memory_overflow, endpoint_overflow,
}
use imxrt_usbd.State.{slot, endpoint}
use imxrt_usbd.State.Slots.{IsValid}
use imxrt_usbd.State.Allocate.{allocate_endpoint_granted}
use imxrt_usbd.Endpoint.{Endpoint}
use imxrt_usbd.Driver.{Driver, allocate_buffer, allocate_ep}
use imxrt_usbd.Driver.Lookup.{found, is_allocated_lem}
use imxrt_usbd.Bus.{alloc, alloc_at, alloc_from}

module _ (p : Platform) (d : Driver) (v : IsValid p d.ep_allocator) where
  -- Over a valid endpoint allocator, the request for a given address is refused with
  -- `InvalidEndpoint` if an endpoint stands there, and nothing changes, endpoint memory included.
  pub alloc_taken :
      (ep_dir : UsbDirection) (addr : EndpointAddress) (kind : EndpointType) (size : ℕ)
      (ep : Endpoint)
      → found p addr d ≡ some ep
      → alloc p ep_dir (some addr) kind size d ≡ done (err invalid_endpoint, d)
  unfolding alloc
  alloc_taken ep_dir addr kind size ep there = ground (arith, is_allocated_lem p addr d v)

  -- What stands in an allocated place afterwards: the endpoint asked for, with the buffer carved from
  -- the endpoint memory, in the slot of its address; every other slot as it was.
  pub record IsAllocated (addr : EndpointAddress) (kind : EndpointType) (size : ℕ) (d' : Driver)
      : Type 0 where
    pub ep : Endpoint
    pub valid : IsValid p d'.ep_allocator
    pub looked_up : endpoint p addr d'.ep_allocator ≡ done (some ep)
    pub in_slot : d'.ep_allocator.ep_list ≡ set d.ep_allocator.ep_list (slot p addr) (some ep)
    pub has_address : ep.address ≡ addr
    pub has_kind : ep.kind ≡ kind
    pub buffer_at : ep.buffer.ptr ≡ d.buffer_allocator.ptr - size
    pub buffer_len : ep.buffer.len ≡ size
    pub memory_left :
        d'.buffer_allocator ≡ record (d.buffer_allocator) { ptr = d.buffer_allocator.ptr - size }
    pub same_world : d'.world ≡ d.world

  module _ (addr : EndpointAddress) (kind : EndpointType) (size : ℕ)
      (u : AllocLaws.IsValid d.buffer_allocator) where
    -- Without enough endpoint memory the request fails and changes nothing.
    pub alloc_at_full :
        AllocLaws.remaining d.buffer_allocator < size
        → alloc_at p addr kind size d ≡ done (err endpoint_memory_overflow, d)
    unfolding alloc_at allocate_buffer
    alloc_at_full full = rw (allocate_refused d.buffer_allocator size u full) refl

    pub alloc_at_granted :
        size ≤ AllocLaws.remaining d.buffer_allocator
        → found p addr d ≡ none
        → slot p addr < length d.ep_allocator.qh_list
        → (d' : Driver) × (alloc_at p addr kind size d ≡ done (ok addr, d'))
          × IsAllocated addr kind size d'
    unfolding alloc_at allocate_buffer allocate_ep
    alloc_at_granted room free in_range =
        let buffer : Buffer = record { ptr = d.buffer_allocator.ptr - size; len = size } in
        let (ep, a', ran, valid, address, same_buffer, same_kind, there, in_slot) =
          allocate_endpoint_granted p d.ep_allocator v addr buffer kind in_range free in
        (
          record d {
            buffer_allocator = record (d.buffer_allocator) { ptr = d.buffer_allocator.ptr - size };
            ep_allocator = a';
          },
          rw (allocate_granted d.buffer_allocator size u room, ran) refl,
          record {
            ep = ep;
            valid = valid;
            looked_up = there;
            in_slot = in_slot;
            has_address = address;
            has_kind = same_kind;
            buffer_at = ap (λ b. b.ptr) same_buffer;
            buffer_len = ap (λ b. b.len) same_buffer;
            memory_left = refl;
            same_world = refl;
          },
        )

  -- The endpoints `idx`, `idx` + 1, … in a direction, `n` of them, all stand.
  abbrev pub AreTaken : ℕ → ℕ → UsbDirection → Type 0
  AreTaken idx zero ep_dir = Unit {0}
  AreTaken idx (suc n) ep_dir =
      ((ep : Endpoint) × (found p (p.from_parts idx ep_dir) d ≡ some ep))
      × AreTaken (idx + 1) n ep_dir

  pub alloc_from-some :
      (idx total : ℕ) (ep_dir : UsbDirection) (kind : EndpointType) (size : ℕ) (ep : Endpoint)
      → found p (p.from_parts idx ep_dir) d ≡ some ep
      → alloc_from p idx (suc total) ep_dir kind size d
        ≡ alloc_from p (idx + 1) total ep_dir kind size d
  unfolding alloc_from
  alloc_from-some idx total ep_dir kind size ep there =
      rw (is_allocated_lem p (p.from_parts idx ep_dir) d v, there) refl

  pub alloc_from-none :
      (idx total : ℕ) (ep_dir : UsbDirection) (kind : EndpointType) (size : ℕ)
      → found p (p.from_parts idx ep_dir) d ≡ none
      → alloc_from p idx (suc total) ep_dir kind size d
        ≡ alloc_at p (p.from_parts idx ep_dir) kind size d
  unfolding alloc_from
  alloc_from-none idx total ep_dir kind size free =
      rw (is_allocated_lem p (p.from_parts idx ep_dir) d v, free) refl

  -- The loop passes over the endpoints that stand.
  alloc_from-taken :
      (idx n total left to : ℕ) (ep_dir : UsbDirection) (kind : EndpointType) (size : ℕ)
      → AreTaken idx n ep_dir
      → total ≡ n + left
      → to ≡ idx + n
      → alloc_from p idx total ep_dir kind size d ≡ alloc_from p to left ep_dir kind size d
  alloc_from-taken idx zero total left to ep_dir kind size taken e h =
      let same_total : total ≡ left = omega arith in
      let same_idx : to ≡ idx = omega arith in rw (same_total, same_idx) refl
  alloc_from-taken idx (suc n) zero left to ep_dir kind size taken e h = absurd (omega arith)
  alloc_from-taken idx (suc n) (suc total) left to ep_dir kind size ((ep, there), rest) e h =
      alloc_from-some idx total ep_dir kind size ep there
      ∙ alloc_from-taken (idx + 1) n total left to ep_dir kind size rest (omega arith) (omega arith)

  -- A request for any address of a direction, with all seven endpoints there already, fails with
  -- `EndpointOverflow` and changes nothing.
  pub alloc_search_full :
      (ep_dir : UsbDirection) (kind : EndpointType) (size : ℕ)
      → AreTaken 1 7 ep_dir
      → alloc p ep_dir none kind size d ≡ done (err endpoint_overflow, d)
  unfolding alloc alloc_from
  alloc_search_full ep_dir kind size taken =
      alloc_from-taken 1 7 7 0 8 ep_dir kind size taken refl refl

  -- With both allocators valid, a request for any address of a direction gets the lowest of the
  -- endpoints 1 to 7 that does not stand yet, if it has a slot and the endpoint memory is enough.
  pub alloc_search_first :
      (n : ℕ) (ep_dir : UsbDirection) (kind : EndpointType) (size : ℕ)
      → AllocLaws.IsValid d.buffer_allocator
      → n < 7
      → AreTaken 1 n ep_dir
      → found p (p.from_parts (suc n) ep_dir) d ≡ none
      → size ≤ AllocLaws.remaining d.buffer_allocator
      → slot p (p.from_parts (suc n) ep_dir) < length d.ep_allocator.qh_list
      → (d' : Driver) × (alloc p ep_dir none kind size d
          ≡ done (ok (p.from_parts (suc n) ep_dir), d'))
        × IsAllocated (p.from_parts (suc n) ep_dir) kind size d'
  unfolding alloc
  alloc_search_first n ep_dir kind size u lt taken free room in_range =
      let addr = p.from_parts (suc n) ep_dir in
      let (d', ran, good) = alloc_at_granted addr kind size u room free in_range in
      (
        d',
        alloc_from-taken 1 n 7 (suc (6 - n)) (suc n) ep_dir kind size taken (omega arith)
              (omega arith)
            ∙ alloc_from-none (suc n) (6 - n) ep_dir kind size free
            ∙ ran,
        good,
      )
