-- ===== src/Driver/Sound.antt =====
-- When a driver is sound: its endpoints have buffers of their own in the endpoint memory, and what
-- lies outside that memory is as it was.
pub mod Grown
use imxrt_usbd.Common.{
  ℕ, ◌+◌, ◌-◌, ◌^◌, ◌≤◌, ◌<◌, ◌≡◌, ◌≢◌, refl, sym, ap, ◌∙◌, subst, ◌⊎◌, inl, inr, arith, List,
  Option, none, some, length, get_elem?, set, get_elem?-set_self, get_elem?-set_ne, get_elem?-lt,
}
use native.Mathlib.Decide.{ℕ_discrete}
use imxrt_usbd.Machine.{World}
use imxrt_usbd.Buffer.{Buffer, EndpointMemory}
use imxrt_usbd.Td.{Td, set_terminate, clear_status}
use imxrt_usbd.Td.Laws.{clear_status-Holds}
use imxrt_usbd.Qh.{Qh, max_packet_len}
use imxrt_usbd.Td.Pages.{page}
use imxrt_usbd.Platform.{Platform, EndpointAddress, EndpointType}
use imxrt_usbd.Endpoint
use imxrt_usbd.Endpoint.{Endpoint, Session}
use imxrt_usbd.Endpoint.New.{new_lem}
use imxrt_usbd.Endpoint.Data.{FitsPacket}
use imxrt_usbd.Endpoint.Returns.{IsPlaced, IsCounted, Stands}
use imxrt_usbd.State.{slot, endpoint_set, Slot, EndpointAllocator}
use imxrt_usbd.State.Slots.{IsValid, at_slot, at_slot-some, at_slot-set}
use imxrt_usbd.State.Allocate.{endpoint_set-IsValid}
use imxrt_usbd.Driver.{Driver}
use imxrt_usbd.Driver.Lookup.{found}

-- The end of the endpoint memory, and that it is not near that of the address space.
abbrev pub top : EndpointMemory → ℕ
top m = m.buffer + m.size

abbrev pub IsLow : EndpointMemory → Type 0
IsLow m = page (top m) 4 < 2 ^ 32

-- Buffers that share no byte.
abbrev pub AreApart : Endpoint → Endpoint → Type 0
AreApart e f =
    (e.buffer.ptr + e.buffer.len ≤ f.buffer.ptr) ⊎ (f.buffer.ptr + f.buffer.len ≤ e.buffer.ptr)

-- An endpoint with a buffer between `low` and the end of the endpoint memory, its packets fitting.
pub record IsHoused (p : Platform) (m : EndpointMemory) (low : ℕ) (ep : Endpoint) : Type 0 where
  pub above : low ≤ ep.buffer.ptr
  pub below : ep.buffer.ptr + ep.buffer.len ≤ top m
  pub packet : FitsPacket p ep
  pub counted : IsCounted p ep.td

-- The endpoint in slot `i` of a list.
abbrev pub InSlot : List Slot → ℕ → Endpoint → Type 0
InSlot eps i ep = get_elem? eps i ≡ some (some ep)

-- A sound driver over the endpoint memory `m`, with the bytes `mem` outside it and endpoints at the
-- addresses that `needs` names.
pub record IsSound (p : Platform) (m : EndpointMemory) (mem : ℕ → ℕ)
    (needs : EndpointAddress → Type 0) (d : Driver) : Type 0 where
  pub valid : IsValid p d.ep_allocator
  pub starts : d.buffer_allocator.start ≡ m.buffer
  pub above : m.buffer ≤ d.buffer_allocator.ptr
  pub below : d.buffer_allocator.ptr ≤ top m
  pub housed :
      (i : ℕ) (ep : Endpoint)
      → InSlot d.ep_allocator.ep_list i ep
      → IsHoused p m d.buffer_allocator.ptr ep
  pub fresh : (i : ℕ) (td : Td) → get_elem? d.ep_allocator.td_list i ≡ some td → IsCounted p td
  pub apart :
      (i j : ℕ) (e f : Endpoint)
      → InSlot d.ep_allocator.ep_list i e
      → InSlot d.ep_allocator.ep_list j f
      → i ≢ j
      → AreApart e f
  pub outside : (at : ℕ) → (at < m.buffer) ⊎ (top m ≤ at) → d.world.mem at ≡ mem at
  pub stands : (addr : EndpointAddress) → needs addr → (ep : Endpoint) × (found p addr d ≡ some ep)

pub same_some :
    {A : Type 0} (a b : A) → ◌≡◌ {A = Option (Option A)} (some (some a)) (some (some b)) → a ≡ b
same_some a b e = cc

-- The world may change, so long as memory outside the endpoint memory does not.
pub world-IsSound :
    (p : Platform) (m : EndpointMemory) (mem : ℕ → ℕ) (needs : EndpointAddress → Type 0)
    (d : Driver) (w : World)
    → IsSound p m mem needs d
    → w.mem ≡ d.world.mem
    → IsSound p m mem needs (record d { world = w })
world-IsSound p m mem needs d w s same = record {
  valid = s.valid;
  starts = s.starts;
  above = s.above;
  below = s.below;
  housed = s.housed;
  fresh = s.fresh;
  apart = s.apart;
  outside = λ at out. ap (λ m. m at) same ∙ s.outside at out;
  stands = s.stands;
}

-- What stands now may be asked for later.
pub renewed :
    (p : Platform) (m : EndpointMemory) (mem : ℕ → ℕ) (needs needs' : EndpointAddress → Type 0)
    (d : Driver)
    → IsSound p m mem needs d
    → ((addr : EndpointAddress) → needs' addr → (ep : Endpoint) × (found p addr d ≡ some ep))
    → IsSound p m mem needs' d
renewed p m mem needs needs' d s stand = record {
  valid = s.valid;
  starts = s.starts;
  above = s.above;
  below = s.below;
  housed = s.housed;
  fresh = s.fresh;
  apart = s.apart;
  outside = s.outside;
  stands = stand;
}

index-lt :
    (p : Platform) (addr : EndpointAddress) (i : ℕ) → slot p addr ≡ i → i < 16 → p.index addr < 8
unfolding slot
index-lt p addr i e lt = ground arith

module _ (p : Platform) (m : EndpointMemory) (low : IsLow m) (mem : ℕ → ℕ)
    (needs : EndpointAddress → Type 0) (d : Driver) (s : IsSound p m mem needs d)
    (addr : EndpointAddress) (ep : Endpoint) (there : found p addr d ≡ some ep) where
  abbrev eps : List Slot
  eps = d.ep_allocator.ep_list

  held : InSlot d.ep_allocator.ep_list (slot p addr) ep
  held = at_slot-some (slot p addr) d.ep_allocator.ep_list there

  -- An endpoint that is found has registers, and room behind its buffer.
  pub found-IsPlaced : IsPlaced p ep
  found-IsPlaced =
      let house = s.housed (slot p addr) ep held in
      record {
        numbered =
            index-lt p ep.address (slot p addr) (s.valid.in_slot (slot p addr) ep held)
              (omega (arith, get_elem?-lt eps (slot p addr) held, s.valid.same_ep, s.valid.small));
        low_buffer = omega (arith, house.below);
        room = omega (arith, house.below);
      }

  pub found-Stands : Stands p ep d.world.mem (record { ep = ep; world = d.world })
  found-Stands =
      let house = s.housed (slot p addr) ep held in
      record {
        same_address = refl;
        same_buffer = refl;
        packet = house.packet;
        counted = house.counted;
        outside = λ at out. refl;
      }

  module _ (t : Session) (after : Stands p ep d.world.mem t) where
    abbrev pub next : Driver
    next = record d { ep_allocator = endpoint_set p addr t.ep d.ep_allocator; world = t.world }

    -- What stood in a slot before, with its buffer.
    before :
        (i : ℕ) (e : Endpoint)
        → InSlot (set d.ep_allocator.ep_list (slot p addr) (some (t.ep))) i e
        → (f : Endpoint) × InSlot d.ep_allocator.ep_list i f
          × (e.buffer ≡ f.buffer)
          × FitsPacket p e
          × IsCounted p e.td
    before i e now = elim (ℕ_discrete (slot p addr) i) [
      | yes same ↦
          let e0 : t.ep ≡ e = same_some (t.ep) e (
            sym (get_elem?-set_self eps (slot p addr) (some (t.ep)) in_range)
            ∙ ap (get_elem? (set eps (slot p addr) (some (t.ep)))) same
            ∙ now) in
          (
            ep,
            subst (λ k. InSlot eps k ep) same held,
            ap (λ x. x.buffer) (sym e0) ∙ after.same_buffer,
            subst (λ x. FitsPacket p x) e0 after.packet,
            subst (λ (x : Endpoint). IsCounted p x.td) e0 after.counted,
          )
      | no ne ↦
          let old = sym (get_elem?-set_ne eps (slot p addr) i (some (t.ep)) ne) ∙ now in
          let house = s.housed i e old in (e, old, refl, house.packet, house.counted)
    ]
      where
        in_range : slot p addr < length eps
        in_range = get_elem?-lt eps (slot p addr) held

    stands_after :
        (a : EndpointAddress) (f : Endpoint)
        → found p a d ≡ some f
        → (e : Endpoint) × (at_slot (slot p a) (set eps (slot p addr) (some (t.ep))) ≡ some e)
    stands_after a f was = elim (ℕ_discrete (slot p addr) (slot p a)) [
      | yes same ↦ (
        t.ep,
        subst (λ k. at_slot k (set eps (slot p addr) (some (t.ep))) ≡ some (t.ep)) same
            (at_slot-set (slot p addr) eps (t.ep) (get_elem?-lt eps (slot p addr) held)),
      )
      | no ne ↦
          (f, rw (get_elem?-set_ne eps (slot p addr) (slot p a) (some (t.ep)) ne, at_slot) was)
    ]

    -- What is done with an endpoint that is found keeps the driver sound.
    pub session-IsSound : IsSound p m mem needs next
    unfolding endpoint_set
    session-IsSound = record {
      valid = endpoint_set-IsValid p d.ep_allocator s.valid addr ep (t.ep) there after.same_address;
      starts = s.starts;
      above = s.above;
      below = s.below;
      housed = λ i e now.
          let (f, was, same, packet, counted) = before i e now in
          let house = s.housed i f was in
          record {
            above = subst (λ (b : Buffer). d.buffer_allocator.ptr ≤ b.ptr) (sym same) house.above;
            below = subst (λ (b : Buffer). b.ptr + b.len ≤ top m) (sym same) house.below;
            packet = packet;
            counted = counted;
          };
      fresh = s.fresh;
      apart = λ i j e f ei fj ne.
          let (e0, we, se, _, _) = before i e ei in
          let (f0, wf, sf, _, _) = before j f fj in
          subst
            (λ (b : Buffer). (b.ptr + b.len ≤ f.buffer.ptr) ⊎ (f.buffer.ptr + f.buffer.len ≤ b.ptr))
            (sym se)
            (subst
              (λ (b : Buffer).
                (e0.buffer.ptr + e0.buffer.len ≤ b.ptr) ⊎ (b.ptr + b.len ≤ e0.buffer.ptr))
              (sym sf) (s.apart i j e0 f0 we wf ne));
      outside = λ at out. after.outside at (beyond at out) ∙ s.outside at out;
      stands = λ a need. let (f, was) = s.stands a need in stands_after a f was;
    }
      where
        beyond :
            (at : ℕ)
            → (at < m.buffer) ⊎ (top m ≤ at)
            → (at < ep.buffer.ptr) ⊎ (ep.buffer.ptr + ep.buffer.len ≤ at)
        beyond at out =
            let house = s.housed (slot p addr) ep held in
            ground (arith, house.above, house.below, s.above)
