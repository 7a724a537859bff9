-- ===== src/Bus/Abstract.antt =====
-- Allocation by what a caller of the bus can see: which endpoints stand, of which type, and how much
-- endpoint memory is left. The slots, the mask and the buffers are forgotten.
pub mod Tests
use imxrt_usbd.Common.{
  ℕ, zero, suc, ◌+◌, ◌-◌, ◌≤◌, ◌<◌, ◌≡◌, ◌≢◌, refl, sym, ap, ◌∙◌, subst, arith, Bool, true, false,
  Option, none, some, ◌==◌, if◌then◌else◌, ltb, length, set, length-set, get_elem?-set_ne,
  get_elem?-set_self, Option-cases, Bool-cases, ==_iff, inl, inr, Outcome, done,
}
use native.Mathlib.Decide.{dec_lt, ℕ_discrete}
use imxrt_usbd.Buffer.Alloc as AllocLaws
use imxrt_usbd.Platform.{
  Platform, UsbDirection, EndpointType, EndpointAddress, Result, ok, err, invalid_endpoint,
  endpoint_memory_overflow, endpoint_overflow,
}
use imxrt_usbd.State.{slot}
use imxrt_usbd.State.Slots.{IsValid, at_slot, at_slot-set, slot-injective, slot-from_parts}
use imxrt_usbd.Endpoint.{Endpoint}
use imxrt_usbd.Driver.{Driver}
use imxrt_usbd.Driver.Lookup.{found, is_allocated_lem}
use imxrt_usbd.Bus.{alloc, alloc_at, alloc_from}
use imxrt_usbd.Bus.Alloc.{
  IsAllocated, alloc_taken, alloc_at_full, alloc_at_granted, alloc_from-some, alloc_from-none,
}

-- What a caller sees of a driver.
pub record View : Type 0 where
  pub stands : EndpointAddress → Option EndpointType
  pub left : ℕ

abbrev pub kind_of : Option Endpoint → Option EndpointType
kind_of none = none
kind_of (some ep) = some ep.kind

-- A request for an address that is free.
abbrev pub grant : View → EndpointAddress → EndpointType → ℕ → Result EndpointAddress × View
grant v addr kind size = if ltb v.left size then (err endpoint_memory_overflow, v) else (
  ok addr,
  record { stands = λ a. if a == addr then some kind else v.stands a; left = v.left - size },
)

module _ (p : Platform) where
  -- The first free endpoint from `idx` on, of `n`.
  abbrev pub grant_from :
      View → ℕ → ℕ → UsbDirection → EndpointType → ℕ → Result EndpointAddress × View
  grant_from v idx zero dir kind size = (err endpoint_overflow, v)
  grant_from v idx (suc n) dir kind size = elim (v.stands (p.from_parts idx dir)) [
    | some _ ↦ grant_from v (idx + 1) n dir kind size
    | none ↦ grant v (p.from_parts idx dir) kind size
  ]

  -- What a request is answered and what is seen afterwards.
  abbrev pub requested :
      View
      → UsbDirection
      → Option EndpointAddress
      → EndpointType
      → ℕ
      → Result EndpointAddress × View
  requested v dir none kind size = grant_from v 1 7 dir kind size
  requested v dir (some addr) kind size = elim (v.stands addr) [
    | some _ ↦ (err invalid_endpoint, v)
    | none ↦ grant v addr kind size
  ]

  abbrev pub view : Driver → View
  view d = record {
    stands = λ addr. kind_of (found p addr d);
    left = AllocLaws.remaining d.buffer_allocator;
  }

  -- A driver with room for every endpoint, both of its allocators valid, that shows this view.
  pub record Shows (v : View) (d : Driver) : Type 0 where
    pub valid : IsValid p d.ep_allocator
    pub memory_valid : AllocLaws.IsValid d.buffer_allocator
    pub full : length d.ep_allocator.qh_list ≡ 16
    pub same_left : (view d).left ≡ v.left
    pub same_stands : (a : EndpointAddress) → a < 256 → (view d).stands a ≡ v.stands a

  abbrev pub Refines :
      Outcome (Result EndpointAddress × Driver) → Result EndpointAddress × View → Type 0
  Refines o r = (d' : Driver) × (o ≡ done (r.0, d')) × Shows r.1 d'

  allocated_stands :
      (d d' : Driver) (v : IsValid p d.ep_allocator) (addr : EndpointAddress) (kind : EndpointType)
      (size : ℕ)
      → IsAllocated p d v addr kind size d'
      → addr < 256
      → slot p addr < length d.ep_allocator.qh_list
      → (a : EndpointAddress) → a < 256
      → (view d').stands a ≡ (if a == addr then some kind else (view d).stands a)
  allocated_stands d d' v addr kind size given lt in_range a lt' = elim (Bool-cases (a == addr)) [
    | inl same ↦
        let e : a ≡ addr = (==_iff a addr).0 same in
        let here : at_slot (slot p addr) d'.ep_allocator.ep_list ≡ some given.ep =
          ap (at_slot (slot p addr)) given.in_slot
          ∙ at_slot-set (slot p addr) d.ep_allocator.ep_list given.ep (omega (arith, v.same_ep)) in
        rw same (
          ap kind_of (ap (λ x. at_slot (slot p x) d'.ep_allocator.ep_list) e ∙ here)
          ∙ ap some given.has_kind)
    | inr other ↦
        let ne : slot p addr ≢ slot p a =
          λ e. absurd (ground (arith, other, slot-injective p addr a lt lt' e)) in
        let there : at_slot (slot p a) d'.ep_allocator.ep_list
            ≡ at_slot (slot p a) d.ep_allocator.ep_list =
          ap (at_slot (slot p a)) given.in_slot
          ∙ rw
              (
                get_elem?-set_ne d.ep_allocator.ep_list (slot p addr) (slot p a) (some given.ep) ne,
                at_slot,
              )
              refl in
        rw other (ap kind_of there)
  ]

  module _ (d : Driver) (v : View) (s : Shows v d) (kind : EndpointType) (size : ℕ) where
    in_range :
        (addr : EndpointAddress) → p.index addr < 8 → slot p addr < length d.ep_allocator.qh_list
    unfolding slot
    in_range addr lt = ground (arith, s.full)

    alloc_at-Refines :
        (addr : EndpointAddress)
        → addr < 256
        → p.index addr < 8
        → found p addr d ≡ none
        → Refines (alloc_at p addr kind size d) (grant v addr kind size)
    alloc_at-Refines addr lt low free = elim (Bool-cases (ltb v.left size)) [
      | inl full ↦ rw full (
        d,
        alloc_at_full p d s.valid addr kind size s.memory_valid (ground (arith, s.same_left, full)),
        s,
      )
      | inr room ↦
          let (d', ran, given) =
            alloc_at_granted p d s.valid addr kind size s.memory_valid
              (ground (arith, s.same_left, room)) free (in_range addr low) in
          rw room (
            d',
            ran,
            record {
              valid = given.valid;
              memory_valid =
                  rw given.memory_left (ground (arith, s.same_left, s.memory_valid, room));
              full = omega (
                arith,
                ap length given.in_slot,
                length-set d.ep_allocator.ep_list (slot p addr) (some given.ep),
                given.valid.same_ep,
                s.valid.same_ep,
                s.full,
              );
              same_left = rw given.memory_left (ground (arith, s.same_left));
              same_stands = λ a lt'.
                  allocated_stands d d' s.valid addr kind size given lt (in_range addr low) a lt'
                  ∙ ap (λ o. if a == addr then some kind else o) (s.same_stands a lt');
            },
          )
    ]

    stands_none :
        (addr : EndpointAddress) → addr < 256 → found p addr d ≡ none → v.stands addr ≡ none
    stands_none addr lt free = sym (s.same_stands addr lt) ∙ ap kind_of free

    stands_some :
        (addr : EndpointAddress) (ep : Endpoint)
        → addr < 256
        → found p addr d ≡ some ep
        → v.stands addr ≡ some ep.kind
    stands_some addr ep lt there = sym (s.same_stands addr lt) ∙ ap kind_of there

    alloc_from-Refines :
        (idx n : ℕ) (dir : UsbDirection)
        → idx + n ≤ 8
        → Refines (alloc_from p idx n dir kind size d) (grant_from v idx n dir kind size)
    unfolding alloc_from
    alloc_from-Refines idx zero dir le = (d, refl, s)
    alloc_from-Refines idx (suc n) dir le =
        let addr = p.from_parts idx dir in
        let small = p.from_parts-lt idx dir (omega arith) in
        elim (Option-cases (found p addr d)) [
          | inl free ↦
              let (d', ran, s') =
                alloc_at-Refines addr small (omega (arith, p.index-from_parts idx dir)) free in
              rw (stands_none addr small free, grant_from)
                (d', alloc_from-none p d s.valid idx n dir kind size free ∙ ran, s')
          | inr (ep, there) ↦
              let (d', ran, s') = alloc_from-Refines (idx + 1) n dir (omega arith) in
              rw (stands_some addr ep small there, grant_from)
                (d', alloc_from-some p d s.valid idx n dir kind size ep there ∙ ran, s')
        ]

    -- A driver with room for every endpoint, both of its allocators valid, that shows a view answers a
    -- request as `requested` says of the view, and shows the view that it says afterwards: on each
    -- branch, for a given address of endpoints 0 to 7 and in the search of endpoints 1 to 7.
    pub alloc-Refines :
        (dir : UsbDirection) (addr : Option EndpointAddress)
        → ((a : EndpointAddress) → addr ≡ some a → (a < 256) × (p.index a < 8))
        → (d' : Driver) × (alloc p dir addr kind size d
            ≡ done ((requested v dir addr kind size).0, d'))
          × Shows (requested v dir addr kind size).1 d'
    unfolding alloc
    alloc-Refines dir none numbered = alloc_from-Refines 1 7 dir (omega arith)
    alloc-Refines dir (some addr) numbered =
        let (small, low) = numbered addr refl in
        elim (Option-cases (found p addr d)) [
          | inl free ↦
              let (d', ran, s') = alloc_at-Refines addr small low free in
              rw (stands_none addr small free, requested)
                (d', rw (is_allocated_lem p addr d s.valid, free) ran, s')
          | inr (ep, there) ↦
              rw (stands_some addr ep small there, requested)
                (d, alloc_taken p d s.valid dir addr kind size ep there, s)
        ]
