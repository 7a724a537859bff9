-- ===== src/State/Slots.antt =====
-- The slots of addresses, and what a valid endpoint allocator is.
use imxrt_usbd.Common.{
  ℕ, ◌+◌, ◌*◌, ◌%◌, ◌^◌, ◌≤◌, ◌<◌, ◌≡◌, refl, sym, ap, ◌∙◌, arith, false, List, Option, none, some,
  if◌then◌else◌, ltb, ◌==◌, length, get_elem?, set, get_elem?-set_self, get_elem?-lt, get_elem?-ge,
  done, Option-cases, inl, inr,
}
use imxrt_usbd.Common.Bits.{bit, bit-le-one}
use imxrt_usbd.Common.Bits.Shift.{bit-mod_low}
use imxrt_usbd.Common.Bits.Single.{test_bit}
use imxrt_usbd.Platform.{Platform, EndpointAddress, UsbDirection, dir_in, dir_out}
use imxrt_usbd.Endpoint.{Endpoint, is_out}
use imxrt_usbd.State.{EndpointAllocator, Slot, check_allocated, slot, endpoint}

parts_of_slot :
    (m n : ℕ) (d e : UsbDirection)
    → m * 2 + (if is_out d then 0 else 1) ≡ n * 2 + (if is_out e then 0 else 1)
    → (m ≡ n) × (d ≡ e)
parts_of_slot m n dir_out dir_out h = (omega arith, refl)
parts_of_slot m n dir_out dir_in h = absurd (omega arith)
parts_of_slot m n dir_in dir_out h = absurd (omega arith)
parts_of_slot m n dir_in dir_in h = (omega arith, refl)

module _ (p : Platform) where
  -- The slot of the address of endpoint `i` in a direction.
  pub slot-from_parts :
      (i : ℕ) (d : UsbDirection)
      → i < 128
      → slot p (p.from_parts i d) ≡ i * 2 + (if is_out d then 0 else 1)
  unfolding slot
  slot-from_parts i d h = rw (p.index-from_parts i d h, p.direction-from_parts i d h) refl

  -- Different addresses have different slots.
  pub slot-injective : (a b : EndpointAddress) → a < 256 → b < 256 → slot p a ≡ slot p b → a ≡ b
  unfolding slot
  slot-injective a b ha hb e =
      let (same_index, same_direction) =
        parts_of_slot (p.index a) (p.index b) (p.direction a) (p.direction b) e in
      sym (p.from_parts-index a ha)
      ∙ ap (λ i. p.from_parts i (p.direction a)) same_index
      ∙ ap (p.from_parts (p.index b)) same_direction
      ∙ p.from_parts-index b hb

-- Slot `i` holds an initialised endpoint exactly when its bit is set and it is in range; an
-- endpoint stands in the slot of its address; the lists have one length, at most 16.
pub record IsValid (p : Platform) (a : EndpointAllocator) : Type 0 where
  pub same_td : length a.td_list ≡ length a.qh_list
  pub same_ep : length a.ep_list ≡ length a.qh_list
  pub small : length a.qh_list ≤ 16
  pub set_init :
      (i : ℕ)
      → i < length a.qh_list
      → bit a.alloc_mask i ≡ 1
      → (ep : Endpoint) × (get_elem? a.ep_list i ≡ some (some ep))
  pub init_set :
      (i : ℕ) (ep : Endpoint) → get_elem? a.ep_list i ≡ some (some ep) → bit a.alloc_mask i ≡ 1
  pub in_slot :
      (i : ℕ) (ep : Endpoint) → get_elem? a.ep_list i ≡ some (some ep) → slot p ep.address ≡ i

-- The test of the mask, for slots in range.
pub check_allocated_lem :
    (i : ℕ) (a : EndpointAllocator)
    → length a.qh_list ≤ 16
    → check_allocated i a ≡ (if ltb i (length a.qh_list) then bit a.alloc_mask i == 1 else false)
unfolding check_allocated
check_allocated_lem i a small = ground (
  arith,
  test_bit i (a.alloc_mask % 2 ^ 16),
  bit-mod_low 16 a.alloc_mask i,
  bit-le-one a.alloc_mask i,
)

-- What stands in a slot, if anything does.
abbrev pub at_slot : ℕ → List Slot → Option Endpoint
at_slot i eps = elim (get_elem? eps i) [ none ↦ none | some e ↦ e ]

pub at_slot-some :
    (i : ℕ) (eps : List Slot) {ep : Endpoint}
    → at_slot i eps ≡ some ep
    → get_elem? eps i ≡ some (some ep)
at_slot-some i eps h = ground arith

pub at_slot-set :
    (i : ℕ) (eps : List Slot) (ep : Endpoint)
    → i < length eps
    → at_slot i (set eps i (some ep)) ≡ some ep
at_slot-set i eps ep h = ground (arith, get_elem?-set_self eps i (some ep) h)

module _ (p : Platform) (a : EndpointAllocator) (v : IsValid p a) where
  -- In a valid allocator, looking up an endpoint never reads an uninitialised slot or out of
  -- range: it gives what stands in the slot of the address.
  pub endpoint_lem :
      (addr : EndpointAddress) → endpoint p addr a ≡ done (at_slot (slot p addr) a.ep_list)
  unfolding endpoint
  endpoint_lem addr =
      let i = slot p addr in
      elim (Option-cases (get_elem? a.ep_list i)) [
        | inl gone ↦
            ground
              (arith, check_allocated_lem i a v.small, get_elem?-ge a.ep_list i gone, v.same_ep)
        | inr (none, empty) ↦ ground (arith, check_allocated_lem i a v.small, v.set_init i)
        | inr (some ep, there) ↦ ground (
          arith,
          check_allocated_lem i a v.small,
          get_elem?-lt a.ep_list i there,
          v.same_ep,
          v.init_set i ep there,
        )
      ]
