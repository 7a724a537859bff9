-- ===== src/State/Allocate.antt =====
-- Allocating endpoints.
use imxrt_usbd.Common.{
  ℕ, ◌+◌, ◌*◌, ◌^◌, ◌≤◌, ◌<◌, bit_or, ◌≡◌, ◌≢◌, refl, sym, ap, ◌∙◌, subst, ◌⊎◌, arith, true, none,
  some, ◌==◌, length, get_elem?, set, get_elem?-set_self, get_elem?-set_ne, get_elem?-some,
  get_elem?-lt, length-set, inl, inr, done,
}
use native.Mathlib.Decide.{ℕ_discrete}
use imxrt_usbd.Common.Bits.{bit, bit-le-one}
use imxrt_usbd.Common.Bits.Single.{test_bit, bit-set_again, bit-set_self, bit-set_ne}
use imxrt_usbd.Buffer.{Buffer}
use imxrt_usbd.Td.{Td}
use imxrt_usbd.Qh.{Qh}
use imxrt_usbd.Platform.{Platform, EndpointAddress, EndpointType}
use imxrt_usbd.Endpoint
use imxrt_usbd.Endpoint.{Endpoint}
use imxrt_usbd.Endpoint.New.{new_lem}
use imxrt_usbd.State.{
  EndpointAllocator, try_mask_update, slot, endpoint, endpoint_set, allocate_endpoint,
}
use imxrt_usbd.State.Slots.{IsValid, at_slot, at_slot-some, at_slot-set, endpoint_lem}

module _ (p : Platform) (a : EndpointAllocator) (v : IsValid p a) where
  -- Writing an endpoint to the slot of its address, with its bit set, keeps the allocator valid.
  pub set-IsValid :
      (ep : Endpoint) (mask i : ℕ)
      → slot p ep.address ≡ i
      → i < length a.qh_list
      → bit mask i ≡ 1
      → ((j : ℕ) → i ≢ j → bit mask j ≡ bit a.alloc_mask j)
      → IsValid p (record a { alloc_mask = mask; ep_list = set a.ep_list i (some ep) })
  set-IsValid ep mask i stands in_range is_set others = record {
    same_td = v.same_td;
    same_ep = length-set a.ep_list i (some ep) ∙ v.same_ep;
    small = v.small;
    set_init = λ j lt e. elim (ℕ_discrete i j) [
      | yes same ↦
          (ep, subst (λ k. get_elem? (set a.ep_list i (some ep)) k ≡ some (some ep)) same self)
      | no ne ↦
          let (old, there) = v.set_init j lt (sym (others j ne) ∙ e) in
          (old, get_elem?-set_ne a.ep_list i j (some ep) ne ∙ there)
    ];
    init_set = λ j old e. elim (ℕ_discrete i j) [
      | yes same ↦ ap (bit mask) (sym same) ∙ is_set
      | no ne ↦
          others j ne ∙ v.init_set j old (sym (get_elem?-set_ne a.ep_list i j (some ep) ne) ∙ e)
    ];
    in_slot = λ j old e. elim (ℕ_discrete i j) [
      | yes same ↦ ground (arith, self, stands)
      | no ne ↦ v.in_slot j old (sym (get_elem?-set_ne a.ep_list i j (some ep) ne) ∙ e)
    ];
  }
    where
      self : get_elem? (set a.ep_list i (some ep)) i ≡ some (some ep)
      self = get_elem?-set_self a.ep_list i (some ep) (omega (arith, v.same_ep))

  -- A change of an endpoint that keeps its address keeps the allocator valid.
  pub endpoint_set-IsValid :
      (addr : EndpointAddress) (ep ep' : Endpoint)
      → at_slot (slot p addr) a.ep_list ≡ some ep
      → ep'.address ≡ ep.address
      → IsValid p (endpoint_set p addr ep' a)
  unfolding endpoint_set
  endpoint_set-IsValid addr ep ep' there same =
      let held = at_slot-some (slot p addr) a.ep_list there in
      set-IsValid ep' a.alloc_mask (slot p addr)
        (ap (slot p) same ∙ v.in_slot (slot p addr) ep held)
        (omega (arith, get_elem?-lt a.ep_list (slot p addr) held, v.same_ep))
        (v.init_set (slot p addr) ep held) (λ j ne. refl)

  module _ (addr : EndpointAddress) (buffer : Buffer) (kind : EndpointType) where
    -- In a valid allocator, a request is refused, and changes nothing, when the address has no
    -- slot or its slot holds an endpoint already.
    pub allocate_endpoint_refused :
        (length a.qh_list ≤ slot p addr)
          ⊎ ((ep : Endpoint) × (at_slot (slot p addr) a.ep_list ≡ some ep))
        → allocate_endpoint p addr buffer kind a ≡ done (none, a)
    unfolding allocate_endpoint try_mask_update
    allocate_endpoint_refused (inl out) = ground arith
    allocate_endpoint_refused (inr (ep, there)) =
        let held = at_slot-some (slot p addr) a.ep_list there in
        ground (
          arith,
          test_bit (slot p addr) a.alloc_mask,
          v.init_set (slot p addr) ep held,
          bit-set_again a.alloc_mask (slot p addr),
        )

    -- The endpoint that a granted request makes, and the allocator afterwards.
    pub allocate_endpoint_made :
        slot p addr < length a.qh_list
        → at_slot (slot p addr) a.ep_list ≡ none
        → (qh : Qh) × (td : Td) × (get_elem? a.td_list (slot p addr) ≡ some td)
          × (allocate_endpoint p addr buffer kind a ≡ (
              let i = slot p addr in
              let ep =
                Endpoint.new p addr qh (a.qh_base + 64 * i) td (a.td_base + 32 * i) buffer kind in
              done (
                some ep,
                record a {
                  alloc_mask = bit_or a.alloc_mask (2 ^ i);
                  ep_list = set a.ep_list i (some ep);
                },
              )))
    unfolding allocate_endpoint try_mask_update
    allocate_endpoint_made in_range free =
        let i = slot p addr in
        let (qh, qh_there) = get_elem?-some a.qh_list i in_range in
        let (td, td_there) = get_elem?-some a.td_list i (omega (arith, v.same_td)) in
        let clear : (bit a.alloc_mask i == 0) ≡ true =
          ground (arith, bit-le-one a.alloc_mask i, v.set_init i) in
        (qh, td, td_there, ground (arith, test_bit i a.alloc_mask, clear, qh_there, td_there))

    -- In a valid allocator, a request for an address with a free slot succeeds. The new endpoint
    -- has the address, the buffer and the type asked for and stands in the slot; the other slots
    -- are as before; the allocator stays valid.
    pub allocate_endpoint_granted :
        slot p addr < length a.qh_list
        → at_slot (slot p addr) a.ep_list ≡ none
        → (ep : Endpoint) × (a' : EndpointAllocator) × (allocate_endpoint p addr buffer kind a
            ≡ done (some ep, a'))
          × IsValid p a'
          × (ep.address ≡ addr)
          × (ep.buffer ≡ buffer)
          × (ep.kind ≡ kind)
          × (endpoint p addr a' ≡ done (some ep))
          × (a'.ep_list ≡ set a.ep_list (slot p addr) (some ep))
    unfolding allocate_endpoint try_mask_update
    allocate_endpoint_granted in_range free =
        let i = slot p addr in
        let (qh, qh_there) = get_elem?-some a.qh_list i in_range in
        let (td, td_there) = get_elem?-some a.td_list i (omega (arith, v.same_td)) in
        let ep = Endpoint.new p addr qh (a.qh_base + 64 * i) td (a.td_base + 32 * i) buffer kind in
        let (_, _, _, address, same_buffer, same_kind) =
          new_lem p addr qh (a.qh_base + 64 * i) td (a.td_base + 32 * i) buffer kind in
        let mask = bit_or a.alloc_mask (2 ^ i) in
        let a' = record a { alloc_mask = mask; ep_list = set a.ep_list i (some ep) } in
        let clear : (bit a.alloc_mask i == 0) ≡ true =
          ground (arith, bit-le-one a.alloc_mask i, v.set_init i) in
        let valid =
          set-IsValid ep mask i (ap (slot p) address) in_range (bit-set_self a.alloc_mask i)
            (bit-set_ne a.alloc_mask i) in
        (
          ep,
          a',
          ground (arith, test_bit i a.alloc_mask, clear, qh_there, td_there),
          valid,
          address,
          same_buffer,
          same_kind,
          endpoint_lem p a' valid addr
              ∙ ap done (at_slot-set i a.ep_list ep (omega (arith, v.same_ep))),
          refl,
        )
