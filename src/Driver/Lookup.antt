-- ===== src/Driver/Lookup.antt =====
-- Finding the endpoint of an address, and whether it is primed.
use imxrt_usbd.Common.{
  ◌<◌, ◌≡◌, refl, ap, arith, Bool, true, false, List, ◌∷◌, Option, none, some, ◌==◌, set_same, done,
  panic, M,
}
use imxrt_usbd.Common.Bits.{bit, bit-le-one}
use imxrt_usbd.Common.Bits.Single.{test_bit_right}
use imxrt_usbd.Machine.{Access, rd, endptstat}
use imxrt_usbd.Platform.{Platform, EndpointAddress, get, etbr, erbr}
use imxrt_usbd.State.{slot, endpoint_set}
use imxrt_usbd.State.Slots.{IsValid, at_slot, at_slot-some, endpoint_lem}
use imxrt_usbd.Endpoint.{Endpoint, Session, by_direction, is_primed}
use imxrt_usbd.Driver.{Driver, in_session, with_ep, if_ep, is_allocated}

module _ (p : Platform) where
  -- The endpoint that stands in the slot of an address.
  abbrev pub found : EndpointAddress → Driver → Option Endpoint
  found addr d = at_slot (slot p addr) d.ep_allocator.ep_list

  module _ (addr : EndpointAddress) (d : Driver) (v : IsValid p d.ep_allocator) where
    pub is_allocated_lem :
        is_allocated p addr d ≡ done (elim (found addr d) [ none ↦ false | some ep ↦ true ])
    unfolding is_allocated
    is_allocated_lem = rw (endpoint_lem p d.ep_allocator v addr) refl

    pub with_ep-found :
        {A : Type 0} (ep : Endpoint) (m : M Session A)
        → found addr d ≡ some ep
        → with_ep p addr m d ≡ in_session p addr ep m d
    unfolding with_ep
    with_ep-found ep m e = rw (endpoint_lem p d.ep_allocator v addr, e) refl

    pub with_ep-missing :
        {A : Type 0} (m : M Session A) → found addr d ≡ none → with_ep p addr m d ≡ panic
    unfolding with_ep
    with_ep-missing m e = rw (endpoint_lem p d.ep_allocator v addr, e) refl

    pub if_ep-found :
        (ep : Endpoint) (m : M Session (Unit {0}))
        → found addr d ≡ some ep
        → if_ep p addr m d ≡ in_session p addr ep m d
    unfolding if_ep
    if_ep-found ep m e = rw (endpoint_lem p d.ep_allocator v addr, e) refl

    pub if_ep-missing :
        (m : M Session (Unit {0})) → found addr d ≡ none → if_ep p addr m d ≡ done (tt, d)
    unfolding if_ep
    if_ep-missing m e = rw (endpoint_lem p d.ep_allocator v addr, e) refl

    -- To write back what was found changes nothing.
    pub endpoint_set-same :
        (ep : Endpoint)
        → found addr d ≡ some ep
        → endpoint_set p addr ep d.ep_allocator ≡ d.ep_allocator
    unfolding endpoint_set
    endpoint_set-same ep e =
        ap (λ eps. record (d.ep_allocator) { ep_list = eps })
          (set_same d.ep_allocator.ep_list (slot p addr) (some ep)
            (at_slot-some (slot p addr) d.ep_allocator.ep_list e))

  -- Whether the controller says that it has a transfer of the endpoint.
  abbrev pub primed : Session → Bool
  primed s =
      bit (get p (by_direction p s.ep etbr erbr) (p.answer s.world.log endptstat))
        (p.index s.ep.address)
      == 1

  abbrev pub stat_log : Session → List Access
  stat_log s = rd endptstat (p.answer s.world.log endptstat) ∷ s.world.log

  pub is_primed_lem :
      (s : Session)
      → p.index s.ep.address < 32
      → is_primed p s ≡ done (primed s, record s { world = record (s.world) { log = stat_log s } })
  unfolding is_primed
  is_primed_lem s small =
      let field = get p (by_direction p s.ep etbr erbr) (p.answer s.world.log endptstat) in
      ground (
        arith,
        test_bit_right (p.index s.ep.address) field,
        bit-le-one field (p.index s.ep.address),
      )
