-- ===== src/State/Tests.antt =====
-- The endpoint allocator on the small device: a run of each theorem, its hypotheses met.
use imxrt_usbd.Common.{ℕ, ◌≤◌, ◌<◌, ◌≡◌, refl, arith, [], ◌∷◌, none, some, done, length, set, inl}
use imxrt_usbd.Buffer.{Buffer}
use imxrt_usbd.Platform.{Platform, bulk}
use imxrt_usbd.Endpoint.{Endpoint}
use imxrt_usbd.State.{
  EndpointAllocator, new, allocator, slot, endpoint, allocate_endpoint, endpoints_iter_mut,
}
use imxrt_usbd.State.Slots.{IsValid, at_slot, endpoint_lem}
use imxrt_usbd.State.Allocate.{allocate_endpoint_refused, allocate_endpoint_granted}
use imxrt_usbd.State.Iterate.{endpoints_iter_mut_lem, allocator-new}
use imxrt_usbd.Manual.{platform, quiet}
use imxrt_usbd.Manual.Device.{ep_out1, ep_in1, allocator0, allocator0-IsValid}

abbrev at_rest : Platform
at_rest = platform quiet 0

abbrev buffer : Buffer
buffer = record { ptr = 0x2020_0000; len = 64 }

endpoint_lem_example : endpoint at_rest 129 allocator0 ≡ done (some ep_in1)
unfolding slot
endpoint_lem_example = endpoint_lem at_rest allocator0 (allocator0-IsValid quiet 0) 129

out : 6 ≤ slot at_rest 5
unfolding slot
out = omega arith

free : at_slot (slot at_rest 2) allocator0.ep_list ≡ none
unfolding slot
free = refl

within : slot at_rest 2 < 6
unfolding slot
within = omega arith

allocate_endpoint_refused_example :
    allocate_endpoint at_rest 5 buffer bulk allocator0 ≡ done (none, allocator0)
allocate_endpoint_refused_example =
    allocate_endpoint_refused at_rest allocator0 (allocator0-IsValid quiet 0) 5 buffer bulk
      (inl out)

allocate_endpoint_granted_example :
    (ep : Endpoint) × (a' : EndpointAllocator) × (allocate_endpoint at_rest 2 buffer bulk allocator0
      ≡ done (some ep, a'))
    × IsValid at_rest a'
    × (ep.address ≡ 2)
    × (ep.buffer ≡ buffer)
    × (ep.kind ≡ bulk)
    × (endpoint at_rest 2 a' ≡ done (some ep))
    × (a'.ep_list ≡ set allocator0.ep_list (slot at_rest 2) (some ep))
allocate_endpoint_granted_example =
    allocate_endpoint_granted at_rest allocator0 (allocator0-IsValid quiet 0) 2 buffer bulk within
      free

endpoints_iter_mut_lem_example :
    endpoints_iter_mut at_rest allocator0 ≡ done (ep_out1 ∷ ep_in1 ∷ [])
endpoints_iter_mut_lem_example =
    endpoints_iter_mut_lem at_rest allocator0 (allocator0-IsValid quiet 0)

allocator-new_example :
    (a : EndpointAllocator) × ((allocator (new 16 0x2000_1000 0x2000_2000)).0 ≡ some a)
    × IsValid at_rest a
    × (length a.qh_list ≡ 16)
    × ((i : ℕ) → at_slot i a.ep_list ≡ none)
allocator-new_example = allocator-new at_rest 16 0x2000_1000 0x2000_2000
