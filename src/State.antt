-- ===== src/State.antt =====
-- src/state.rs: the endpoint state that the user allocates, and the allocator of endpoints over it.
pub mod Slots
pub mod Allocate
pub mod Iterate
pub mod Tests
use Prim.Native.Nat.{min}
use imxrt_usbd.Common.{
  ℕ, zero, suc, ◌+◌, ◌*◌, ◌%◌, ◌^◌, bit_and, bit_or, Bool, true, false, not, List, [], ◌∷◌, Option,
  none, some, if◌then◌else◌, ltb, ◌==◌, length, get_elem?, set, take, replicate, Outcome, done,
  panic, fault, and_then,
}
use imxrt_usbd.Buffer.{Buffer}
use imxrt_usbd.Td
use imxrt_usbd.Td.{Td}
use imxrt_usbd.Qh
use imxrt_usbd.Qh.{Qh}
use imxrt_usbd.Platform.{Platform, EndpointAddress, EndpointType, UsbDirection, dir_in, dir_out}
use imxrt_usbd.Endpoint
use imxrt_usbd.Endpoint.{Endpoint, is_out}

abbrev pub max_endpoints : ℕ
max_endpoints = 8 * 2

-- A slot of `EpList`: `none` is uninitialised memory.
abbrev pub Slot : Type 0
Slot = Option Endpoint

-- `qh_base` and `td_base` are where the two lists stand.
pub record EndpointState : Type 0 where
  pub qh_list : List Qh
  pub td_list : List Td
  pub ep_list : List Slot
  pub alloc_mask : ℕ
  pub qh_base : ℕ
  pub td_base : ℕ

unfoldable pub new : ℕ → ℕ → ℕ → EndpointState
new count qh_base td_base = record {
  qh_list = replicate count Qh.new;
  td_list = replicate count Td.new;
  ep_list = replicate count none;
  alloc_mask = 0;
  qh_base = qh_base;
  td_base = td_base;
}

-- The allocator borrows the lists and the mask. It is taken once, and whoever asks again only sets
-- a bit of the mask that is set already, so it has them for itself.
pub record EndpointAllocator : Type 0 where
  pub qh_list : List Qh
  pub td_list : List Td
  pub ep_list : List Slot
  pub alloc_mask : ℕ
  pub qh_base : ℕ
  pub td_base : ℕ

abbrev pub allocator_taken : ℕ
allocator_taken = 2 ^ 31

-- `alloc_mask.fetch_or(ALLOCATOR_TAKEN)` gives the old mask; the allocator sees the new one.
unfoldable pub allocator : EndpointState → Option EndpointAllocator × EndpointState
allocator st =
    let mask = bit_or st.alloc_mask allocator_taken in
    (
      (if bit_and st.alloc_mask allocator_taken == 0
          then some (record {
            qh_list = take (min (length st.qh_list) max_endpoints) st.qh_list;
            td_list = take (min (length st.td_list) max_endpoints) st.td_list;
            ep_list = take (min (length st.ep_list) max_endpoints) st.ep_list;
            alloc_mask = mask;
            qh_base = st.qh_base;
            td_base = st.td_base;
          })
          else none),
      record st { alloc_mask = mask },
    )

-- `(mask & alloc_mask.fetch_or(mask) == 0).then_some(())`
unfoldable pub try_mask_update : ℕ → EndpointAllocator → Bool × EndpointAllocator
try_mask_update mask a =
    (bit_and mask a.alloc_mask == 0, record a { alloc_mask = bit_or a.alloc_mask mask })

-- The lists have at most 16 entries, so `1u16 << index` does not overflow.
unfoldable pub check_allocated : ℕ → EndpointAllocator → Bool
check_allocated i a =
    if ltb i (length a.qh_list) then not (bit_and (2 ^ i) (a.alloc_mask % 2 ^ 16) == 0) else false

unfoldable pub qh_list_addr : EndpointAllocator → ℕ
qh_list_addr a = a.qh_base

-- A reference to a slot that must be initialised.
assume_init : Option Slot → Outcome (Option Endpoint)
assume_init none = panic
assume_init (some none) = fault
assume_init (some (some ep)) = done (some ep)

module _ (p : Platform) where
  open p use {index, direction, from_parts}

  -- The slot of an address: OUT endpoints are even, IN endpoints odd.
  unfoldable pub slot : EndpointAddress → ℕ
  slot addr = index addr * 2 + (if is_out (direction addr) then 0 else 1)

  unfoldable pub endpoint : EndpointAddress → EndpointAllocator → Outcome (Option Endpoint)
  unfolding assume_init
  endpoint addr a =
      let i = slot addr in
      if check_allocated i a then assume_init (get_elem? a.ep_list i) else done none

  -- What is done through the reference that `endpoint_mut` gives: `ep` is the endpoint afterwards.
  unfoldable pub endpoint_set : EndpointAddress → Endpoint → EndpointAllocator → EndpointAllocator
  endpoint_set addr ep a = record a { ep_list = set a.ep_list (slot addr) (some ep) }

  -- The addresses that `endpoints_iter_mut` asks for, in order: endpoints `n` to 7.
  unfoldable pub addresses_from : ℕ → ℕ → List EndpointAddress
  addresses_from n zero = []
  addresses_from n (suc left) =
      from_parts n dir_out ∷ from_parts n dir_in ∷ addresses_from (n + 1) left

  unfoldable pub addresses : List EndpointAddress
  unfolding addresses_from
  addresses = addresses_from 0 8

  -- The endpoints that the iterator gives.
  pub endpoints_at : List EndpointAddress → EndpointAllocator → Outcome (List Endpoint)
  endpoints_at [] a = done []
  endpoints_at (addr ∷ addrs) a = and_then (endpoint addr a) λ found.
      and_then (endpoints_at addrs a)
        λ rest. done (elim found [ none ↦ rest | some ep ↦ ep ∷ rest ])

  unfoldable pub endpoints_iter_mut : EndpointAllocator → Outcome (List Endpoint)
  unfolding endpoints_at
  endpoints_iter_mut a = endpoints_at addresses a

  -- The write of a new endpoint to its slot.
  init_slot :
      EndpointAddress
      → Buffer
      → EndpointType
      → EndpointAllocator
      → Outcome (Option Endpoint × EndpointAllocator)
  init_slot addr buffer kind a =
      let i = slot addr in
      elim (get_elem? a.qh_list i) [
        | none ↦ panic
        | some qh ↦ elim (get_elem? a.td_list i) [
          | none ↦ panic
          | some td ↦
              let ep =
                Endpoint.new p addr qh (a.qh_base + 64 * i) td (a.td_base + 32 * i) buffer kind in
              done (some ep, record a { ep_list = set a.ep_list i (some ep) })
        ]
      ]

  unfoldable pub allocate_endpoint :
      EndpointAddress
      → Buffer
      → EndpointType
      → EndpointAllocator
      → Outcome (Option Endpoint × EndpointAllocator)
  unfolding init_slot
  allocate_endpoint addr buffer kind a =
      let i = slot addr in
      if ltb i (length a.qh_list)
      then (let updated = try_mask_update (2 ^ i) a in
          if updated.0 then init_slot addr buffer kind updated.1 else done (none, updated.1))
      else done (none, a)
