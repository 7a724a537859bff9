-- ===== src/State/Iterate.antt =====
-- The iterator over the allocated endpoints, and the state that they start from.
use Prim.Native.Nat.{min}
use imxrt_usbd.Common.{
  ℕ, zero, suc, ◌+◌, ◌*◌, ◌≤◌, ◌≡◌, refl, sym, ap, ◌∙◌, arith, List, [], ◌∷◌, map, Option, none,
  some, length, get_elem?, take, replicate, take-replicate, length-replicate, bit_or, ◌^◌, done,
}
use imxrt_usbd.Common.Bits.Single.{test_bit_right, bit-pow_ne, bit-set_self}
use mathlib.Core.Path.{ap₂}
use imxrt_usbd.Td
use imxrt_usbd.Td.{Td}
use imxrt_usbd.Qh
use imxrt_usbd.Qh.{Qh}
use imxrt_usbd.Platform.{Platform, EndpointAddress, dir_in, dir_out}
use imxrt_usbd.Endpoint.{Endpoint}
use imxrt_usbd.State.{
  EndpointAllocator, EndpointState, Slot, new, allocator, slot, addresses, endpoints_at,
  endpoints_iter_mut, addresses_from, max_endpoints,
}
use imxrt_usbd.State.Slots.{IsValid, at_slot, endpoint_lem, slot-from_parts}

-- The endpoints among some slots, in order.
abbrev pub initialised : List Slot → List Endpoint
initialised [] = []
initialised (none ∷ eps) = initialised eps
initialised (some ep ∷ eps) = ep ∷ initialised eps

-- The slots from `i` on, `n` of them.
abbrev pub slots_from : ℕ → ℕ → List ℕ
slots_from i zero = []
slots_from i (suc n) = i ∷ slots_from (suc i) n

pairs_from : ℕ → ℕ → List ℕ
pairs_from n zero = []
pairs_from n (suc left) = (n * 2 + 0) ∷ (n * 2 + 1) ∷ pairs_from (n + 1) left

pub at_slot-none : (i n : ℕ) → at_slot i (replicate n none) ≡ none
at_slot-none i zero = refl
at_slot-none zero (suc n) = refl
at_slot-none (suc i) (suc n) = at_slot-none i n

initialised-cons :
    (o : Option Endpoint) (eps : List Slot)
    → (elim o [ none ↦ initialised eps | some ep ↦ ep ∷ initialised eps ]) ≡ initialised (o ∷ eps)
initialised-cons none eps = refl
initialised-cons (some ep) eps = refl

slots-suc :
    (x : Slot) (eps : List Slot) (k n : ℕ)
    → map (λ i. at_slot i (x ∷ eps)) (slots_from (suc k) n)
      ≡ map (λ i. at_slot i eps) (slots_from k n)
slots-suc x eps k zero = refl
slots-suc x eps k (suc n) = ap (λ rest. at_slot k eps ∷ rest) (slots-suc x eps (suc k) n)

slots_nil : (k n : ℕ) → initialised (map (λ i. at_slot i []) (slots_from k n)) ≡ []
slots_nil k zero = refl
slots_nil k (suc n) = slots_nil (suc k) n

-- Reading every slot in order gives the slots.
initialised_slots :
    (eps : List Slot) (n : ℕ)
    → length eps ≤ n
    → initialised (map (λ i. at_slot i eps) (slots_from 0 n)) ≡ initialised eps
initialised_slots [] n h = slots_nil 0 n
initialised_slots (x ∷ eps) zero h = absurd (omega arith)
initialised_slots (none ∷ eps) (suc n) h =
    ap initialised (slots-suc none eps 0 n) ∙ initialised_slots eps n (omega arith)
initialised_slots (some ep ∷ eps) (suc n) h =
    ap (λ rest. ep ∷ initialised rest) (slots-suc (some ep) eps 0 n)
    ∙ ap (λ rest. ep ∷ rest) (initialised_slots eps n (omega arith))

module _ (p : Platform) where
  slot-addresses_from :
      (n left : ℕ) → n + left ≤ 128 → map (slot p) (addresses_from p n left) ≡ pairs_from n left
  unfolding addresses_from pairs_from
  slot-addresses_from n zero h = refl
  slot-addresses_from n (suc left) h = ap₂ ◌∷◌ (slot-from_parts p n dir_out (omega arith)) (
      ap₂ ◌∷◌ (slot-from_parts p n dir_in (omega arith))
        (slot-addresses_from (n + 1) left (omega arith)))

  -- The iterator asks for each of the 16 slots, once and in order.
  pub slot-addresses : map (slot p) (addresses p) ≡ slots_from 0 16
  unfolding addresses pairs_from
  slot-addresses = slot-addresses_from 0 8 (omega arith)

  module _ (a : EndpointAllocator) (v : IsValid p a) where
    endpoints_at_lem :
        (addrs : List EndpointAddress)
        → endpoints_at p addrs a
          ≡ done (initialised (map (λ i. at_slot i a.ep_list) (map (slot p) addrs)))
    unfolding endpoints_at
    endpoints_at_lem [] = refl
    endpoints_at_lem (addr ∷ addrs) =
        rw (endpoint_lem p a v addr, endpoints_at_lem addrs)
          (ap done (initialised-cons (at_slot (slot p addr) a.ep_list) _))

    -- In a valid allocator, the iterator gives every initialised endpoint once, in the order of
    -- the slots, and never touches an uninitialised one.
    pub endpoints_iter_mut_lem : endpoints_iter_mut p a ≡ done (initialised a.ep_list)
    unfolding endpoints_iter_mut
    endpoints_iter_mut_lem =
        endpoints_at_lem (addresses p)
        ∙ ap (λ slots. done (initialised (map (λ i. at_slot i a.ep_list) slots))) (slot-addresses)
        ∙ ap done (initialised_slots a.ep_list 16 (omega (arith, v.small, v.same_ep)))

-- The state gives its allocator once.
pub allocator_again : (st : EndpointState) → (allocator (allocator st).1).0 ≡ none
unfolding allocator
allocator_again st =
    ground (arith, test_bit_right 31 (bit_or st.alloc_mask (2 ^ 31)), bit-set_self st.alloc_mask 31)

-- The allocator of a new state with `n` slots.
abbrev pub new_allocator : ℕ → ℕ → ℕ → EndpointAllocator
new_allocator n qh_base td_base = record {
  qh_list = replicate n Qh.new;
  td_list = replicate n Td.new;
  ep_list = replicate n none;
  alloc_mask = 2 ^ 31;
  qh_base = qh_base;
  td_base = td_base;
}

-- Which allocator a new state has.
pub allocator-new_eq :
    (count qh_base td_base : ℕ)
    → (allocator (new count qh_base td_base)).0
      ≡ some (new_allocator (min count 16) qh_base td_base)
unfolding allocator new
allocator-new_eq count qh_base td_base =
    rw
      (
        length-replicate count Qh.new,
        length-replicate count Td.new,
        length-replicate {A = Slot} count none,
        cut {A = Qh} Qh.new,
        cut {A = Td} Td.new,
        cut {A = Slot} none,
      )
      refl
  where
    n : ℕ
    n = min count 16

    cut : {A : Type 0} (x : A) → take (min count max_endpoints) (replicate count x) ≡ replicate n x
    cut x = take-replicate n count x (omega arith)

-- The allocator of a new state is valid, has up to 16 slots, and no endpoint in any.
pub allocator-new :
    (p : Platform) (count qh_base td_base : ℕ)
    → (a : EndpointAllocator) × ((allocator (new count qh_base td_base)).0 ≡ some a)
      × IsValid p a
      × (length a.qh_list ≡ min count 16)
      × ((i : ℕ) → at_slot i a.ep_list ≡ none)
unfolding allocator new
allocator-new p count qh_base td_base = (
  new_allocator n qh_base td_base,
  allocator-new_eq count qh_base td_base,
  record {
    same_td = length-replicate n Td.new ∙ sym (length-replicate n Qh.new);
    same_ep = length-replicate {A = Slot} n none ∙ sym (length-replicate n Qh.new);
    small = omega (arith, length-replicate {0} n Qh.new);
    set_init = λ i lt e.
        absurd (omega (arith, bit-pow_ne 31 i (omega (arith, length-replicate {0} n Qh.new))));
    init_set = λ i ep e. absurd (empty i ep e);
    in_slot = λ i ep e. absurd (empty i ep e);
  },
  length-replicate n Qh.new ∙ omega arith,
  λ i. at_slot-none i n,
)
  where
    n : ℕ
    n = min count 16

    empty : (i : ℕ) (ep : Endpoint) → get_elem? (replicate n none) i ≡ some (some ep) → ⊥
    empty i ep e = ground (arith, at_slot-none i n)
