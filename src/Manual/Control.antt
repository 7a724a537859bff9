-- ===== src/Manual/Control.antt =====
-- The small device with both directions of endpoint 0 as well.
use imxrt_usbd.Common.{ℕ, ◌^◌, ◌<◌, ◌≡◌, refl, arith, List, bit_or, some, length, set}
use imxrt_usbd.Common.Bits.Single.{bit-set_self, bit-set_ne}
use imxrt_usbd.Machine.{Reg, Access}
use imxrt_usbd.Platform.{Platform, control}
use imxrt_usbd.Endpoint.{Endpoint}
use imxrt_usbd.State.{EndpointAllocator, slot}
use imxrt_usbd.State.Slots.{IsValid}
use imxrt_usbd.State.Allocate.{set-IsValid}
use imxrt_usbd.Driver.{Driver}
use imxrt_usbd.Manual.{platform}
use imxrt_usbd.Manual.Device.{ep_out1, allocator0, allocator0-IsValid, driver0}

abbrev pub ep_out0 : Endpoint
ep_out0 = record ep_out1 {
  address = 0;
  qh_at = 0x2000_1000;
  td_at = 0x2000_2000;
  buffer = record { ptr = 0x2020_0080; len = 64 };
  kind = control;
}

abbrev pub ep_in0 : Endpoint
ep_in0 = record ep_out0 {
  address = 128;
  qh_at = 0x2000_1040;
  td_at = 0x2000_2020;
  buffer = record { ptr = 0x2020_00C0; len = 64 };
}

-- An allocator with an endpoint more.
abbrev with_slot : EndpointAllocator → ℕ → Endpoint → EndpointAllocator
with_slot a i ep = record a {
  alloc_mask = bit_or a.alloc_mask (2 ^ i);
  ep_list = set a.ep_list i (some ep);
}

abbrev pub allocator1 : EndpointAllocator
allocator1 = with_slot (with_slot allocator0 0 ep_out0) 1 ep_in0

abbrev pub driver1 : Driver
driver1 = record driver0 { ep_allocator = allocator1 }

module _ (answer : List Access → Reg → ℕ) (setup : ℕ) where
  abbrev p : Platform
  p = platform answer setup

  with_slot-IsValid :
      (a : EndpointAllocator) (i : ℕ) (ep : Endpoint)
      → IsValid p a
      → slot p ep.address ≡ i
      → i < length a.qh_list
      → IsValid p (with_slot a i ep)
  with_slot-IsValid a i ep v stands in_range =
      set-IsValid p a v ep (bit_or a.alloc_mask (2 ^ i)) i stands in_range
        (bit-set_self a.alloc_mask i) (bit-set_ne a.alloc_mask i)

  pub allocator1-IsValid : IsValid p allocator1
  unfolding slot
  allocator1-IsValid =
      with_slot-IsValid (with_slot allocator0 0 ep_out0) 1 ep_in0
        (with_slot-IsValid allocator0 0 ep_out0 (allocator0-IsValid answer setup) refl
          (omega arith))
        refl (omega arith)
