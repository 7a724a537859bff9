-- ===== src/Manual/Device.antt =====
-- A small device on the platform: a bulk OUT and a bulk IN endpoint 1, with 64 bytes each, whose last
-- transfers are over, and room for endpoint 2.
use imxrt_usbd.Common.{
  ℕ, zero, suc, ◌+◌, ◌-◌, ◌*◌, ◌%◌, ◌^◌, ◌<◌, ◌≡◌, refl, arith, List, [], ◌∷◌, none, some,
  replicate, get_elem?,
}
use imxrt_usbd.Common.Bits.{bit}
use imxrt_usbd.Machine.{Reg, Access, World}
use imxrt_usbd.Td.{Td}
use imxrt_usbd.Qh.{Qh}
use imxrt_usbd.Platform.{bulk}
use imxrt_usbd.Endpoint.{Endpoint}
use imxrt_usbd.State.{EndpointAllocator, slot}
use imxrt_usbd.State.Slots.{IsValid}
use imxrt_usbd.Driver.{Driver}
use imxrt_usbd.Manual.{platform}

abbrev pub world0 : World
world0 = record { log = []; mem = λ at. at % 256 }

abbrev pub td0 : Td
td0 = record {
  next = 1;
  token = 0;
  buffer_pointers = 0 ∷ 0 ∷ 0 ∷ 0 ∷ 0 ∷ [];
  last_transfer_size = 4;
}

abbrev pub qh0 : Qh
qh0 = record { capabilities = 64 * 2 ^ 16; overlay = td0 }

abbrev pub ep_out1 : Endpoint
ep_out1 = record {
  address = 1;
  qh = qh0;
  qh_at = 0x2000_1080;
  td = td0;
  td_at = 0x2000_2040;
  buffer = record { ptr = 0x2020_0040; len = 64 };
  kind = bulk;
}

abbrev pub ep_in1 : Endpoint
ep_in1 = record ep_out1 {
  address = 129;
  qh_at = 0x2000_10C0;
  td_at = 0x2000_2060;
  buffer = record { ptr = 0x2020_0000; len = 64 };
}

abbrev pub allocator0 : EndpointAllocator
allocator0 = record {
  qh_list = replicate 6 qh0;
  td_list = replicate 6 td0;
  ep_list = none ∷ none ∷ some ep_out1 ∷ some ep_in1 ∷ none ∷ none ∷ [];
  alloc_mask = 2 ^ 31 + 12;
  qh_base = 0x2000_1000;
  td_base = 0x2000_2000;
}

abbrev pub driver0 : Driver
driver0 = record {
  buffer_allocator = record { start = 0x2020_0000 - 128; ptr = 0x2020_0000 };
  ep_allocator = allocator0;
  ep_out = 2;
  world = world0;
}

slots_set :
    (i : ℕ)
    → i < 6
    → bit (2 ^ 31 + 12) i ≡ 1
    → (ep : Endpoint) × (get_elem? allocator0.ep_list i ≡ some (some ep))
slots_set zero h e = absurd (omega (arith, e))
slots_set (suc zero) h e = absurd (omega (arith, e))
slots_set (suc (suc zero)) h e = (ep_out1, refl)
slots_set (suc (suc (suc zero))) h e = (ep_in1, refl)
slots_set (suc (suc (suc (suc zero)))) h e = absurd (omega (arith, e))
slots_set (suc (suc (suc (suc (suc zero))))) h e = absurd (omega (arith, e))
slots_set (suc (suc (suc (suc (suc (suc i)))))) h e = absurd (omega arith)

set_slots :
    (i : ℕ) (ep : Endpoint)
    → get_elem? allocator0.ep_list i ≡ some (some ep)
    → bit (2 ^ 31 + 12) i ≡ 1
set_slots zero ep e = absurd (ground arith)
set_slots (suc zero) ep e = absurd (ground arith)
set_slots (suc (suc zero)) ep e = refl
set_slots (suc (suc (suc zero))) ep e = refl
set_slots (suc (suc (suc (suc zero)))) ep e = absurd (ground arith)
set_slots (suc (suc (suc (suc (suc zero))))) ep e = absurd (ground arith)
set_slots (suc (suc (suc (suc (suc (suc i)))))) ep e = absurd (ground arith)

module _ (answer : List Access → Reg → ℕ) (setup : ℕ) where
  slots_in :
      (i : ℕ) (ep : Endpoint)
      → get_elem? allocator0.ep_list i ≡ some (some ep)
      → slot (platform answer setup) ep.address ≡ i
  unfolding slot
  slots_in zero ep e = absurd (ground arith)
  slots_in (suc zero) ep e = absurd (ground arith)
  slots_in (suc (suc zero)) ep e = ground arith
  slots_in (suc (suc (suc zero))) ep e = ground arith
  slots_in (suc (suc (suc (suc zero)))) ep e = absurd (ground arith)
  slots_in (suc (suc (suc (suc (suc zero))))) ep e = absurd (ground arith)
  slots_in (suc (suc (suc (suc (suc (suc i)))))) ep e = absurd (ground arith)

  pub allocator0-IsValid : IsValid (platform answer setup) allocator0
  allocator0-IsValid = record {
    same_td = refl;
    same_ep = refl;
    small = omega arith;
    set_init = slots_set;
    init_set = set_slots;
    in_slot = slots_in;
  }
