-- ===== src/Driver/Reachable/Tests.antt =====
-- A driver from its start on, through a call.
use imxrt_usbd.Common.{false, ◌+◌, ◌^◌, ◌≡◌, refl, true, [], ◌∷◌, done, none}
use imxrt_usbd.Machine.{Reg, wr}
use imxrt_usbd.Buffer
use imxrt_usbd.Buffer.{EndpointMemory}
use imxrt_usbd.Td
use imxrt_usbd.Qh
use imxrt_usbd.Platform.{Platform, put, usbadr, usbadra}
use imxrt_usbd.State
use imxrt_usbd.State.{EndpointState, endpoint_set, slot}
use imxrt_usbd.State.Slots.{IsValid}
use imxrt_usbd.Driver.{Driver, new, set_address}
use imxrt_usbd.Driver.Calls.{Reachable, start, then_call, call_set_address, perform}
use imxrt_usbd.Driver.Reachable.{Reachable-IsValid}
use imxrt_usbd.Manual.{platform, quiet}
use imxrt_usbd.Manual.Device.{world0}

abbrev at_rest : Platform
at_rest = platform quiet 0

abbrev memory0 : EndpointMemory
memory0 = record { buffer = 0x2020_0000; size = 256; taken = false }

abbrev fresh : Driver
fresh = record {
  buffer_allocator = record { start = 0x2020_0000; ptr = 0x2020_0000 + 256 };
  ep_allocator = record {
    qh_list = Qh.new ∷ Qh.new ∷ [];
    td_list = Td.new ∷ Td.new ∷ [];
    ep_list = none ∷ none ∷ [];
    alloc_mask = 2 ^ 31;
    qh_base = 0x2000_1000;
    td_base = 0x2000_2000;
  };
  ep_out = 0;
  world = world0;
}

abbrev taken : EndpointState
taken = record {
  qh_list = Qh.new ∷ Qh.new ∷ [];
  td_list = Td.new ∷ Td.new ∷ [];
  ep_list = none ∷ none ∷ [];
  alloc_mask = 2 ^ 31;
  qh_base = 0x2000_1000;
  td_base = 0x2000_2000;
}

made :
    new memory0 (State.new 2 0x2000_1000 0x2000_2000) world0
    ≡ done (fresh, record memory0 { taken = true }, taken)
unfolding new State.new State.allocator Buffer.allocator
made = refl

abbrev addressed : Driver
addressed = record fresh {
  world = record world0 {
    log = wr Reg.deviceaddr (put at_rest usbadra 1 (put at_rest usbadr 5 0)) ∷ [];
  };
}

calls : Reachable at_rest fresh addressed
unfolding perform set_address
calls = then_call 1 (call_set_address 5) start refl

Reachable-IsValid_example : IsValid at_rest addressed.ep_allocator
Reachable-IsValid_example =
    Reachable-IsValid at_rest memory0 2 0x2000_1000 0x2000_2000 world0 fresh addressed
      (record memory0 { taken = true }) taken made calls
