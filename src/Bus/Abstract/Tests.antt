-- ===== src/Bus/Abstract/Tests.antt =====
-- A new driver with sixteen slots, of which the search takes the first.
use imxrt_usbd.Common.{◌≡◌, refl, arith, none, done, ap}
use imxrt_usbd.Platform.{Platform, dir_in, bulk, ok}
use imxrt_usbd.State.{slot}
use imxrt_usbd.State.Iterate.{new_allocator, at_slot-none}
use imxrt_usbd.Driver.{Driver}
use imxrt_usbd.Bus.{alloc}
use imxrt_usbd.Bus.Abstract.{View, Shows, grant, kind_of, alloc-Refines}
use imxrt_usbd.Bus.Reaches.{new_allocator-IsValid}
use imxrt_usbd.Manual.{platform, quiet}
use imxrt_usbd.Manual.Device.{world0}

abbrev at_rest : Platform
at_rest = platform quiet 0

abbrev bare : Driver
bare = record {
  buffer_allocator = record { start = 0x2020_0000; ptr = 0x2020_0100 };
  ep_allocator = new_allocator 16 0x2000_1000 0x2000_2000;
  ep_out = 0;
  world = world0;
}

abbrev nothing_stands : View
nothing_stands = record { stands = λ addr. none; left = 256 }

shown : Shows at_rest nothing_stands bare
shown = record {
  valid = new_allocator-IsValid at_rest 16 0x2000_1000 0x2000_2000;
  memory_valid = omega arith;
  full = refl;
  same_left = refl;
  same_stands = λ a lt. ap kind_of (at_slot-none (slot at_rest a) 16);
}

alloc-refines_example :
    (d' : Driver) × (alloc at_rest dir_in none bulk 64 bare ≡ done (ok 129, d'))
    × Shows at_rest ((grant nothing_stands 129 bulk 64).1) d'
alloc-refines_example =
    alloc-Refines at_rest bare nothing_stands shown bulk 64 dir_in none (λ a e. absurd (cc e))
