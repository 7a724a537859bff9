-- ===== src/Bus/Tests.antt =====
-- The bus on the small device: a run of each theorem, its hypotheses met.
use imxrt_usbd.Common.{◌<◌, ◌≡◌, refl, arith, false, none, some, done}
use imxrt_usbd.Platform.{Platform, dir_out, bulk, ok}
use imxrt_usbd.State.{slot}
use imxrt_usbd.Driver.{Driver}
use imxrt_usbd.Driver.Lookup.{found}
use imxrt_usbd.Bus.{BusAdapter, CortexM, unused, alloc}
use imxrt_usbd.Bus.Alloc.{alloc_search_first, IsAllocated}
use imxrt_usbd.Manual.{platform, quiet}
use imxrt_usbd.Manual.Device.{driver0, ep_out1, allocator0-IsValid}

abbrev at_rest : Platform
at_rest = platform quiet 0

-- `interrupt::free` as what it gives.
abbrev cortex : CortexM
cortex = record { free = λ m. m; free_eq = λ m b. refl }

abbrev bus0 : BusAdapter
bus0 = record { usb = driver0; borrow = unused; cs = false }

found_out1 : found at_rest 1 driver0 ≡ some ep_out1
unfolding slot
found_out1 = refl

missing : found at_rest 2 driver0 ≡ none
unfolding slot
missing = refl

small_slot : slot at_rest 2 < 6
unfolding slot
small_slot = omega arith

alloc_search_first_example :
    (d' : Driver) × (alloc at_rest dir_out none bulk 64 driver0 ≡ done (ok 2, d'))
    × IsAllocated at_rest driver0 (allocator0-IsValid quiet 0) 2 bulk 64 d'
alloc_search_first_example =
    alloc_search_first at_rest driver0 (allocator0-IsValid quiet 0) 1 dir_out bulk 64 (omega arith)
      (omega arith) ((ep_out1, found_out1), tt) missing (omega arith) small_slot
