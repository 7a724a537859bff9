-- ===== src/Driver/Agreement/Tests.antt =====
-- A poll that reports an IN completion only, and a read of the OUT endpoint after it.
use imxrt_usbd.Common.{ℕ, ◌^◌, ◌≡◌, refl, arith, List, [], ◌∷◌, some, done}
use imxrt_usbd.Machine.{Reg, Access}
use imxrt_usbd.Platform.{Platform}
use imxrt_usbd.State.{slot}
use imxrt_usbd.Driver.{Driver, traffic, poll, poll_traffic}
use imxrt_usbd.Driver.Lookup.{found}
use imxrt_usbd.Driver.Agreement.{IsRefused, poll-ep_read-IsRefused}
use imxrt_usbd.Endpoint.Keeps.{value}
use imxrt_usbd.Manual.{platform}
use imxrt_usbd.Manual.Device.{driver0, ep_out1, allocator0-IsValid}

abbrev sent : List Access → Reg → ℕ
sent log Reg.usbsts = 1
sent log Reg.endptcomplete = 2 ^ 17
sent log _ = 0

abbrev device : Platform
device = platform sent 0

polled : Driver
unfolding poll poll_traffic
polled = (value (traffic 0 0 0, driver0) (poll device driver0)).1

reported : poll device driver0 ≡ done (traffic 0 2 0, polled)
unfolding polled
reported = refl

found_out : found device 1 driver0 ≡ some ep_out1
unfolding slot
found_out = refl

poll-ep_read-IsRefused_example :
    IsRefused device driver0 1 (7 ∷ []) 1 ep_out1 (allocator0-IsValid sent 0) found_out polled
poll-ep_read-IsRefused_example =
    poll-ep_read-IsRefused device driver0 1 (7 ∷ []) 1 ep_out1 (allocator0-IsValid sent 0) found_out
      0 2 0 polled reported (omega arith) refl
