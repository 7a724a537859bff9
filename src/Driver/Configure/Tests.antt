-- ===== src/Driver/Configure/Tests.antt =====
-- The small device is configured, its control registers holding what is written to them.
use imxrt_usbd.Common.{ℕ, zero, suc, ◌^◌, ◌<◌, ◌≡◌, refl, arith, some, done}
use imxrt_usbd.Td.Pages.{page}
use imxrt_usbd.State.{slot}
use imxrt_usbd.State.Slots.{IsValid, at_slot}
use imxrt_usbd.Endpoint.{Endpoint}
use imxrt_usbd.Driver.{Driver}
use imxrt_usbd.Driver.Lookup.{found}
use imxrt_usbd.Driver.Endpoints.{on_configured}
use imxrt_usbd.Driver.Configure.{on_configured-IsEnabled}
use imxrt_usbd.Driver.Configure.Prime.{IsEnabled, IsWaiting}
use imxrt_usbd.Driver.Reset.Tests.{resetting, device, keeps, primes}
use imxrt_usbd.Manual.Device.{driver0, allocator0, ep_out1, allocator0-IsValid}

low : (i : ℕ) (e : Endpoint) → at_slot i allocator0.ep_list ≡ some e → page e.buffer.ptr 4 < 2 ^ 32
low zero e at = absurd (cc)
low (suc zero) e at = absurd (cc)
low (suc (suc zero)) e at = ground (arith, at)
low (suc (suc (suc zero))) e at = ground (arith, at)
low (suc (suc (suc (suc zero)))) e at = absurd (cc)
low (suc (suc (suc (suc (suc zero))))) e at = absurd (cc)
low (suc (suc (suc (suc (suc (suc i)))))) e at = absurd (cc)

found_out : found device 1 driver0 ≡ some ep_out1
unfolding slot
found_out = refl

on_configured-IsEnabled_example :
    (d' : Driver) × (ep' : Endpoint) × (on_configured device 1 driver0 ≡ done (tt, d'))
    × IsValid device d'.ep_allocator
    × (found device 1 d' ≡ some ep')
    × (ep'.address ≡ 1)
    × (ep'.buffer ≡ ep_out1.buffer)
    × (ep'.kind ≡ ep_out1.kind)
    × IsEnabled device ep' d'.world.log
    × IsWaiting device ep'
on_configured-IsEnabled_example =
    on_configured-IsEnabled device keeps driver0 (allocator0-IsValid resetting 0) 1 1 ep_out1 primes
      (λ log. omega arith) low found_out (λ e. omega (arith, e))
