-- ===== src/Gpt/Tests.antt =====
-- Timers: a run of each theorem, its hypotheses met.
use imxrt_usbd.Common.{ℕ, ◌+◌, ◌^◌, ◌≡◌, refl, arith, true, [], ◌∷◌, done, ◌>>◌}
use imxrt_usbd.Machine.{World, rd, wr, usbsts, usbintr}
use imxrt_usbd.Platform.{Platform, get, ti0, ti1, tie0, tie1}
use imxrt_usbd.Gpt.{repeat, gpt0, gpt1, set_mode, mode, clear_elapsed, set_interrupt_enabled}
use imxrt_usbd.Gpt.Changes.{interrupting, perform-sets}
use imxrt_usbd.Gpt.Laws.{mode-set_mode, clear_elapsed_lem}
use imxrt_usbd.Manual.{platform, memory, showing}

abbrev p : Platform
p = platform memory 0

abbrev world0 : World
world0 = record { log = []; mem = λ at. 0 }

mode-set_mode_example :
    (w' : World) × ((set_mode p gpt0 repeat >> mode p gpt0) world0 ≡ done (repeat, w'))
    × (w'.mem ≡ world0.mem)
mode-set_mode_example = mode-set_mode p gpt0 repeat world0 refl

-- Interrupts of the other timer and for the bus are enabled.
abbrev enabled : Platform
enabled = platform (showing usbintr (2 ^ 24 + 1)) 0

perform-sets_example :
    (x : ℕ) × (set_interrupt_enabled enabled gpt1 true world0
      ≡ done (tt, record world0 { log = wr usbintr x ∷ rd usbintr (2 ^ 24 + 1) ∷ [] }))
    × (get enabled tie1 x ≡ 1)
    × (get enabled tie0 x ≡ 1)
perform-sets_example =
    perform-sets enabled gpt1 (interrupting true) tie0 world0 refl (λ e. ground (arith, e))

clear_elapsed_lem_example :
    (x : ℕ) × (clear_elapsed p gpt1 world0 ≡ done (tt, record world0 { log = wr usbsts x ∷ [] }))
    × (get p ti1 x ≡ 1)
    × (get p ti0 x ≡ 0)
clear_elapsed_lem_example = clear_elapsed_lem p gpt1 ti0 world0 refl (λ e. ground (arith, e))
