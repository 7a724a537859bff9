-- ===== src/Gpt/Changes.antt =====
-- The calls that change a timer.
use mathlib.Core.Path.{◌∙◌}
use imxrt_usbd.Common.{
  ℕ, ◌<◌, ◌≡◌, ◌≢◌, refl, sym, arith, Bool, true, false, ◌∷◌, if◌then◌else◌, M, done,
}
use imxrt_usbd.Machine.{Reg, World, rd, wr, usbintr}
use imxrt_usbd.Platform.{Platform, UsbField, home, width, get, put, gptrun, gptrst, gptmode}
use imxrt_usbd.Platform.Laws.{get-put_self, get-put_other}
use imxrt_usbd.Gpt.{
  Mode, one_shot, repeat, Instance, ctrl, tie, mode_raw, run, stop, reset, set_mode,
  set_interrupt_enabled,
}
use imxrt_usbd.Gpt.Laws.{width-tie}

module _ (p : Platform) (gpt : Instance) where
  -- A call that changes a timer: `run`, `stop`, `reset`, `set_mode` or `set_interrupt_enabled`.
  pub data Change : Type 0 where
    running stopped restarted : Change
    in_mode : Mode → Change
    interrupting : Bool → Change

  abbrev pub perform : Change → M World (Unit {0})
  perform running = run p gpt
  perform stopped = stop p gpt
  perform restarted = reset p gpt
  perform (in_mode m) = set_mode p gpt m
  perform (interrupting enable) = set_interrupt_enabled p gpt enable

  -- The register that a call changes, the field, and what the field becomes.
  abbrev pub target : Change → Reg
  target (interrupting enable) = usbintr
  target _ = ctrl gpt

  abbrev pub field : Change → UsbField
  field running = gptrun
  field stopped = gptrun
  field restarted = gptrst
  field (in_mode m) = gptmode
  field (interrupting enable) = tie gpt

  abbrev pub becomes : Change → ℕ
  becomes running = 1
  becomes stopped = 0
  becomes restarted = 1
  becomes (in_mode m) = mode_raw m
  becomes (interrupting enable) = if enable then 1 else 0

  field-width : (c : Change) → width (field c) ≡ 1
  field-width running = refl
  field-width stopped = refl
  field-width restarted = refl
  field-width (in_mode m) = refl
  field-width (interrupting enable) = width-tie gpt

  becomes-lt : (c : Change) → becomes c < 2
  becomes-lt running = omega arith
  becomes-lt stopped = omega arith
  becomes-lt restarted = omega arith
  becomes-lt (in_mode one_shot) = omega arith
  becomes-lt (in_mode repeat) = omega arith
  becomes-lt (interrupting true) = omega arith
  becomes-lt (interrupting false) = omega arith

  perform_lem :
      (c : Change) (w : World)
      → let v = p.answer w.log (target c) in
        perform c w
        ≡ done (
          tt,
          record w {
            log = wr (target c) (put p (field c) (becomes c) v) ∷ rd (target c) v ∷ w.log;
          },
        )
  unfolding run stop reset set_mode set_interrupt_enabled
  perform_lem running w = refl
  perform_lem stopped w = refl
  perform_lem restarted w = refl
  perform_lem (in_mode m) w = refl
  perform_lem (interrupting enable) w = refl

  -- `run`, `stop`, `reset` and `set_mode` read and write the control register of this timer once,
  -- `set_interrupt_enabled` the interrupt register, and access nothing else. What is written (`x`) has
  -- the run bit set, cleared, the reset bit set, the mode or the interrupt's bit as asked, and any
  -- other field `f` of that register as it was read.
  pub perform-sets :
      (c : Change) (f : UsbField) (w : World)
      → home f ≡ home (field c)
      → f ≢ field c
      → (x : ℕ) × (perform c w
          ≡ done (
            tt,
            record w { log = wr (target c) x ∷ rd (target c) (p.answer w.log (target c)) ∷ w.log },
          ))
        × (get p (field c) x ≡ becomes c)
        × (get p f x ≡ get p f (p.answer w.log (target c)))
  perform-sets c f w at ne =
      let v = p.answer w.log (target c) in
      (
        put p (field c) (becomes c) v,
        perform_lem c w,
        get-put_self p (field c) (becomes c) v ∙ ground (arith, becomes-lt c, field-width c),
        get-put_other p (field c) f (becomes c) v (sym at) (λ e. ne (sym e)),
      )
