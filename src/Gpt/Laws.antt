-- ===== src/Gpt/Laws.antt =====
-- What the questions to a timer give, and what the flag of a timer is cleared with.
use mathlib.Core.Path.{◌∙◌}
use Prim.Native.Nat.{min, max}
use imxrt_usbd.Common.{
  ℕ, ◌-◌, ◌^◌, ◌<◌, ◌↔◌, ◌≡◌, ◌≢◌, refl, sym, arith, Bool, true, false, ◌∷◌, if◌then◌else◌, ◌==◌,
  done, ◌>>◌, Bool-cases, ==_iff, inl, inr,
}
use imxrt_usbd.Machine.{Reg, World, rd, wr, usbsts, usbintr}
use imxrt_usbd.Platform.{Platform, UsbField, RegKind, home, width, get, put, gptrun, gptmode}
use imxrt_usbd.Platform.Laws.{get-put_self, get-lt, get-put_flag, get-put_zero, ReadsBack}
use imxrt_usbd.Gpt.{
  Mode, one_shot, repeat, Instance, gpt0, gpt1, ctrl, ld, ti, tie, mode_raw, run, is_running, stop,
  set_mode, mode, set_load, load, is_elapsed, clear_elapsed, set_interrupt_enabled,
  is_interrupt_enabled,
}

home-ti : (gpt : Instance) → home (ti gpt) ≡ RegKind.usbsts
home-ti gpt0 = refl
home-ti gpt1 = refl

home-tie : (gpt : Instance) → home (tie gpt) ≡ RegKind.usbintr
home-tie gpt0 = refl
home-tie gpt1 = refl

width-ti : (gpt : Instance) → width (ti gpt) ≡ 1
width-ti gpt0 = refl
width-ti gpt1 = refl

pub width-tie : (gpt : Instance) → width (tie gpt) ≡ 1
width-tie gpt0 = refl
width-tie gpt1 = refl

module _ (p : Platform) (gpt : Instance) where
  -- `mode` never comes to its `unreachable!()`: it returns the mode that the field encodes, by one
  -- read of the control register.
  pub mode_total :
      (w : World)
      → (m : Mode) × (mode p gpt w
          ≡ done (m, record w { log = rd (ctrl gpt) (p.answer w.log (ctrl gpt)) ∷ w.log }))
        × (get p gptmode (p.answer w.log (ctrl gpt)) ≡ mode_raw m)
  unfolding mode
  mode_total w = elim (Bool-cases (get p gptmode (p.answer w.log (ctrl gpt)) == 1)) [
    | inl e ↦ (repeat, ground arith, (==_iff (get p gptmode (p.answer w.log (ctrl gpt))) 1).0 e)
    | inr e ↦ (
      one_shot,
      ground (arith, get-lt p gptmode (p.answer w.log (ctrl gpt))),
      ground (arith, get-lt p gptmode (p.answer w.log (ctrl gpt))),
    )
  ]

  -- A field of a register is set, by a read and a write, and then the register is read.
  abbrev set_and_read : Reg → UsbField → ℕ → World → World
  set_and_read reg f x w =
      let log = wr reg (put p f x (p.answer w.log reg)) ∷ rd reg (p.answer w.log reg) ∷ w.log in
      record w { log = rd reg (p.answer log reg) ∷ log }

  -- If the mode field of the control register reads as written right after `set_mode` has set it, `mode`
  -- gives the mode that was set. Memory is unchanged.
  pub mode-set_mode :
      (m : Mode) (w : World)
      → ReadsBack p (ctrl gpt) gptmode (mode_raw m) w.log
      → (w' : World) × ((set_mode p gpt m >> mode p gpt) w ≡ done (m, w')) × (w'.mem ≡ w.mem)
  unfolding set_mode mode
  mode-set_mode one_shot w back = (
    set_and_read (ctrl gpt) gptmode 0 w,
    ground (arith, back, get-put_self p gptmode 0 (p.answer w.log (ctrl gpt))),
    refl,
  )
  mode-set_mode repeat w back = (
    set_and_read (ctrl gpt) gptmode 1 w,
    ground (arith, back, get-put_self p gptmode 1 (p.answer w.log (ctrl gpt))),
    refl,
  )

  -- If the run bit reads as written, the timer `is_running` after `run`.
  is_running-run :
      (w : World)
      → ReadsBack p (ctrl gpt) gptrun 1 w.log
      → (w' : World) × ((run p gpt >> is_running p gpt) w ≡ done (true, w'))
  unfolding run is_running
  is_running-run w back = (
    set_and_read (ctrl gpt) gptrun 1 w,
    ground (arith, back, get-put_self p gptrun 1 (p.answer w.log (ctrl gpt))),
  )

  -- If the run bit reads as written, the timer is not running after `stop`.
  is_running-stop :
      (w : World)
      → ReadsBack p (ctrl gpt) gptrun 0 w.log
      → (w' : World) × ((stop p gpt >> is_running p gpt) w ≡ done (false, w'))
  unfolding stop is_running
  is_running-stop w back = (
    set_and_read (ctrl gpt) gptrun 0 w,
    ground (arith, back, get-put_self p gptrun 0 (p.answer w.log (ctrl gpt))),
  )

  -- If the interrupt's bit reads as written, `is_interrupt_enabled` gives what was set.
  is_interrupt_enabled-set_interrupt_enabled :
      (enable : Bool) (w : World)
      → ReadsBack p usbintr (tie gpt) (if enable then 1 else 0) w.log
      → (w' : World) × ((set_interrupt_enabled p gpt enable >> is_interrupt_enabled p gpt) w
          ≡ done (enable, w'))
  unfolding set_interrupt_enabled is_interrupt_enabled
  is_interrupt_enabled-set_interrupt_enabled true w back = (
    set_and_read usbintr (tie gpt) 1 w,
    ground (arith, back, get-put_flag p (tie gpt) true (p.answer w.log usbintr) (width-tie gpt)),
  )
  is_interrupt_enabled-set_interrupt_enabled false w back = (
    set_and_read usbintr (tie gpt) 0 w,
    ground (arith, back, get-put_flag p (tie gpt) false (p.answer w.log usbintr) (width-tie gpt)),
  )

  -- `is_elapsed` reads the status register once and tells whether the flag of this timer is set.
  is_elapsed_lem :
      (w : World)
      → (b : Bool) × (is_elapsed p gpt w
          ≡ done (b, record w { log = rd usbsts (p.answer w.log usbsts) ∷ w.log }))
        × ((b ≡ true) ↔ (get p (ti gpt) (p.answer w.log usbsts) ≡ 1))
  unfolding is_elapsed
  is_elapsed_lem w = (_, refl, ==_iff (get p (ti gpt) (p.answer w.log usbsts)) 1)

  -- `load` after `set_load us` asks the load register for what was written, which is one less than
  -- `us` clamped to the range from 1 to 0xFFFFFF, and so fits its 24 bits.
  load-set_load :
      (us : ℕ) (w : World)
      → let n = min (max us 1) 0xFF_FFFF - 1 in
        let log = wr (ld gpt) n ∷ w.log in
        ((set_load p gpt us >> load p gpt) w
          ≡ done
              (p.answer log (ld gpt), record w { log = rd (ld gpt) (p.answer log (ld gpt)) ∷ log }))
        × (n < 2 ^ 24)
  unfolding set_load load
  load-set_load us w = (refl, omega arith)

  -- `clear_elapsed` is one write of the status register, whose value sets the flag of this timer and
  -- leaves every other flag `f` of the register at zero, so that none of those is cleared.
  pub clear_elapsed_lem :
      (f : UsbField) (w : World)
      → home f ≡ RegKind.usbsts
      → f ≢ ti gpt
      → (x : ℕ) × (clear_elapsed p gpt w ≡ done (tt, record w { log = wr usbsts x ∷ w.log }))
        × (get p (ti gpt) x ≡ 1)
        × (get p f x ≡ 0)
  unfolding clear_elapsed
  clear_elapsed_lem f w at ne = (
    put p (ti gpt) 1 0,
    refl,
    get-put_flag p (ti gpt) true 0 (width-ti gpt),
    get-put_zero p (ti gpt) f 1 (home-ti gpt ∙ sym at) (λ e. ne (sym e)),
  )
