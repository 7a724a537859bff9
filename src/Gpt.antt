-- ===== src/Gpt.antt =====
-- src/gpt.rs: the two general purpose timers of a USB peripheral, over its registers.
pub mod Laws
pub mod Changes
pub mod Tests
use Prim.Native.Nat.{min, max}
use imxrt_usbd.Common.{ℕ, ◌-◌, Bool, if◌then◌else◌, ◌==◌, panic, done, M, pure, lift, ◌>>=◌, ◌>>◌}
use imxrt_usbd.Machine.{
  Reg, World, usbsts, usbintr, gptimer0ctrl, gptimer0ld, gptimer1ctrl, gptimer1ld,
}
use imxrt_usbd.Platform.{
  Platform, UsbField, read_reg, write_reg, modify_reg, get, put, ti0, ti1, tie0, tie1, gptrun,
  gptrst, gptmode,
}

pub data Mode : Type 0 where
  one_shot repeat : Mode

-- `mode as u32`
abbrev pub mode_raw : Mode → ℕ
mode_raw one_shot = 0
mode_raw repeat = 1

pub data Instance : Type 0 where
  gpt0 gpt1 : Instance

-- The registers and fields of an instance.
abbrev pub ctrl : Instance → Reg
ctrl gpt0 = gptimer0ctrl
ctrl gpt1 = gptimer1ctrl

abbrev pub ld : Instance → Reg
ld gpt0 = gptimer0ld
ld gpt1 = gptimer1ld

abbrev pub ti : Instance → UsbField
ti gpt0 = ti0
ti gpt1 = ti1

abbrev pub tie : Instance → UsbField
tie gpt0 = tie0
tie gpt1 = tie1

module _ (p : Platform) (gpt : Instance) where
  unfoldable pub run : M World (Unit {0})
  run = modify_reg p (ctrl gpt) (put p gptrun 1)

  unfoldable pub is_running : M World Bool
  is_running = do v ← read_reg p (ctrl gpt); pure (get p gptrun v == 1)

  unfoldable pub stop : M World (Unit {0})
  stop = modify_reg p (ctrl gpt) (put p gptrun 0)

  unfoldable pub reset : M World (Unit {0})
  reset = modify_reg p (ctrl gpt) (put p gptrst 1)

  unfoldable pub set_mode : Mode → M World (Unit {0})
  set_mode m = modify_reg p (ctrl gpt) (put p gptmode (mode_raw m))

  -- Any raw value but the two of `Mode` is `unreachable!()`.
  unfoldable pub mode : M World Mode
  mode = read_reg p (ctrl gpt) >>= λ v.
      let raw = get p gptmode v in
      if raw == mode_raw repeat
      then pure repeat
      else (if raw == mode_raw one_shot then pure one_shot else lift panic)

  -- `us.clamp(1, 0xFF_FFFF).saturating_sub(1)`
  unfoldable pub set_load : ℕ → M World (Unit {0})
  set_load us = write_reg p (ld gpt) (min (max us 1) 0xFF_FFFF - 1)

  unfoldable pub load : M World ℕ
  load = read_reg p (ld gpt)

  unfoldable pub is_elapsed : M World Bool
  is_elapsed = do v ← read_reg p usbsts; pure (get p (ti gpt) v == 1)

  unfoldable pub clear_elapsed : M World (Unit {0})
  clear_elapsed = write_reg p usbsts (put p (ti gpt) 1 0)

  unfoldable pub set_interrupt_enabled : Bool → M World (Unit {0})
  set_interrupt_enabled enable = modify_reg p usbintr (put p (tie gpt) (if enable then 1 else 0))

  unfoldable pub is_interrupt_enabled : M World Bool
  is_interrupt_enabled = do v ← read_reg p usbintr; pure (get p (tie gpt) v == 1)
