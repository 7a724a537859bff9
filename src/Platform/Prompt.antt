-- ===== src/Platform/Prompt.antt =====
-- A controller that answers in time, and computations on the world that return and leave memory.
use imxrt_usbd.Common.{ℕ, ◌≡◌, refl, M}
use imxrt_usbd.Common.Total.{Total}
use imxrt_usbd.Machine.{Reg, Access, World, emit}
use imxrt_usbd.Platform.{Platform, read_reg, write_reg, modify_reg, wait_zero}
use imxrt_usbd.Platform.Waits.{Settles, wait_zero-Settles}

-- Memory is `mem`.
abbrev pub HasMemory : (ℕ → ℕ) → World → Type 0
HasMemory mem w = w.mem ≡ mem

-- From every world, the computation returns and leaves memory as it was.
abbrev pub Quiet : {A : Type 0} → M World A → Type 0
Quiet m = (mem : ℕ → ℕ) → Total (HasMemory mem) m

module _ (p : Platform) where
  pub read_reg-Quiet : (r : Reg) → Quiet (read_reg p r)
  read_reg-Quiet r mem = record { runs = λ w i. (_, _, refl, i) }

  pub write_reg-Quiet : (r : Reg) (v : ℕ) → Quiet (write_reg p r v)
  write_reg-Quiet r v mem = record { runs = λ w i. (_, _, refl, i) }

  pub modify_reg-Quiet : (r : Reg) (f : ℕ → ℕ) → Quiet (modify_reg p r f)
  modify_reg-Quiet r f mem = record { runs = λ w i. (_, _, refl, i) }

  pub wait_zero-Quiet : (r : Reg) (fuel : ℕ) → Settles p r fuel → Quiet (wait_zero p r fuel)
  wait_zero-Quiet r fuel settles mem = record {
    runs = λ w i. let (_, ran, _) = wait_zero-Settles p r fuel w settles in (_, _, ran, i);
  }

pub emit-Quiet : (a : Access) → Quiet (emit a)
emit-Quiet a mem = record { runs = λ w i. (_, _, refl, i) }
