-- ===== src/Machine.antt =====
-- The machine under the driver: the registers that src/ names, what the driver does to them in
-- order, the memory of the endpoint buffers, and `usize` arithmetic of the 32-bit target.
use imxrt_usbd.Common.{
  ℕ, ◌+◌, ◌-◌, ◌%◌, ◌^◌, Bool, List, ◌∷◌, if◌then◌else◌, ltb, leb, Outcome, done, panic, M,
}

-- The registers of the USB core and of the PHY.
pub data Reg : Type 0 where
  usbcmd usbsts usbintr usbmode portsc1 deviceaddr asynclistaddr : Reg
  endptnak endptnaken endptsetupstat endptprime endptflush endptstat endptcomplete : Reg
  endptctrl : ℕ → Reg
  gptimer0ctrl gptimer0ld gptimer1ctrl gptimer1ld : Reg
  phy_ctrl_set phy_ctrl_clr phy_pwd : Reg

-- One access: a volatile read with what it gave, a write, the clean of a cache line with the memory
-- that the processor saw then, the load of the setup buffer of the queue head at an address, stores
-- to the transfer descriptor or the queue head at an address with its words afterwards, a barrier.
pub data Access : Type 0 where
  rd wr : Reg → ℕ → Access
  dccimvac : ℕ → (ℕ → ℕ) → Access
  td_store qh_store : ℕ → List ℕ → Access
  setup_read : ℕ → ℕ → Access
  dsb isb : Access

-- Everything outside the driver's own fields: the accesses so far, the last one first, and the
-- bytes of memory by address.
pub record World : Type 0 where
  pub log : List Access
  pub mem : ℕ → ℕ

abbrev pub emit : Access → M World (Unit {0})
emit a w = done (tt, record w { log = a ∷ w.log })

-- `a + b` and `a - b` on `usize` and `u32`: with overflow checks a wrap is a panic.
abbrev pub add32 : Bool → ℕ → ℕ → Outcome ℕ
add32 checks a b =
    if ltb (a + b) (2 ^ 32) then done (a + b) else if checks then panic else done ((a + b) % 2 ^ 32)

abbrev pub sub32 : Bool → ℕ → ℕ → Outcome ℕ
sub32 checks a b = if leb b a then done (a - b) else if checks then panic else done (a + 2 ^ 32 - b)

-- `1 << n` on `u32`.
abbrev pub one_shl : Bool → ℕ → Outcome ℕ
one_shl checks n = if ltb n 32 then done (2 ^ n) else if checks then panic else done (2 ^ (n % 32))

-- `1 << n` on `u16`.
abbrev pub one_shl16 : Bool → ℕ → Outcome ℕ
one_shl16 checks n =
    if ltb n 16 then done (2 ^ n) else if checks then panic else done (2 ^ (n % 16))
