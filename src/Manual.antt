-- ===== src/Manual.antt =====
-- A platform to run the model on: the register layout of the i.MX RT reference manual, the macros and
-- the addresses of the crates as they are documented, and controllers with simple answers.
pub mod Layout
pub mod Disjoint
pub mod Device
pub mod Control
use imxrt_usbd.Common.{
  ℕ, zero, suc, ◌+◌, ◌-◌, ◌*◌, ◌/◌, ◌%◌, ◌^◌, ◌<◌, bit_and, bit_or, ◌≡◌, ◌≢◌, refl, arith, Bool,
  true, false, List, [], ◌∷◌, if◌then◌else◌, ◌==◌, ltb,
}
use imxrt_usbd.Ral.{Field, Ral, Bitflags}
use imxrt_usbd.Ral.Fields.{IsField}
use imxrt_usbd.Machine.{Reg, Access, rd, wr, dccimvac, setup_read, dsb, isb}
use imxrt_usbd.Platform.{
  Platform, UsbDirection, dir_in, dir_out, EndpointType, control, bulk, interrupt, isochronous,
  EndpointAddress,
}
use imxrt_usbd.Manual.Layout.{layout, layout-IsField}
use imxrt_usbd.Manual.Disjoint.{layout-AreDisjoint}

abbrev pub macros : Ral
macros = record {
  read = λ f r. bit_and r f.mask / 2 ^ f.offset;
  modify = λ f v r.
      bit_or (bit_and r (2 ^ 32 - 1 - f.mask)) (bit_and (v * 2 ^ f.offset % 2 ^ 32) f.mask);
  read_eq = λ f r. refl;
  modify_eq = λ f v r. refl;
}

abbrev pub bitflags : Bitflags
bitflags = record {
  from_bits_truncate = λ all bits. bit_and bits all;
  contains = λ flags flag. bit_and flags flag == flag;
  truncate_eq = λ all bits. refl;
  contains_eq = λ flags flag. refl;
}

abbrev pub address : ℕ → UsbDirection → EndpointAddress
address i dir_out = i
address i dir_in = i + 128

abbrev pub direction_of : EndpointAddress → UsbDirection
direction_of a = if ltb a 128 then dir_out else dir_in

pub index-address : (i : ℕ) (d : UsbDirection) → i < 128 → address i d % 128 ≡ i
index-address i dir_out h = omega arith
index-address i dir_in h = omega arith

pub direction-address : (i : ℕ) (d : UsbDirection) → i < 128 → direction_of (address i d) ≡ d
direction-address i dir_out h = ground arith
direction-address i dir_in h = ground arith

pub address-lt : (i : ℕ) (d : UsbDirection) → i < 128 → address i d < 256
address-lt i dir_out h = omega arith
address-lt i dir_in h = omega arith

pub address-index : (a : EndpointAddress) → a < 256 → address (a % 128) (direction_of a) ≡ a
address-index a h = ground arith

abbrev pub attributes : EndpointType → ℕ
attributes control = 0
attributes (isochronous synchronization usage) = 1 + synchronization * 4 + usage * 16
attributes bulk = 2
attributes interrupt = 3

-- The platform with a controller that answers like this, the setup buffer always the same.
abbrev pub platform : (List Access → Reg → ℕ) → ℕ → Platform
platform answer setup = record {
  ral = macros;
  flags = bitflags;
  layout = layout;
  layout-IsField = layout-IsField;
  layout-AreDisjoint = layout-AreDisjoint;
  cm_2 = 2;
  endptctrl_len = 7;
  endptctrl_seven = refl;
  index = λ a. a % 128;
  direction = direction_of;
  from_parts = address;
  index-from_parts = index-address;
  direction-from_parts = direction-address;
  from_parts-lt = address-lt;
  from_parts-index = address-index;
  to_bm_attributes = attributes;
  checks = true;
  debug_assertions = true;
  answer = answer;
  setup_of = λ log at. setup;
  self_slot = λ log. 0x2000_0000;
}

abbrev pub reg_code : Reg → ℕ
reg_code Reg.usbcmd = 0
reg_code Reg.usbsts = 1
reg_code Reg.usbintr = 2
reg_code Reg.usbmode = 3
reg_code Reg.portsc1 = 4
reg_code Reg.deviceaddr = 5
reg_code Reg.asynclistaddr = 6
reg_code Reg.endptnak = 7
reg_code Reg.endptnaken = 8
reg_code Reg.endptsetupstat = 9
reg_code Reg.endptprime = 10
reg_code Reg.endptflush = 11
reg_code Reg.endptstat = 12
reg_code Reg.endptcomplete = 13
reg_code Reg.gptimer0ctrl = 14
reg_code Reg.gptimer0ld = 15
reg_code Reg.gptimer1ctrl = 16
reg_code Reg.gptimer1ld = 17
reg_code Reg.phy_ctrl_set = 18
reg_code Reg.phy_ctrl_clr = 19
reg_code Reg.phy_pwd = 20
reg_code (Reg.endptctrl n) = 21 + n

-- Every register reads as zero.
abbrev pub quiet : List Access → Reg → ℕ
quiet log reg = 0

-- One register reads as `v`, the others as zero.
abbrev pub showing : Reg → ℕ → List Access → Reg → ℕ
showing it v log reg = if reg_code reg == reg_code it then v else 0

-- Every register reads as what was last written to it, or as zero.
abbrev pub memory : List Access → Reg → ℕ
memory [] reg = 0
memory (wr it v ∷ log) reg = if reg_code reg == reg_code it then v else memory log reg
memory (_ ∷ log) reg = memory log reg
