-- ===== src/Platform.antt =====
-- What the driver is built on and src/ does not hold: the register layout and macros of imxrt-ral,
-- the flags of bitflags, the addresses and endpoint types of usb-device, the build profile, and the
-- controller itself, whose answers may depend on every access made before.
pub mod Laws
pub mod Waits
pub mod Prompt
use imxrt_usbd.Common.{
  ℕ, zero, suc, ◌<◌, ◌≡◌, ◌≢◌, Bool, true, false, List, ◌∷◌, ◌==◌, M, done, hang, pure, ◌>>=◌,
}
use imxrt_usbd.Ral.{Field, Ral, Bitflags}
use imxrt_usbd.Ral.Fields.{IsField, AreDisjoint}
use imxrt_usbd.Machine.{Reg, Access, rd, wr, World, emit}

-- The register fields that src/ names.
pub data UsbField : Type 0 where
  itc sutw rst rs : UsbField
  uri ui ti0 ti1 : UsbField
  ue ure tie0 tie1 : UsbField
  cm slom pfsc pr usbadr usbadra : UsbField
  etbr erbr petb perb etce erce eptn eprn : UsbField
  txe txr txt txs rxe rxr rxt rxs : UsbField
  gptrun gptrst gptmode : UsbField
  sftrst clkgate : UsbField

-- The registers by their layout: those that share one have one name here.
pub data RegKind : Type 0 where
  usbcmd usbsts usbintr usbmode portsc1 deviceaddr : RegKind
  endptstat endptprime endptcomplete endptnak endptctrl gptimerctrl phy_ctrl : RegKind

-- The register that a field stands in.
abbrev pub home : UsbField → RegKind
home itc = RegKind.usbcmd
home sutw = RegKind.usbcmd
home rst = RegKind.usbcmd
home rs = RegKind.usbcmd
home uri = RegKind.usbsts
home ui = RegKind.usbsts
home ti0 = RegKind.usbsts
home ti1 = RegKind.usbsts
home ue = RegKind.usbintr
home ure = RegKind.usbintr
home tie0 = RegKind.usbintr
home tie1 = RegKind.usbintr
home cm = RegKind.usbmode
home slom = RegKind.usbmode
home pfsc = RegKind.portsc1
home pr = RegKind.portsc1
home usbadr = RegKind.deviceaddr
home usbadra = RegKind.deviceaddr
home etbr = RegKind.endptstat
home erbr = RegKind.endptstat
home petb = RegKind.endptprime
home perb = RegKind.endptprime
home etce = RegKind.endptcomplete
home erce = RegKind.endptcomplete
home eptn = RegKind.endptnak
home eprn = RegKind.endptnak
home txe = RegKind.endptctrl
home txr = RegKind.endptctrl
home txt = RegKind.endptctrl
home txs = RegKind.endptctrl
home rxe = RegKind.endptctrl
home rxr = RegKind.endptctrl
home rxt = RegKind.endptctrl
home rxs = RegKind.endptctrl
home gptrun = RegKind.gptimerctrl
home gptrst = RegKind.gptimerctrl
home gptmode = RegKind.gptimerctrl
home sftrst = RegKind.phy_ctrl
home clkgate = RegKind.phy_ctrl

-- The width of a field in bits, from the reference manual.
abbrev pub width : UsbField → ℕ
width itc = 8
width cm = 2
width usbadr = 7
width etbr = 8
width erbr = 8
width petb = 8
width perb = 8
width etce = 8
width erce = 8
width eptn = 8
width eprn = 8
width txt = 2
width rxt = 2
width _ = 1

pub data UsbDirection : Type 0 where
  dir_out dir_in : UsbDirection

-- An isochronous endpoint has a synchronisation and a usage.
pub data EndpointType : Type 0 where
  control bulk interrupt : EndpointType
  isochronous : ℕ → ℕ → EndpointType

pub data UsbError : Type 0 where
  would_block invalid_state invalid_endpoint endpoint_memory_overflow endpoint_overflow : UsbError

pub data Result {ℓ} (A : Type ℓ) : Type ℓ where
  ok : A → Result A
  err : UsbError → Result A

-- An `EndpointAddress` is its byte.
abbrev pub EndpointAddress : Type 0
EndpointAddress = ℕ

pub record Platform : Type 0 where
  pub ral : Ral
  pub flags : Bitflags
  -- imxrt-ral: where a field stands, and that the fields of one register do not overlap
  pub layout : UsbField → Field
  pub layout-IsField : (f : UsbField) → IsField (layout f) (width f)
  pub layout-AreDisjoint :
      (f g : UsbField) → home f ≡ home g → f ≢ g → AreDisjoint (layout f) (layout g)
  pub cm_2 : ℕ
  -- the length of the array ENDPTCTRL, which begins with endpoint 1
  pub endptctrl_len : ℕ
  pub endptctrl_seven : endptctrl_len ≡ 7
  -- usb-device
  pub index : EndpointAddress → ℕ
  pub direction : EndpointAddress → UsbDirection
  pub from_parts : ℕ → UsbDirection → EndpointAddress
  pub index-from_parts : (i : ℕ) (d : UsbDirection) → i < 128 → index (from_parts i d) ≡ i
  pub direction-from_parts : (i : ℕ) (d : UsbDirection) → i < 128 → direction (from_parts i d) ≡ d
  pub from_parts-lt : (i : ℕ) (d : UsbDirection) → i < 128 → from_parts i d < 256
  pub from_parts-index : (a : EndpointAddress) → a < 256 → from_parts (index a) (direction a) ≡ a
  pub to_bm_attributes : EndpointType → ℕ
  -- the build: overflow checks, and `debug_assert!`
  pub checks : Bool
  pub debug_assertions : Bool
  -- what a volatile read of a register gives after these accesses, the setup buffer of the queue
  -- head at an address, and the address of the local variable `self` in a call
  pub answer : List Access → Reg → ℕ
  pub setup_of : List Access → ℕ → ℕ
  pub self_slot : List Access → ℕ

module _ (p : Platform) where
  open p use {answer}

  abbrev pub read_reg : Reg → M World ℕ
  read_reg r w = let v = answer w.log r in done (v, record w { log = rd r v ∷ w.log })

  abbrev pub write_reg : Reg → ℕ → M World (Unit {0})
  write_reg r v = emit (wr r v)

  -- `modify_reg!` with a closure: a read, then a write of what the closure makes of it.
  abbrev pub modify_reg : Reg → (ℕ → ℕ) → M World (Unit {0})
  modify_reg r f w =
      let v = answer w.log r in done (tt, record w { log = wr r (f v) ∷ rd r v ∷ w.log })

  -- The value of a field, and a register value with one set.
  abbrev pub get : UsbField → ℕ → ℕ
  get f v = p.ral.read (p.layout f) v

  abbrev pub put : UsbField → ℕ → ℕ → ℕ
  put f x v = p.ral.modify (p.layout f) x v

  -- `while ral::read_reg!(.., REG) != 0 {}`
  unfoldable pub wait_zero : Reg → ℕ → M World (Unit {0})
  wait_zero r zero = λ w. hang
  wait_zero r (suc fuel) =
      read_reg r >>= λ v. elim (v == 0) [ true ↦ pure tt | false ↦ wait_zero r fuel ]
