-- ===== src/Manual/Layout.antt =====
-- The layout of the registers in the reference manual.
use imxrt_usbd.Common.{ℕ, ◌-◌, ◌*◌, ◌^◌, refl, arith}
use imxrt_usbd.Ral.{Field}
use imxrt_usbd.Ral.Fields.{IsField}
use imxrt_usbd.Platform.{
  UsbField, width, itc, sutw, rst, rs, uri, ui, ti0, ti1, ue, ure, tie0, tie1, cm, slom, pfsc, pr,
  usbadr, usbadra, etbr, erbr, petb, perb, etce, erce, eptn, eprn, txe, txr, txt, txs, rxe, rxr,
  rxt, rxs, gptrun, gptrst, gptmode, sftrst, clkgate,
}

-- A field of `w` bits from an offset on.
abbrev bits : ℕ → ℕ → Field
bits offset w = record { offset = offset; mask = (2 ^ w - 1) * 2 ^ offset }

abbrev pub layout : UsbField → Field
layout itc = bits 16 8
layout sutw = bits 13 1
layout rst = bits 1 1
layout rs = bits 0 1
layout uri = bits 6 1
layout ui = bits 0 1
layout ti0 = bits 24 1
layout ti1 = bits 25 1
layout ue = bits 0 1
layout ure = bits 6 1
layout tie0 = bits 24 1
layout tie1 = bits 25 1
layout cm = bits 0 2
layout slom = bits 3 1
layout pfsc = bits 24 1
layout pr = bits 8 1
layout usbadr = bits 25 7
layout usbadra = bits 24 1
layout etbr = bits 16 8
layout erbr = bits 0 8
layout petb = bits 16 8
layout perb = bits 0 8
layout etce = bits 16 8
layout erce = bits 0 8
layout eptn = bits 16 8
layout eprn = bits 0 8
layout txe = bits 23 1
layout txr = bits 22 1
layout txt = bits 18 2
layout txs = bits 16 1
layout rxe = bits 7 1
layout rxr = bits 6 1
layout rxt = bits 2 2
layout rxs = bits 0 1
layout gptrun = bits 31 1
layout gptrst = bits 30 1
layout gptmode = bits 24 1
layout sftrst = bits 31 1
layout clkgate = bits 30 1

pub layout-IsField : (f : UsbField) → IsField (layout f) (width f)
layout-IsField itc = record { mask_eq = refl; fits = omega arith; small = omega arith }
layout-IsField sutw = record { mask_eq = refl; fits = omega arith; small = omega arith }
layout-IsField rst = record { mask_eq = refl; fits = omega arith; small = omega arith }
layout-IsField rs = record { mask_eq = refl; fits = omega arith; small = omega arith }
layout-IsField uri = record { mask_eq = refl; fits = omega arith; small = omega arith }
layout-IsField ui = record { mask_eq = refl; fits = omega arith; small = omega arith }
layout-IsField ti0 = record { mask_eq = refl; fits = omega arith; small = omega arith }
layout-IsField ti1 = record { mask_eq = refl; fits = omega arith; small = omega arith }
layout-IsField ue = record { mask_eq = refl; fits = omega arith; small = omega arith }
layout-IsField ure = record { mask_eq = refl; fits = omega arith; small = omega arith }
layout-IsField tie0 = record { mask_eq = refl; fits = omega arith; small = omega arith }
layout-IsField tie1 = record { mask_eq = refl; fits = omega arith; small = omega arith }
layout-IsField cm = record { mask_eq = refl; fits = omega arith; small = omega arith }
layout-IsField slom = record { mask_eq = refl; fits = omega arith; small = omega arith }
layout-IsField pfsc = record { mask_eq = refl; fits = omega arith; small = omega arith }
layout-IsField pr = record { mask_eq = refl; fits = omega arith; small = omega arith }
layout-IsField usbadr = record { mask_eq = refl; fits = omega arith; small = omega arith }
layout-IsField usbadra = record { mask_eq = refl; fits = omega arith; small = omega arith }
layout-IsField etbr = record { mask_eq = refl; fits = omega arith; small = omega arith }
layout-IsField erbr = record { mask_eq = refl; fits = omega arith; small = omega arith }
layout-IsField petb = record { mask_eq = refl; fits = omega arith; small = omega arith }
layout-IsField perb = record { mask_eq = refl; fits = omega arith; small = omega arith }
layout-IsField etce = record { mask_eq = refl; fits = omega arith; small = omega arith }
layout-IsField erce = record { mask_eq = refl; fits = omega arith; small = omega arith }
layout-IsField eptn = record { mask_eq = refl; fits = omega arith; small = omega arith }
layout-IsField eprn = record { mask_eq = refl; fits = omega arith; small = omega arith }
layout-IsField txe = record { mask_eq = refl; fits = omega arith; small = omega arith }
layout-IsField txr = record { mask_eq = refl; fits = omega arith; small = omega arith }
layout-IsField txt = record { mask_eq = refl; fits = omega arith; small = omega arith }
layout-IsField txs = record { mask_eq = refl; fits = omega arith; small = omega arith }
layout-IsField rxe = record { mask_eq = refl; fits = omega arith; small = omega arith }
layout-IsField rxr = record { mask_eq = refl; fits = omega arith; small = omega arith }
layout-IsField rxt = record { mask_eq = refl; fits = omega arith; small = omega arith }
layout-IsField rxs = record { mask_eq = refl; fits = omega arith; small = omega arith }
layout-IsField gptrun = record { mask_eq = refl; fits = omega arith; small = omega arith }
layout-IsField gptrst = record { mask_eq = refl; fits = omega arith; small = omega arith }
layout-IsField gptmode = record { mask_eq = refl; fits = omega arith; small = omega arith }
layout-IsField sftrst = record { mask_eq = refl; fits = omega arith; small = omega arith }
layout-IsField clkgate = record { mask_eq = refl; fits = omega arith; small = omega arith }
