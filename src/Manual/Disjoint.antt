-- ===== src/Manual/Disjoint.antt =====
-- The fields of one register do not overlap in the layout, which is tested for every pair.
use imxrt_usbd.Common.{
  ℕ, zero, suc, ◌<◌, bit_and, ◌≡◌, ◌≢◌, refl, sym, ap, ◌∙◌, arith, Bool, true, false, ◌&&◌, ◌||◌,
  List, [], ◌∷◌, Option, some, get_elem?, ◌==◌, ==_iff, Bool-cases, inl, inr, subst,
}
use native.Mathlib.Decide.{dec_lt}
use imxrt_usbd.Ral.Fields.{AreDisjoint}
use imxrt_usbd.Platform.{
  UsbField, RegKind, home, itc, sutw, rst, rs, uri, ui, ti0, ti1, ue, ure, tie0, tie1, cm, slom,
  pfsc, pr, usbadr, usbadra, etbr, erbr, petb, perb, etce, erce, eptn, eprn, txe, txr, txt, txs,
  rxe, rxr, rxt, rxs, gptrun, gptrst, gptmode, sftrst, clkgate,
}
use imxrt_usbd.Manual.Layout.{layout}

-- The fields of a register, and where a field stands among them.
abbrev fields : RegKind → List UsbField
fields RegKind.usbcmd = itc ∷ sutw ∷ rst ∷ rs ∷ []
fields RegKind.usbsts = uri ∷ ui ∷ ti0 ∷ ti1 ∷ []
fields RegKind.usbintr = ue ∷ ure ∷ tie0 ∷ tie1 ∷ []
fields RegKind.usbmode = cm ∷ slom ∷ []
fields RegKind.portsc1 = pfsc ∷ pr ∷ []
fields RegKind.deviceaddr = usbadr ∷ usbadra ∷ []
fields RegKind.endptstat = etbr ∷ erbr ∷ []
fields RegKind.endptprime = petb ∷ perb ∷ []
fields RegKind.endptcomplete = etce ∷ erce ∷ []
fields RegKind.endptnak = eptn ∷ eprn ∷ []
fields RegKind.endptctrl = txe ∷ txr ∷ txt ∷ txs ∷ rxe ∷ rxr ∷ rxt ∷ rxs ∷ []
fields RegKind.gptimerctrl = gptrun ∷ gptrst ∷ gptmode ∷ []
fields RegKind.phy_ctrl = sftrst ∷ clkgate ∷ []

abbrev place : UsbField → ℕ
place itc = 0
place sutw = 1
place rst = 2
place rs = 3
place uri = 0
place ui = 1
place ti0 = 2
place ti1 = 3
place ue = 0
place ure = 1
place tie0 = 2
place tie1 = 3
place cm = 0
place slom = 1
place pfsc = 0
place pr = 1
place usbadr = 0
place usbadra = 1
place etbr = 0
place erbr = 1
place petb = 0
place perb = 1
place etce = 0
place erce = 1
place eptn = 0
place eprn = 1
place txe = 0
place txr = 1
place txt = 2
place txs = 3
place rxe = 4
place rxr = 5
place rxt = 6
place rxs = 7
place gptrun = 0
place gptrst = 1
place gptmode = 2
place sftrst = 0
place clkgate = 1

fields-place : (f : UsbField) → get_elem? (fields (home f)) (place f) ≡ some f
fields-place itc = refl
fields-place sutw = refl
fields-place rst = refl
fields-place rs = refl
fields-place uri = refl
fields-place ui = refl
fields-place ti0 = refl
fields-place ti1 = refl
fields-place ue = refl
fields-place ure = refl
fields-place tie0 = refl
fields-place tie1 = refl
fields-place cm = refl
fields-place slom = refl
fields-place pfsc = refl
fields-place pr = refl
fields-place usbadr = refl
fields-place usbadra = refl
fields-place etbr = refl
fields-place erbr = refl
fields-place petb = refl
fields-place perb = refl
fields-place etce = refl
fields-place erce = refl
fields-place eptn = refl
fields-place eprn = refl
fields-place txe = refl
fields-place txr = refl
fields-place txt = refl
fields-place txs = refl
fields-place rxe = refl
fields-place rxr = refl
fields-place rxt = refl
fields-place rxs = refl
fields-place gptrun = refl
fields-place gptrst = refl
fields-place gptmode = refl
fields-place sftrst = refl
fields-place clkgate = refl

abbrev apart : Option UsbField → Option UsbField → Bool
apart (some f) (some g) = bit_and (layout f).mask (layout g).mask == 0
apart _ _ = true

-- Whether two places of a register are one, or hold fields that do not overlap.
abbrev test : RegKind → ℕ → ℕ → Bool
test r i j = i == j || apart (get_elem? (fields r) i) (get_elem? (fields r) j)

abbrev all_below : ℕ → (ℕ → Bool) → Bool
all_below zero t = true
all_below (suc n) t = t n && all_below n t

and_left : (a b : Bool) → (a && b) ≡ true → a ≡ true
and_left true b e = refl
and_left false b e = e

and_right : (a b : Bool) → (a && b) ≡ true → b ≡ true
and_right true b e = e
and_right false b e = ground arith

all_below_lem : (n i : ℕ) (t : ℕ → Bool) → all_below n t ≡ true → i < n → t i ≡ true
all_below_lem zero i t e h = elim h [ ]
all_below_lem (suc n) i t e h = elim (dec_lt i n) [
  | yes low ↦ all_below_lem n i t (and_right (t n) _ e) low
  | no high ↦ let same : i ≡ n = omega arith in ap t same ∙ and_left (t n) _ e
]

all_tested : (r : RegKind) → all_below 8 (λ i. all_below 8 (test r i)) ≡ true
all_tested RegKind.usbcmd = refl
all_tested RegKind.usbsts = refl
all_tested RegKind.usbintr = refl
all_tested RegKind.usbmode = refl
all_tested RegKind.portsc1 = refl
all_tested RegKind.deviceaddr = refl
all_tested RegKind.endptstat = refl
all_tested RegKind.endptprime = refl
all_tested RegKind.endptcomplete = refl
all_tested RegKind.endptnak = refl
all_tested RegKind.endptctrl = refl
all_tested RegKind.gptimerctrl = refl
all_tested RegKind.phy_ctrl = refl

place-lt : (f : UsbField) → place f < 8
place-lt itc = omega arith
place-lt sutw = omega arith
place-lt rst = omega arith
place-lt rs = omega arith
place-lt uri = omega arith
place-lt ui = omega arith
place-lt ti0 = omega arith
place-lt ti1 = omega arith
place-lt ue = omega arith
place-lt ure = omega arith
place-lt tie0 = omega arith
place-lt tie1 = omega arith
place-lt cm = omega arith
place-lt slom = omega arith
place-lt pfsc = omega arith
place-lt pr = omega arith
place-lt usbadr = omega arith
place-lt usbadra = omega arith
place-lt etbr = omega arith
place-lt erbr = omega arith
place-lt petb = omega arith
place-lt perb = omega arith
place-lt etce = omega arith
place-lt erce = omega arith
place-lt eptn = omega arith
place-lt eprn = omega arith
place-lt txe = omega arith
place-lt txr = omega arith
place-lt txt = omega arith
place-lt txs = omega arith
place-lt rxe = omega arith
place-lt rxr = omega arith
place-lt rxt = omega arith
place-lt rxs = omega arith
place-lt gptrun = omega arith
place-lt gptrst = omega arith
place-lt gptmode = omega arith
place-lt sftrst = omega arith
place-lt clkgate = omega arith

tested : (f g : UsbField) → test (home f) (place f) (place g) ≡ true
tested f g =
    all_below_lem 8 (place g) (test (home f) (place f))
      (all_below_lem 8 (place f) (λ i. all_below 8 (test (home f) i)) (all_tested (home f))
        (place-lt f))
      (place-lt g)

injective : {f g : UsbField} → some f ≡ some g → f ≡ g
injective e = ground arith

apart_lem :
    (f g : UsbField) (same : Bool) (x y : Option UsbField)
    → same ≡ false
    → x ≡ some f
    → y ≡ some g
    → (same || apart x y) ≡ true
    → (bit_and (layout f).mask (layout g).mask == 0) ≡ true
apart_lem f g same x y e there there' t = ground arith

pub layout-AreDisjoint :
    (f g : UsbField) → home f ≡ home g → f ≢ g → AreDisjoint (layout f) (layout g)
layout-AreDisjoint f g same ne =
    let there : get_elem? (fields (home f)) (place g) ≡ some g =
      subst (λ r. get_elem? (fields r) (place g) ≡ some g) (sym same) (fields-place g) in
    elim (Bool-cases (place f == place g)) [
      | inl e ↦ absurd (
          ne (
            injective (
              sym (fields-place f)
              ∙ ap (get_elem? (fields (home f))) ((==_iff (place f) (place g)).0 e)
              ∙ there)))
      | inr e ↦
          (==_iff _ 0).0
            (apart_lem f g (place f == place g) _ _ e (fields-place f) there (tested f g))
    ]
