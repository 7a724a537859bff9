-- ===== src/Endpoint/Halves.antt =====
-- The three fields of an endpoint's direction in its control register, and setting them.
use mathlib.Core.Path.{◌∙◌}
use imxrt_usbd.Common.{ℕ, ◌%◌, ◌^◌, ◌<◌, ◌≡◌, ◌≢◌, refl, sym, arith}
use imxrt_usbd.Common.Bits.Shift.{bit_and_mask}
use imxrt_usbd.Platform.{
  Platform, UsbField, RegKind, home, width, get, put, txe, txr, txt, rxe, rxr, rxt, EndpointType,
}
use imxrt_usbd.Platform.Laws.{get-put_self, get-put_other}
use imxrt_usbd.Endpoint.{Session, into_raw_endpoint_type, by_direction}

module _ (p : Platform) where
  pub raw-lt : (kind : EndpointType) → into_raw_endpoint_type p kind < 4
  unfolding into_raw_endpoint_type
  raw-lt kind = omega (arith, bit_and_mask 0 2 (p.to_bm_attributes kind))

  abbrev pub enable_field : Session → UsbField
  enable_field s = by_direction p s.ep txe rxe

  abbrev pub toggle_field : Session → UsbField
  toggle_field s = by_direction p s.ep txr rxr

  abbrev pub type_field : Session → UsbField
  type_field s = by_direction p s.ep txt rxt

  -- The three fields stand in a control register, differ, and have 1, 1 and 2 bits.
  pub record AreHalf (e r t : UsbField) : Type 0 where
    pub e_home : home e ≡ RegKind.endptctrl
    pub r_home : home r ≡ RegKind.endptctrl
    pub t_home : home t ≡ RegKind.endptctrl
    pub e_width : width e ≡ 1
    pub r_width : width r ≡ 1
    pub t_width : width t ≡ 2
    pub e_ne_r : e ≢ r
    pub e_ne_t : e ≢ t
    pub r_ne_t : r ≢ t

  pub fields-AreHalf : (s : Session) → AreHalf (enable_field s) (toggle_field s) (type_field s)
  fields-AreHalf s = ground arith

  module _ {e r t : UsbField} (half : AreHalf e r t) (kind : EndpointType) (v : ℕ) where
    raw-type : into_raw_endpoint_type p kind % 2 ^ width t ≡ into_raw_endpoint_type p kind
    raw-type = rw half.t_width (omega (arith, raw-lt kind))

    pub put_three :
        let raw = into_raw_endpoint_type p kind in
        let v' = put p t raw (put p r 1 (put p e 1 v)) in
        (get p e v' ≡ 1) × (get p r v' ≡ 1) × (get p t v' ≡ raw)
    put_three =
        let raw = into_raw_endpoint_type p kind in
        let v1 = put p e 1 v in
        let v2 = put p r 1 v1 in
        (
          get-put_other p t e raw v2 (half.t_home ∙ sym half.e_home) (λ q. half.e_ne_t (sym q))
              ∙ get-put_other p r e 1 v1 (half.r_home ∙ sym half.e_home) (λ q. half.e_ne_r (sym q))
              ∙ get-put_self p e 1 v
              ∙ rw half.e_width refl,
          get-put_other p t r raw v2 (half.t_home ∙ sym half.r_home) (λ q. half.r_ne_t (sym q))
              ∙ get-put_self p r 1 v1
              ∙ rw half.r_width refl,
          get-put_self p t raw v2 ∙ raw-type,
        )

    pub put_three_other :
        (g : UsbField)
        → home g ≡ RegKind.endptctrl
        → e ≢ g
        → r ≢ g
        → t ≢ g
        → get p g (put p t (into_raw_endpoint_type p kind) (put p r 1 (put p e 1 v))) ≡ get p g v
    put_three_other g h eg rg tg =
        get-put_other p t g (into_raw_endpoint_type p kind) (put p r 1 (put p e 1 v))
          (half.t_home ∙ sym h) tg
        ∙ get-put_other p r g 1 (put p e 1 v) (half.r_home ∙ sym h) rg
        ∙ get-put_other p e g 1 v (half.e_home ∙ sym h) eg

    pub put_two :
        let raw = into_raw_endpoint_type p kind in
        let v' = put p t raw (put p e 0 v) in (get p e v' ≡ 0) × (get p t v' ≡ raw)
    put_two =
        let raw = into_raw_endpoint_type p kind in
        (
          get-put_other p t e raw (put p e 0 v) (half.t_home ∙ sym half.e_home)
                (λ q. half.e_ne_t (sym q))
              ∙ get-put_self p e 0 v
              ∙ rw half.e_width refl,
          get-put_self p t raw (put p e 0 v) ∙ raw-type,
        )

    pub put_two_other :
        (g : UsbField)
        → home g ≡ RegKind.endptctrl
        → e ≢ g
        → t ≢ g
        → get p g (put p t (into_raw_endpoint_type p kind) (put p e 0 v)) ≡ get p g v
    put_two_other g h eg tg =
        get-put_other p t g (into_raw_endpoint_type p kind) (put p e 0 v) (half.t_home ∙ sym h) tg
        ∙ get-put_other p e g 0 v (half.e_home ∙ sym h) eg
