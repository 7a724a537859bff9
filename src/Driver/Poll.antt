-- ===== src/Driver/Poll.antt =====
-- What polling reports, and which flags it acknowledges.
use imxrt_usbd.Common.{ℕ, ◌%◌, ◌^◌, bit_and, ◌≡◌, ◌≢◌, refl, sym, ◌∙◌, arith, List, ◌∷◌, ◌==◌, done}
use imxrt_usbd.Ral.Fields.{mask_test}
use imxrt_usbd.Machine.{Access, rd, wr, usbsts, endptcomplete, endptsetupstat}
use imxrt_usbd.Platform.{Platform, UsbField, RegKind, home, get, put, uri, ui, etce, erce}
use imxrt_usbd.Platform.Laws.{get-put_self, get-put_zero, get-lt}
use imxrt_usbd.Driver.{Driver, nothing, reset, traffic, poll}

module _ (p : Platform) where
  -- A test of a register under the mask of a field is a test of the field.
  flag_lem : (f : UsbField) (v : ℕ) → (bit_and v (p.layout f).mask == 0) ≡ (get p f v == 0)
  flag_lem f v = mask_test p.ral (p.layout-IsField f) v

  module _ (d : Driver) where
    abbrev sts : ℕ
    sts = p.answer d.world.log usbsts

    abbrev after : List Access
    after = rd usbsts sts ∷ d.world.log

    -- With the reset flag URI set, `poll` reports a reset. It reads the status register and writes it
    -- once, with a value that has the reset flag and, whatever else is pending, no other flag `f`: so
    -- it acknowledges the reset alone. The driver's own fields do not change.
    pub poll-reset :
        (f : UsbField)
        → get p uri (p.answer d.world.log usbsts) ≢ 0
        → home f ≡ RegKind.usbsts
        → f ≢ uri
        → (x : ℕ) × (poll p d
            ≡ done (
              reset,
              record d {
                world = record (d.world) {
                  log = wr usbsts x ∷ rd usbsts (p.answer d.world.log usbsts) ∷ d.world.log;
                };
              },
            ))
          × (get p uri x ≡ 1)
          × (get p f x ≡ 0)
    unfolding poll
    poll-reset f on at ne = (
      put p uri 1 0,
      ground (arith, flag_lem uri sts),
      get-put_self p uri 1 0,
      get-put_zero p uri f 1 (sym at) (λ e. ne (sym e)),
    )

    -- With neither flag set, `poll` reports nothing and only reads the status register.
    pub poll-nothing :
        get p uri (p.answer d.world.log usbsts) ≡ 0
        → get p ui (p.answer d.world.log usbsts) ≡ 0
        → poll p d
          ≡ done (
            nothing,
            record d {
              world = record (d.world) {
                log = rd usbsts (p.answer d.world.log usbsts) ∷ d.world.log;
              };
            },
          )
    unfolding poll
    poll-nothing no_reset no_traffic = ground (arith, flag_lem uri sts, flag_lem ui sts)

    -- With the flag UI and not the flag URI, `poll` reports traffic. It first writes the status register
    -- once, with a value `x` that has UI and, whatever else is pending, no other flag `f`: so it
    -- acknowledges UI alone. Then it reads which OUT transfers are complete, and keeps that mask for later reads; it reads which IN
    -- transfers are complete and acknowledges exactly those, no OUT transfer (`y`); it reads the setup
    -- status last. The three masks that it reports are those it read.
    pub poll_traffic_lem :
        (f : UsbField)
        → home f ≡ RegKind.usbsts
        → f ≢ ui
        → get p uri (p.answer d.world.log usbsts) ≡ 0
        → get p ui (p.answer d.world.log usbsts) ≢ 0
        → (x y : ℕ) × (log1 log2 log3 : List Access) × (log1
            ≡ wr usbsts x ∷ rd usbsts (p.answer d.world.log usbsts) ∷ d.world.log)
          × (log2 ≡ rd endptcomplete (p.answer log1 endptcomplete) ∷ log1)
          × (log3 ≡ wr endptcomplete y ∷ rd endptcomplete (p.answer log2 endptcomplete) ∷ log2)
          × (poll p d
              ≡ done (
                traffic
                    (get p erce (p.answer log1 endptcomplete))
                    (get p etce (p.answer log2 endptcomplete))
                    (p.answer log3 endptsetupstat % 2 ^ 16),
                record d {
                  ep_out = get p erce (p.answer log1 endptcomplete);
                  world = record (d.world) {
                    log = rd endptsetupstat (p.answer log3 endptsetupstat) ∷ log3;
                  };
                },
              ))
          × (get p ui x ≡ 1)
          × (get p uri x ≡ 0)
          × (get p f x ≡ 0)
          × (get p etce y ≡ get p etce (p.answer log2 endptcomplete))
          × (get p erce y ≡ 0)
    unfolding poll
    poll_traffic_lem f at ne no_reset on =
        let x = put p ui 1 0 in
        let log1 = wr usbsts x ∷ after in
        let log2 = rd endptcomplete (p.answer log1 endptcomplete) ∷ log1 in
        let ins = get p etce (p.answer log2 endptcomplete) in
        let y = put p etce ins 0 in
        let log3 = wr endptcomplete y ∷ rd endptcomplete (p.answer log2 endptcomplete) ∷ log2 in
        (
          x,
          y,
          log1,
          log2,
          log3,
          refl,
          refl,
          refl,
          ground (
            arith,
            flag_lem uri sts,
            flag_lem ui sts,
            get-lt p erce (p.answer log1 endptcomplete),
            get-lt p etce (p.answer log2 endptcomplete),
          ),
          get-put_self p ui 1 0,
          get-put_zero p ui uri 1 refl (λ e. ground arith),
          get-put_zero p ui f 1 (sym at) (λ e. ne (sym e)),
          get-put_self p etce ins 0 ∙ omega (arith, get-lt p etce (p.answer log2 endptcomplete)),
          get-put_zero p etce erce ins refl (λ e. ground arith),
        )
