-- ===== src/Endpoint/Setup.antt =====
-- Reading the setup buffer under the tripwire.
use imxrt_usbd.Common.{
  ℕ, zero, suc, ◌^◌, ◌<◌, ◌≡◌, ◌∙◌, arith, Bool, true, false, List, ◌∷◌, ◌==◌, Bool-cases, inl, inr,
  done,
}
use imxrt_usbd.Machine.{Access, World, rd, wr, setup_read, usbcmd, endptsetupstat}
use imxrt_usbd.Platform.{Platform, sutw, get, put}
use imxrt_usbd.Endpoint.{Session, setup_loop, read_setup}

module _ (p : Platform) (at : ℕ) where
  -- The accesses of one attempt, up to the read that tells whether the tripwire is still armed.
  abbrev pub armed : List Access → List Access
  armed log = let v = p.answer log usbcmd in wr usbcmd (put p sutw 1 v) ∷ rd usbcmd v ∷ log

  abbrev pub attempt : List Access → List Access
  attempt log =
      let loaded = setup_read at (p.setup_of (armed log) at) ∷ armed log in
      rd usbcmd (p.answer loaded usbcmd) ∷ loaded

  -- Whether the attempt saw the tripwire still armed.
  abbrev pub holds : List Access → Bool
  holds log =
      get p sutw (p.answer (setup_read at (p.setup_of (armed log) at) ∷ armed log) usbcmd) == 1

  -- The accesses after `n` attempts.
  abbrev pub attempts : List Access → ℕ → List Access
  attempts log zero = log
  attempts log (suc n) = attempts (attempt log) n

  abbrev pub disarmed : List Access → List Access
  disarmed log = let v = p.answer log usbcmd in wr usbcmd (put p sutw 0 v) ∷ rd usbcmd v ∷ log

  setup_loop-over :
      (fuel : ℕ) (w : World)
      → holds w.log ≡ true
      → setup_loop p (suc fuel) at w
        ≡ done (p.setup_of (armed w.log) at, record w { log = disarmed (attempt w.log) })
  unfolding setup_loop
  setup_loop-over fuel w e = ground arith

  setup_loop-more :
      (fuel : ℕ) (w : World)
      → holds w.log ≡ false
      → setup_loop p (suc fuel) at w ≡ setup_loop p fuel at (record w { log = attempt w.log })
  unfolding setup_loop
  setup_loop-more fuel w e = ground arith

  setup_loop_lem :
      (fuel n : ℕ) (w : World)
      → n < fuel
      → holds (attempts w.log n) ≡ true
      → (m : ℕ) × (holds (attempts w.log m) ≡ true)
        × (setup_loop p fuel at w
            ≡ done (
              p.setup_of (armed (attempts w.log m)) at,
              record w { log = disarmed (attempt (attempts w.log m)) },
            ))
  setup_loop_lem zero n w lt h = elim lt [ ]
  setup_loop_lem (suc fuel) zero w lt h = (0, h, setup_loop-over fuel w h)
  setup_loop_lem (suc fuel) (suc n) w lt h = elim (Bool-cases (holds w.log)) [
    | inl over ↦ (0, over, setup_loop-over fuel w over)
    | inr more ↦
        let (m, held, ran) =
          setup_loop_lem fuel n (record w { log = attempt w.log }) (omega arith) h in
        (suc m, held, setup_loop-more fuel w more ∙ ran)
  ]

module _ (p : Platform) where
  -- If one of the first `fuel` attempts finds the tripwire armed, `read_setup` of an endpoint with
  -- index below 32 returns: it clears the endpoint's setup bit and then gives the setup buffer as
  -- it was at a load between arming the tripwire and a read that found it armed still; the last it
  -- does is to disarm it.
  pub read_setup_lem :
      (fuel n : ℕ) (s : Session)
      → p.index s.ep.address < 32
      → n < fuel
      → let start = wr endptsetupstat (2 ^ p.index s.ep.address) ∷ s.world.log in
        let at = s.ep.qh_at in
        holds p at (attempts p at start n) ≡ true
        → (m : ℕ) × (holds p at (attempts p at start m) ≡ true)
          × (read_setup p fuel s
              ≡ done (
                p.setup_of (armed p at (attempts p at start m)) at,
                record s {
                  world = record (s.world) {
                    log = disarmed p at (attempt p at (attempts p at start m));
                  };
                },
              ))
  unfolding read_setup
  read_setup_lem fuel n s small lt h =
      let start = wr endptsetupstat (2 ^ p.index s.ep.address) ∷ s.world.log in
      let (m, held, ran) =
        setup_loop_lem p s.ep.qh_at fuel n (record (s.world) { log = start }) lt h in
      (m, held, ground (arith, ran))
