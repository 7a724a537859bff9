-- ===== src/Driver/Returns/Endpoints.antt =====
-- Initialising, configuring and resetting a sound driver return.
use imxrt_usbd.Common.{
  ℕ, zero, suc, ◌<◌, ◌≡◌, refl, ◌∙◌, arith, true, false, List, ◌∷◌, ◌==◌, Bool-cases, inl, inr,
  done,
}
use imxrt_usbd.Common.Total.{Total, then-Total}
use imxrt_usbd.Machine.{Access, World, rd, usbcmd, portsc1, endptprime, endptflush}
use imxrt_usbd.Buffer.{EndpointMemory}
use imxrt_usbd.Platform.{Platform, EndpointAddress, get, rst, pr}
use imxrt_usbd.Platform.Waits.{polled}
use imxrt_usbd.Platform.Prompt.{Quiet, write_reg-Quiet, modify_reg-Quiet, wait_zero-Quiet}
use imxrt_usbd.Endpoint
use imxrt_usbd.Endpoint.{Endpoint, Session, this}
use imxrt_usbd.Endpoint.Returns.{
  IsPrompt, IsPlaced, Stands, Known, worldly, this-Gives, enable-Total, has_setup-Total,
  is_stalled-Total,
}
use imxrt_usbd.Driver.{Driver, Speed, wait_reset, initialize, set_list_addr}
use imxrt_usbd.Driver.Endpoints.{
  initialize_endpoints, enable_endpoints, prime_endpoints, on_configured, assert_reset, bus_reset,
}
use imxrt_usbd.Driver.Served.{prime-Total}
use imxrt_usbd.Driver.Sound.{IsSound, IsLow}
use imxrt_usbd.Driver.Returns.{on_regs-Total, for_nonzero-Total, driving}

module _ (p : Platform) where
  wait_reset-over :
      (fuel : ℕ) (w : World)
      → (get p rst (p.answer w.log usbcmd) == 1) ≡ false
      → wait_reset p (suc fuel) w ≡ done (tt, record w { log = polled p usbcmd w.log 1 })
  unfolding wait_reset
  wait_reset-over fuel w e = ground arith

  wait_reset-more :
      (fuel : ℕ) (w : World)
      → (get p rst (p.answer w.log usbcmd) == 1) ≡ true
      → wait_reset p (suc fuel) w ≡ wait_reset p fuel (record w { log = polled p usbcmd w.log 1 })
  unfolding wait_reset
  wait_reset-more fuel w e = ground arith

  -- The wait for the reset ends where the controller clears the bit in time.
  wait_reset_lem :
      (fuel n : ℕ) (w : World)
      → n < fuel
      → (get p rst (p.answer (polled p usbcmd w.log n) usbcmd) == 1) ≡ false
      → (w' : World) × (wait_reset p fuel w ≡ done (tt, w')) × (w'.mem ≡ w.mem)
  wait_reset_lem zero n w lt over = elim lt [ ]
  wait_reset_lem (suc fuel) zero w lt over = (_, wait_reset-over fuel w over, refl)
  wait_reset_lem (suc fuel) (suc n) w lt over =
      elim (Bool-cases (get p rst (p.answer w.log usbcmd) == 1)) [
        | inr now ↦ (_, wait_reset-over fuel w now, refl)
        | inl again ↦
            let (w', ran, same) =
              wait_reset_lem fuel n (record w { log = polled p usbcmd w.log 1 }) (omega arith)
                over in
            (w', wait_reset-more fuel w again ∙ ran, same)
      ]

  wait_reset-Quiet : (fuel : ℕ) → IsPrompt p fuel → Quiet (wait_reset p fuel)
  wait_reset-Quiet fuel prompt bytes = record {
    runs = λ w same.
        let (n, lt, over) = prompt.resets w.log in
        let (w', ran, kept) = wait_reset_lem fuel n w lt over in (tt, w', ran, kept ∙ same);
  }

  -- In a build with debug assertions the port must show the reset.
  abbrev pub InReset : Type 0
  InReset = p.debug_assertions ≡ true → (log : List Access) → get p pr (p.answer log portsc1) ≡ 1

  assert_reset-Quiet : InReset → Quiet (assert_reset p)
  unfolding assert_reset
  assert_reset-Quiet shows bytes = record {
    runs = λ w same. elim (Bool-cases p.debug_assertions) [
      | inl on ↦ (
        tt,
        record w { log = rd portsc1 (p.answer w.log portsc1) ∷ w.log },
        ground (arith, on, shows on w.log),
        same,
      )
      | inr off ↦ (tt, w, rw off refl, same)
    ];
  }

module _ (p : Platform) (m : EndpointMemory) (low : IsLow m) (mem : ℕ → ℕ)
    (needs : EndpointAddress → Type 0) where
  abbrev I : Driver → Type 0
  I = IsSound p m mem needs

  pub on_configured-Total : (fuel : ℕ) → IsPrompt p fuel → Total I (on_configured p fuel)
  unfolding on_configured enable_endpoints prime_endpoints
  on_configured-Total fuel prompt =
      then-Total (for_nonzero-Total p m low mem needs (enable-Total p)) (
        for_nonzero-Total p m low mem needs
          λ ep0 placed bytes. prime-Total p ep0 placed bytes fuel prompt)

  initialize_endpoints-Total : Total I (initialize_endpoints p)
  unfolding initialize_endpoints
  initialize_endpoints-Total =
      for_nonzero-Total p m low mem needs
        λ ep0 placed bytes. Endpoint.Returns.initialize-Total p ep0 placed bytes

  set_list_addr-Total : Total I (set_list_addr p)
  unfolding set_list_addr
  set_list_addr-Total = search driving

  pub initialize-Total :
      (fuel : ℕ) (speed : Speed) → IsPrompt p fuel → Total I (initialize p fuel speed)
  unfolding initialize
  initialize-Total fuel speed prompt =
      search
        (
          then-Total,
          on_regs-Total,
          write_reg-Quiet,
          modify_reg-Quiet,
          wait_reset-Quiet p fuel prompt,
          set_list_addr-Total,
        )
        depth 30 fits 20000

  pub bus_reset-Total : (fuel : ℕ) → IsPrompt p fuel → InReset p → Total I (bus_reset p fuel)
  unfolding bus_reset
  bus_reset-Total fuel prompt shows =
      search
        (
          then-Total,
          on_regs-Total,
          write_reg-Quiet,
          modify_reg-Quiet,
          wait_zero-Quiet p endptprime fuel prompt.primes,
          wait_zero-Quiet p endptflush fuel prompt.flushes,
          assert_reset-Quiet p shows,
          initialize_endpoints-Total,
        )
        depth 20 fits 20000
