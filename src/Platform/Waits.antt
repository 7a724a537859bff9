-- ===== src/Platform/Waits.antt =====
-- Waiting for a register to read as zero.
use imxrt_usbd.Common.{
  ℕ, zero, suc, ◌<◌, ◌≡◌, arith, ◌∙◌, List, ◌∷◌, ◌==◌, ==_iff, Bool-cases, inl, inr, true, false,
  done,
}
use imxrt_usbd.Machine.{Reg, Access, rd, World}
use imxrt_usbd.Platform.{Platform, wait_zero}

module _ (p : Platform) (reg : Reg) where
  -- The accesses after `n` reads of the register.
  abbrev pub polled : List Access → ℕ → List Access
  polled log zero = log
  polled log (suc n) = polled (rd reg (p.answer log reg) ∷ log) n

  -- The register reads as zero within `fuel` reads, whatever came before.
  abbrev pub Settles : ℕ → Type 0
  Settles fuel = (log : List Access) → (n : ℕ) × (n < fuel) × (p.answer (polled log n) reg ≡ 0)

  wait_zero-over :
      (fuel : ℕ) (w : World)
      → (p.answer w.log reg == 0) ≡ true
      → wait_zero p reg (suc fuel) w ≡ done (tt, record w { log = polled w.log 1 })
  unfolding wait_zero
  wait_zero-over fuel w e = ground arith

  wait_zero-more :
      (fuel : ℕ) (w : World)
      → (p.answer w.log reg == 0) ≡ false
      → wait_zero p reg (suc fuel) w ≡ wait_zero p reg fuel (record w { log = polled w.log 1 })
  unfolding wait_zero
  wait_zero-more fuel w e = ground arith

  -- The wait ends, having done nothing but read the register.
  wait_zero_lem :
      (fuel n : ℕ) (w : World)
      → n < fuel
      → p.answer (polled w.log n) reg ≡ 0
      → (m : ℕ) × (wait_zero p reg fuel w ≡ done (tt, record w { log = polled w.log (suc m) }))
        × (p.answer (polled w.log m) reg ≡ 0)
  wait_zero_lem zero n w h z = elim h [ ]
  wait_zero_lem (suc fuel) zero w h z =
      (0, wait_zero-over fuel w ((==_iff (p.answer w.log reg) 0).1 z), z)
  wait_zero_lem (suc fuel) (suc n) w h z = elim (Bool-cases (p.answer w.log reg == 0)) [
    | inl over ↦ (0, wait_zero-over fuel w over, (==_iff (p.answer w.log reg) 0).0 over)
    | inr more ↦
        let (m, ran, zeroed) =
          wait_zero_lem fuel n (record w { log = polled w.log 1 }) (omega arith) z in
        (suc m, wait_zero-more fuel w more ∙ ran, zeroed)
  ]

  -- The wait ends where the register settles, having done nothing but read the register, the last
  -- time as zero.
  pub wait_zero-Settles :
      (fuel : ℕ) (w : World)
      → Settles fuel
      → (m : ℕ) × (wait_zero p reg fuel w ≡ done (tt, record w { log = polled w.log (suc m) }))
        × (p.answer (polled w.log m) reg ≡ 0)
  wait_zero-Settles fuel w settles = let (n, lt, z) = settles w.log in wait_zero_lem fuel n w lt z
