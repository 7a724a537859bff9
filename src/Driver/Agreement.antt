-- ===== src/Driver/Agreement.antt =====
-- A read right after a poll.
pub mod Tests
use imxrt_usbd.Common.{
  ℕ, ◌<◌, ◌≡◌, ◌≢◌, ◌⊎◌, inl, inr, refl, sym, ap, ◌∙◌, subst, arith, true, false, List, ◌∷◌, some,
  Outcome, done, Bool-cases,
}
use native.Mathlib.Decide.{ℕ_discrete}
use imxrt_usbd.Common.Bits.{bit}
use imxrt_usbd.Machine.{Access, World, rd, usbsts, endptsetupstat}
use imxrt_usbd.Platform.{
  Platform, EndpointAddress, UsbError, Result, get, uri, ui, erce, ok, err, would_block,
}
use imxrt_usbd.State.Slots.{IsValid}
use imxrt_usbd.Endpoint.{Endpoint, Session, check_errors}
use imxrt_usbd.Driver.{Driver, PollResult, reset, nothing, traffic, poll}
use imxrt_usbd.Driver.Lookup.{found, primed, stat_log}
use imxrt_usbd.Driver.Poll.{poll-reset, poll-nothing, poll_traffic_lem}
use imxrt_usbd.Driver.Reads.{ep_read_refused}
use imxrt_usbd.Driver.Transfers.{ep_read}

result-cases : (r : Result (Unit {0})) → (r ≡ ok tt) ⊎ ((e : UsbError) × (r ≡ err e))
result-cases (ok tt) = inl refl
result-cases (err e) = inr (e, refl)

same_report :
    {a b c a' b' c' : ℕ} {d d' : Driver}
    → ◌≡◌ {A = Outcome (PollResult × Driver)}
        (done (traffic a b c, d))
        (done (traffic a' b' c', d'))
    → (a ≡ a') × (d ≡ d')
same_report e = (cc, cc)

module _ (p : Platform) (d : Driver) where
  -- A poll that reports traffic keeps the mask that it reports, and else has accessed registers only.
  poll-keeps :
      (outs ins setup : ℕ) (d' : Driver)
      → poll p d ≡ done (traffic outs ins setup, d')
      → d' ≡ record d { ep_out = outs; world = d'.world }
  poll-keeps outs ins setup d' ran = elim (ℕ_discrete (get p uri (p.answer d.world.log usbsts)) 0) [
    | no pending ↦
        let (_, polled, _, _) = poll-reset p d ui pending refl (λ e. ground (arith, e)) in
        absurd (cc (ran, polled))
    | yes no_reset ↦ elim (ℕ_discrete (get p ui (p.answer d.world.log usbsts)) 0) [
      | yes quiet ↦ absurd (cc (ran, poll-nothing p d no_reset quiet))
      | no busy ↦
          let (x, y, log1, log2, log3, _, _, _, polled, _, _, _, _, _) =
            poll_traffic_lem p d uri refl (λ e. ground (arith, e)) no_reset busy in
          let (mask, same) = same_report (sym polled ∙ ran) in
          subst (λ (x : Driver). x ≡ record d { ep_out = outs; world = x.world }) same
            (ap
              (λ (o : ℕ). record d {
                ep_out = o;
                world = record (d.world) {
                  log = rd endptsetupstat (p.answer log3 endptsetupstat) ∷ log3;
                };
              })
              mask)
    ]
  ]

  module _ (fuel : ℕ) (buffer : List ℕ) (addr : EndpointAddress) (ep : Endpoint)
      (v : IsValid p d.ep_allocator) (there : found p addr d ≡ some ep) where
    -- What a refused read leaves: an error, the caller's slice, and at most a read of the status.
    abbrev pub IsRefused : Driver → Type 0
    IsRefused d' =
        (e : UsbError) × (log : List Access) × (ep_read p fuel buffer addr d'
          ≡ done ((err e, buffer), record d' { world = record (d'.world) { log = log } }))
        × ((check_errors p ep ≡ err e) ⊎ (e ≡ would_block))

    refused :
        (outs : ℕ) (w : World)
        → p.index ep.address < 16
        → bit outs (p.index ep.address) ≡ 0
        → IsRefused (record d { ep_out = outs; world = w })
    refused outs w small missing =
        let d' = record d { ep_out = outs; world = w } in
        let s : Session = record { ep = ep; world = w } in
        elim (result-cases (check_errors p ep)) [
          | inl fine ↦ (
            would_block,
            stat_log p s,
            ep_read_refused p fuel buffer addr d' ep v there would_block (stat_log p s) small
                (inr (fine, inr missing, refl, refl)),
            inr refl,
          )
          | inr (e, failed) ↦ (
            e,
            w.log,
            ep_read_refused p fuel buffer addr d' ep v there e w.log small (inl (failed, refl)),
            inl failed,
          )
        ]

    -- When a poll over a valid endpoint allocator reports traffic, without the bit of an endpoint with
    -- index below 16 among the completed reads, then a read of that endpoint right after gives no data,
    -- whatever its descriptor holds: it is refused with the error of the last transfer, or would block.
    -- The caller's slice and the driver stay, but for the log.
    pub poll-ep_read-IsRefused :
        (outs ins setup : ℕ) (d' : Driver)
        → poll p d ≡ done (traffic outs ins setup, d')
        → p.index ep.address < 16
        → bit outs (p.index ep.address) ≡ 0
        → IsRefused d'
    poll-ep_read-IsRefused outs ins setup d' ran small missing =
        subst IsRefused (sym (poll-keeps outs ins setup d' ran))
          (refused outs d'.world small missing)
