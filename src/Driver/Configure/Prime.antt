-- ===== src/Driver/Configure/Prime.antt =====
-- Enabling one endpoint, and priming one that is enabled.
use imxrt_usbd.Common.{
  ℕ, ◌<◌, ◌≡◌, inl, inr, refl, sym, ap, ◌∙◌, subst, arith, true, List, [], ◌∷◌, Bool-cases, done,
}
use imxrt_usbd.Machine.{Access, rd, endptctrl, endptprime}
use imxrt_usbd.Qh
use imxrt_usbd.Platform.{Platform, UsbField, get, txe, rxe}
use imxrt_usbd.Platform.Waits.{Settles}
use imxrt_usbd.Endpoint
use imxrt_usbd.Endpoint.{Endpoint, Session, into_raw_endpoint_type, by_direction, this, is_enabled}
use imxrt_usbd.Endpoint.Control.{enabling, enable_lem, register-endptctrl}
use imxrt_usbd.Endpoint.Halves.{fields-AreHalf, put_three, put_three_other}
use imxrt_usbd.Endpoint.Transfer.{IsReady, IsPrepared, schedule_transfer-IsScheduled}
use imxrt_usbd.Driver.{schedule_packet}
use imxrt_usbd.Driver.Endpoints.{prime}
use imxrt_usbd.Driver.Registers.{IsKept, Setting, Half}
use imxrt_usbd.Driver.Registers.Frame.{value_after, value-rd, value-IsScheduled}

module _ (p : Platform) where
  abbrev pub at_log : Endpoint → List Access → Session
  at_log ep log = record { ep = ep; world = record { log = log; mem = λ at. 0 } }

  unfoldable pub enabling_all : Setting p
  enabling_all = record {
    op = Endpoint.enable p;
    change = λ ep. enabling p (at_log ep []);
    on = λ ep. 1;
    kind = λ ep. into_raw_endpoint_type p ep.kind;
    runs = enable_lem p;
    sets =
        λ ep v. let (e, _, t) = put_three p (fields-AreHalf p (at_log ep [])) ep.kind v in (e, t);
    leaves =
        λ ep v f at e r t. put_three_other p (fields-AreHalf p (at_log ep [])) ep.kind v f at e r t;
  }

  -- The endpoint is enabled, with its type.
  abbrev pub IsEnabled : Endpoint → List Access → Type 0
  IsEnabled ep log =
      Half p (p.direction ep.address) (p.index ep.address) 1 (into_raw_endpoint_type p ep.kind) log

  -- An OUT endpoint has a transfer of its packet size.
  abbrev pub IsWaiting : Endpoint → Type 0
  IsWaiting ep =
      Endpoint.is_out (p.direction ep.address) ≡ true
      → IsPrepared p (Qh.max_packet_len p.ral ep.qh) ep.td

  -- What priming an enabled endpoint does.
  pub record IsPrimed (s s' : Session) : Type 0 where
    pub same_address : s'.ep.address ≡ s.ep.address
    pub same_buffer : s'.ep.buffer ≡ s.ep.buffer
    pub same_kind : s'.ep.kind ≡ s.ep.kind
    pub waiting : IsWaiting s'.ep
    pub frame :
        (f : UsbField) (k : IsKept p f) (n : ℕ)
        → value_after p f k n s'.world.log ≡ value_after p f k n s.world.log

  is_enabled_lem :
      (s : Session)
      → 0 < p.index s.ep.address
      → p.index s.ep.address < 8
      → let reg = endptctrl (p.index s.ep.address) in
        let v = p.answer s.world.log reg in
        get p (by_direction p s.ep txe rxe) v ≡ 1
        → is_enabled p s
          ≡ done (true, record s { world = record (s.world) { log = rd reg v ∷ s.world.log } })
  unfolding is_enabled
  is_enabled_lem s pos small on =
      ground (arith, register-endptctrl p (p.index s.ep.address) small, on)

  pub prime_lem :
      (fuel : ℕ) (s : Session)
      → 0 < p.index s.ep.address
      → p.index s.ep.address < 8
      → get p
          (by_direction p s.ep txe rxe)
          (p.answer s.world.log (endptctrl (p.index s.ep.address)))
        ≡ 1
      → IsReady p s
      → Settles p endptprime fuel
      → (s' : Session) × (prime p fuel s ≡ done (tt, s')) × IsPrimed s s'
  unfolding prime schedule_packet Qh.max_packet_len
  prime_lem fuel s pos small on ready settles =
      let reg = endptctrl (p.index s.ep.address) in
      let v = p.answer s.world.log reg in
      let s1 : Session = record s { world = record (s.world) { log = rd reg v ∷ s.world.log } } in
      elim (Bool-cases (Endpoint.is_out (p.direction s.ep.address))) [
        | inr input ↦ (
          s1,
          ground (arith, is_enabled_lem s pos small on, input),
          record {
            same_address = refl;
            same_buffer = refl;
            same_kind = refl;
            waiting = λ out. cc;
            frame = λ f k n. value-rd p f k n reg v s.world.log;
          },
        )
        | inl output ↦
            let ready' : IsReady p s1 = record {
              low_buffer = ready.low_buffer;
              low_stack = ready.low_stack;
              has_bit = ready.has_bit;
            } in
            let size = Qh.max_packet_len p.ral s.ep.qh in
            let (s', ran, sch) = schedule_transfer-IsScheduled p fuel size s1 ready' settles in
            (
              s',
              ground (arith, is_enabled_lem s pos small on, output, ran),
              record {
                same_address = ap (λ e. e.address) sch.kept;
                same_buffer = ap (λ e. e.buffer) sch.kept;
                same_kind = ap (λ e. e.kind) sch.kept;
                waiting = λ out.
                    subst
                      (λ (c : ℕ).
                        IsPrepared p
                          (Qh.max_packet_len p.ral (record (s'.ep.qh) { capabilities = c }))
                          s'.ep.td)
                      (sym sch.same_packet) sch.prepared;
                frame = λ f k n.
                    value-IsScheduled p f k n size s1 s' sch ∙ value-rd p f k n reg v s.world.log;
              },
            )
      ]
