-- ===== src/Driver/Returns.antt =====
-- Every operation of a sound driver returns, over a controller that answers in time, and leaves the
-- driver sound.
pub mod Transfers
pub mod Endpoints
use imxrt_usbd.Common.{
  ℕ, zero, suc, ◌^◌, ◌<◌, ◌≡◌, refl, sym, ap, ◌∙◌, arith, Bool, true, false, List, [], ◌∷◌, Option,
  none, some, ◌==◌, ◌&&◌, leb, length, if◌then◌else◌, Bool-cases, Option-cases, inl, inr, Outcome,
  done, and_then, M, pure, lift, panic, ◌>>=◌, ◌>>◌,
}
use imxrt_usbd.Common.Total.{Total, pure-Total, bind-Total, then-Total, if-Total, bind-Gives}
use imxrt_usbd.Machine.{Access, World, rd, usbcmd, portsc1, endptprime, endptflush}
use imxrt_usbd.Buffer.{Buffer, EndpointMemory}
use imxrt_usbd.Platform.{
  Platform, EndpointAddress, Result, ok, err, read_reg, get, rst, pr, wait_zero,
}
use imxrt_usbd.Platform.Waits.{polled}
use imxrt_usbd.Platform.Prompt.{
  Quiet, HasMemory, read_reg-Quiet, write_reg-Quiet, modify_reg-Quiet, wait_zero-Quiet,
}
use imxrt_usbd.State
use imxrt_usbd.State.{endpoint_set}
use imxrt_usbd.Endpoint
use imxrt_usbd.Endpoint.{Endpoint, Session, this}
use imxrt_usbd.Endpoint.Returns.{
  IsPrompt, IsPlaced, Stands, Known, worldly, this-Gives, initialize-Total, enable-Total,
  has_setup-Total, is_stalled-Total,
}
use imxrt_usbd.Driver.{
  Driver, Speed, on_regs, self, set_ep_out, in_session, with_ep, if_ep, wait_reset, initialize,
  set_list_addr, enable_zlt, set_interrupts, set_address, attach, poll, poll_traffic, gpt_mut,
  ctrl_ep0_out, ctrl_ep0_in,
}
use imxrt_usbd.Driver.Lookup.{found, with_ep-found, if_ep-found, if_ep-missing}
use imxrt_usbd.Driver.Endpoints.{
  for_endpoints, for_nonzero, initialize_endpoints, enable_endpoints, prime_endpoints,
  on_configured, assert_reset, bus_reset,
}
use imxrt_usbd.Driver.Transfers.{
  control_setup, control_status, ctrl0_read, ctrl0_write, then_status, ep_read, ep_write, ep_stall,
  is_ep_stalled,
}
use imxrt_usbd.Driver.Served.{
  control_status-Total, control_setup-Total, write_data-Total, status_phase-Total,
  read_completed-Total, stall_session-Total, prime-Total,
}
use imxrt_usbd.Driver.Sound.{
  IsSound, IsLow, world-IsSound, found-IsPlaced, found-Stands, session-IsSound,
}

-- A computation on an endpoint that returns for every endpoint, and stays within its buffer.
abbrev pub Serves : {A : Type 0} → Platform → M Session A → Type 0
Serves p m = (ep0 : Endpoint) → IsPlaced p ep0 → (mem : ℕ → ℕ) → Total (Stands p ep0 mem) m

module _ (p : Platform) (m : EndpointMemory) (low : IsLow m) (mem : ℕ → ℕ)
    (needs : EndpointAddress → Type 0) where
  abbrev I : Driver → Type 0
  I = IsSound p m mem needs

  pub on_regs-Total : {A : Type 0} {k : M World A} → Quiet k → Total I (on_regs k)
  on_regs-Total {A} {k} quiet = record {
    runs = λ d s.
        let (a, w, ran, same) = (quiet d.world.mem).runs (d.world) refl in
        (a, record d { world = w }, rw ran refl, world-IsSound p m mem needs d w s same);
  }

  in_session-Total :
      {A : Type 0} (addr : EndpointAddress) (ep : Endpoint) (k : M Session A) (d : Driver)
      → Serves p k
      → I d
      → found p addr d ≡ some ep
      → (a : A) × (d' : Driver) × (in_session p addr ep k d ≡ done (a, d')) × I d'
  in_session-Total addr ep k d serves s there =
      let (a, t, ran, after) =
        (serves ep (found-IsPlaced p m low mem needs d s addr ep there) d.world.mem).runs
          (record { ep = ep; world = d.world })
          (found-Stands p m low mem needs d s addr ep there) in
      (a, _, rw ran refl, session-IsSound p m low mem needs d s addr ep there t after)

  pub with_ep-Total :
      {A : Type 0} {k : M Session A} (addr : EndpointAddress)
      → needs addr
      → Serves p k
      → Total I (with_ep p addr k)
  with_ep-Total {A} {k} addr need serves = record {
    runs = λ d s.
        let (ep, there) = s.stands addr need in
        let (a, d', ran, s') = in_session-Total addr ep k d serves s there in
        (a, d', with_ep-found p addr d s.valid ep k there ∙ ran, s');
  }

  pub if_ep-Total :
      {k : M Session (Unit {0})} (addr : EndpointAddress) → Serves p k → Total I (if_ep p addr k)
  if_ep-Total {k} addr serves = record {
    runs = λ d s. elim (Option-cases (found p addr d)) [
      | inl gone ↦ (tt, d, if_ep-missing p addr d s.valid k gone, s)
      | inr (ep, there) ↦
          let (a, d', ran, s') = in_session-Total addr ep k d serves s there in
          (a, d', if_ep-found p addr d s.valid ep k there ∙ ran, s')
    ];
  }

  for_endpoints-Total :
      {k : M Session (Unit {0})} (addrs : List EndpointAddress)
      → Serves p k
      → Total I (for_endpoints p addrs k)
  unfolding for_endpoints
  for_endpoints-Total [] serves = pure-Total tt
  for_endpoints-Total (addr ∷ addrs) serves =
      then-Total (if_ep-Total addr serves) (for_endpoints-Total addrs serves)

  nonzero-Serves :
      {k : M Session (Unit {0})}
      → Serves p k
      → Serves p (this >>= λ ep. if p.index ep.address == 0 then pure tt else k)
  nonzero-Serves {k} serves ep0 placed bytes =
      bind-Gives {f = λ ep. if p.index ep.address == 0 then pure tt else k}
        (this-Gives p ep0 placed bytes)
        (λ ep known. if-Total (p.index ep.address == 0) (pure-Total tt) (serves ep0 placed bytes))

  pub for_nonzero-Total : {k : M Session (Unit {0})} → Serves p k → Total I (for_nonzero p k)
  unfolding for_nonzero
  for_nonzero-Total serves = for_endpoints-Total (State.addresses p) (nonzero-Serves serves)

  pub self-Total : Total I self
  self-Total = record { runs = λ d s. (d, d, refl, s) }

  pub set_ep_out-Total : (mask : ℕ) → Total I (set_ep_out mask)
  set_ep_out-Total mask = record {
    runs = λ d s. (
      tt,
      record d { ep_out = mask },
      refl,
      record {
        valid = s.valid;
        starts = s.starts;
        above = s.above;
        below = s.below;
        housed = s.housed;
        fresh = s.fresh;
        apart = s.apart;
        outside = s.outside;
        stands = s.stands;
      },
    );
  }

  pub ruleset driving = (
    pure-Total, bind-Total, then-Total, if-Total, on_regs-Total, read_reg-Quiet, write_reg-Quiet,
    modify_reg-Quiet, self-Total, set_ep_out-Total,
  )

  pub set_address-Total : (address : ℕ) → Total I (set_address p address)
  unfolding set_address
  set_address-Total address = search driving

  pub attach-Total : Total I (attach p)
  unfolding attach
  attach-Total = search driving

  pub set_interrupts-Total : (on : Bool) → Total I (set_interrupts p on)
  unfolding set_interrupts
  set_interrupts-Total on = search driving

  pub enable_zlt-Total : (addr : EndpointAddress) → Total I (enable_zlt p addr)
  unfolding enable_zlt
  enable_zlt-Total addr =
      if_ep-Total addr (λ ep0 placed mem. Endpoint.Returns.enable_zlt-Total p ep0 placed mem)

  pub poll-Total : Total I (poll p)
  unfolding poll poll_traffic
  poll-Total = search driving depth 20
