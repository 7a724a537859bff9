-- ===== src/Bus/Returns.antt =====
-- The adapter over a sound driver: every permitted call returns, and any run of the system stays in
-- the endpoint memory.
use imxrt_usbd.Common.{
  ℕ, ◌≡◌, refl, ap, ◌∙◌, Bool, true, false, List, Option, none, some, ◌==◌, ==_iff, if◌then◌else◌,
  Option-cases, inl, inr, Outcome, done, and_then, M,
}
use imxrt_usbd.Common.Total.{Total}
use imxrt_usbd.Machine.{World}
use imxrt_usbd.Buffer.{EndpointMemory}
use imxrt_usbd.Platform.{Platform, UsbDirection, EndpointType, EndpointAddress}
use imxrt_usbd.State.Slots.{endpoint_lem}
use imxrt_usbd.Endpoint.Control.{is_stalled_log}
use imxrt_usbd.Endpoint.Returns.{IsPrompt}
use imxrt_usbd.Driver
use imxrt_usbd.Driver.{Driver, on_regs, ctrl_ep0_out, ctrl_ep0_in}
use imxrt_usbd.Driver.Lookup.{found, is_allocated_lem}
use imxrt_usbd.Driver.Sound.{IsSound, IsLow, world-IsSound, found-IsPlaced}
use imxrt_usbd.Driver.Returns.{
  on_regs-Total, set_interrupts-Total, enable_zlt-Total, attach-Total, set_address-Total,
  poll-Total,
}
use imxrt_usbd.Driver.Transfers.{is_ep_stalled}
use imxrt_usbd.Driver.Returns.Transfers.{
  ctrl0_read-Total, ctrl0_write-Total, ep_read-Total, ep_write-Total, ep_stall-Total,
}
use imxrt_usbd.Driver.Returns.Endpoints.{bus_reset-Total, on_configured-Total}
use imxrt_usbd.Bus.{
  BusAdapter, CortexM, unused, alloc, with_usb_mut, on_driver, gpt_mut, set_interrupts, enable_zlt,
  configure, alloc_ep, set_device_address, enable, reset, set_stalled, is_stalled, poll,
}
use imxrt_usbd.Bus.Access.{
  finish, with_usb_mut-unused, with_usb-unused, bus_read_lem, bus_write_lem,
}
use imxrt_usbd.Bus.Grants.{alloc_any-returns, alloc_given-returns}
use imxrt_usbd.Bus.System.{
  Call, perform, Stood, Permitted, call_set_interrupts, call_enable_zlt, call_configure,
  call_enable, call_reset, call_suspend, call_resume, call_poll, call_gpt_mut, call_alloc_ep,
  call_set_device_address, call_write, call_read, call_set_stalled, call_is_stalled,
}

-- An adapter that nobody holds.
abbrev pub idle : Bool → Driver → BusAdapter
idle cs usb = record { usb = usb; borrow = unused; cs = cs }

module _ (c : CortexM) (p : Platform) (m : EndpointMemory) (mem : ℕ → ℕ) (low : IsLow m) (fuel : ℕ)
    (prompt : IsPrompt p fuel) (usb : Driver) (cs : Bool)
    (s : IsSound p m mem (Stood p usb) usb) where
  abbrev Needs : EndpointAddress → Type 0
  Needs = Stood p usb

  abbrev forgotten : {R : Type 0} → Outcome (R × BusAdapter) → Outcome (Unit {0} × BusAdapter)
  forgotten o = and_then o λ r. done (tt, r.1)

  -- What an operation of the driver comes to.
  abbrev Ends : {R : Type 0} → Outcome (R × Driver) → Type 0
  Ends {R} o = (r : R) × (usb' : Driver) × (o ≡ done (r, usb')) × IsSound p m mem (Stood p usb) usb'

  abbrev Answers : Call → Type 0
  Answers what =
      (usb' : Driver) × (perform c p fuel what (idle cs usb) ≡ done (tt, idle cs usb'))
      × IsSound p m mem (Stood p usb) usb'

  total : {R : Type 0} {k : M Driver R} → Total (IsSound p m mem Needs) k → Ends (k usb)
  total km = km.runs usb s

  -- A driver operation through the adapter.
  through :
      {R : Type 0} (k : M Driver R)
      → Ends (k usb)
      → (r : R) × (usb' : Driver) × (with_usb_mut c (on_driver k) (idle cs usb)
          ≡ done (r, idle cs usb'))
        × IsSound p m mem Needs usb'
  through k (r, usb', ran, s') = (r, usb', with_usb_mut-unused c k usb cs ∙ ap (finish cs) ran, s')

  returns :
      (k : M Driver (Unit {0}))
      → Ends (k usb)
      → (usb' : Driver) × (with_usb_mut c (on_driver k) (idle cs usb) ≡ done (tt, idle cs usb'))
        × IsSound p m mem Needs usb'
  returns k ends = let (_, usb', ran, s') = through k ends in (usb', ran, s')

  choose :
      {R : Type 0} (t : Bool) {x y : Outcome (R × Driver)}
      → ((t ≡ true) → Ends x)
      → ((t ≡ false) → Ends y)
      → Ends (if t then x else y)
  choose true kx ky = kx refl
  choose false kx ky = ky refl

  read_returns :
      (addr : EndpointAddress) (buf : List ℕ)
      → Permitted p usb (call_read addr buf)
      → Answers (call_read addr buf)
  unfolding perform
  read_returns addr buf allowed = elim (Option-cases (found p addr usb)) [
    | inl gone ↦ (usb, rw (bus_read_lem c p fuel usb cs addr buf s.valid, gone) refl, s)
    | inr (ep, there) ↦
        let (r, usb', ran, s') =
          choose (p.index addr == 0)
            (λ zero. total (
              ctrl0_read-Total p m low mem Needs fuel buf prompt
                (allowed ((==_iff (p.index addr) 0).0 zero))))
            (λ _. total (ep_read-Total p m low mem Needs fuel buf addr prompt (ep, there))) in
        (usb', rw (bus_read_lem c p fuel usb cs addr buf s.valid, there, ran) refl, s')
  ]

  write_returns :
      (addr : EndpointAddress) (buf : List ℕ)
      → Permitted p usb (call_write addr buf)
      → Answers (call_write addr buf)
  unfolding perform
  write_returns addr buf allowed = elim (Option-cases (found p addr usb)) [
    | inl gone ↦ (usb, rw (bus_write_lem c p fuel usb cs addr buf s.valid, gone) refl, s)
    | inr (ep, there) ↦
        let (r, usb', ran, s') =
          choose (p.index addr == 0)
            (λ zero.
              let (need_out, need_in) = allowed ((==_iff (p.index addr) 0).0 zero) in
              total (ctrl0_write-Total p m low mem Needs fuel buf prompt need_out need_in))
            (λ _. total (ep_write-Total p m low mem Needs fuel buf addr prompt (ep, there))) in
        (usb', rw (bus_write_lem c p fuel usb cs addr buf s.valid, there, ran) refl, s')
  ]

  set_stalled_returns :
      (addr : EndpointAddress) (stalled : Bool) → Answers (call_set_stalled addr stalled)
  unfolding perform set_stalled
  set_stalled_returns addr stalled = elim (Option-cases (found p addr usb)) [
    | inl gone ↦ returns _ (tt, usb, rw (is_allocated_lem p addr usb s.valid, gone) refl, s)
    | inr (ep, there) ↦
        let (r, usb', ran, s') =
          total (ep_stall-Total p m low mem Needs fuel stalled addr prompt (ep, there)) in
        returns _ (tt, usb', rw (is_allocated_lem p addr usb s.valid, there) ran, s')
  ]

  alloc_returns :
      (dir : UsbDirection) (addr : Option EndpointAddress) (kind : EndpointType) (size : ℕ)
      → Permitted p usb (call_alloc_ep dir addr kind size)
      → Answers (call_alloc_ep dir addr kind size)
  unfolding perform alloc_ep
  alloc_returns dir none kind size full =
      let (r, usb', ran, s') =
        through (alloc p dir none kind size)
          (alloc_any-returns p m mem Needs kind size usb s dir full) in
      (usb', rw ran refl, s')
  alloc_returns dir (some addr) kind size in_range =
      let (r, usb', ran, s') =
        through (alloc p dir (some addr) kind size)
          (alloc_given-returns p m mem Needs kind size usb s dir addr in_range) in
      (usb', rw ran refl, s')

  poll_returns : Answers call_poll
  unfolding perform poll
  poll_returns =
      let (r, usb', ran, s') = through (Driver.poll p) (total (poll-Total p m low mem Needs)) in
      (usb', rw ran refl, s')

  is_stalled_returns : (addr : EndpointAddress) → Stood p usb addr → Answers (call_is_stalled addr)
  unfolding perform is_stalled is_ep_stalled
  is_stalled_returns addr (ep, there) =
      let placed = found-IsPlaced p m low mem Needs usb s addr ep there in
      let (b, log, ran) =
        is_stalled_log p (record { ep = ep; world = usb.world }) placed.numbered in
      let world : World = record (usb.world) { log = log } in
      let told : is_ep_stalled p addr usb ≡ done (b, record usb { world = world }) =
        rw (endpoint_lem p usb.ep_allocator s.valid addr, there, ran) refl in
      (
        record usb { world = world },
        ap forgotten (with_usb-unused c (is_ep_stalled p addr) usb cs ∙ ap (finish cs) told),
        world-IsSound p m mem Needs usb world s refl,
      )

  -- Every permitted call on an adapter that nobody holds, over a sound driver, returns.
  pub perform-returns : (what : Call) → Permitted p usb what → Answers what
  unfolding perform set_interrupts enable_zlt configure enable reset gpt_mut set_device_address
  perform-returns (call_set_interrupts on) allowed =
      returns _ (total (set_interrupts-Total p m low mem Needs on))
  perform-returns (call_enable_zlt addr) allowed =
      returns _ (total (enable_zlt-Total p m low mem Needs addr))
  perform-returns call_configure allowed =
      returns _ (total (on_configured-Total p m low mem Needs fuel prompt))
  perform-returns call_enable allowed = returns _ (total (attach-Total p m low mem Needs))
  perform-returns call_reset allowed =
      returns _ (total (bus_reset-Total p m low mem Needs fuel prompt allowed))
  perform-returns call_suspend allowed = (usb, refl, s)
  perform-returns call_resume allowed = (usb, refl, s)
  perform-returns call_poll allowed = poll_returns
  perform-returns (call_gpt_mut f) allowed =
      returns _ (total (on_regs-Total p m low mem Needs allowed))
  perform-returns (call_alloc_ep dir addr kind size) allowed =
      alloc_returns dir addr kind size allowed
  perform-returns (call_set_device_address addr) allowed =
      returns _ (total (set_address-Total p m low mem Needs addr))
  perform-returns (call_write addr buf) allowed = write_returns addr buf allowed
  perform-returns (call_read addr buf) allowed = read_returns addr buf allowed
  perform-returns (call_set_stalled addr stalled) allowed = set_stalled_returns addr stalled
  perform-returns (call_is_stalled addr) allowed = is_stalled_returns addr allowed
