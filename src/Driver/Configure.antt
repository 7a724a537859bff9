-- ===== src/Driver/Configure.antt =====
-- What configuring leaves behind: enabled endpoints, the OUT endpoints among them scheduled.
pub mod Prime
pub mod Loop
pub mod Tests
use imxrt_usbd.Common.{
  ℕ, ◌+◌, ◌*◌, ◌^◌, ◌<◌, ◌≡◌, ◌≢◌, ◌⊎◌, inl, inr, refl, sym, ap, ◌∙◌, subst, arith, Bool, true,
  false, List, [], ◌∷◌, map, ◌==◌, if◌then◌else◌, length, get_elem?-lt, get_elem?-set_ne,
  Option-cases, Bool-cases, some, none, done, M, pure, ◌>>=◌,
}
use native.Mathlib.Decide.{ℕ_discrete}
use imxrt_usbd.Buffer.{Buffer}
use imxrt_usbd.Machine.{Reg, Access, World, rd, endptctrl, endptprime}
use imxrt_usbd.Td.Pages.{page}
use imxrt_usbd.Qh
use imxrt_usbd.Platform.{Platform, EndpointAddress, UsbField, get, txe, rxe, txt, rxt}
use imxrt_usbd.Platform.Waits.{Settles}
use imxrt_usbd.State
use imxrt_usbd.State.{slot, addresses, endpoint_set}
use imxrt_usbd.State.Slots.{IsValid, at_slot, at_slot-some, at_slot-set}
use imxrt_usbd.State.Allocate.{endpoint_set-IsValid}
use imxrt_usbd.Endpoint
use imxrt_usbd.Endpoint.{Endpoint, Session, into_raw_endpoint_type, by_direction, this, is_enabled}
use imxrt_usbd.Endpoint.Control.{enabling, enable_lem, register-endptctrl}
use imxrt_usbd.Endpoint.Halves.{fields-AreHalf, put_three, put_three_other}
use imxrt_usbd.Endpoint.Transfer.{IsReady, IsPrepared, schedule_transfer-IsScheduled}
use imxrt_usbd.Driver.{Driver, if_ep, schedule_packet}
use imxrt_usbd.Driver.Lookup.{found, if_ep-found, if_ep-missing, endpoint_set-same}
use imxrt_usbd.Driver.Endpoints.{
  for_endpoints, for_nonzero, enable_endpoints, prime, prime_endpoints, on_configured,
}
use imxrt_usbd.Driver.Registers.{IsKept, AreKept, Setting, Half, IsSetUp}
use imxrt_usbd.Driver.Registers.Frame.{value_after, value-rd, value-IsScheduled}
use imxrt_usbd.Driver.Registers.Loop.{
  Hit, Standing, logged, index-lt, in_addresses, for_nonzero-sets,
}
use imxrt_usbd.Driver.Configure.Prime.{enabling_all, IsEnabled, IsWaiting, IsPrimed, prime_lem}
use imxrt_usbd.Driver.Configure.Loop.{all-Primes, still_on}

module _ (p : Platform) (keeps : AreKept p) (d : Driver) (v : IsValid p d.ep_allocator) where
  -- Over a valid endpoint allocator with no buffer in the last pages of the address space, nor the
  -- stack, a controller that takes primes within `fuel` reads and control registers that keep the
  -- enable bits and the types (`AreKept`): configuring returns, with a valid allocator. Every
  -- endpoint that stands, but those of endpoint 0, stands then with the same address, buffer and
  -- type; it reads as enabled and of its type, also where the two directions of one endpoint share a
  -- register; and if it is an OUT endpoint, it has a transfer of its packet size.
  pub on_configured-IsEnabled :
      (fuel : ℕ) (addr : EndpointAddress) (ep : Endpoint)
      → Settles p endptprime fuel
      → ((log : List Access) → p.self_slot log + 96 < 2 ^ 32)
      → ((i : ℕ) (e : Endpoint)
          → at_slot i d.ep_allocator.ep_list ≡ some e
          → page e.buffer.ptr 4 < 2 ^ 32)
      → found p addr d ≡ some ep
      → p.index ep.address ≢ 0
      → (d' : Driver) × (ep' : Endpoint) × (on_configured p fuel d ≡ done (tt, d'))
        × IsValid p d'.ep_allocator
        × (found p addr d' ≡ some ep')
        × (ep'.address ≡ ep.address)
        × (ep'.buffer ≡ ep.buffer)
        × (ep'.kind ≡ ep.kind)
        × IsEnabled p ep' d'.world.log
        × IsWaiting p ep'
  unfolding on_configured enable_endpoints prime_endpoints for_nonzero enabling_all
  on_configured-IsEnabled fuel addr ep settles low_stack low there nonzero =
      let (log, enabled, on) = for_nonzero-sets p keeps (enabling_all p) d v d.world.log in
      let loop =
        all-Primes p keeps fuel settles low_stack (logged d log) on low (addresses p) (logged d log)
          (record {
            valid = v;
            same = λ i e at. (e, at, refl, refl, refl);
            stays = λ i e at. (e, at);
            frame = λ f k n. refl;
          }) in
      let d' = loop.d' in
      let i = slot p addr in
      let (ep', there') = loop.framed.stays i ep there in
      let (ep1, there1, address, buffer, kind) = loop.framed.same i ep' there' in
      let same : ep1 ≡ ep = cc in
      let nonzero' : p.index ep'.address ≢ 0 = λ e.
        nonzero
          (sym (ap (λ (x : Endpoint). p.index x.address) same) ∙ sym (ap p.index address) ∙ e) in
      (
        d',
        ep',
        rw enabled loop.run,
        loop.framed.valid,
        there',
        address ∙ ap (λ x. x.address) same,
        buffer ∙ ap (λ x. x.buffer) same,
        kind ∙ ap (λ x. x.kind) same,
        still_on p keeps fuel settles low_stack (logged d log) on low d' i ep' loop.framed
            (there', nonzero'),
        loop.waiting i (in_addresses p d v i ep there) ep' (there', nonzero'),
      )
