-- ===== src/Driver/Reset.antt =====
-- What a bus reset leaves behind in the control registers of the endpoints.
pub mod Tests
use mathlib.Core.Path.{ap₂}
use imxrt_usbd.Common.{
  ℕ, zero, suc, ◌+◌, ◌-◌, ◌*◌, ◌^◌, ◌<◌, ◌≤◌, ◌≡◌, ◌≢◌, ◌⊎◌, inl, inr, refl, sym, ap, ◌∙◌, subst,
  arith, Bool, true, false, List, [], ◌∷◌, map, ◌==◌, if◌then◌else◌, length, get_elem?-lt,
  Option-cases, Bool-cases, some, none, done, M, pure, ◌>>=◌,
}
use native.Mathlib.Decide.{ℕ_discrete}
use imxrt_usbd.Machine.{
  Reg, Access, World, rd, wr, endptctrl, portsc1, endptnak, endptnaken, endptprime, endptflush,
  endptstat, endptcomplete,
}
use imxrt_usbd.Platform.{
  Platform, EndpointAddress, UsbField, UsbDirection, home, get, txe, rxe, txt, rxt, dir_out, dir_in,
  bulk,
}
use imxrt_usbd.Platform.Laws.{get-put_other}
use imxrt_usbd.State
use imxrt_usbd.State.{slot, addresses}
use imxrt_usbd.State.Slots.{IsValid, at_slot, at_slot-some}
use imxrt_usbd.State.Iterate.{slots_from, slot-addresses}
use imxrt_usbd.Endpoint
use imxrt_usbd.Endpoint.{Endpoint, Session, into_raw_endpoint_type, by_direction, this}
use imxrt_usbd.Endpoint.Control.{changed, initial, initialize_lem}
use imxrt_usbd.Endpoint.Halves.{enable_field, type_field, fields-AreHalf, put_two, put_two_other}
use imxrt_usbd.Driver.{Driver, if_ep}
use imxrt_usbd.Driver.Lookup.{found, if_ep-found, if_ep-missing, endpoint_set-same}
use imxrt_usbd.Driver.Endpoints.{
  for_endpoints, for_nonzero, initialize_endpoints, assert_reset, bus_reset,
}
use imxrt_usbd.Driver.Returns.Endpoints.{InReset}
use imxrt_usbd.Platform.Waits.{polled, Settles, wait_zero-Settles}
use imxrt_usbd.Driver.Registers.{AreKept, Setting, Half, IsSetUp}
use imxrt_usbd.Driver.Registers.Loop.{logged, for_nonzero-sets}

module _ (p : Platform) where
  initialising : Setting p
  initialising = record {
    op = Endpoint.initialize p;
    change = λ ep. initial p (record { ep = ep; world = record { log = []; mem = λ at. 0 } });
    on = λ ep. 0;
    kind = λ ep. into_raw_endpoint_type p bulk;
    runs = initialize_lem p;
    sets = λ ep v.
        put_two p
          (fields-AreHalf p (record { ep = ep; world = record { log = []; mem = λ at. 0 } })) bulk
          v;
    leaves = λ ep v f at e r t.
        put_two_other p
          (fields-AreHalf p (record { ep = ep; world = record { log = []; mem = λ at. 0 } })) bulk v
          f at e t;
  }

  -- The endpoint is not enabled, and its type is bulk.
  abbrev pub IsDisabled : Endpoint → List Access → Type 0
  IsDisabled ep log =
      Half p (p.direction ep.address) (p.index ep.address) 0 (into_raw_endpoint_type p bulk) log

module _ (p : Platform) (keeps : AreKept p) (d : Driver) (v : IsValid p d.ep_allocator) where
  assert_reset_lem :
      (w : World)
      → InReset p
      → (log : List Access) × (assert_reset p w ≡ done (tt, record w { log = log }))
  unfolding assert_reset
  assert_reset_lem w shows = elim (Bool-cases p.debug_assertions) [
    | inl on ↦ (rd portsc1 (p.answer w.log portsc1) ∷ w.log, ground (arith, on, shows on w.log))
    | inr off ↦ (w.log, rw off refl)
  ]

  -- The accesses of a reset before it turns to the endpoints.
  before_endpoints :
      (fuel : ℕ)
      → Settles p endptprime fuel
      → Settles p endptflush fuel
      → InReset p
      → (log : List Access) × (bus_reset p fuel d ≡ initialize_endpoints p (logged d log))
  unfolding bus_reset
  before_endpoints fuel primes flushes shows =
      let modified = λ (reg : Reg).
        λ (log : List Access). let x = p.answer log reg in wr reg x ∷ rd reg x ∷ log in
      let log1 =
        wr endptnaken 0
        ∷ modified endptnak (modified endptcomplete (modified endptstat d.world.log)) in
      let (m, ran, _) =
        wait_zero-Settles p endptprime fuel (record (d.world) { log = log1 }) primes in
      let log2 = wr endptflush (2 ^ 32 - 1) ∷ polled p endptprime log1 (suc m) in
      let (n, ran', _) =
        wait_zero-Settles p endptflush fuel (record (d.world) { log = log2 }) flushes in
      let (log3, asserted) =
        assert_reset_lem (record (d.world) { log = polled p endptflush log2 (suc n) }) shows in
      (log3, rw (ran, ran', asserted) refl)

  -- Over a valid endpoint allocator, a controller that takes primes and flushes within `fuel` reads
  -- and shows the reset in builds with debug assertions, and control registers that keep the
  -- enable bits and the types (`AreKept`): a bus reset returns, and leaves the endpoints, the
  -- allocators and memory as they were. Afterwards every endpoint that stands, but those of
  -- endpoint 0, reads as not enabled and of type bulk, also where the two directions of one endpoint
  -- share a register.
  pub bus_reset-IsDisabled :
      (fuel : ℕ) (addr : EndpointAddress) (ep : Endpoint)
      → Settles p endptprime fuel
      → Settles p endptflush fuel
      → InReset p
      → found p addr d ≡ some ep
      → p.index ep.address ≢ 0
      → (log : List Access) × (bus_reset p fuel d ≡ done (tt, logged d log)) × IsDisabled p ep log
  unfolding initialize_endpoints initialising
  bus_reset-IsDisabled fuel addr ep primes flushes shows there nonzero =
      let (log, before) = before_endpoints fuel primes flushes shows in
      let (log', ran, set) = for_nonzero-sets p keeps (initialising p) d v log in
      (log', before ∙ ran, set (slot p addr) ep (there, nonzero))
