-- ===== src/Driver/Reachable.antt =====
-- Every driver that any sequence of calls leads to has a valid endpoint allocator.
pub mod Tests
use imxrt_usbd.Common.{
  ℕ, ◌≡◌, ◌<◌, ◌≤◌, refl, sym, ap, ◌∙◌, arith, Bool, true, false, List, Option, none, some, ◌==◌,
  length, if◌then◌else◌, done, panic, Option-cases, Outcome, and_then, subst, inl, inr, M, pure,
  unwrap, ◌>>=◌, ◌>>◌,
}
use native.Mathlib.Decide.{dec_lt}
use imxrt_usbd.Machine.{World}
use imxrt_usbd.Buffer
use imxrt_usbd.Buffer.{Buffer, EndpointMemory, allocate}
use imxrt_usbd.Platform.{Platform, EndpointAddress, EndpointType, Result, ok, err}
use imxrt_usbd.Endpoint.{Endpoint, Session, this}
use imxrt_usbd.Endpoint.Keeps.{
  KeepsAddress, keeping, bind-keeps, this-keeps, if-keeps, pure-keeps, enable_zlt-keeps,
  enable-keeps, initialize-keeps, has_setup-keeps, value, and_then-done,
}
use imxrt_usbd.State
use imxrt_usbd.State.{EndpointState, EndpointAllocator, slot, allocate_endpoint}
use imxrt_usbd.State.Slots.{IsValid, at_slot}
use imxrt_usbd.State.Iterate.{allocator-new}
use imxrt_usbd.State.Allocate.{allocate_endpoint_refused, allocate_endpoint_granted}
use imxrt_usbd.Driver.{
  Driver, Speed, new, set_list_addr, initialize, enable_zlt, set_interrupts, gpt_mut, set_address,
  attach, allocate_buffer, allocate_ep, poll, poll_traffic,
}
use imxrt_usbd.Driver.Lookup.{found}
use imxrt_usbd.Driver.Endpoints.{
  for_nonzero, assert_reset, initialize_endpoints, enable_endpoints, prime_endpoints, on_configured,
  bus_reset,
}
use imxrt_usbd.Driver.Transfers.{
  ctrl0_read, ctrl0_write, then_status, ep_read, ep_write, ep_stall, is_ep_stalled,
}
use imxrt_usbd.Driver.Sessions.{
  control_status-keeps, control_setup-keeps, write_data-keeps, status_phase-keeps,
  read_completed-keeps, stall_session-keeps, prime-keeps,
}
use imxrt_usbd.Driver.Invariant.{
  KeepsValid, ends, pure-valid, bind-valid, then-valid, if-valid, on_regs-valid, self-valid,
  set_ep_out-valid, with_ep-valid, if_ep-valid, for_endpoints-valid,
}
use imxrt_usbd.Driver.Calls.{
  Call, forget, perform, Reachable, start, then_call, call_initialize, call_enable_zlt,
  call_set_interrupts, call_gpt, call_set_address, call_attach, call_bus_reset, call_on_configured,
  call_poll, call_ctrl0_read, call_ctrl0_write, call_ep_read, call_ep_write, call_ep_stall,
  call_allocate_buffer, call_allocate_ep,
}

module _ (p : Platform) where
  ruleset staying =
      (then-valid, bind-valid, pure-valid, if-valid, on_regs-valid, self-valid, set_ep_out-valid)

  for_nonzero-valid : {m : M Session (Unit {0})} → KeepsAddress m → KeepsValid p (for_nonzero p m)
  unfolding for_nonzero
  for_nonzero-valid {m} km =
      for_endpoints-valid p (State.addresses p)
        (bind-keeps this-keeps λ ep. if-keeps (p.index ep.address == 0) (pure-keeps tt) km)

  ctrl0_read-valid : (fuel : ℕ) (buffer : List ℕ) → KeepsValid p (ctrl0_read p fuel buffer)
  unfolding ctrl0_read
  ctrl0_read-valid fuel buffer =
      with_ep-valid p _
        (search (keeping, has_setup-keeps, control_setup-keeps, control_status-keeps))

  then_status-valid : (fuel : ℕ) (r : Result ℕ) → KeepsValid p (then_status p fuel r)
  unfolding then_status
  then_status-valid fuel (err e) = search staying
  then_status-valid fuel (ok written) = search (staying, with_ep-valid, status_phase-keeps)

  ep_read-valid :
      (fuel : ℕ) (buffer : List ℕ) (addr : EndpointAddress)
      → KeepsValid p (ep_read p fuel buffer addr)
  unfolding ep_read
  ep_read-valid fuel buffer addr = record {
    keeps = λ d. (with_ep-valid p addr (read_completed-keeps p fuel d.ep_out buffer)).keeps d;
  }

  ctrl0_write-valid : (fuel : ℕ) (buffer : List ℕ) → KeepsValid p (ctrl0_write p fuel buffer)
  unfolding ctrl0_write
  ctrl0_write-valid fuel buffer =
      search (staying, with_ep-valid, write_data-keeps, then_status-valid)

  -- One access after another.
  ruleset accesses = (then-valid, on_regs-valid)

  set_list_addr-valid : KeepsValid p (set_list_addr p)
  unfolding set_list_addr
  set_list_addr-valid = search staying

  initialize-valid : (fuel : ℕ) (speed : Speed) → KeepsValid p (initialize p fuel speed)
  unfolding initialize
  initialize-valid fuel speed = search (accesses, set_list_addr-valid) depth 30

  initialize_endpoints-valid : KeepsValid p (initialize_endpoints p)
  unfolding initialize_endpoints
  initialize_endpoints-valid = for_nonzero-valid (initialize-keeps p)

  enable_endpoints-valid : KeepsValid p (enable_endpoints p)
  unfolding enable_endpoints
  enable_endpoints-valid = for_nonzero-valid (enable-keeps p)

  prime_endpoints-valid : (fuel : ℕ) → KeepsValid p (prime_endpoints p fuel)
  unfolding prime_endpoints
  prime_endpoints-valid fuel = for_nonzero-valid (prime-keeps p fuel)

  bus_reset-valid : (fuel : ℕ) → KeepsValid p (bus_reset p fuel)
  unfolding bus_reset
  bus_reset-valid fuel = search (accesses, initialize_endpoints-valid) depth 20 fits 20000

  on_configured-valid : (fuel : ℕ) → KeepsValid p (on_configured p fuel)
  unfolding on_configured
  on_configured-valid fuel = search (staying, enable_endpoints-valid, prime_endpoints-valid)

  poll-valid : KeepsValid p (poll p)
  unfolding poll poll_traffic
  poll-valid = search staying depth 20

  set_interrupts-valid : (on : Bool) → KeepsValid p (set_interrupts p on)
  unfolding set_interrupts
  set_interrupts-valid on = search staying

  enable_zlt-valid : (addr : EndpointAddress) → KeepsValid p (enable_zlt p addr)
  unfolding enable_zlt
  enable_zlt-valid addr = if_ep-valid p addr (enable_zlt-keeps p)

  same_valid :
      (r r' : Option Endpoint × EndpointAllocator)
      → ◌≡◌ {A = Outcome (Option Endpoint × EndpointAllocator)} (done r) (done r')
      → IsValid p r.1
      → IsValid p r'.1
  same_valid r r' e v =
      subst (λ (x : EndpointAllocator). IsValid p x)
        (ap (λ (o : Outcome (Option Endpoint × EndpointAllocator)). (value r o).1) e) v

  -- Whether it is granted or refused, a request leaves a valid allocator.
  pub allocate_endpoint-IsValid :
      (addr : EndpointAddress) (buffer : Buffer) (kind : EndpointType) (a : EndpointAllocator)
      (r : Option Endpoint × EndpointAllocator)
      → IsValid p a
      → allocate_endpoint p addr buffer kind a ≡ done r
      → IsValid p r.1
  allocate_endpoint-IsValid addr buffer kind a r v e =
      elim (dec_lt (slot p addr) (length a.qh_list)) [
        | no out ↦
            same_valid (none, a) r
              (sym (allocate_endpoint_refused p a v addr buffer kind (inl (omega arith))) ∙ e) v
        | yes in_range ↦ elim (Option-cases (at_slot (slot p addr) a.ep_list)) [
          | inl free ↦
              let (ep, a', ran, valid, _, _, _, _, _) =
                allocate_endpoint_granted p a v addr buffer kind in_range free in
              same_valid (some ep, a') r (sym ran ∙ e) valid
          | inr taken ↦
              same_valid (none, a) r
                (sym (allocate_endpoint_refused p a v addr buffer kind (inr taken)) ∙ e) v
        ]
      ]

  allocate_ep-valid :
      (addr : EndpointAddress) (buffer : Buffer) (kind : EndpointType)
      → KeepsValid p (allocate_ep p addr buffer kind)
  unfolding allocate_ep
  allocate_ep-valid addr buffer kind = record {
    keeps = λ d b d' e v.
        let (r, ran, rest) =
          and_then-done (allocate_endpoint p addr buffer kind d.ep_allocator)
            (λ r. and_then (unwrap (r.0)) λ ep. done (tt, record d { ep_allocator = r.1 })) (b, d')
            e in
        let (ep, _, last) =
          and_then-done (unwrap (r.0)) (λ ep. done (tt {0}, record d { ep_allocator = r.1 }))
            (b, d') rest in
        ends p (record d { ep_allocator = r.1 }) d' tt b last
          (allocate_endpoint-IsValid addr buffer kind d.ep_allocator r v ran);
  }

  allocate_buffer-valid : (size : ℕ) → KeepsValid p (allocate_buffer p size)
  unfolding allocate_buffer
  allocate_buffer-valid size = record {
    keeps = λ d b d' e.
        ends p (record d { buffer_allocator = (allocate d.buffer_allocator size).1 }) d'
          (allocate d.buffer_allocator size).0 b e;
  }

  forget-valid : {A : Type 0} {m : M Driver A} → KeepsValid p m → KeepsValid p (forget m)
  forget-valid km = bind-valid p km (λ _. pure-valid p tt)

  perform-valid : (fuel : ℕ) (call : Call) → KeepsValid p (perform p fuel call)
  unfolding perform gpt_mut set_address attach ep_write ep_stall
  perform-valid fuel (call_initialize speed) = initialize-valid fuel speed
  perform-valid fuel (call_enable_zlt addr) = enable_zlt-valid addr
  perform-valid fuel (call_set_interrupts on) = set_interrupts-valid on
  perform-valid fuel (call_gpt f) = on_regs-valid p f
  perform-valid fuel (call_set_address address) = search staying
  perform-valid fuel call_attach = search staying
  perform-valid fuel call_bus_reset = bus_reset-valid fuel
  perform-valid fuel call_on_configured = on_configured-valid fuel
  perform-valid fuel call_poll = forget-valid poll-valid
  perform-valid fuel (call_ctrl0_read buffer) = forget-valid (ctrl0_read-valid fuel buffer)
  perform-valid fuel (call_ctrl0_write buffer) = forget-valid (ctrl0_write-valid fuel buffer)
  perform-valid fuel (call_ep_read buffer addr) = forget-valid (ep_read-valid fuel buffer addr)
  perform-valid fuel (call_ep_write buffer addr) =
      forget-valid (with_ep-valid p addr (write_data-keeps p fuel buffer))
  perform-valid fuel (call_ep_stall stall addr) =
      with_ep-valid p addr (stall_session-keeps p fuel stall addr)
  perform-valid fuel (call_allocate_buffer size) = forget-valid (allocate_buffer-valid size)
  perform-valid fuel (call_allocate_ep addr buffer kind) = allocate_ep-valid addr buffer kind

  steps-valid :
      (d d' : Driver) → IsValid p d.ep_allocator → Reachable p d d' → IsValid p d'.ep_allocator
  steps-valid d d' v start = v
  steps-valid d d' v (then_call {d1} fuel call before ran) =
      (perform-valid fuel call).keeps d1 tt d' ran (steps-valid d d1 v before)

  new-IsValid :
      (buffer : EndpointMemory) (count qh_base td_base : ℕ) (w : World)
      (made : Driver × EndpointMemory × EndpointState)
      → new buffer (State.new count qh_base td_base) w ≡ done made
      → IsValid p made.0.ep_allocator
  unfolding new
  new-IsValid buffer count qh_base td_base w made e =
      let (a, there, valid, _, _) = allocator-new p count qh_base td_base in
      let (given, got, rest) =
        and_then-done (unwrap (State.allocator (State.new count qh_base td_base)).0) _ made e in
      let (memory, _, last) = and_then-done (unwrap (Buffer.allocator buffer).0) _ made rest in
      let same : a ≡ given = ap (value a) (sym (ap unwrap there) ∙ got) in
      subst (λ (x : EndpointAllocator). IsValid p x)
        (same
          ∙ ap
              (λ (o : Outcome (Driver × EndpointMemory × EndpointState)).
                (value made o).0.ep_allocator)
              last)
        valid

  -- A driver made over a new endpoint state of any size has a valid endpoint allocator, and so has every
  -- driver that any sequence of calls that return leads to.
  pub Reachable-IsValid :
      (buffer : EndpointMemory) (count qh_base td_base : ℕ) (w : World) (d d' : Driver)
      (buffer' : EndpointMemory) (state' : EndpointState)
      → new buffer (State.new count qh_base td_base) w ≡ done (d, buffer', state')
      → Reachable p d d'
      → IsValid p d'.ep_allocator
  Reachable-IsValid buffer count qh_base td_base w d d' buffer' state' made calls =
      steps-valid d d' (new-IsValid buffer count qh_base td_base w (d, buffer', state') made) calls
