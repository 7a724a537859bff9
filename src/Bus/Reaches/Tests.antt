-- ===== src/Bus/Reaches/Tests.antt =====
-- A run of the system: a new adapter, the two directions of endpoint 0, a packet of the host.
use imxrt_usbd.Common.{
  ℕ, ◌+◌, ◌<◌, ◌≤◌, ◌≡◌, ◌≢◌, refl, arith, true, false, List, [], ◌∷◌, ◌==◌, inl, none, some, done,
}
use imxrt_usbd.Machine.{Reg, Access}
use imxrt_usbd.Buffer
use imxrt_usbd.Buffer.{EndpointMemory, update}
use imxrt_usbd.Platform.{Platform, EndpointAddress, control, dir_in, dir_out, put, get, rst, sutw}
use imxrt_usbd.Platform.Laws.{get-put_self, get-put_other}
use imxrt_usbd.State
use imxrt_usbd.State.{EndpointState, slot}
use imxrt_usbd.Endpoint
use imxrt_usbd.Endpoint.{Endpoint}
use imxrt_usbd.Endpoint.Keeps.{value}
use imxrt_usbd.Endpoint.Returns.{IsPrompt}
use imxrt_usbd.Driver.{Driver, high}
use imxrt_usbd.Driver.Lookup.{found}
use imxrt_usbd.Driver.Sound.{AreApart}
use imxrt_usbd.Driver
use imxrt_usbd.Bus
use imxrt_usbd.Bus.{BusAdapter, CortexM, unused, with_speed}
use imxrt_usbd.Bus.System.{
  Call, perform, call, work, Reaches, start, later, IsTransferred, transferred, Stood,
  call_alloc_ep, call_write,
}
use imxrt_usbd.Bus.Reaches.{with_speed-returns, reached-call_returns, reached_confined, IsIdle}
use imxrt_usbd.Manual.{platform, memory, macros}
use imxrt_usbd.Manual.Layout.{layout}
use imxrt_usbd.Manual.Device.{world0, ep_out1}

-- The command register reads as it was written, but for the reset, which is over at once.
abbrev obliging : List Access → Reg → ℕ
obliging log Reg.usbcmd = macros.modify (layout rst) 0 (memory log Reg.usbcmd)
obliging log _ = 0

abbrev device : Platform
device = platform obliging 0

abbrev cortex : CortexM
cortex = record { free = λ m. m; free_eq = λ m b. refl }

reset_over : (x : ℕ) → (get device rst (put device rst 0 x) == 1) ≡ false
reset_over x = rw (get-put_self device rst 0 x) refl

still_armed : (x : ℕ) → (get device sutw (put device rst 0 (put device sutw 1 x)) == 1) ≡ true
still_armed x =
    rw
      (
        get-put_other device rst sutw 0 (put device sutw 1 x) refl (λ e. cc),
        get-put_self device sutw 1 x,
      )
      refl

prompt : IsPrompt device 1
prompt = record {
  primes = λ log. (0, omega arith, refl);
  flushes = λ log. (0, omega arith, refl);
  resets = λ log. (0, omega arith, reset_over (memory log Reg.usbcmd));
  arms = λ at log. (0, omega arith, still_armed _);
  low_stack = λ log. omega arith;
}

abbrev memory0 : EndpointMemory
memory0 = record { buffer = 0x2020_0000; size = 256; taken = false }

abbrev nothing : Driver
nothing = record {
  buffer_allocator = record { start = 0; ptr = 0 };
  ep_allocator = record {
    qh_list = [];
    td_list = [];
    ep_list = [];
    alloc_mask = 0;
    qh_base = 0;
    td_base = 0;
  };
  ep_out = 0;
  world = world0;
}

abbrev no_adapter : BusAdapter
no_adapter = record { usb = nothing; borrow = unused; cs = false }

-- The new adapter with its memory and its state, and an adapter after a call.
first : BusAdapter × EndpointMemory × EndpointState
unfolding with_speed Bus.init Driver.new Driver.initialize Driver.wait_reset Driver.set_list_addr
    Buffer.allocator State.new State.allocator State.qh_list_addr
first =
    value (no_adapter, memory0, State.new 0 0 0)
      (with_speed device 1 memory0 (State.new 2 0x2000_1000 0x2000_2000) high world0)

after : Call → BusAdapter → BusAdapter
unfolding perform Bus.alloc_ep Bus.with_usb_mut Bus.alloc Bus.alloc_at Driver.is_allocated
    Driver.allocate_buffer Driver.allocate_ep State.endpoint State.check_allocated
    State.allocate_endpoint State.try_mask_update Buffer.allocate slot
after what b = (value (tt {0}, b) (perform cortex device 1 what b)).1

made :
    with_speed device 1 memory0 (State.new 2 0x2000_1000 0x2000_2000) high world0
    ≡ done (first.0, first.1, first.2)
unfolding first
made = refl

abbrev control_out : Call
control_out = call_alloc_ep dir_out (some 0) control 64

abbrev control_in : Call
control_in = call_alloc_ep dir_in (some 128) control 64

out_ran : perform cortex device 1 control_out first.0 ≡ done (tt, after control_out first.0)
unfolding first after
out_ran = refl

allocated : BusAdapter
unfolding first after
allocated = after control_in (after control_out first.0)

in_ran : perform cortex device 1 control_in (after control_out first.0) ≡ done (tt, allocated)
unfolding allocated
in_ran = refl

out_slot : slot device 0 < 2
unfolding slot
out_slot = omega arith

in_slot : slot device 128 < 2
unfolding slot
in_slot = omega arith

slots_differ : slot device 0 ≢ slot device 128
unfolding slot
slots_differ e = absurd (omega (arith, e))

-- What stands at an address.
standing : EndpointAddress → BusAdapter → Endpoint
unfolding slot Endpoint.new
standing addr b = elim (found device addr b.usb) [ none ↦ ep_out1 | some ep ↦ ep ]

out_stands : found device 0 allocated.usb ≡ some (standing 0 allocated)
unfolding allocated standing State.endpoint_set
out_stands = refl

in_stands : found device 128 allocated.usb ≡ some (standing 128 allocated)
unfolding allocated standing State.endpoint_set
in_stands = refl

-- The host writes a byte of endpoint 0.
abbrev filled : ℕ → ℕ
filled = update allocated.usb.world.mem (standing 0 allocated).buffer.ptr 7

received :
    IsTransferred device
      (standing 0 allocated)
      (standing 0 allocated)
      allocated.usb.world.mem
      filled
unfolding allocated standing State.endpoint_set
received = record {
  same_address = refl;
  same_buffer = refl;
  same_size = refl;
  same_packet = refl;
  fewer = omega arith;
  inside = λ at out. ground arith;
}

abbrev worked : BusAdapter
worked = record allocated { usb = transferred device 0 (standing 0 allocated) filled allocated.usb }

run : Reaches cortex device 1 (first.0) worked
unfolding first after allocated slot
run =
    later (later (later start (call control_out out_slot out_ran)) (call control_in in_slot in_ran))
      (work 0 (standing 0 allocated) (standing 0 allocated) filled out_stands received)

out_worked : Stood device worked.usb 0
unfolding allocated standing State.endpoint_set
out_worked = (standing 0 allocated, refl)

in_worked : Stood device worked.usb 128
unfolding allocated standing State.endpoint_set
in_worked = (standing 128 allocated, refl)

with_speed-returns_example :
    (b : BusAdapter) × (m' : EndpointMemory) × (state' : EndpointState) × (with_speed device 1
        memory0
        (State.new 2 0x2000_1000 0x2000_2000)
        high
        world0
      ≡ done (b, m', state'))
    × IsIdle device memory0 world0.mem b
    × (m'.taken ≡ true)
    × ((State.allocator state').0 ≡ none)
with_speed-returns_example =
    with_speed-returns device memory0 (omega arith) refl 1 prompt 2 0x2000_1000 0x2000_2000 high
      world0

-- A write to endpoint 0, with both of its directions there.
reached-call_returns_example :
    (b' : BusAdapter) × (perform cortex device 1 (call_write 128 (1 ∷ 2 ∷ [])) worked
      ≡ done (tt, b'))
reached-call_returns_example =
    reached-call_returns device memory0 (omega arith) refl 1 prompt 2 0x2000_1000 0x2000_2000 high
      world0 cortex (first.0) worked (first.1) (first.2) made run (call_write 128 (1 ∷ 2 ∷ []))
      (λ zero. (out_worked, in_worked))

reached_confined_example :
    (worked.usb.world.mem 5 ≡ 5)
    × AreApart (out_worked.0) (in_worked.0)
    × (0x2020_0000 ≤ out_worked.0.buffer.ptr)
    × (out_worked.0.buffer.ptr + out_worked.0.buffer.len ≤ 0x2020_0000 + 256)
reached_confined_example =
    reached_confined device memory0 (omega arith) refl 1 prompt 2 0x2000_1000 0x2000_2000 high
      world0 cortex (first.0) worked (first.1) (first.2) made run 5 0 128 (out_worked.0)
      (in_worked.0) (inl (omega arith)) (out_worked.1) (in_worked.1) slots_differ
