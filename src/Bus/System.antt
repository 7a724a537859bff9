-- ===== src/Bus/System.antt =====
-- The bus adapter and the controller beside it: calls of the bus, one after another, and between them
-- the transfers that the controller carries out in the memory of the endpoints.
use imxrt_usbd.Common.{
  ℕ, ◌≤◌, ◌<◌, ◌≡◌, Bool, List, Option, none, some, length, done, M, pure, ◌>>=◌,
}
use imxrt_usbd.Machine.{World}
use imxrt_usbd.Td
use imxrt_usbd.Platform.{Platform, EndpointAddress, EndpointType, UsbDirection}
use imxrt_usbd.Platform.Prompt.{Quiet}
use imxrt_usbd.State.{slot, endpoint_set}
use imxrt_usbd.Endpoint.{Endpoint}
use imxrt_usbd.Endpoint.Returns.{IsOutside}
use imxrt_usbd.Driver.{Driver, on_regs, ctrl_ep0_out, ctrl_ep0_in}
use imxrt_usbd.Driver.Lookup.{found}
use imxrt_usbd.Driver.Returns.Endpoints.{InReset}
use imxrt_usbd.Bus.{
  BusAdapter, CortexM, on_driver, gpt_mut, set_interrupts, enable_zlt, configure, alloc_ep,
  set_device_address, enable, reset, write, read, set_stalled, is_stalled, suspend, resume, poll,
}

-- The calls of a bus adapter.
pub data Call : Type 0 where
  call_set_interrupts : Bool → Call
  call_enable_zlt : EndpointAddress → Call
  call_configure call_enable call_reset call_suspend call_resume call_poll : Call
  call_gpt_mut : M World (Unit {0}) → Call
  call_alloc_ep : UsbDirection → Option EndpointAddress → EndpointType → ℕ → Call
  call_set_device_address : ℕ → Call
  call_write call_read : EndpointAddress → List ℕ → Call
  call_set_stalled : EndpointAddress → Bool → Call
  call_is_stalled : EndpointAddress → Call

abbrev forget : {A : Type 0} → M BusAdapter A → M BusAdapter (Unit {0})
forget m = m >>= λ _. pure tt

-- A call, with fuel for its loops; what it returns is forgotten.
unfoldable pub perform : CortexM → Platform → ℕ → Call → M BusAdapter (Unit {0})
unfolding suspend resume
perform c p fuel (call_set_interrupts on) = set_interrupts c p on
perform c p fuel (call_enable_zlt addr) = enable_zlt c p addr
perform c p fuel call_configure = configure c p fuel
perform c p fuel call_enable = enable c p
perform c p fuel call_reset = reset c p fuel
perform c p fuel call_suspend = suspend c p
perform c p fuel call_resume = resume c p
perform c p fuel call_poll = forget (poll c p)
perform c p fuel (call_gpt_mut f) = gpt_mut c (on_driver (on_regs f))
perform c p fuel (call_alloc_ep dir addr kind size) = forget (alloc_ep c p dir addr kind size)
perform c p fuel (call_set_device_address addr) = set_device_address c p addr
perform c p fuel (call_write addr buf) = forget (write c p fuel addr buf)
perform c p fuel (call_read addr buf) = forget (read c p fuel addr buf)
perform c p fuel (call_set_stalled addr stalled) = set_stalled c p fuel addr stalled
perform c p fuel (call_is_stalled addr) = forget (is_stalled c p addr)

-- An endpoint stands at an address.
abbrev pub Stood : Platform → Driver → EndpointAddress → Type 0
Stood p d addr = (ep : Endpoint) × (found p addr d ≡ some ep)

-- What the callers of the bus must see to. An endpoint is asked for where the state has a slot for it;
-- to read or write endpoint 0, both of its directions stand; only an endpoint that stands is asked if
-- it is stalled; the closure on a timer returns; a reset is handled while the port is in reset.
abbrev pub Permitted : Platform → Driver → Call → Type 0
Permitted p d (call_alloc_ep dir none kind size) = length d.ep_allocator.qh_list ≡ 16
Permitted p d (call_alloc_ep dir (some addr) kind size) =
    slot p addr < length d.ep_allocator.qh_list
Permitted p d (call_write addr buf) =
    p.index addr ≡ 0 → Stood p d (ctrl_ep0_out p) × Stood p d (ctrl_ep0_in p)
Permitted p d (call_read addr buf) = p.index addr ≡ 0 → Stood p d (ctrl_ep0_out p)
Permitted p d (call_is_stalled addr) = Stood p d addr
Permitted p d (call_gpt_mut f) = Quiet f
Permitted p d call_reset = InReset p
Permitted p d _ = Unit {0}

-- The controller has worked on a transfer of `ep`: it leaves no more bytes to transfer than before, and
-- writes memory in the endpoint's buffer only. The status, the pointers and the overlay may be any.
pub record IsTransferred (p : Platform) (ep ep' : Endpoint) (mem mem' : ℕ → ℕ) : Type 0 where
  pub same_address : ep'.address ≡ ep.address
  pub same_buffer : ep'.buffer ≡ ep.buffer
  pub same_size : ep'.td.last_transfer_size ≡ ep.td.last_transfer_size
  pub same_packet : ep'.qh.capabilities ≡ ep.qh.capabilities
  pub fewer : p.ral.read Td.total_bytes ep'.td.token ≤ p.ral.read Td.total_bytes ep.td.token
  pub inside : (at : ℕ) → IsOutside ep at → mem' at ≡ mem at

-- The driver when an endpoint has become `ep'` and memory `mem'`.
abbrev pub transferred : Platform → EndpointAddress → Endpoint → (ℕ → ℕ) → Driver → Driver
transferred p addr ep' mem' d = record d {
  ep_allocator = endpoint_set p addr ep' d.ep_allocator;
  world = record (d.world) { mem = mem' };
}

-- One step of the system: a permitted call that returns, or work of the controller.
pub data Step (c : CortexM) (p : Platform) (fuel : ℕ) (b : BusAdapter) : BusAdapter → Type 0 where
  call :
      (what : Call) {b' : BusAdapter}
      → Permitted p b.usb what
      → perform c p fuel what b ≡ done (tt, b')
      → Step c p fuel b b'
  work :
      (addr : EndpointAddress) (ep ep' : Endpoint) (mem' : ℕ → ℕ)
      → found p addr b.usb ≡ some ep
      → IsTransferred p ep ep' b.usb.world.mem mem'
      → Step c p fuel b (record b { usb = transferred p addr ep' mem' b.usb })

pub data Reaches (c : CortexM) (p : Platform) (fuel : ℕ) (b : BusAdapter)
    : BusAdapter → Type 0 where
  start : Reaches c p fuel b b
  later : {b1 b2 : BusAdapter} → Reaches c p fuel b b1 → Step c p fuel b1 b2 → Reaches c p fuel b b2
