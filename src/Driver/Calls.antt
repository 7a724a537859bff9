-- ===== src/Driver/Calls.antt =====
-- The calls of a driver, one after another: which drivers they lead to.
use imxrt_usbd.Common.{ℕ, ◌≡◌, Bool, List, done, M, pure, ◌>>=◌}
use imxrt_usbd.Machine.{World}
use imxrt_usbd.Buffer.{Buffer}
use imxrt_usbd.Platform.{Platform, EndpointAddress, EndpointType}
use imxrt_usbd.Driver.{
  Driver, Speed, initialize, enable_zlt, set_interrupts, gpt_mut, set_address, attach,
  allocate_buffer, allocate_ep, poll,
}
use imxrt_usbd.Driver.Endpoints.{on_configured, bus_reset}
use imxrt_usbd.Driver.Transfers.{ctrl0_read, ctrl0_write, ep_read, ep_write, ep_stall}

-- The calls of a driver.
pub data Call : Type 0 where
  call_initialize : Speed → Call
  call_enable_zlt : EndpointAddress → Call
  call_set_interrupts : Bool → Call
  call_gpt : M World (Unit {0}) → Call
  call_set_address : ℕ → Call
  call_attach call_bus_reset call_on_configured call_poll : Call
  call_ctrl0_read call_ctrl0_write : List ℕ → Call
  call_ep_read call_ep_write : List ℕ → EndpointAddress → Call
  call_ep_stall : Bool → EndpointAddress → Call
  call_allocate_buffer : ℕ → Call
  call_allocate_ep : EndpointAddress → Buffer → EndpointType → Call

abbrev pub forget : {A : Type 0} → M Driver A → M Driver (Unit {0})
forget m = m >>= λ _. pure tt

module _ (p : Platform) where
  -- A call, with fuel for its loops; what it returns is forgotten.
  unfoldable pub perform : ℕ → Call → M Driver (Unit {0})
  perform fuel (call_initialize speed) = initialize p fuel speed
  perform fuel (call_enable_zlt addr) = enable_zlt p addr
  perform fuel (call_set_interrupts on) = set_interrupts p on
  perform fuel (call_gpt f) = gpt_mut p f
  perform fuel (call_set_address address) = set_address p address
  perform fuel call_attach = attach p
  perform fuel call_bus_reset = bus_reset p fuel
  perform fuel call_on_configured = on_configured p fuel
  perform fuel call_poll = forget (poll p)
  perform fuel (call_ctrl0_read buffer) = forget (ctrl0_read p fuel buffer)
  perform fuel (call_ctrl0_write buffer) = forget (ctrl0_write p fuel buffer)
  perform fuel (call_ep_read buffer addr) = forget (ep_read p fuel buffer addr)
  perform fuel (call_ep_write buffer addr) = forget (ep_write p fuel buffer addr)
  perform fuel (call_ep_stall stall addr) = ep_stall p fuel stall addr
  perform fuel (call_allocate_buffer size) = forget (allocate_buffer p size)
  perform fuel (call_allocate_ep addr buffer kind) = allocate_ep p addr buffer kind

  -- Drivers that calls lead to from a driver, each with some fuel and each returning.
  pub data Reachable (d : Driver) : Driver → Type 0 where
    start : Reachable d d
    then_call :
        {d1 d2 : Driver} (fuel : ℕ) (call : Call)
        → Reachable d d1
        → perform fuel call d1 ≡ done (tt, d2)
        → Reachable d d2
