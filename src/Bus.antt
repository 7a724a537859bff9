-- ===== src/Bus.antt =====
-- src/bus.rs: the bus adapter, a driver in a RefCell behind a critical section, and the operations
-- of `UsbBus` on it.
pub mod Alloc
pub mod Access
pub mod System
pub mod Abstract
pub mod Reaches
pub mod Returns
pub mod Grants
pub mod Tests
use imxrt_usbd.Common.{
  ℕ, zero, suc, ◌+◌, ◌≡◌, ◌==◌, Bool, true, false, List, Option, none, some, if◌then◌else◌, Outcome,
  done, panic, and_then, M, pure, ◌>>=◌, ◌>>◌,
}
use imxrt_usbd.Machine.{World}
use imxrt_usbd.Buffer.{Buffer, EndpointMemory}
use imxrt_usbd.State.{EndpointState}
use imxrt_usbd.Platform.{
  Platform, UsbDirection, EndpointType, EndpointAddress, Result, ok, err, invalid_endpoint,
  endpoint_memory_overflow, endpoint_overflow,
}
use imxrt_usbd.Driver
use imxrt_usbd.Driver.{Driver, Speed, high, PollResult, is_allocated, allocate_buffer, allocate_ep}
use imxrt_usbd.Driver.Endpoints.{bus_reset, on_configured}
use imxrt_usbd.Driver.Transfers.{
  ctrl0_read, ctrl0_write, ep_read, ep_write, ep_stall, is_ep_stalled,
}

-- Who holds the contents of the `RefCell`: nobody, some readers, one writer.
pub data Borrow : Type 0 where
  unused writing : Borrow
  reading : ℕ → Borrow

-- `cs` is whether the adapter has a critical section for good.
pub record BusAdapter : Type 0 where
  pub usb : Driver
  pub borrow : Borrow
  pub cs : Bool

-- cortex-m: `interrupt::free` runs a closure with interrupts off and gives what it gives.
pub record CortexM : Type 1 where
  pub free : {R : Type 0} → M BusAdapter R → M BusAdapter R
  pub free_eq : {R : Type 0} (m : M BusAdapter R) (b : BusAdapter) → free m b ≡ m b

-- What a closure does to the driver that it is given.
abbrev pub on_driver : {R : Type 0} → M Driver R → M BusAdapter R
on_driver m b = and_then (m b.usb) λ r. done (r.0, record b { usb = r.1 })

-- `usb.borrow_mut()` until the closure ends.
borrow_mut : {R : Type 0} → M BusAdapter R → M BusAdapter R
borrow_mut func b = elim b.borrow [
  | unused ↦
      and_then (func (record b { borrow = writing }))
        λ r. done (r.0, record (r.1) { borrow = unused })
  | writing ↦ panic
  | reading n ↦ panic
]

-- `usb.borrow()` until the closure ends.
borrow_shared : {R : Type 0} → M BusAdapter R → M BusAdapter R
borrow_shared func b = elim b.borrow [
  | unused ↦
      and_then (func (record b { borrow = reading 1 }))
        λ r. done (r.0, record (r.1) { borrow = unused })
  | writing ↦ panic
  | reading n ↦
      and_then (func (record b { borrow = reading (suc n) }))
        λ r. done (r.0, record (r.1) { borrow = reading n })
]

module _ (p : Platform) where
  unfoldable pub init :
      ℕ
      → EndpointMemory
      → EndpointState
      → Speed
      → Bool
      → World
      → Outcome (BusAdapter × EndpointMemory × EndpointState)
  init fuel buffer state speed cs w = and_then (Driver.new buffer state w) λ made.
      and_then (Driver.initialize p fuel speed (made.0))
        λ r. done (record { usb = r.1; borrow = unused; cs = cs }, made.1, made.2)

  unfoldable pub with_speed :
      ℕ
      → EndpointMemory
      → EndpointState
      → Speed
      → World
      → Outcome (BusAdapter × EndpointMemory × EndpointState)
  unfolding init
  with_speed fuel buffer state speed w = init fuel buffer state speed false w

  pub without_critical_sections :
      ℕ
      → EndpointMemory
      → EndpointState
      → Speed
      → World
      → Outcome (BusAdapter × EndpointMemory × EndpointState)
  unfolding init
  without_critical_sections fuel buffer state speed w = init fuel buffer state speed true w

  pub new :
      ℕ
      → EndpointMemory
      → EndpointState
      → World
      → Outcome (BusAdapter × EndpointMemory × EndpointState)
  unfolding with_speed
  new fuel buffer state w = with_speed fuel buffer state high w

  -- `is_allocated`, which leaves the driver as it is.
  abbrev pub ask_allocated : EndpointAddress → M Driver Bool
  ask_allocated addr d = and_then (is_allocated p addr d) λ b. done (b, d)

  -- A buffer for the endpoint, and the endpoint.
  unfoldable pub alloc_at : EndpointAddress → EndpointType → ℕ → M Driver (Result EndpointAddress)
  alloc_at addr ep_type max_packet_size = allocate_buffer p max_packet_size >>= λ buffer.
      elim buffer [
        | none ↦ pure (err endpoint_memory_overflow)
        | some b ↦ allocate_ep p addr b ep_type >> pure (ok addr)
      ]

  -- The loop `for idx in 1..8`, from `idx` with `left` more.
  unfoldable pub alloc_from :
      ℕ → ℕ → UsbDirection → EndpointType → ℕ → M Driver (Result EndpointAddress)
  alloc_from idx zero ep_dir ep_type max_packet_size = pure (err endpoint_overflow)
  alloc_from idx (suc left) ep_dir ep_type max_packet_size =
      ask_allocated (p.from_parts idx ep_dir) >>= λ allocated. elim allocated [
        | true ↦ alloc_from (idx + 1) left ep_dir ep_type max_packet_size
        | false ↦ alloc_at (p.from_parts idx ep_dir) ep_type max_packet_size
      ]

  -- What the closure of `alloc_ep` does.
  unfoldable pub alloc :
      UsbDirection → Option EndpointAddress → EndpointType → ℕ → M Driver (Result EndpointAddress)
  alloc ep_dir none ep_type max_packet_size = alloc_from 1 7 ep_dir ep_type max_packet_size
  alloc ep_dir (some addr) ep_type max_packet_size = ask_allocated addr >>= λ allocated.
      elim allocated [
        | true ↦ pure (err invalid_endpoint)
        | false ↦ alloc_at addr ep_type max_packet_size
      ]

module _ (c : CortexM) where
  unfoldable pub with_usb_mut : {R : Type 0} → M BusAdapter R → M BusAdapter R
  unfolding borrow_mut
  with_usb_mut func b = if b.cs then borrow_mut func b else c.free (borrow_mut func) b

  unfoldable pub with_usb : {R : Type 0} → M BusAdapter R → M BusAdapter R
  unfolding borrow_shared
  with_usb func b = if b.cs then borrow_shared func b else c.free (borrow_shared func) b

  -- `func` gets the timer, whose operations are on the world, and may call the adapter again.
  unfoldable pub gpt_mut : {R : Type 0} → M BusAdapter R → M BusAdapter R
  gpt_mut func = with_usb_mut func

  module _ (p : Platform) where
    unfoldable pub set_interrupts : Bool → M BusAdapter (Unit {0})
    set_interrupts interrupts = with_usb_mut (on_driver (Driver.set_interrupts p interrupts))

    unfoldable pub enable_zlt : EndpointAddress → M BusAdapter (Unit {0})
    enable_zlt ep_addr = with_usb_mut (on_driver (Driver.enable_zlt p ep_addr))

    unfoldable pub configure : ℕ → M BusAdapter (Unit {0})
    configure fuel = with_usb_mut (on_driver (on_configured p fuel))

    unfoldable pub alloc_ep :
        UsbDirection
        → Option EndpointAddress
        → EndpointType
        → ℕ
        → M BusAdapter (Result EndpointAddress)
    alloc_ep ep_dir ep_addr ep_type max_packet_size =
        with_usb_mut (on_driver (alloc p ep_dir ep_addr ep_type max_packet_size))

    unfoldable pub set_device_address : ℕ → M BusAdapter (Unit {0})
    set_device_address addr = with_usb_mut (on_driver (Driver.set_address p addr))

    unfoldable pub enable : M BusAdapter (Unit {0})
    enable = with_usb_mut (on_driver (Driver.attach p))

    unfoldable pub reset : ℕ → M BusAdapter (Unit {0})
    reset fuel = with_usb_mut (on_driver (bus_reset p fuel))

    unfoldable pub write : ℕ → EndpointAddress → List ℕ → M BusAdapter (Result ℕ)
    write fuel ep_addr buf = with_usb_mut (
        on_driver (
          ask_allocated p ep_addr >>= λ allocated. elim allocated [
            | false ↦ pure (err invalid_endpoint)
            | true ↦
                if p.index ep_addr == 0 then ctrl0_write p fuel buf else ep_write p fuel buf ep_addr
          ]))

    unfoldable pub read : ℕ → EndpointAddress → List ℕ → M BusAdapter (Result ℕ × List ℕ)
    read fuel ep_addr buf = with_usb_mut (
        on_driver (
          ask_allocated p ep_addr >>= λ allocated. elim allocated [
            | false ↦ pure (err invalid_endpoint, buf)
            | true ↦
                if p.index ep_addr == 0 then ctrl0_read p fuel buf else ep_read p fuel buf ep_addr
          ]))

    unfoldable pub set_stalled : ℕ → EndpointAddress → Bool → M BusAdapter (Unit {0})
    set_stalled fuel ep_addr stalled = with_usb_mut (
        on_driver (
          ask_allocated p ep_addr >>= λ allocated. elim allocated [
            | false ↦ pure tt
            | true ↦ ep_stall p fuel stalled ep_addr
          ]))

    unfoldable pub is_stalled : EndpointAddress → M BusAdapter Bool
    is_stalled ep_addr = with_usb (on_driver (is_ep_stalled p ep_addr))

    -- `suspend` and `resume` have an empty body.
    pub suspend : M BusAdapter (Unit {0})
    suspend = pure tt

    pub resume : M BusAdapter (Unit {0})
    resume = pure tt

    unfoldable pub poll : M BusAdapter PollResult
    poll = with_usb_mut (on_driver (Driver.poll p))
