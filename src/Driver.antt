-- ===== src/Driver.antt =====
-- src/driver.rs: the driver, which owns the allocators of endpoints and of endpoint memory, with
-- `endpoint_mut` of an address as an endpoint's session over the world.
pub mod Endpoints
pub mod Lookup
pub mod Invariant
pub mod Calls
pub mod Sessions
pub mod Served
pub mod Delivery
pub mod Returns
pub mod Sound
pub mod Reachable
pub mod Poll
pub mod Control
pub mod Status
pub mod Stalls
pub mod Registers
pub mod Configure
pub mod Agreement
pub mod Reset
pub mod Tests
pub mod Reads
pub mod Writes
pub mod Transfers
use imxrt_usbd.Common.{
  ℕ, zero, suc, ◌+◌, ◌-◌, ◌*◌, ◌/◌, ◌%◌, ◌^◌, bit_and, Bool, true, false, not, ◌&&◌, ◌||◌, List, [],
  ◌∷◌, ◌++◌, Option, none, some, if◌then◌else◌, ◌==◌, leb, length, drop, Outcome, done, panic, hang,
  and_then, M, pure, lift, unwrap, ◌>>=◌, ◌>>◌,
}
use imxrt_usbd.Ral.{Field}
use imxrt_usbd.Machine.{
  Reg, World, usbcmd, usbsts, usbintr, usbmode, portsc1, deviceaddr, asynclistaddr, endptnak,
  endptnaken, endptsetupstat, endptprime, endptflush, endptstat, endptcomplete, phy_ctrl_set,
  phy_ctrl_clr, phy_pwd, one_shl16,
}
use imxrt_usbd.Buffer
use imxrt_usbd.Buffer.{Buffer, EndpointMemory}
use imxrt_usbd.State
use imxrt_usbd.State.{EndpointState, EndpointAllocator}
use imxrt_usbd.Qh
use imxrt_usbd.Platform.{
  Platform, read_reg, write_reg, modify_reg, get, put, wait_zero, itc, rst, rs, uri, ui, ue, ure,
  cm, slom, pfsc, pr, usbadr, usbadra, etce, erce, sftrst, clkgate, UsbDirection, dir_out, dir_in,
  EndpointType, UsbError, Result, ok, err, would_block, EndpointAddress,
}
use imxrt_usbd.Endpoint
use imxrt_usbd.Endpoint.{Endpoint, Session, on_world, this, is_out}

pub data Speed : Type 0 where
  low_full high : Speed

pub data PollResult : Type 0 where
  nothing reset : PollResult
  traffic : ℕ → ℕ → ℕ → PollResult

-- The register instances are the world.
pub record Driver : Type 0 where
  pub buffer_allocator : Buffer.Allocator
  pub ep_allocator : EndpointAllocator
  pub ep_out : ℕ
  pub world : World

-- A computation on the world alone.
abbrev pub on_regs : {A : Type 0} → M World A → M Driver A
on_regs m d = and_then (m d.world) λ r. done (r.0, record d { world = r.1 })

abbrev pub self : M Driver Driver
self d = done (d, d)

abbrev pub set_ep_out : ℕ → M Driver (Unit {0})
set_ep_out mask d = done (tt, record d { ep_out = mask })

-- What `new` does to the two statics is in the result.
unfoldable pub new :
    EndpointMemory → EndpointState → World → Outcome (Driver × EndpointMemory × EndpointState)
new buffer state w =
    let (eps, state1) = State.allocator state in
    and_then (unwrap eps) λ ep_allocator.
      let (bufs, buffer1) = Buffer.allocator buffer in
      and_then (unwrap bufs) λ buffer_allocator. done (
        record {
          buffer_allocator = buffer_allocator;
          ep_allocator = ep_allocator;
          ep_out = 0;
          world = w;
        },
        buffer1,
        state1,
      )

module _ (p : Platform) where
  open p use {checks, index, direction, from_parts}

  abbrev pub ctrl_ep0_out : EndpointAddress
  ctrl_ep0_out = from_parts 0 dir_out

  abbrev pub ctrl_ep0_in : EndpointAddress
  ctrl_ep0_in = from_parts 0 dir_in

  -- A session with an endpoint that is found: its changes are in the allocator afterwards.
  abbrev pub in_session : {A : Type 0} → EndpointAddress → Endpoint → M Session A → M Driver A
  in_session addr ep m d = and_then (m (record { ep = ep; world = d.world })) λ r. done (
    r.0,
    record d { ep_allocator = State.endpoint_set p addr r.1.ep d.ep_allocator; world = r.1.world },
  )

  -- `endpoint_mut(addr).unwrap()`, and what follows on the endpoint.
  unfoldable pub with_ep : {A : Type 0} → EndpointAddress → M Session A → M Driver A
  with_ep addr m d =
      and_then (State.endpoint p addr d.ep_allocator)
        λ found. and_then (unwrap found) λ ep. in_session addr ep m d

  -- `if let Some(ep) = endpoint_mut(addr)`
  unfoldable pub if_ep : EndpointAddress → M Session (Unit {0}) → M Driver (Unit {0})
  if_ep addr m d =
      and_then (State.endpoint p addr d.ep_allocator)
        λ found. elim found [ none ↦ done (tt, d) | some ep ↦ in_session addr ep m d ]

  -- `schedule_transfer` with the maximum packet length.
  unfoldable pub schedule_packet : ℕ → M Session (Unit {0})
  schedule_packet fuel =
      this >>= λ ep. Endpoint.schedule_transfer p fuel (Qh.max_packet_len p.ral ep.qh)

  -- `while ral::read_reg!(.., USBCMD, RST == 1) {}`
  unfoldable pub wait_reset : ℕ → M World (Unit {0})
  wait_reset zero = λ w. hang
  wait_reset (suc fuel) = read_reg p usbcmd >>= λ v. elim (get p rst v == 1) [
    | true ↦ wait_reset fuel
    | false ↦ pure tt
  ]

  abbrev pub is_low_full : Speed → Bool
  is_low_full low_full = true
  is_low_full high = false

  -- The controller is told where the queue heads are.
  unfoldable pub set_list_addr : M Driver (Unit {0})
  set_list_addr = self >>= λ driver.
      on_regs (write_reg p asynclistaddr (State.qh_list_addr driver.ep_allocator % 2 ^ 32))

  unfoldable pub initialize : ℕ → Speed → M Driver (Unit {0})
  initialize fuel speed = do
    on_regs (write_reg p phy_ctrl_set (put p sftrst 1 0))
    on_regs (write_reg p phy_ctrl_clr (put p sftrst 1 0))
    on_regs (write_reg p phy_ctrl_clr (put p clkgate 1 0))
    on_regs (write_reg p phy_pwd 0)
    on_regs (write_reg p usbcmd (put p rst 1 0))
    on_regs (wait_reset fuel)
    on_regs (write_reg p usbcmd (put p itc 0 0))
    on_regs (write_reg p usbmode (put p slom 1 (put p cm p.cm_2 0)))
    on_regs (modify_reg p portsc1 (put p pfsc (if is_low_full speed then 1 else 0)))
    on_regs (modify_reg p usbsts λ v. v)
    on_regs (write_reg p usbintr 0)
    set_list_addr

  unfoldable pub enable_zlt : EndpointAddress → M Driver (Unit {0})
  enable_zlt addr = if_ep addr (Endpoint.enable_zlt p)

  unfoldable pub set_interrupts : Bool → M Driver (Unit {0})
  set_interrupts interrupts =
      if interrupts
      then on_regs (modify_reg p usbintr λ v. put p ure 1 (put p ue 1 v))
      else on_regs (modify_reg p usbintr λ v. put p ure 0 (put p ue 0 v))

  unfoldable pub gpt_mut : {R : Type 0} → M World R → M Driver R
  gpt_mut f = on_regs f

  unfoldable pub set_address : ℕ → M Driver (Unit {0})
  set_address address = on_regs (write_reg p deviceaddr (put p usbadra 1 (put p usbadr address 0)))

  unfoldable pub attach : M Driver (Unit {0})
  attach = on_regs (modify_reg p usbcmd (put p rs 1))

  unfoldable pub is_allocated : EndpointAddress → Driver → Outcome Bool
  is_allocated addr d =
      and_then (State.endpoint p addr d.ep_allocator)
        λ found. done (elim found [ none ↦ false | some ep ↦ true ])

  unfoldable pub allocate_buffer : ℕ → M Driver (Option Buffer)
  allocate_buffer max_packet_len d =
      let (buffer, rest) = Buffer.allocate d.buffer_allocator max_packet_len in
      done (buffer, record d { buffer_allocator = rest })

  unfoldable pub allocate_ep : EndpointAddress → Buffer → EndpointType → M Driver (Unit {0})
  allocate_ep addr buffer kind d =
      and_then (State.allocate_endpoint p addr buffer kind d.ep_allocator)
        λ r. and_then (unwrap r.0) λ ep. done (tt, record d { ep_allocator = r.1 })

  -- The branch of `poll` where a transfer completed.
  unfoldable pub poll_traffic : M Driver PollResult
  poll_traffic = do
    on_regs (write_reg p usbsts (put p ui 1 0))
    out_complete ← on_regs (read_reg p endptcomplete)
    let ep_out = get p erce out_complete % 2 ^ 16
    set_ep_out ep_out
    complete ← on_regs (read_reg p endptcomplete)
    let ep_in_complete = get p etce complete
    on_regs (write_reg p endptcomplete (put p etce ep_in_complete 0))
    setup ← on_regs (read_reg p endptsetupstat)
    pure (traffic ep_out (ep_in_complete % 2 ^ 16) (setup % 2 ^ 16))

  unfoldable pub poll : M Driver PollResult
  unfolding poll_traffic
  poll = on_regs (read_reg p usbsts) >>= λ sts.
      if not (bit_and sts (p.layout uri).mask == 0)
      then (on_regs (write_reg p usbsts (put p uri 1 0)) >> pure reset)
      else (if not (bit_and sts (p.layout ui).mask == 0) then poll_traffic else pure nothing)
