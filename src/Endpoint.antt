-- ===== src/Endpoint.antt =====
-- src/endpoint.rs: an endpoint with the queue head, the transfer descriptor and the buffer that it
-- owns, and `endpoint_control::register` of src/ral.rs.
pub mod Halves
pub mod Control
pub mod New
pub mod Status
pub mod Transfer
pub mod Setup
pub mod Data
pub mod Keeps
pub mod Returns
pub mod Tests
use Prim.Native.Nat.{min}
use imxrt_usbd.Common.{
  ℕ, zero, suc, ◌-◌, bit_and, Bool, true, false, not, ◌&&◌, ◌||◌, List, ◌∷◌, ◌++◌, if◌then◌else◌,
  ◌==◌, ltb, length, take, drop, Outcome, done, panic, hang, and_then, M, pure, lift, ◌>>=◌, ◌>>◌,
}
use imxrt_usbd.Machine.{
  Reg, World, setup_read, td_store, qh_store, usbcmd, endptnak, endptsetupstat, endptprime,
  endptstat, endptcomplete, endptctrl, emit, one_shl,
}
use imxrt_usbd.Buffer
use imxrt_usbd.Buffer.{Buffer}
use imxrt_usbd.Td
use imxrt_usbd.Td.{Td}
use imxrt_usbd.Qh
use imxrt_usbd.Qh.{Qh}
use imxrt_usbd.Platform.{
  Platform, read_reg, write_reg, modify_reg, get, put, wait_zero, UsbField, sutw, etbr, erbr, petb,
  perb, etce, erce, eptn, eprn, txe, txr, txt, txs, rxe, rxr, rxt, rxs, UsbDirection, dir_out,
  dir_in, EndpointType, control, bulk, Result, ok, err, invalid_state, EndpointAddress,
}

-- `qh_at` and `td_at` are where the references `qh` and `td` point.
pub record Endpoint : Type 0 where
  pub address : EndpointAddress
  pub qh : Qh
  pub qh_at : ℕ
  pub td : Td
  pub td_at : ℕ
  pub buffer : Buffer
  pub kind : EndpointType

-- What a method of an endpoint works on: the endpoint and the world.
pub record Session : Type 0 where
  pub ep : Endpoint
  pub world : World

-- A computation on the world alone.
abbrev pub on_world : {A : Type 0} → M World A → M Session A
on_world m s = and_then (m s.world) λ r. done (r.0, record s { world = r.1 })

-- Stores to the descriptor, and to the queue head: a volatile access, logged with the words that are
-- there afterwards.
abbrev pub on_td : (Td → Td) → M Session (Unit {0})
on_td f s = done (
  tt,
  record {
    ep = record (s.ep) { td = f s.ep.td };
    world = record (s.world) { log = td_store s.ep.td_at (Td.words (f s.ep.td)) ∷ s.world.log };
  },
)

abbrev pub on_qh : (Qh → Qh) → M Session (Unit {0})
on_qh f s = done (
  tt,
  record {
    ep = record (s.ep) { qh = f s.ep.qh };
    world = record (s.world) { log = qh_store s.ep.qh_at (Qh.words (f s.ep.qh)) ∷ s.world.log };
  },
)

abbrev pub this : M Session Endpoint
this s = done (s.ep, s)

abbrev pub is_control : EndpointType → Bool
is_control control = true
is_control _ = false

abbrev pub is_out : UsbDirection → Bool
is_out dir_out = true
is_out dir_in = false

-- `endpoint_control::register` of src/ral.rs: the control register of an endpoint.
pub register : Platform → ℕ → Outcome Reg
register p endpoint =
    if endpoint == 0
    then done (endptctrl 0)
    else if ltb (endpoint - 1) p.endptctrl_len
    then done (endptctrl endpoint)
    else panic

-- The transfer type as ENDPTCTRL encodes it.
pub into_raw_endpoint_type : Platform → EndpointType → ℕ
into_raw_endpoint_type p kind = bit_and (p.to_bm_attributes kind) 3

unfoldable pub new : Platform → EndpointAddress → Qh → ℕ → Td → ℕ → Buffer → EndpointType → Endpoint
new p address qh qh_at td td_at buffer kind =
    let max_packet_size = buffer.len in
    let qh1 = Qh.set_zero_length_termination p.ral false qh in
    let qh2 = Qh.set_max_packet_len p.ral max_packet_size qh1 in
    let qh3 =
      Qh.set_interrupt_on_setup p.ral (is_control kind && is_out (p.direction address)) qh2 in
    record {
      address = address;
      qh = qh3;
      qh_at = qh_at;
      td = Td.clear_status p.ral (Td.set_terminate td);
      td_at = td_at;
      buffer = buffer;
      kind = kind;
    }

module _ (p : Platform) where
  open p use {ral, flags, checks, index, direction}

  -- The field of the endpoint's direction: `by_direction ep f_in f_out`.
  abbrev pub by_direction {ℓ} : {A : Type ℓ} → Endpoint → A → A → A
  by_direction ep for_in for_out = if is_out (direction ep.address) then for_out else for_in

  unfoldable pub enable_zlt : M Session (Unit {0})
  enable_zlt = on_qh (Qh.set_zero_length_termination ral true)

  -- Bit `index` of the field of the endpoint's direction.
  abbrev pub endpoint_bit : Endpoint → Outcome ℕ
  endpoint_bit ep = one_shl checks (index ep.address)

  unfoldable pub is_primed : M Session Bool
  is_primed = do
    ep ← this
    stat ← on_world (read_reg p endptstat)
    mask ← lift (endpoint_bit ep)
    pure (not (bit_and (get p (by_direction ep etbr erbr) stat) mask == 0))

  unfoldable pub check_errors : Endpoint → Result (Unit {0})
  check_errors ep =
      let status = Td.status ral flags ep.td in
      if flags.contains status Td.transaction_error
        || flags.contains status Td.data_buffer_error
        || flags.contains status Td.halted
      then err invalid_state
      else ok tt

  unfoldable pub initialize : M Session (Unit {0})
  unfolding register into_raw_endpoint_type
  initialize = do
    ep ← this
    if index ep.address == 0 then pure tt else (do
      let raw = into_raw_endpoint_type p bulk
      reg ← lift (register p (index ep.address))
      on_world (
          modify_reg p reg (
            by_direction ep (λ v. put p txt raw (put p txe 0 v))
              (λ v. put p rxt raw (put p rxe 0 v)))))

  unfoldable pub has_setup : M Session Bool
  has_setup = do
    ep ← this
    stat ← on_world (read_reg p endptsetupstat)
    mask ← lift (endpoint_bit ep)
    pure (not (bit_and stat mask == 0))

  -- The loop of `read_setup`: arm the tripwire, load the setup buffer, see if it is still armed.
  pub setup_loop : ℕ → ℕ → M World ℕ
  setup_loop zero at = λ w. hang
  setup_loop (suc fuel) at = do
    modify_reg p usbcmd (put p sutw 1)
    setup ← λ w. done (p.setup_of w.log at, w)
    emit (setup_read at setup)
    cmd ← read_reg p usbcmd
    elim (get p sutw cmd == 1) [
      | true ↦ modify_reg p usbcmd (put p sutw 0) >> pure setup
      | false ↦ setup_loop fuel at
    ]

  unfoldable pub read_setup : ℕ → M Session ℕ
  unfolding setup_loop
  read_setup fuel = do
    ep ← this
    mask ← lift (endpoint_bit ep)
    on_world (write_reg p endptsetupstat mask)
    on_world (setup_loop fuel ep.qh_at)

  -- `buffer` is the caller's slice; the result is the count and the slice afterwards.
  unfoldable pub read : List ℕ → M Session (ℕ × List ℕ)
  read buffer = do
    ep ← this
    transferred ← lift (Td.bytes_transferred ral checks ep.td)
    let size = min (min (Qh.max_packet_len ral ep.qh) (length buffer)) transferred
    λ s.
        let (n, prefix) = Buffer.volatile_read ep.buffer s.world.mem (take size buffer) in
        done ((n, prefix ++ drop size buffer), s)

  unfoldable pub write : List ℕ → M Session ℕ
  write buffer = do
    ep ← this
    let size = min (Qh.max_packet_len ral ep.qh) (length buffer)
    written ← on_world λ w.
        let (n, mem) = Buffer.volatile_write ep.buffer w.mem (take size buffer) in
        done (n, record w { mem = mem })
    on_world (Buffer.clean_invalidate_dcache checks ep.buffer size)
    pure written

  -- A write of the endpoint's bit in the field of its direction, the other fields zero.
  unfoldable pub write_bit : Reg → UsbField → UsbField → M Session (Unit {0})
  write_bit reg for_in for_out = do
    ep ← this
    mask ← lift (endpoint_bit ep)
    on_world (write_reg p reg (put p (by_direction ep for_in for_out) mask 0))

  unfoldable pub clear_complete : M Session (Unit {0})
  unfolding write_bit
  clear_complete = write_bit endptcomplete etce erce

  unfoldable pub clear_nack : M Session (Unit {0})
  unfolding write_bit
  clear_nack = write_bit endptnak eptn eprn

  -- The descriptor that `schedule_transfer` hands to the controller.
  pub prepare_td : ℕ → Endpoint → Outcome Td
  prepare_td size ep =
      and_then
        (Td.set_buffer ral checks (Buffer.as_ptr_mut ep.buffer) size (Td.set_terminate ep.td))
        λ td. done (Td.set_active ral (Td.set_interrupt_on_complete ral true td))

  unfoldable pub schedule_transfer : ℕ → ℕ → M Session (Unit {0})
  unfolding prepare_td write_bit
  schedule_transfer fuel size = do
    ep ← this
    td ← lift (prepare_td size ep)
    on_td (λ _. td)
    on_world (λ w. Td.clean_invalidate_dcache checks (p.self_slot w.log) w)
    on_qh (Qh.overlay_mut (Td.set_next ep.td_at))
    on_qh (Qh.overlay_mut (Td.clear_status ral))
    on_world (λ w. Qh.clean_invalidate_dcache checks (p.self_slot w.log) w)
    write_bit endptprime petb perb
    on_world (wait_zero p endptprime fuel)

  unfoldable pub set_stalled : Bool → M Session (Unit {0})
  unfolding register
  set_stalled stall = do
    ep ← this
    reg ← lift (register p (index ep.address))
    on_world (modify_reg p reg (put p (by_direction ep txs rxs) (if stall then 1 else 0)))

  unfoldable pub is_stalled : M Session Bool
  unfolding register
  is_stalled = do
    ep ← this
    reg ← lift (register p (index ep.address))
    ctrl ← on_world (read_reg p reg)
    pure (get p (by_direction ep txs rxs) ctrl == 1)

  unfoldable pub enable : M Session (Unit {0})
  unfolding register into_raw_endpoint_type
  enable = do
    ep ← this
    if index ep.address == 0 then pure tt else (do
      let raw = into_raw_endpoint_type p ep.kind
      reg ← lift (register p (index ep.address))
      on_world (
          modify_reg p reg (
            by_direction ep (λ v. put p txt raw (put p txr 1 (put p txe 1 v)))
              (λ v. put p rxt raw (put p rxr 1 (put p rxe 1 v))))))

  unfoldable pub is_enabled : M Session Bool
  unfolding register
  is_enabled = do
    ep ← this
    if index ep.address == 0 then pure true else (do
      reg ← lift (register p (index ep.address))
      ctrl ← on_world (read_reg p reg)
      pure (get p (by_direction ep txe rxe) ctrl == 1))
