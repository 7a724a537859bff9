-- ===== src/Driver/Served.antt =====
-- What the driver does with one endpoint returns, over a controller that answers in time.
use imxrt_usbd.Common.{ℕ, ◌^◌, arith, List, Bool, M, lift}
use imxrt_usbd.Common.Total.{Total, lift-Total, Gives, bind-Gives}
use imxrt_usbd.Machine.{one_shl16}
use imxrt_usbd.Platform.{Platform, EndpointAddress, Result, ok, err, UsbError}
use imxrt_usbd.Endpoint.{Endpoint, Session, this, schedule_transfer}
use imxrt_usbd.Qh
use imxrt_usbd.Endpoint.Returns.{
  IsPrompt, IsPlaced, Stands, Known, worldly, this-Gives, is_primed-Total, has_setup-Total,
  set_stalled-Total, is_enabled-Total, clear_complete-Total, clear_nack-Total, read_setup-Total,
  schedule_transfer-Total, read-Total, write-Total,
}
use imxrt_usbd.Driver.{schedule_packet}
use imxrt_usbd.Driver.Endpoints.{prime}
use imxrt_usbd.Driver.Transfers.{
  if_ok, read_data, control_status, control_setup, write_data, status_phase, read_completed,
  stall_session,
}

module _ (p : Platform) (ep0 : Endpoint) (placed : IsPlaced p ep0) (mem : ℕ → ℕ) (fuel : ℕ)
    (prompt : IsPrompt p fuel) where
  abbrev I : Session → Type 0
  I = Stands p ep0 mem

  if_ok-Total :
      {A : Type 0} {f : UsbError → M Session A} {m : M Session A} (r : Result (Unit {0}))
      → ((e : UsbError) → Total I (f e))
      → Total I m
      → Total I (if_ok p r f m)
  if_ok-Total (err e) kf km = kf e
  if_ok-Total (ok _) kf km = km

  bit16-Total :
      (ep : Endpoint) → Known p ep → Total I (lift (one_shl16 p.checks (p.index ep.address)))
  bit16-Total ep k =
      lift-Total (one_shl16 p.checks (p.index ep.address)) (2 ^ p.index ep.address)
        (ground (arith, k.0))

  here : Gives I (Known p) this
  here = this-Gives p ep0 placed mem

  pub schedule_packet-Total : Total I (schedule_packet p fuel)
  unfolding schedule_packet
  schedule_packet-Total =
      bind-Gives {f = λ ep. schedule_transfer p fuel (Qh.max_packet_len p.ral ep.qh)} here
        λ ep k. schedule_transfer-Total p ep0 placed mem fuel prompt (Qh.max_packet_len p.ral ep.qh)

  ruleset served = (
    worldly, here, if_ok-Total, is_primed-Total, has_setup-Total, set_stalled-Total,
    is_enabled-Total, clear_complete-Total, clear_nack-Total, read_setup-Total,
    schedule_transfer-Total, read-Total, write-Total,
  )

  pub read_data-Total : (buffer : List ℕ) → Total I (read_data p fuel buffer)
  unfolding read_data
  read_data-Total buffer = search (served, schedule_packet-Total) depth 20

  pub control_status-Total : (buffer : List ℕ) → Total I (control_status p fuel buffer)
  unfolding control_status
  control_status-Total buffer = search (served, read_data-Total) depth 20

  pub control_setup-Total : (buffer : List ℕ) → Total I (control_setup p fuel buffer)
  unfolding control_setup
  control_setup-Total buffer = search (served, schedule_packet-Total) depth 20

  pub write_data-Total : (buffer : List ℕ) → Total I (write_data p fuel buffer)
  unfolding write_data
  write_data-Total buffer = search served depth 20

  pub status_phase-Total : Total I (status_phase p fuel)
  unfolding status_phase
  status_phase-Total = search served depth 20

  pub read_completed-Total :
      (mask : ℕ) (buffer : List ℕ) → Total I (read_completed p fuel mask buffer)
  unfolding read_completed
  read_completed-Total mask buffer = search (served, bit16-Total, read_data-Total) depth 20

  pub stall_session-Total :
      (stall : Bool) (addr : EndpointAddress) → Total I (stall_session p fuel stall addr)
  unfolding stall_session
  stall_session-Total stall addr = search (served, schedule_packet-Total) depth 20

  pub prime-Total : Total I (prime p fuel)
  unfolding prime
  prime-Total = search (served, schedule_packet-Total) depth 20
