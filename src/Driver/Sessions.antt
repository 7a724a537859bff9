-- ===== src/Driver/Sessions.antt =====
-- What the driver does with one endpoint keeps the endpoint's address.
use imxrt_usbd.Common.{ℕ, List, Bool, M}
use imxrt_usbd.Platform.{Platform, EndpointAddress, Result, ok, err, UsbError}
use imxrt_usbd.Endpoint.{Session}
use imxrt_usbd.Endpoint.Keeps.{
  KeepsAddress, keeping, is_primed-keeps, has_setup-keeps, read_setup-keeps, read-keeps,
  write-keeps, clear_complete-keeps, clear_nack-keeps, schedule_transfer-keeps, set_stalled-keeps,
  is_enabled-keeps,
}
use imxrt_usbd.Driver.{schedule_packet}
use imxrt_usbd.Driver.Endpoints.{prime}
use imxrt_usbd.Driver.Transfers.{
  if_ok, read_data, control_status, control_setup, write_data, status_phase, read_completed,
  stall_session,
}

module _ (p : Platform) where
  if_ok-keeps :
      {A : Type 0} {f : UsbError → M Session A} {m : M Session A} (r : Result (Unit {0}))
      → ((e : UsbError) → KeepsAddress (f e))
      → KeepsAddress m
      → KeepsAddress (if_ok p r f m)
  if_ok-keeps (err e) kf km = kf e
  if_ok-keeps (ok _) kf km = km

  pub schedule_packet-keeps : (fuel : ℕ) → KeepsAddress (schedule_packet p fuel)
  unfolding schedule_packet
  schedule_packet-keeps fuel = search (keeping, schedule_transfer-keeps)

  ruleset sessions = (
    keeping, if_ok-keeps, schedule_packet-keeps, is_primed-keeps, has_setup-keeps, read_setup-keeps,
    read-keeps, write-keeps, clear_complete-keeps, clear_nack-keeps, schedule_transfer-keeps,
    set_stalled-keeps, is_enabled-keeps,
  )

  pub read_data-keeps : (fuel : ℕ) (buffer : List ℕ) → KeepsAddress (read_data p fuel buffer)
  unfolding read_data
  read_data-keeps fuel buffer = search sessions depth 20

  pub control_status-keeps :
      (fuel : ℕ) (buffer : List ℕ) → KeepsAddress (control_status p fuel buffer)
  unfolding control_status
  control_status-keeps fuel buffer = search (sessions, read_data-keeps) depth 20

  pub control_setup-keeps :
      (fuel : ℕ) (buffer : List ℕ) → KeepsAddress (control_setup p fuel buffer)
  unfolding control_setup
  control_setup-keeps fuel buffer = search sessions depth 20

  pub write_data-keeps : (fuel : ℕ) (buffer : List ℕ) → KeepsAddress (write_data p fuel buffer)
  unfolding write_data
  write_data-keeps fuel buffer = search sessions depth 20

  pub status_phase-keeps : (fuel : ℕ) → KeepsAddress (status_phase p fuel)
  unfolding status_phase
  status_phase-keeps fuel = search sessions depth 20

  pub read_completed-keeps :
      (fuel mask : ℕ) (buffer : List ℕ) → KeepsAddress (read_completed p fuel mask buffer)
  unfolding read_completed
  read_completed-keeps fuel mask buffer = search (sessions, read_data-keeps) depth 20

  pub stall_session-keeps :
      (fuel : ℕ) (stall : Bool) (addr : EndpointAddress)
      → KeepsAddress (stall_session p fuel stall addr)
  unfolding stall_session
  stall_session-keeps fuel stall addr = search sessions depth 20

  pub prime-keeps : (fuel : ℕ) → KeepsAddress (prime p fuel)
  unfolding prime
  prime-keeps fuel = search sessions depth 20
