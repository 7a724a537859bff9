-- ===== src/Driver/Returns/Transfers.antt =====
-- Reads, writes and stalls of a sound driver return.
use imxrt_usbd.Common.{ℕ, Bool, List, ◌&&◌, leb, length, if◌then◌else◌, ◌>>=◌}
use imxrt_usbd.Common.Total.{Total, pure-Total, bind-Total, then-Total, if-Total}
use imxrt_usbd.Buffer.{EndpointMemory}
use imxrt_usbd.Platform.{Platform, EndpointAddress, Result, ok, err}
use imxrt_usbd.Endpoint
use imxrt_usbd.Endpoint.{Endpoint, Session, this}
use imxrt_usbd.Endpoint.Returns.{IsPrompt, has_setup-Total}
use imxrt_usbd.Driver.{Driver, ctrl_ep0_out, ctrl_ep0_in}
use imxrt_usbd.Driver.Transfers.{
  control_setup, control_status, ctrl0_read, ctrl0_write, then_status, ep_read, ep_write, ep_stall,
}
use imxrt_usbd.Driver.Served.{
  control_status-Total, control_setup-Total, write_data-Total, status_phase-Total,
  read_completed-Total, stall_session-Total,
}
use imxrt_usbd.Driver.Sound.{IsSound, IsLow}
use imxrt_usbd.Driver.Returns.{Serves, with_ep-Total}

module _ (p : Platform) (m : EndpointMemory) (low : IsLow m) (mem : ℕ → ℕ)
    (needs : EndpointAddress → Type 0) where
  abbrev I : Driver → Type 0
  I = IsSound p m mem needs

  pub ep_read-Total :
      (fuel : ℕ) (buffer : List ℕ) (addr : EndpointAddress)
      → IsPrompt p fuel
      → needs addr
      → Total I (ep_read p fuel buffer addr)
  unfolding ep_read
  ep_read-Total fuel buffer addr prompt need = record {
    runs = λ d.
        (with_ep-Total p m low mem needs addr need (λ ep0 placed bytes.
            read_completed-Total p ep0 placed bytes fuel prompt d.ep_out buffer)).runs
          d;
  }

  pub ep_write-Total :
      (fuel : ℕ) (buffer : List ℕ) (addr : EndpointAddress)
      → IsPrompt p fuel
      → needs addr
      → Total I (ep_write p fuel buffer addr)
  unfolding ep_write
  ep_write-Total fuel buffer addr prompt need =
      with_ep-Total p m low mem needs addr need
        λ ep0 placed bytes. write_data-Total p ep0 placed bytes fuel prompt buffer

  pub ep_stall-Total :
      (fuel : ℕ) (stall : Bool) (addr : EndpointAddress)
      → IsPrompt p fuel
      → needs addr
      → Total I (ep_stall p fuel stall addr)
  unfolding ep_stall
  ep_stall-Total fuel stall addr prompt need =
      with_ep-Total p m low mem needs addr need
        λ ep0 placed bytes. stall_session-Total p ep0 placed bytes fuel prompt stall addr

  read-Serves :
      (fuel : ℕ) (buffer : List ℕ)
      → IsPrompt p fuel
      → Serves p (
          Endpoint.has_setup p >>= λ setup.
          if setup && leb 8 (length buffer)
          then control_setup p fuel buffer
          else control_status p fuel buffer)
  read-Serves fuel buffer prompt ep0 placed bytes =
      bind-Total (has_setup-Total p ep0 placed bytes) λ setup.
        if-Total (setup && leb 8 (length buffer))
          (control_setup-Total p ep0 placed bytes fuel prompt buffer)
          (control_status-Total p ep0 placed bytes fuel prompt buffer)

  pub ctrl0_read-Total :
      (fuel : ℕ) (buffer : List ℕ)
      → IsPrompt p fuel
      → needs (ctrl_ep0_out p)
      → Total I (ctrl0_read p fuel buffer)
  unfolding ctrl0_read
  ctrl0_read-Total fuel buffer prompt need =
      with_ep-Total p m low mem needs (ctrl_ep0_out p) need (read-Serves fuel buffer prompt)

  then_status-Total :
      (fuel : ℕ) (r : Result ℕ)
      → IsPrompt p fuel
      → needs (ctrl_ep0_out p)
      → Total I (then_status p fuel r)
  unfolding then_status
  then_status-Total fuel (err e) prompt need = pure-Total (err e)
  then_status-Total fuel (ok written) prompt need =
      then-Total
        (with_ep-Total p m low mem needs (ctrl_ep0_out p) need
          λ ep0 placed bytes. status_phase-Total p ep0 placed bytes fuel prompt)
        (pure-Total (ok written))

  pub ctrl0_write-Total :
      (fuel : ℕ) (buffer : List ℕ)
      → IsPrompt p fuel
      → needs (ctrl_ep0_out p)
      → needs (ctrl_ep0_in p)
      → Total I (ctrl0_write p fuel buffer)
  unfolding ctrl0_write
  ctrl0_write-Total fuel buffer prompt need_out need_in =
      bind-Total
        (with_ep-Total p m low mem needs (ctrl_ep0_in p) need_in
          λ ep0 placed bytes. write_data-Total p ep0 placed bytes fuel prompt buffer)
        (λ r. then_status-Total fuel r prompt need_out)
