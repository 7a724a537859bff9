-- ===== src/Driver/Transfers.antt =====
-- src/driver.rs: reads, writes and stalls of one endpoint. Each takes the fuel of its loops; the
-- result of a read has the caller's slice as it is afterwards.
use imxrt_usbd.Common.{
  ℕ, ◌/◌, ◌%◌, ◌^◌, bit_and, Bool, not, ◌&&◌, List, [], ◌∷◌, ◌++◌, ◌==◌, if◌then◌else◌, leb, length,
  drop, done, and_then, M, pure, lift, unwrap, ◌>>=◌, ◌>>◌,
}
use imxrt_usbd.Machine.{one_shl16}
use imxrt_usbd.State
use imxrt_usbd.State.{EndpointState, EndpointAllocator}
use imxrt_usbd.Platform.{Platform, UsbError, Result, ok, err, would_block, EndpointAddress}
use imxrt_usbd.Endpoint
use imxrt_usbd.Endpoint.{Endpoint, Session, on_world, this, is_out}
use imxrt_usbd.Driver.{Driver, with_ep, schedule_packet, ctrl_ep0_out, ctrl_ep0_in}

module _ (p : Platform) where
  open p use {checks, index, direction}

  -- The operator `?` on the endpoint's status, with what an error is returned as.
  abbrev pub if_ok :
      {A : Type 0} → Result (Unit {0}) → (UsbError → M Session A) → M Session A → M Session A
  if_ok (err e) failed m = failed e
  if_ok (ok _) failed m = m

  -- `u64::to_le_bytes`
  abbrev pub to_le_bytes : ℕ → List ℕ
  to_le_bytes n =
      n % 256
      ∷ n / 2 ^ 8 % 256
      ∷ n / 2 ^ 16 % 256
      ∷ n / 2 ^ 24 % 256
      ∷ n / 2 ^ 32 % 256
      ∷ n / 2 ^ 40 % 256
      ∷ n / 2 ^ 48 % 256
      ∷ n / 2 ^ 56 % 256
      ∷ []

  -- The last steps of a read: the endpoint's data into the caller's slice, and the next transfer.
  unfoldable pub read_data : ℕ → List ℕ → M Session (Result ℕ × List ℕ)
  unfolding schedule_packet
  read_data fuel buffer = do
    Endpoint.clear_complete p
    Endpoint.clear_nack p
    r ← Endpoint.read p buffer
    schedule_packet p fuel
    pure (ok (r.0), r.1)

  unfoldable pub control_status : ℕ → List ℕ → M Session (Result ℕ × List ℕ)
  unfolding read_data
  control_status fuel buffer = this >>= λ ep.
      if_ok (Endpoint.check_errors p ep) (λ e. pure (err e, buffer))
        (Endpoint.is_primed p >>= λ primed.
          if primed then pure (err would_block, buffer) else read_data fuel buffer)

  unfoldable pub control_setup : ℕ → List ℕ → M Session (Result ℕ × List ℕ)
  unfolding schedule_packet
  control_setup fuel buffer = do
    setup ← Endpoint.read_setup p fuel
    primed ← Endpoint.is_primed p
    if primed then pure tt else (Endpoint.clear_nack p >> schedule_packet p fuel)
    pure (ok 8, to_le_bytes setup ++ drop 8 buffer)

  -- The result is what `ctrl0_read` returns and the caller's slice afterwards.
  unfoldable pub ctrl0_read : ℕ → List ℕ → M Driver (Result ℕ × List ℕ)
  unfolding control_status control_setup
  ctrl0_read fuel buffer = with_ep p (ctrl_ep0_out p) (
      Endpoint.has_setup p >>= λ setup.
      if setup && leb 8 (length buffer)
      then control_setup fuel buffer
      else control_status fuel buffer)

  -- `ep.check_errors()?`, the primed test, and the write.
  unfoldable pub write_data : ℕ → List ℕ → M Session (Result ℕ)
  write_data fuel buffer = this >>= λ ep.
      if_ok (Endpoint.check_errors p ep) (λ e. pure (err e))
        (Endpoint.is_primed p >>= λ primed. if primed then pure (err would_block) else (do
          Endpoint.clear_nack p
          written ← Endpoint.write p buffer
          Endpoint.schedule_transfer p fuel written
          pure (ok written)))

  -- An OUT transfer for the status phase.
  unfoldable pub status_phase : ℕ → M Session (Unit {0})
  status_phase fuel = Endpoint.is_primed p >>= λ primed. if primed then pure tt else (do
    Endpoint.clear_complete p
    Endpoint.clear_nack p
    Endpoint.schedule_transfer p fuel 0)

  -- The rest of `ctrl0_write` after the write.
  unfoldable pub then_status : ℕ → Result ℕ → M Driver (Result ℕ)
  unfolding status_phase
  then_status fuel (err e) = pure (err e)
  then_status fuel (ok written) =
      with_ep p (ctrl_ep0_out p) (status_phase fuel) >> pure (ok written)

  unfoldable pub ctrl0_write : ℕ → List ℕ → M Driver (Result ℕ)
  unfolding write_data then_status
  ctrl0_write fuel buffer = with_ep p (ctrl_ep0_in p) (write_data fuel buffer) >>= then_status fuel

  -- The test of the mask `ep_out` is evaluated only if the endpoint is not primed.
  unfoldable pub read_completed : ℕ → ℕ → List ℕ → M Session (Result ℕ × List ℕ)
  unfolding read_data
  read_completed fuel ep_out buffer = this >>= λ ep.
      if_ok (Endpoint.check_errors p ep) (λ e. pure (err e, buffer))
        (Endpoint.is_primed p >>= λ primed.
          if primed
          then pure (err would_block, buffer)
          else (lift (one_shl16 checks (index ep.address)) >>= λ mask.
              if bit_and ep_out mask == 0
              then pure (err would_block, buffer)
              else read_data fuel buffer))

  unfoldable pub ep_read : ℕ → List ℕ → EndpointAddress → M Driver (Result ℕ × List ℕ)
  unfolding read_completed
  ep_read fuel buffer addr d = with_ep p addr (read_completed fuel d.ep_out buffer) d

  unfoldable pub ep_write : ℕ → List ℕ → EndpointAddress → M Driver (Result ℕ)
  unfolding write_data
  ep_write fuel buffer addr = with_ep p addr (write_data fuel buffer)

  unfoldable pub stall_session : ℕ → Bool → EndpointAddress → M Session (Unit {0})
  unfolding schedule_packet
  stall_session fuel stall addr =
      Endpoint.set_stalled p stall
      >> (if not stall && is_out (direction addr)
          then (Endpoint.is_primed p >>= λ primed.
              if primed then pure tt else schedule_packet p fuel)
          else pure tt)

  unfoldable pub ep_stall : ℕ → Bool → EndpointAddress → M Driver (Unit {0})
  unfolding stall_session
  ep_stall fuel stall addr = with_ep p addr (stall_session fuel stall addr)

  unfoldable pub is_ep_stalled : EndpointAddress → M Driver Bool
  is_ep_stalled addr d = and_then (State.endpoint p addr d.ep_allocator) λ found.
      and_then (unwrap found) λ ep.
        and_then (Endpoint.is_stalled p (record { ep = ep; world = d.world }))
          λ r. done (r.0, record d { world = r.1.world })
