-- ===== src/Driver/Endpoints.antt =====
-- src/driver.rs: what the driver does to all endpoints but those of endpoint 0.
use imxrt_usbd.Common.{
  ℕ, ◌-◌, ◌^◌, ◌&&◌, List, [], ◌∷◌, if◌then◌else◌, ◌==◌, panic, M, pure, lift, ◌>>=◌, ◌>>◌,
}
use imxrt_usbd.Machine.{
  World, portsc1, endptnak, endptnaken, endptprime, endptflush, endptstat, endptcomplete,
}
use imxrt_usbd.State
use imxrt_usbd.State.{EndpointState, EndpointAllocator}
use imxrt_usbd.Platform.{
  Platform, read_reg, write_reg, modify_reg, get, wait_zero, pr, EndpointAddress,
}
use imxrt_usbd.Endpoint
use imxrt_usbd.Endpoint.{Endpoint, Session, on_world, this, is_out}
use imxrt_usbd.Driver.{Driver, on_regs, if_ep, schedule_packet}

module _ (p : Platform) where
  open p use {checks, index, direction}

  -- A `for` over the endpoints that are allocated among these addresses.
  unfoldable pub for_endpoints : List EndpointAddress → M Session (Unit {0}) → M Driver (Unit {0})
  for_endpoints [] m = pure tt
  for_endpoints (addr ∷ addrs) m = if_ep p addr m >> for_endpoints addrs m

  -- A `for` over `nonzero_endpoints_iter_mut`, which filters by the endpoint's own address.
  unfoldable pub for_nonzero : M Session (Unit {0}) → M Driver (Unit {0})
  for_nonzero m =
      for_endpoints (State.addresses p)
        (this >>= λ ep. if index ep.address == 0 then pure tt else m)

  unfoldable pub initialize_endpoints : M Driver (Unit {0})
  initialize_endpoints = for_nonzero (Endpoint.initialize p)

  unfoldable pub enable_endpoints : M Driver (Unit {0})
  enable_endpoints = for_nonzero (Endpoint.enable p)

  unfoldable pub prime : ℕ → M Session (Unit {0})
  unfolding schedule_packet
  prime fuel = do
    enabled ← Endpoint.is_enabled p
    ep ← this
    if enabled && is_out (direction ep.address) then schedule_packet p fuel else pure tt

  unfoldable pub prime_endpoints : ℕ → M Driver (Unit {0})
  unfolding prime
  prime_endpoints fuel = for_nonzero (prime fuel)

  unfoldable pub on_configured : ℕ → M Driver (Unit {0})
  on_configured fuel = enable_endpoints >> prime_endpoints fuel

  -- `debug_assert!`: the register is read in builds with debug assertions only.
  unfoldable pub assert_reset : M World (Unit {0})
  assert_reset =
      if p.debug_assertions
      then (read_reg p portsc1 >>= λ v. (if get p pr v == 1 then pure tt else lift panic))
      else pure tt

  unfoldable pub bus_reset : ℕ → M Driver (Unit {0})
  unfolding assert_reset
  bus_reset fuel = do
    on_regs (modify_reg p endptstat λ v. v)
    on_regs (modify_reg p endptcomplete λ v. v)
    on_regs (modify_reg p endptnak λ v. v)
    on_regs (write_reg p endptnaken 0)
    on_regs (wait_zero p endptprime fuel)
    on_regs (write_reg p endptflush (2 ^ 32 - 1))
    on_regs (wait_zero p endptflush fuel)
    on_regs assert_reset
    initialize_endpoints
