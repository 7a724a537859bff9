-- ===== src/Bus/Access.antt =====
-- The adapter's borrow of the driver, and which driver operation a call of the bus comes to.
use imxrt_usbd.Common.{
  ℕ, ◌≡◌, refl, ap, ◌∙◌, Bool, true, false, List, none, some, ◌==◌, if◌then◌else◌, Outcome, done,
  panic, hang, fault, and_then, M, Option-cases, inl, inr,
}
use imxrt_usbd.Platform.{Platform, EndpointAddress, err, invalid_endpoint}
use imxrt_usbd.State.Slots.{IsValid, endpoint_lem}
use imxrt_usbd.Driver.{Driver}
use imxrt_usbd.Driver.Lookup.{found, is_allocated_lem}
use imxrt_usbd.Driver.Transfers.{ctrl0_read, ctrl0_write, ep_read, ep_write, is_ep_stalled}
use imxrt_usbd.Bus.{
  BusAdapter, Borrow, CortexM, unused, writing, reading, borrow_mut, borrow_shared, with_usb_mut,
  with_usb, on_driver, gpt_mut, read, write, set_stalled, is_stalled,
}

-- The driver after an operation, in an adapter that nobody holds.
abbrev pub finish : {R : Type 0} → Bool → Outcome (R × Driver) → Outcome (R × BusAdapter)
finish cs o = and_then o λ r. done (r.0, record { usb = r.1; borrow = unused; cs = cs })

released :
    {R : Type 0} (held : Borrow) (cs : Bool) (o : Outcome (R × Driver))
    → and_then {A = R × BusAdapter} {B = R × BusAdapter}
        (and_then o λ r. done (r.0, record { usb = r.1; borrow = held; cs = cs }))
        (λ r. done (r.0, record (r.1) { borrow = unused }))
      ≡ finish cs o
released held cs (done r) = refl
released held cs panic = refl
released held cs hang = refl
released held cs fault = refl

if_same : {A : Type 0} (t : Bool) {x y : A} → x ≡ y → (if t then y else x) ≡ y
if_same true e = refl
if_same false e = e

if_apply :
    {R : Type 0} (t : Bool) (usb : Driver) (f g : M Driver R)
    → (if t then f else g) usb ≡ (if t then f usb else g usb)
if_apply true usb f g = refl
if_apply false usb f g = refl

module _ (c : CortexM) where
  with_usb_mut_eq :
      {R : Type 0} (func : M BusAdapter R) (b : BusAdapter)
      → with_usb_mut c func b ≡ borrow_mut func b
  unfolding with_usb_mut
  with_usb_mut_eq func b = if_same b.cs (c.free_eq (borrow_mut func) b)

  with_usb_eq :
      {R : Type 0} (func : M BusAdapter R) (b : BusAdapter)
      → with_usb c func b ≡ borrow_shared func b
  unfolding with_usb
  with_usb_eq func b = if_same b.cs (c.free_eq (borrow_shared func) b)

  pub with_usb_mut-unused :
      {R : Type 0} (m : M Driver R) (usb : Driver) (cs : Bool)
      → with_usb_mut c (on_driver m) (record { usb = usb; borrow = unused; cs = cs })
        ≡ finish cs (m usb)
  unfolding borrow_mut
  with_usb_mut-unused m usb cs = with_usb_mut_eq (on_driver m) _ ∙ released writing cs (m usb)

  pub with_usb-unused :
      {R : Type 0} (m : M Driver R) (usb : Driver) (cs : Bool)
      → with_usb c (on_driver m) (record { usb = usb; borrow = unused; cs = cs })
        ≡ finish cs (m usb)
  unfolding borrow_shared
  with_usb-unused m usb cs = with_usb_eq (on_driver m) _ ∙ released (reading 1) cs (m usb)

  borrow_mut_again :
      {R : Type 0} (func : M BusAdapter R) (held : Borrow) (usb : Driver) (cs : Bool)
      → borrow_mut (with_usb_mut c func) (record { usb = usb; borrow = held; cs = cs }) ≡ panic
  unfolding borrow_mut
  borrow_mut_again func unused usb cs =
      rw (with_usb_mut_eq func (record { usb = usb; borrow = writing; cs = cs })) refl
  borrow_mut_again func writing usb cs = refl
  borrow_mut_again func (reading n) usb cs = refl

  -- A call of `gpt_mut` from within the closure of `gpt_mut` panics, with a critical section or
  -- without, whoever held the driver before.
  pub gpt_mut_again :
      {R : Type 0} (func : M BusAdapter R) (b : BusAdapter) → gpt_mut c (gpt_mut c func) b ≡ panic
  unfolding gpt_mut
  gpt_mut_again func b =
      with_usb_mut_eq (with_usb_mut c func) b ∙ borrow_mut_again func b.borrow b.usb b.cs

  module _ (p : Platform) (fuel : ℕ) (usb : Driver) (cs : Bool) where
    abbrev bus : BusAdapter
    bus = record { usb = usb; borrow = unused; cs = cs }

    -- A read through the bus, nobody holding the driver and the endpoint allocator valid: with no
    -- endpoint at the address it is `InvalidEndpoint`, the slice and the driver as they were; else
    -- it is the driver's read of the control endpoint, for index 0, or of the endpoint. Nobody
    -- holds the driver afterwards.
    pub bus_read_lem :
        (addr : EndpointAddress) (buf : List ℕ)
        → IsValid p usb.ep_allocator
        → read c p fuel addr buf bus
          ≡ finish cs (elim (found p addr usb) [
            | none ↦ done ((err invalid_endpoint, buf), usb)
            | some ep ↦
                if p.index addr == 0 then ctrl0_read p fuel buf usb else ep_read p fuel buf addr usb
          ])
    unfolding read
    bus_read_lem addr buf v =
        with_usb_mut-unused _ usb cs
        ∙ ap (finish cs) (elim (Option-cases (found p addr usb)) [
          | inl gone ↦ rw (is_allocated_lem p addr usb v, gone) refl
          | inr (ep, there) ↦
              rw (is_allocated_lem p addr usb v, there) (if_apply (p.index addr == 0) usb _ _)
        ])

    -- A write through the bus, nobody holding the driver and the endpoint allocator valid: with no
    -- endpoint at the address it is `InvalidEndpoint`, the driver as it was; else it is the
    -- driver's write of the control endpoint, for index 0, or of the endpoint. Nobody holds the
    -- driver afterwards.
    pub bus_write_lem :
        (addr : EndpointAddress) (buf : List ℕ)
        → IsValid p usb.ep_allocator
        → write c p fuel addr buf bus
          ≡ finish cs (elim (found p addr usb) [
            | none ↦ done (err invalid_endpoint, usb)
            | some ep ↦
                if p.index addr == 0
                then ctrl0_write p fuel buf usb
                else ep_write p fuel buf addr usb
          ])
    unfolding write
    bus_write_lem addr buf v =
        with_usb_mut-unused _ usb cs
        ∙ ap (finish cs) (elim (Option-cases (found p addr usb)) [
          | inl gone ↦ rw (is_allocated_lem p addr usb v, gone) refl
          | inr (ep, there) ↦
              rw (is_allocated_lem p addr usb v, there) (if_apply (p.index addr == 0) usb _ _)
        ])

    -- Nobody holding the driver and the endpoint allocator valid, where no endpoint stands at an
    -- address `set_stalled` does nothing, but `is_stalled` panics.
    pub bus_stall_missing :
        (addr : EndpointAddress) (stalled : Bool)
        → IsValid p usb.ep_allocator
        → found p addr usb ≡ none
        → (set_stalled c p fuel addr stalled bus ≡ done (tt, bus))
          × (is_stalled c p addr bus ≡ panic)
    unfolding set_stalled is_stalled is_ep_stalled
    bus_stall_missing addr stalled v gone = (
      with_usb_mut-unused _ usb cs ∙ rw (is_allocated_lem p addr usb v, gone) refl,
      with_usb-unused _ usb cs ∙ rw (endpoint_lem p usb.ep_allocator v addr, gone) refl,
    )
