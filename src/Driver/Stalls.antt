-- ===== src/Driver/Stalls.antt =====
-- What stalling and unstalling an endpoint does, on each of its branches.
use imxrt_usbd.Common.{
  ℕ, ◌<◌, ◌≡◌, ◌≢◌, ◌⊎◌, inl, inr, refl, ap, ◌∙◌, arith, Bool, true, false, some, done, Bool-cases,
  if◌then◌else◌,
}
use imxrt_usbd.Machine.{endptctrl, endptprime}
use imxrt_usbd.Qh
use imxrt_usbd.Platform.{Platform, UsbField, EndpointAddress, RegKind, home, get}
use imxrt_usbd.Platform.Waits.{Settles}
use imxrt_usbd.State.{endpoint_set}
use imxrt_usbd.State.Slots.{IsValid}
use imxrt_usbd.State.Allocate.{endpoint_set-IsValid}
use imxrt_usbd.Endpoint.{Endpoint, Session, is_out}
use imxrt_usbd.Endpoint.Control.{changed, stall_field, set_stalled-sets}
use imxrt_usbd.Endpoint.Transfer.{IsReady, IsScheduled, schedule_transfer-IsScheduled}
use imxrt_usbd.Driver.{Driver, schedule_packet}
use imxrt_usbd.Driver.Lookup.{found, with_ep-found, primed, is_primed_lem}
use imxrt_usbd.Driver.Transfers.{ep_stall, stall_session}
use imxrt_usbd.Driver.Reads.{after_stat}

module _ (p : Platform) where
  -- After the stall bit of `s` was changed. Only an OUT endpoint that is unstalled is looked at again:
  -- it is scheduled for a packet unless it is primed.
  abbrev pub IsReprimed : Bool → EndpointAddress → Session → Session → Type 0
  IsReprimed stall addr s s' =
      (((stall ≡ true) ⊎ (is_out (p.direction addr) ≡ false)) × (s' ≡ s))
      ⊎ ((stall ≡ false)
          × (is_out (p.direction addr) ≡ true)
          × (primed p s ≡ true)
          × (s' ≡ after_stat p s))
      ⊎ ((stall ≡ false)
          × (is_out (p.direction addr) ≡ true)
          × (primed p s ≡ false)
          × IsScheduled p (Qh.max_packet_len p.ral s.ep.qh) (after_stat p s) s')

  module _ (fuel : ℕ) (addr : EndpointAddress) (g : UsbField) (s : Session)
      (small : p.index s.ep.address < 8) (other : stall_field p s ≢ g)
      (at : home g ≡ RegKind.endptctrl) where
    abbrev reg_value : ℕ
    reg_value = p.answer s.world.log (endptctrl (p.index s.ep.address))

    -- The control register's value after the stall bit was set or cleared.
    abbrev set_to : Bool → ℕ
    set_to stall = (set_stalled-sets p stall g s small at other).0

    abbrev stalled_session : Bool → Session
    stalled_session stall = changed p s (endptctrl (p.index s.ep.address)) reg_value (set_to stall)

    stall_session_lem :
        (stall : Bool)
        → IsReady p s
        → Settles p endptprime fuel
        → (s' : Session) × (stall_session p fuel stall addr s ≡ done (tt, s'))
          × IsReprimed stall addr (stalled_session stall) s'
          × (s'.ep.address ≡ s.ep.address)
    unfolding stall_session schedule_packet
    stall_session_lem true ready settles = (
      stalled_session true,
      ground (arith, (set_stalled-sets p true g s small at other).1),
      inl (inl refl, refl),
      refl,
    )
    stall_session_lem false ready settles = elim (Bool-cases (is_out (p.direction addr))) [
      | inr input ↦ (
        stalled_session false,
        ground (arith, (set_stalled-sets p false g s small at other).1, input),
        inl (inr input, refl),
        refl,
      )
      | inl output ↦ elim (Bool-cases (primed p (stalled_session false))) [
        | inl busy ↦ (
          after_stat p (stalled_session false),
          ground (
            arith,
            (set_stalled-sets p false g s small at other).1,
            output,
            is_primed_lem p (stalled_session false) ready.has_bit,
            busy,
          ),
          inr (inl (refl, output, busy, refl)),
          refl,
        )
        | inr idle ↦
            let s1 = after_stat p (stalled_session false) in
            let ready' : IsReady p s1 = record {
              low_buffer = ready.low_buffer;
              low_stack = ready.low_stack;
              has_bit = ready.has_bit;
            } in
            let (s', ran, scheduled) =
              schedule_transfer-IsScheduled p fuel (Qh.max_packet_len p.ral s.ep.qh) s1 ready'
                settles in
            (
              s',
              ground (
                arith,
                (set_stalled-sets p false g s small at other).1,
                output,
                is_primed_lem p (stalled_session false) ready.has_bit,
                idle,
                ran,
              ),
              inr (inr (refl, output, idle, scheduled)),
              ap (λ e. e.address) scheduled.kept,
            )
      ]
    ]

  -- Over a valid endpoint allocator, for endpoints 0 to 7 with no obstacle to a transfer (`IsReady`)
  -- and a controller that takes a prime within `fuel` reads: to stall or unstall the endpoint at
  -- `addr` reads its control register and writes it once, with the stall bit of its direction as asked
  -- and any other field `g` as it was. If it was a stall, or the address is of an IN endpoint, that
  -- is all. An OUT endpoint that is unstalled has its status read then, and if it is not primed, a
  -- transfer of its packet size is scheduled. The allocator stays valid.
  pub ep_stall_lem :
      (fuel : ℕ) (stall : Bool) (addr : EndpointAddress) (d : Driver) (ep : Endpoint) (g : UsbField)
      → IsValid p d.ep_allocator
      → found p addr d ≡ some ep
      → p.index ep.address < 8
      → home g ≡ RegKind.endptctrl
      → stall_field p (record { ep = ep; world = d.world }) ≢ g
      → IsReady p (record { ep = ep; world = d.world })
      → Settles p endptprime fuel
      → let start : Session = record { ep = ep; world = d.world } in
        let reg = endptctrl (p.index ep.address) in
        let x = p.answer d.world.log reg in
        (x' : ℕ) × (s' : Session) × (d' : Driver) × (ep_stall p fuel stall addr d ≡ done (tt, d'))
        × (d' ≡ record d {
          ep_allocator = endpoint_set p addr s'.ep d.ep_allocator;
          world = s'.world;
        })
        × (get p (stall_field p start) x' ≡ (if stall then 1 else 0))
        × (get p g x' ≡ get p g x)
        × IsReprimed stall addr (changed p start reg x x') s'
        × IsValid p d'.ep_allocator
  unfolding ep_stall
  ep_stall_lem fuel stall addr d ep g v there small at other ready settles =
      let start : Session = record { ep = ep; world = d.world } in
      let (x', _, set, kept) = set_stalled-sets p stall g start small at other in
      let (s', ran, reprimed, same) =
        stall_session_lem fuel addr g start small other at stall ready settles in
      (
        x',
        s',
        _,
        with_ep-found p addr d v ep (stall_session p fuel stall addr) there ∙ rw ran refl,
        refl,
        set,
        kept,
        reprimed,
        endpoint_set-IsValid p d.ep_allocator v addr ep s'.ep there same,
      )
