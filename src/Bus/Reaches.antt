-- ===== src/Bus/Reaches.antt =====
-- The adapters that permitted calls and the controller lead to, from a new one on.
pub mod Tests
use Prim.Native.Nat.{min}
use imxrt_usbd.Common.{
  ℕ, zero, suc, ◌+◌, ◌≤◌, ◌<◌, ◌≡◌, ◌≢◌, ◌⊎◌, inl, inr, refl, sym, ap, ◌∙◌, subst, arith, Bool,
  true, false, List, Option, none, some, get_elem?, replicate, Outcome, done, panic, and_then,
  unwrap,
}
use imxrt_usbd.Machine.{World}
use imxrt_usbd.Buffer
use imxrt_usbd.Buffer.{Buffer, EndpointMemory}
use imxrt_usbd.Ral.Fields.{read-zero}
use imxrt_usbd.Td
use imxrt_usbd.Td.{Td}
use imxrt_usbd.Platform.{Platform, EndpointAddress}
use imxrt_usbd.State
use imxrt_usbd.State.{EndpointState, EndpointAllocator, Slot}
use imxrt_usbd.State.Slots.{IsValid, at_slot, at_slot-some}
use imxrt_usbd.State.Iterate.{allocator-new, allocator-new_eq, new_allocator, allocator_again}
use imxrt_usbd.Endpoint.{Endpoint, Session}
use imxrt_usbd.Endpoint.Keeps.{value, and_then-done}
use imxrt_usbd.Endpoint.Returns.{IsPrompt, IsCounted, IsOutside, Stands}
use imxrt_usbd.Driver
use imxrt_usbd.Driver.{Driver, Speed}
use imxrt_usbd.Driver.Lookup.{found}
use imxrt_usbd.Driver.Sound.{
  IsSound, IsLow, AreApart, InSlot, top, renewed, found-Stands, session-IsSound, world-IsSound,
}
use imxrt_usbd.Driver.Returns.Endpoints.{initialize-Total}
use imxrt_usbd.Bus.{BusAdapter, CortexM, unused, init, with_speed}
use imxrt_usbd.Bus.System.{
  Call, perform, Permitted, Stood, IsTransferred, transferred, Step, call, work, Reaches, start,
  later,
}
use imxrt_usbd.Bus.Returns.{idle, perform-returns}

-- An adapter that nobody holds, over a sound driver.
pub record IsIdle (p : Platform) (m : EndpointMemory) (mem : ℕ → ℕ) (b : BusAdapter) : Type 0 where
  pub nobody : b.borrow ≡ unused
  pub sound : IsSound p m mem (Stood p b.usb) b.usb

same_done : {A : Type 0} (a b : A) → ◌≡◌ {A = Outcome A} (done a) (done b) → a ≡ b
same_done a b e = cc

replicate-get :
    {A : Type 0} (n i : ℕ) (x : A) (y : A) → get_elem? (replicate n x) i ≡ some y → x ≡ y
replicate-get zero i x y e = cc
replicate-get (suc n) zero x y e = cc
replicate-get (suc n) (suc i) x y e = replicate-get n i x y e

module _ (c : CortexM) (p : Platform) (m : EndpointMemory) (mem : ℕ → ℕ) (low : IsLow m) (fuel : ℕ)
    (prompt : IsPrompt p fuel) where
  -- The work of the controller on an endpoint keeps what an operation of the endpoint keeps.
  transferred-Stands :
      (ep ep' : Endpoint) (w : World) (mem' : ℕ → ℕ)
      → Stands p ep w.mem (record { ep = ep; world = w })
      → IsTransferred p ep ep' w.mem mem'
      → Stands p ep w.mem (record { ep = ep'; world = record w { mem = mem' } })
  unfolding imxrt_usbd.Qh.max_packet_len
  transferred-Stands ep ep' w mem' s t = record {
    same_address = t.same_address;
    same_buffer = t.same_buffer;
    packet = rw (t.same_packet, t.same_buffer) s.packet;
    counted = omega (arith, t.fewer, t.same_size, s.counted);
    outside = t.inside;
  }

  -- A permitted call on an idle adapter returns, and leaves it idle.
  pub call-IsIdle :
      (b : BusAdapter) (what : Call)
      → IsIdle p m mem b
      → Permitted p b.usb what
      → (b' : BusAdapter) × (perform c p fuel what b ≡ done (tt, b')) × IsIdle p m mem b'
  call-IsIdle b what i allowed =
      let (usb', ran, s') =
        perform-returns c p m mem low fuel prompt b.usb b.cs i.sound what allowed in
      let same : b ≡ idle b.cs b.usb =
        ap (λ h. record { usb = b.usb; borrow = h; cs = b.cs }) i.nobody in
      (
        idle b.cs usb',
        subst (λ x. perform c p fuel what x ≡ done (tt, idle b.cs usb')) (sym same) ran,
        record {
          nobody = refl;
          sound = renewed p m mem (Stood p b.usb) (Stood p usb') usb' s' (λ addr stood. stood);
        },
      )

  Step-IsIdle : {b b' : BusAdapter} → Step c p fuel b b' → IsIdle p m mem b → IsIdle p m mem b'
  Step-IsIdle {b} {b'} (call what allowed ran) i =
      let (b1, ran1, i1) = call-IsIdle b what i allowed in
      subst (IsIdle p m mem) (ap (λ r. r.1) (same_done (tt, b1) (tt, b') (sym ran1 ∙ ran))) i1
  Step-IsIdle {b} {b'} (work addr ep ep' mem' there t) i =
      let w = b.usb.world in
      let s' =
        session-IsSound p m low mem (Stood p b.usb) (b.usb) i.sound addr ep there
          (record { ep = ep'; world = record w { mem = mem' } })
          (transferred-Stands ep ep' w mem'
            (found-Stands p m low mem (Stood p b.usb) (b.usb) i.sound addr ep there) t) in
      record {
        nobody = i.nobody;
        sound = renewed p m mem (Stood p b.usb) _ _ s' (λ addr stood. stood);
      }

  Reaches-IsIdle :
      {b b' : BusAdapter} → Reaches c p fuel b b' → IsIdle p m mem b → IsIdle p m mem b'
  Reaches-IsIdle start i = i
  Reaches-IsIdle (later before step) i = Step-IsIdle step (Reaches-IsIdle before i)

no_endpoint : (n i : ℕ) (ep : Endpoint) → get_elem? (replicate n none) i ≡ some (some ep) → ⊥
no_endpoint n i ep e = absurd (cc (replicate-get n i none (some ep) e))

-- The driver that a new adapter starts from.
abbrev fresh : EndpointMemory → ℕ → ℕ → ℕ → World → Driver
fresh m count qh_base td_base w = record {
  buffer_allocator = record { start = m.buffer; ptr = m.buffer + m.size };
  ep_allocator = new_allocator (min count 16) qh_base td_base;
  ep_out = 0;
  world = w;
}

pub new_allocator-IsValid :
    (p : Platform) (count qh_base td_base : ℕ)
    → IsValid p (new_allocator (min count 16) qh_base td_base)
new_allocator-IsValid p count qh_base td_base =
    let (a, there, valid, _, _) = allocator-new p count qh_base td_base in
    subst (IsValid p) (cc (sym there ∙ allocator-new_eq count qh_base td_base)) valid

fresh-IsSound :
    (p : Platform) (m : EndpointMemory) (count qh_base td_base : ℕ) (w : World)
    → IsSound p m w.mem (λ addr. ⊥) (fresh m count qh_base td_base w)
fresh-IsSound p m count qh_base td_base w = record {
  valid = new_allocator-IsValid p count qh_base td_base;
  starts = refl;
  above = omega arith;
  below = omega arith;
  housed = λ i ep e. absurd (no_endpoint (min count 16) i ep e);
  fresh = λ i td e.
      subst (IsCounted p) (replicate-get (min count 16) i Td.new td e)
        (omega (arith, read-zero p.ral Td.total_bytes));
  apart = λ i j e f ei fj ne. absurd (no_endpoint (min count 16) i e ei);
  outside = λ at out. refl;
  stands = λ addr need. absurd need;
}

module _ (p : Platform) (m : EndpointMemory) (low : IsLow m) (untaken : m.taken ≡ false) (fuel : ℕ)
    (prompt : IsPrompt p fuel) (count qh_base td_base : ℕ) (speed : Speed) (w : World) where
  abbrev assigned : EndpointState
  assigned = (State.allocator (State.new count qh_base td_base)).1

  with_speed_lem :
      (usb : Driver)
      → Driver.initialize p fuel speed (fresh m count qh_base td_base w) ≡ done (tt, usb)
      → with_speed p fuel m (State.new count qh_base td_base) speed w
        ≡ done
            (record { usb = usb; borrow = unused; cs = false }, record m { taken = true }, assigned)
  unfolding with_speed init Driver.new Buffer.allocator
  with_speed_lem usb ran = rw (allocator-new_eq count qh_base td_base, untaken, ran) refl

  -- An adapter over endpoint memory and a new endpoint state, neither assigned, is made if neither the
  -- memory nor the stack reaches the last pages of the address space and the controller answers within
  -- `fuel` reads or attempts (`IsPrompt`). Both are assigned then. Nobody holds the adapter, and its
  -- driver is sound (`IsSound`).
  pub with_speed-returns :
      (b : BusAdapter) × (m' : EndpointMemory) × (state' : EndpointState) × (with_speed p fuel m
          (State.new count qh_base td_base)
          speed
          w
        ≡ done (b, m', state'))
      × IsIdle p m w.mem b
      × (m'.taken ≡ true)
      × ((State.allocator state').0 ≡ none)
  with_speed-returns =
      let (_, usb, ran, s) =
        (initialize-Total p m low w.mem (λ addr. ⊥) fuel speed prompt).runs
          (fresh m count qh_base td_base w) (fresh-IsSound p m count qh_base td_base w) in
      (
        record { usb = usb; borrow = unused; cs = false },
        record m { taken = true },
        assigned,
        with_speed_lem usb ran,
        record {
          nobody = refl;
          sound = renewed p m w.mem (λ addr. ⊥) (Stood p usb) usb s (λ addr stood. stood);
        },
        refl,
        allocator_again (State.new count qh_base td_base),
      )

  module _ (c : CortexM) (b0 b : BusAdapter) (m' : EndpointMemory) (state' : EndpointState)
      (made : with_speed p fuel m (State.new count qh_base td_base) speed w ≡ done (b0, m', state'))
      (reached : Reaches c p fuel b0 b) where
    reached-IsIdle : IsIdle p m w.mem b
    reached-IsIdle =
        let (b1, m1, state1, ran, i, _, _) = with_speed-returns in
        Reaches-IsIdle c p m w.mem low fuel prompt reached (
          subst (IsIdle p m w.mem)
            (ap (λ r. r.0) (same_done (b1, m1, state1) (b0, m', state') (sym ran ∙ made))) i)

    -- An adapter is made over endpoint memory and a new endpoint state, neither assigned, where neither
    -- the memory nor the stack reaches the last pages of the address space. Then any permitted calls
    -- are made, and the controller works on any endpoints in between (`Reaches`), as long as it answers
    -- within `fuel` reads or attempts (`IsPrompt`). Then every permitted call returns: none panics,
    -- none waits for ever, and none reads an endpoint that was never initialised.
    pub reached-call_returns :
        (what : Call)
        → Permitted p b.usb what
        → (b' : BusAdapter) × (perform c p fuel what b ≡ done (tt, b'))
    reached-call_returns what allowed =
        let (b', ran, _) = call-IsIdle c p m w.mem low fuel prompt b what reached-IsIdle allowed in
        (b', ran)

    -- An adapter is made over endpoint memory and a new endpoint state, neither assigned, where neither
    -- the memory nor the stack reaches the last pages of the address space, and any permitted calls and
    -- work of the controller follow (`Reaches`), the controller answering within `fuel` reads or
    -- attempts (`IsPrompt`). Then every byte `at` outside the endpoint memory is as it was before the
    -- adapter was made, though the driver and the controller wrote to buffers; and of two endpoints in
    -- different slots, the first has its buffer in the endpoint memory and shares no byte with the
    -- second.
    pub reached_confined :
        (at : ℕ) (addr addr' : EndpointAddress) (e f : Endpoint)
        → (at < m.buffer) ⊎ (m.buffer + m.size ≤ at)
        → found p addr b.usb ≡ some e
        → found p addr' b.usb ≡ some f
        → State.slot p addr ≢ State.slot p addr'
        → (b.usb.world.mem at ≡ w.mem at)
          × AreApart e f
          × (m.buffer ≤ e.buffer.ptr)
          × (e.buffer.ptr + e.buffer.len ≤ m.buffer + m.size)
    reached_confined at addr addr' e f out there there' ne =
        let s = reached-IsIdle.sound in
        let eps = b.usb.ep_allocator.ep_list in
        let house = s.housed (State.slot p addr) e (at_slot-some (State.slot p addr) eps there) in
        (
          s.outside at out,
          s.apart (State.slot p addr) (State.slot p addr') e f
              (at_slot-some (State.slot p addr) eps there)
              (at_slot-some (State.slot p addr') eps there') ne,
          omega (arith, house.above, s.above),
          house.below,
        )
