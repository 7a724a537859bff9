-- ===== src/Driver/Sound/Grown.antt =====
-- A sound driver with one more endpoint is sound, and so is a new driver.
use imxrt_usbd.Common.{
  ℕ, ◌+◌, ◌-◌, ◌≤◌, ◌<◌, ◌≡◌, ◌≢◌, refl, sym, ap, ◌∙◌, subst, ◌⊎◌, inl, inr, arith, List, none,
  some, length, get_elem?, set, get_elem?-set_self, get_elem?-set_ne,
}
use native.Mathlib.Decide.{ℕ_discrete}
use imxrt_usbd.Buffer.{Buffer, EndpointMemory}
use imxrt_usbd.Td.{Td, set_terminate, clear_status}
use imxrt_usbd.Td.Laws.{clear_status-Holds}
use imxrt_usbd.Qh.{Qh, max_packet_len}
use imxrt_usbd.Platform.{Platform, EndpointAddress, EndpointType}
use imxrt_usbd.Endpoint
use imxrt_usbd.Endpoint.{Endpoint, Session}
use imxrt_usbd.Endpoint.New.{new_lem}
use imxrt_usbd.Endpoint.Data.{FitsPacket}
use imxrt_usbd.Endpoint.Returns.{IsCounted}
use imxrt_usbd.State.{slot, Slot}
use imxrt_usbd.State.Slots.{IsValid, at_slot, at_slot-set}
use imxrt_usbd.Driver.{Driver}
use imxrt_usbd.Driver.Lookup.{found}
use imxrt_usbd.Driver.Sound.{IsSound, IsHoused, InSlot, AreApart, top, same_some}

-- A new endpoint fits its buffer and has nothing left to transfer that was not scheduled.
pub new-fits :
    (p : Platform) (addr : EndpointAddress) (qh : Qh) (qh_at : ℕ) (td : Td) (td_at : ℕ)
    (buffer : Buffer) (kind : EndpointType)
    → IsCounted p td
    → let ep = Endpoint.new p addr qh qh_at td td_at buffer kind in
      FitsPacket p ep × IsCounted p ep.td × (ep.buffer ≡ buffer)
unfolding Endpoint.new set_terminate clear_status max_packet_len
new-fits p addr qh qh_at td td_at buffer kind counted =
    let packet = (new_lem p addr qh qh_at td td_at buffer kind).0 in
    let cleared = clear_status-Holds p.ral (record td { next = 1 }) _ _ _ (refl, refl, refl) in
    (omega (arith, packet.0), omega (arith, cleared.0), refl)

module _ (p : Platform) (m : EndpointMemory) (mem : ℕ → ℕ) (needs : EndpointAddress → Type 0)
    (d : Driver) (s : IsSound p m mem needs d) where
  -- The driver with an endpoint `e` in slot `i`, its buffer taken from the endpoint memory.
  abbrev pub grown : ℕ → ℕ → ℕ → Endpoint → Driver
  grown i mask size e = record d {
    buffer_allocator = record (d.buffer_allocator) { ptr = d.buffer_allocator.ptr - size };
    ep_allocator = record (d.ep_allocator) {
      alloc_mask = mask;
      ep_list = set d.ep_allocator.ep_list i (some e);
    };
  }

  module _ (i mask size : ℕ) (e : Endpoint) (in_range : i < length d.ep_allocator.ep_list)
      (free : at_slot i d.ep_allocator.ep_list ≡ none)
      (fits : size ≤ d.buffer_allocator.ptr - d.buffer_allocator.start) (packet : FitsPacket p e)
      (counted : IsCounted p e.td)
      (at_top : e.buffer ≡ record { ptr = d.buffer_allocator.ptr - size; len = size })
      (valid : IsValid p (record (d.ep_allocator) {
        alloc_mask = mask;
        ep_list = set d.ep_allocator.ep_list i (some e);
      })) where
    abbrev slots : List Slot
    slots = d.ep_allocator.ep_list

    -- What is in a slot is the new endpoint, or was there before.
    new_or_old :
        (j : ℕ) (f : Endpoint)
        → InSlot (set slots i (some e)) j f
        → ((i ≡ j) × (e ≡ f)) ⊎ ((i ≢ j) × InSlot slots j f)
    new_or_old j f now = elim (ℕ_discrete i j) [
      | yes same ↦ inl (
        same,
        same_some e f (
            sym (get_elem?-set_self slots i (some e) in_range)
            ∙ ap (get_elem? (set slots i (some e))) same
            ∙ now),
      )
      | no ne ↦ inr (ne, sym (get_elem?-set_ne slots i j (some e) ne) ∙ now)
    ]

    low_lt : d.buffer_allocator.ptr - size + size ≡ d.buffer_allocator.ptr
    low_lt = omega arith

    new_above :
        (j : ℕ) (f : Endpoint) → InSlot slots j f → e.buffer.ptr + e.buffer.len ≤ f.buffer.ptr
    new_above j f was =
        subst (λ (b : Buffer). b.ptr + b.len ≤ f.buffer.ptr) (sym at_top)
          (omega (arith, low_lt, (s.housed j f was).above))

    stand_grown :
        (a : EndpointAddress) (f : Endpoint)
        → found p a d ≡ some f
        → (g : Endpoint) × (at_slot (slot p a) (set slots i (some e)) ≡ some g)
    stand_grown a f was = elim (ℕ_discrete i (slot p a)) [
      | yes same ↦ (
        e,
        subst (λ k. at_slot k (set slots i (some e)) ≡ some e) same
            (at_slot-set i slots e in_range),
      )
      | no ne ↦ (f, rw (get_elem?-set_ne slots i (slot p a) (some e) ne, at_slot) was)
    ]

    -- A new endpoint in a free slot, with a buffer from the top of what is left, keeps the driver sound.
    pub grown-IsSound : IsSound p m mem needs (grown i mask size e)
    grown-IsSound = record {
      valid = valid;
      starts = s.starts;
      above = omega (arith, s.starts, s.above);
      below = omega (arith, s.below);
      housed = λ j f now. elim (new_or_old j f now) [
        | inl (_, same) ↦
            subst (λ x. IsHoused p m (d.buffer_allocator.ptr - size) x) same
              (record {
                above =
                    subst (λ (b : Buffer). d.buffer_allocator.ptr - size ≤ b.ptr) (sym at_top)
                      (omega arith);
                below =
                    subst (λ (b : Buffer). b.ptr + b.len ≤ top m) (sym at_top)
                      (omega (arith, low_lt, s.below));
                packet = packet;
                counted = counted;
              })
        | inr (_, was) ↦
            let house = s.housed j f was in
            record {
              above = omega (arith, house.above);
              below = house.below;
              packet = house.packet;
              counted = house.counted;
            }
      ];
      fresh = s.fresh;
      apart = λ j k f g fj gk ne. elim (new_or_old j f fj) [
        | inl (ij, ef) ↦ elim (new_or_old k g gk) [
          | inl (ik, _) ↦ absurd (ne (sym ij ∙ ik))
          | inr (_, was) ↦ subst (λ x. AreApart x g) ef (inl (new_above k g was))
        ]
        | inr (_, was) ↦ elim (new_or_old k g gk) [
          | inl (_, eg) ↦ subst (λ x. AreApart f x) eg (inr (new_above j f was))
          | inr (_, was') ↦ s.apart j k f g was was' ne
        ]
      ];
      outside = s.outside;
      stands = λ a need. let (f, was) = s.stands a need in stand_grown a f was;
    }
