-- ===== src/Qh/Laws.antt =====
-- The capabilities of a queue head: each operation sets its own field and keeps the others.
use Prim.Native.Nat.{min}
use imxrt_usbd.Common.{ℕ, ◌%◌, ◌^◌, ◌≡◌, refl, ◌∙◌, arith, Bool, not, if◌then◌else◌}
use imxrt_usbd.Ral.{Ral}
use imxrt_usbd.Ral.Fields.{IsField, read-modify_self, read-modify_other}
use imxrt_usbd.Qh.{
  Qh, zlt, maximum_packet_length, ios, set_max_packet_len, set_zero_length_termination,
  set_interrupt_on_setup,
}

pub zlt-IsField : IsField zlt 1
zlt-IsField = omega arith

pub maximum_packet_length-IsField : IsField maximum_packet_length 11
maximum_packet_length-IsField = omega arith

pub ios-IsField : IsField ios 1
ios-IsField = omega arith

-- What the three fields hold.
abbrev pub Holds : Ral → Qh → ℕ → ℕ → ℕ → Type 0
Holds ral qh packet terminate setup =
    (ral.read maximum_packet_length qh.capabilities ≡ packet)
    × (ral.read zlt qh.capabilities ≡ terminate)
    × (ral.read ios qh.capabilities ≡ setup)

flag-below : (on : Bool) → (if on then 1 else 0) % 2 ^ 1 ≡ (if on then 1 else 0)
flag-below on = ground arith

module _ (ral : Ral) (qh : Qh) (packet terminate setup : ℕ)
    (h : Holds ral qh packet terminate setup) where
  pub set_max_packet_len-Holds :
      (n : ℕ) → Holds ral (set_max_packet_len ral n qh) (min n 1024) terminate setup
  unfolding set_max_packet_len
  set_max_packet_len-Holds n = (
    read-modify_self ral maximum_packet_length-IsField (min n 1024 % 2 ^ 32) qh.capabilities
        ∙ omega arith,
    read-modify_other ral maximum_packet_length-IsField zlt-IsField refl (min n 1024 % 2 ^ 32)
          qh.capabilities
        ∙ h.1,
    read-modify_other ral maximum_packet_length-IsField ios-IsField refl (min n 1024 % 2 ^ 32)
          qh.capabilities
        ∙ h.2,
  )

  pub set_zero_length_termination-Holds :
      (on : Bool)
      → Holds ral (set_zero_length_termination ral on qh) packet (if not on then 1 else 0) setup
  unfolding set_zero_length_termination
  set_zero_length_termination-Holds on =
      let v : ℕ = if not on then 1 else 0 in
      let c = qh.capabilities in
      (
        read-modify_other ral zlt-IsField maximum_packet_length-IsField refl v c ∙ h.0,
        read-modify_self ral zlt-IsField v c ∙ flag-below (not on),
        read-modify_other ral zlt-IsField ios-IsField refl v c ∙ h.2,
      )

  pub set_interrupt_on_setup-Holds :
      (on : Bool)
      → Holds ral (set_interrupt_on_setup ral on qh) packet terminate (if on then 1 else 0)
  unfolding set_interrupt_on_setup
  set_interrupt_on_setup-Holds on =
      let v : ℕ = if on then 1 else 0 in
      let c = qh.capabilities in
      (
        read-modify_other ral ios-IsField maximum_packet_length-IsField refl v c ∙ h.0,
        read-modify_other ral ios-IsField zlt-IsField refl v c ∙ h.1,
        read-modify_self ral ios-IsField v c ∙ flag-below on,
      )
