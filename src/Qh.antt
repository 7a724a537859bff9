-- ===== src/Qh.antt =====
-- src/qh.rs: queue heads. The setup buffer is memory of the controller, see Platform.
pub mod Laws
use Prim.Native.Nat.{min}
use imxrt_usbd.Common.{ℕ, ◌*◌, ◌%◌, ◌^◌, Bool, true, false, not, List, ◌∷◌, if◌then◌else◌, M}
use imxrt_usbd.Machine.{World}
use imxrt_usbd.Cache.{clean_invalidate_dcache_by_address}
use imxrt_usbd.Ral.{Field, Ral}
use imxrt_usbd.Td
use imxrt_usbd.Td.{Td}

pub record Qh : Type 0 where
  pub capabilities : ℕ
  pub overlay : Td

-- The words of a queue head that the driver sets and the controller reads.
abbrev pub words : Qh → List ℕ
words qh = qh.capabilities ∷ Td.words qh.overlay

abbrev pub new : Qh
new = record { capabilities = 0; overlay = Td.new }

-- The fields of CAPABILITIES.
abbrev pub zlt : Field
zlt = record { offset = 29; mask = 1 * 2 ^ 29 }

abbrev pub maximum_packet_length : Field
maximum_packet_length = record { offset = 16; mask = 0x7FF * 2 ^ 16 }

abbrev pub ios : Field
ios = record { offset = 15; mask = 1 * 2 ^ 15 }

-- `overlay_mut` gives access to the overlay: `f` is what is done to it.
unfoldable pub overlay_mut : (Td → Td) → Qh → Qh
overlay_mut f qh = record qh { overlay = f qh.overlay }

-- `slot` is the address of the local variable `self`, as in Td.
unfoldable pub clean_invalidate_dcache : Bool → ℕ → M World (Unit {0})
clean_invalidate_dcache checks slot = clean_invalidate_dcache_by_address checks slot 64

module _ (ral : Ral) where
  unfoldable pub set_max_packet_len : ℕ → Qh → Qh
  set_max_packet_len n qh = record qh {
    capabilities = ral.modify maximum_packet_length (min n 1024 % 2 ^ 32) qh.capabilities;
  }

  unfoldable pub max_packet_len : Qh → ℕ
  max_packet_len qh = ral.read maximum_packet_length qh.capabilities

  unfoldable pub set_zero_length_termination : Bool → Qh → Qh
  set_zero_length_termination on qh = record qh {
    capabilities = ral.modify zlt (if not on then 1 else 0) qh.capabilities;
  }

  unfoldable pub set_interrupt_on_setup : Bool → Qh → Qh
  set_interrupt_on_setup on qh = record qh {
    capabilities = ral.modify ios (if on then 1 else 0) qh.capabilities;
  }
