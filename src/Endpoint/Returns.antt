-- ===== src/Endpoint/Returns.antt =====
-- Every operation of an endpoint returns, over a controller that answers in time, and stays within
-- the endpoint's buffer.
use Prim.Native.Nat.{min}
use imxrt_usbd.Common.{
  ℕ, ◌+◌, ◌^◌, ◌≤◌, ◌<◌, ◌≡◌, refl, sym, ap, ◌∙◌, subst, ◌⊎◌, inl, inr, arith, Bool, true, false,
  List, ◌==◌, length, M, lift,
}
use imxrt_usbd.Common.Total.{
  Total, Gives, bind-Gives, pure-Total, bind-Total, then-Total, if-Total, lift-Total, view-Total,
}
use imxrt_usbd.Machine.{Reg, Access, World, usbcmd, endptprime, endptflush, endptctrl}
use imxrt_usbd.Buffer.{Buffer}
use imxrt_usbd.Td
use imxrt_usbd.Td.Laws.{bytes_transferred_lem}
use imxrt_usbd.Td.Pages.{page}
use imxrt_usbd.Qh
use imxrt_usbd.Qh.Laws.{set_zero_length_termination-Holds}
use imxrt_usbd.Platform.{Platform, UsbField, get, rst}
use imxrt_usbd.Platform.Waits.{polled, Settles}
use imxrt_usbd.Platform.Prompt.{Quiet, HasMemory, read_reg-Quiet, write_reg-Quiet, modify_reg-Quiet}
use imxrt_usbd.Endpoint.{
  Endpoint, Session, on_world, this, register, enable_zlt, is_primed, initialize, has_setup,
  read_setup, read, write, write_bit, clear_complete, clear_nack, schedule_transfer, set_stalled,
  is_stalled, enable, is_enabled, endpoint_bit,
}
use imxrt_usbd.Endpoint.Control.{register-endptctrl}
use imxrt_usbd.Endpoint.Setup.{holds, attempts, read_setup_lem}
use imxrt_usbd.Endpoint.Data.{FitsPacket, write_lem}
use imxrt_usbd.Endpoint.Transfer.{IsReady, schedule_transfer-IsScheduled}

-- A controller that answers within `fuel` reads or attempts, whatever was done before, and a stack
-- that does not reach the end of the address space.
pub record IsPrompt (p : Platform) (fuel : ℕ) : Type 0 where
  pub primes : Settles p endptprime fuel
  pub flushes : Settles p endptflush fuel
  pub resets :
      (log : List Access)
      → (n : ℕ) × (n < fuel) × ((get p rst (p.answer (polled p usbcmd log n) usbcmd) == 1) ≡ false)
  pub arms :
      (at : ℕ) (log : List Access)
      → (n : ℕ) × (n < fuel) × (holds p at (attempts p at log n) ≡ true)
  pub low_stack : (log : List Access) → p.self_slot log + 96 < 2 ^ 32

-- An endpoint of which the hardware has the registers, with a buffer away from the end of the address
-- space.
pub record IsPlaced (p : Platform) (ep : Endpoint) : Type 0 where
  pub numbered : p.index ep.address < 8
  pub low_buffer : page ep.buffer.ptr 4 < 2 ^ 32
  pub room : ep.buffer.ptr + ep.buffer.len + 32 < 2 ^ 32

-- The bytes left to transfer are at most those that were scheduled.
abbrev pub IsCounted : Platform → Td.Td → Type 0
IsCounted p td = p.ral.read Td.total_bytes td.token ≤ td.last_transfer_size

-- What is known of an endpoint between its operations.
abbrev pub Known : Platform → Endpoint → Type 0
Known p ep = (p.index ep.address < 8) × IsCounted p ep.td

-- A byte outside a buffer.
abbrev pub IsOutside : Endpoint → ℕ → Type 0
IsOutside ep at = (at < ep.buffer.ptr) ⊎ (ep.buffer.ptr + ep.buffer.len ≤ at)

-- What an endpoint that was `ep0`, with memory `mem`, is after its operations: it has its address and
-- its buffer, its packets fit the buffer, and memory is as it was outside the buffer.
pub record Stands (p : Platform) (ep0 : Endpoint) (mem : ℕ → ℕ) (s : Session) : Type 0 where
  pub same_address : s.ep.address ≡ ep0.address
  pub same_buffer : s.ep.buffer ≡ ep0.buffer
  pub packet : FitsPacket p s.ep
  pub counted : IsCounted p s.ep.td
  pub outside : (at : ℕ) → IsOutside ep0 at → s.world.mem at ≡ mem at

module _ (p : Platform) (ep0 : Endpoint) (placed : IsPlaced p ep0) (mem : ℕ → ℕ) where
  abbrev I : Session → Type 0
  I = Stands p ep0 mem

  -- What does not touch memory or the endpoint.
  pub on_world-Total : {A : Type 0} {m : M World A} → Quiet m → Total I (on_world m)
  on_world-Total {A} {m} km = record {
    runs = λ s i.
        let (a, w, ran, same) = (km s.world.mem).runs (s.world) refl in
        (
          a,
          record s { world = w },
          rw ran refl,
          record {
            same_address = i.same_address;
            same_buffer = i.same_buffer;
            packet = i.packet;
            counted = i.counted;
            outside = λ at out. ap (λ m. m at) same ∙ i.outside at out;
          },
        );
  }

  index-lt : (s : Session) → I s → p.index s.ep.address < 8
  index-lt s i = subst (λ (a : ℕ). p.index a < 8) (sym i.same_address) placed.numbered

  pub this-Gives : Gives I (Known p) this
  this-Gives = record { runs = λ s i. (s.ep, s, refl, i, (index-lt s i, i.counted)) }

  pub bit-Total : (ep : Endpoint) → Known p ep → Total I (lift (endpoint_bit p ep))
  bit-Total ep k = lift-Total (endpoint_bit p ep) (2 ^ p.index ep.address) (ground arith)

  pub transferred-Total :
      (ep : Endpoint) → Known p ep → Total I (lift (Td.bytes_transferred p.ral p.checks ep.td))
  transferred-Total ep k =
      lift-Total (Td.bytes_transferred p.ral p.checks ep.td) _
        (bytes_transferred_lem p.ral p.checks ep.td k.1)

  pub register-Total :
      (ep : Endpoint) → Known p ep → Total I (lift (register p (p.index ep.address)))
  register-Total ep k =
      lift-Total (register p (p.index ep.address)) (endptctrl (p.index ep.address))
        (register-endptctrl p (p.index ep.address) k.0)

  pub ruleset worldly = (
    bind-Gives, this-Gives, pure-Total, bind-Total, then-Total, if-Total, on_world-Total,
    read_reg-Quiet, write_reg-Quiet, modify_reg-Quiet,
  )

  pub is_primed-Total : Total I (is_primed p)
  unfolding is_primed
  is_primed-Total = search (worldly, bit-Total)

  pub has_setup-Total : Total I (has_setup p)
  unfolding has_setup
  has_setup-Total = search (worldly, bit-Total)

  pub is_stalled-Total : Total I (is_stalled p)
  unfolding is_stalled
  is_stalled-Total = search (worldly, register-Total)

  pub set_stalled-Total : (stall : Bool) → Total I (set_stalled p stall)
  unfolding set_stalled
  set_stalled-Total stall = search (worldly, register-Total)

  pub enable-Total : Total I (enable p)
  unfolding enable
  enable-Total = search (worldly, register-Total)

  pub is_enabled-Total : Total I (is_enabled p)
  unfolding is_enabled
  is_enabled-Total = search (worldly, register-Total) depth 20

  pub initialize-Total : Total I (initialize p)
  unfolding initialize
  initialize-Total = search (worldly, register-Total)

  write_bit-Total :
      (reg : Reg) (for_in for_out : UsbField) → Total I (write_bit p reg for_in for_out)
  unfolding write_bit
  write_bit-Total reg for_in for_out = search (worldly, bit-Total)

  pub clear_complete-Total : Total I (clear_complete p)
  unfolding clear_complete
  clear_complete-Total = write_bit-Total _ _ _

  pub clear_nack-Total : Total I (clear_nack p)
  unfolding clear_nack
  clear_nack-Total = write_bit-Total _ _ _

  -- The first change of an endpoint that keeps what is known of it.
  rebuilt :
      (s s' : Session)
      → I s
      → s'.ep.address ≡ s.ep.address
      → s'.ep.buffer ≡ s.ep.buffer
      → s'.ep.qh.capabilities ≡ s.ep.qh.capabilities
      → IsCounted p s'.ep.td
      → s'.world.mem ≡ s.world.mem
      → I s'
  unfolding Qh.max_packet_len
  rebuilt s s' i address buffer qh counted same = record {
    same_address = address ∙ i.same_address;
    same_buffer = buffer ∙ i.same_buffer;
    packet = rw (qh, buffer) i.packet;
    counted = counted;
    outside = λ at out. ap (λ m. m at) same ∙ i.outside at out;
  }

  pub enable_zlt-Total : Total I (enable_zlt p)
  unfolding enable_zlt Qh.max_packet_len
  enable_zlt-Total = record {
    runs = λ s i. (
      tt,
      _,
      refl,
      record {
        same_address = i.same_address;
        same_buffer = i.same_buffer;
        packet =
            rw (set_zero_length_termination-Holds p.ral s.ep.qh _ _ _ (refl, refl, refl) true).0
              i.packet;
        counted = i.counted;
        outside = i.outside;
      },
    );
  }

  module _ (fuel : ℕ) (prompt : IsPrompt p fuel) where
    pub read_setup-Total : Total I (read_setup p fuel)
    read_setup-Total = record {
      runs = λ s i.
          let (n, lt, held) = prompt.arms s.ep.qh_at _ in
          let (m, _, ran) = read_setup_lem p fuel n s (omega (arith, index-lt s i)) lt held in
          (_, _, ran, rebuilt s _ i refl refl refl i.counted refl);
    }

    ready : (s : Session) → I s → IsReady p s
    ready s i = record {
      low_buffer =
          subst (λ (b : Buffer). page b.ptr 4 < 2 ^ 32) (sym i.same_buffer) placed.low_buffer;
      low_stack = prompt.low_stack;
      has_bit = omega (arith, index-lt s i);
    }

    pub schedule_transfer-Total : (size : ℕ) → Total I (schedule_transfer p fuel size)
    schedule_transfer-Total size = record {
      runs = λ s i.
          let (s', ran, sch) =
            schedule_transfer-IsScheduled p fuel size s (ready s i) prompt.primes in
          (
            tt,
            s',
            ran,
            rebuilt s s' i (ap (λ e. e.address) sch.kept) (ap (λ e. e.buffer) sch.kept)
                sch.same_packet (omega (arith, sch.prepared.fields.0, sch.prepared.last_size))
                sch.same_mem,
          );
    }

  pub read-Total : (buffer : List ℕ) → Total I (read p buffer)
  unfolding read
  read-Total buffer = search (worldly, transferred-Total, view-Total)

  pub write-Total : (buffer : List ℕ) → Total I (write p buffer)
  write-Total buffer = record {
    runs = λ s i.
        let (w, ran, _, kept, _, _) =
          write_lem p buffer s i.packet
            (subst (λ (b : Buffer). b.ptr + b.len + 32 < 2 ^ 32) (sym i.same_buffer) placed.room) in
        (
          _,
          record s { world = w },
          ran,
          record {
            same_address = i.same_address;
            same_buffer = i.same_buffer;
            packet = i.packet;
            counted = i.counted;
            outside = λ at out. kept at (below s i at out) ∙ i.outside at out;
          },
        );
  }
    where
      below :
          (s : Session)
          → I s
          → (at : ℕ) → IsOutside ep0 at
          → (at < s.ep.buffer.ptr)
            ⊎ (s.ep.buffer.ptr + min (Qh.max_packet_len p.ral s.ep.qh) (length buffer) ≤ at)
      below s i at out =
          elim (subst (λ (b : Buffer). (at < b.ptr) ⊎ (b.ptr + b.len ≤ at)) (sym i.same_buffer)
            out) [ inl before ↦ inl before | inr after ↦ inr (omega (arith, i.packet)) ]
