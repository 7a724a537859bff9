-- ===== src/Endpoint/Data.antt =====
-- What reading and writing an endpoint's buffer do.
use Prim.Native.Nat.{min}
use imxrt_usbd.Common.{
  ℕ, ◌+◌, ◌^◌, ◌≤◌, ◌<◌, ◌⊎◌, ◌≡◌, refl, subst, arith, List, ◌++◌, some, if◌then◌else◌, length,
  take, drop, done,
}
use imxrt_usbd.Machine.{World}
use imxrt_usbd.Buffer
use imxrt_usbd.Buffer.{Buffer}
use imxrt_usbd.Buffer.Copy.{bytes, volatile_read-take, volatile_write-take}
use imxrt_usbd.Cache.Cover.{reg_log, written_back, lines_of, clean-IsCleaned}
use imxrt_usbd.Td
use imxrt_usbd.Qh
use imxrt_usbd.Platform.{Platform}
use imxrt_usbd.Endpoint.{Endpoint, Session, read, write}

module _ (p : Platform) where
  -- The packet size of the queue head fits the buffer: so a new endpoint has it.
  abbrev pub FitsPacket : Endpoint → Type 0
  FitsPacket ep = Qh.max_packet_len p.ral ep.qh ≤ ep.buffer.len

  -- A read gives the first bytes of the endpoint's buffer: as many as the packet size, the caller's
  -- slice and the last transfer allow. The rest of the slice, the endpoint and memory stay.
  pub read_lem :
      (buffer : List ℕ) (s : Session) (transferred : ℕ)
      → FitsPacket s.ep
      → Td.bytes_transferred p.ral p.checks s.ep.td ≡ done transferred
      → let n = min (min (Qh.max_packet_len p.ral s.ep.qh) (length buffer)) transferred in
        read p buffer s ≡ done ((n, bytes s.world.mem s.ep.buffer.ptr n ++ drop n buffer), s)
  unfolding read
  read_lem buffer s transferred fits e =
      let n = min (min (Qh.max_packet_len p.ral s.ep.qh) (length buffer)) transferred in
      rw (e, volatile_read-take s.ep.buffer s.world.mem buffer n (omega arith) (omega arith)) refl

  -- A write stores the front of the slice, as much as the packet size allows, at the front of the
  -- endpoint's buffer and returns how much that is. No other byte of memory changes, nor does the
  -- endpoint, and no register is accessed: the buffer is only cleaned from the cache, which writes back the lines
  -- of that many bytes as they are then.
  pub write_lem :
      (buffer : List ℕ) (s : Session)
      → FitsPacket s.ep
      → s.ep.buffer.ptr + s.ep.buffer.len + 32 < 2 ^ 32
      → let n = min (Qh.max_packet_len p.ral s.ep.qh) (length buffer) in
        (w : World) × (write p buffer s ≡ done (n, record s { world = w }))
        × (bytes w.mem s.ep.buffer.ptr n ≡ take n buffer)
        × ((at : ℕ)
            → (at < s.ep.buffer.ptr) ⊎ (s.ep.buffer.ptr + n ≤ at)
            → w.mem at ≡ s.world.mem at)
        × (reg_log w.log ≡ reg_log s.world.log)
        × ((b : ℕ)
            → written_back w.log b ≡ (
                if lines_of s.ep.buffer.ptr n b
                then some (w.mem b)
                else written_back s.world.log b))
  unfolding write Buffer.clean_invalidate_dcache
  write_lem buffer s fits room =
      let n = min (Qh.max_packet_len p.ral s.ep.qh) (length buffer) in
      let (mem, stored, there, outside) =
        volatile_write-take s.ep.buffer s.world.mem buffer n (omega arith) (omega arith) in
      let whole : min s.ep.buffer.len n ≡ n = omega (arith, fits) in
      let (log, cleaned, c) =
        clean-IsCleaned p.checks s.ep.buffer.ptr (min s.ep.buffer.len n)
          (record (s.world) { mem = mem }) (omega arith) in
      (
        record { log = log; mem = mem },
        rw (stored, cleaned) refl,
        there,
        outside,
        c.same_regs,
        λ b.
            subst
              (λ (k : ℕ). written_back log b ≡ (
                if lines_of s.ep.buffer.ptr k b then some (mem b) else written_back s.world.log b))
              whole (c.writes_back b),
      )
