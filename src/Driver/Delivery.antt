-- ===== src/Driver/Delivery.antt =====
-- What goes over the wire: a packet that the host sent, and the bytes that the controller fetches.
pub mod Tests
use Prim.Native.Nat.{min}
use mathlib.Core.Path.{ap₂}
use imxrt_usbd.Common.{
  ℕ, zero, suc, ◌+◌, ◌-◌, ◌*◌, ◌/◌, ◌%◌, ◌^◌, ◌≤◌, ◌<◌, ◌≡◌, ◌⊎◌, inr, refl, sym, ap, ◌∙◌, subst,
  arith, Bool, true, false, List, [], ◌∷◌, ◌++◌, Option, none, some, length, take, drop, get_elem?,
  done,
}
use imxrt_usbd.Common.Bits.{bit}
use imxrt_usbd.Machine.{Reg, Access, World, endptprime}
use imxrt_usbd.Cache.Cover.{written_back, line, num_lines}
use imxrt_usbd.Buffer.Copy.{bytes}
use imxrt_usbd.Td
use imxrt_usbd.Td.{Td}
use imxrt_usbd.Td.Pages.{page_list, page_of}
use imxrt_usbd.Td.Laws.{bytes_transferred_lem}
use imxrt_usbd.Qh
use imxrt_usbd.Qh.Laws.{maximum_packet_length-IsField}
use imxrt_usbd.Ral.Fields.{read-lt}
use imxrt_usbd.Platform.{Platform, EndpointAddress, ok, err}
use imxrt_usbd.Platform.Waits.{Settles}
use imxrt_usbd.State.{slot, endpoint_set}
use imxrt_usbd.State.Slots.{IsValid}
use imxrt_usbd.Endpoint.{Endpoint, Session, check_errors}
use imxrt_usbd.Endpoint.Data.{FitsPacket}
use imxrt_usbd.Endpoint.Status.{failed, check_errors_lem}
use imxrt_usbd.Endpoint.Transfer.{IsReady, IsPrepared, IsScheduled}
use imxrt_usbd.Driver.{Driver}
use imxrt_usbd.Driver.Lookup.{found, with_ep-found, primed}
use imxrt_usbd.Driver.Transfers.{ep_read, ep_write, write_data}
use imxrt_usbd.Driver.Reads.{ep_read_data, read_size, after_clear, after_stat}
use imxrt_usbd.Driver.Writes.{write_data_lem}

length-bytes : (mem : ℕ → ℕ) (at n : ℕ) → length (bytes mem at n) ≡ n
length-bytes mem at zero = refl
length-bytes mem at (suc n) = ap suc (length-bytes mem (at + 1) n)

take-bytes : (mem : ℕ → ℕ) (at n k : ℕ) → n ≤ k → take n (bytes mem at k) ≡ bytes mem at n
take-bytes mem at zero k h = refl
take-bytes mem at (suc n) zero h = elim h [ ]
take-bytes mem at (suc n) (suc k) h =
    ap (λ rest. mem at ∷ rest) (take-bytes mem (at + 1) n k (omega arith))

get_elem?-bytes :
    (mem : ℕ → ℕ) (at n k : ℕ) → k < n → get_elem? (bytes mem at n) k ≡ some (mem (at + k))
get_elem?-bytes mem at zero k h = elim h [ ]
get_elem?-bytes mem at (suc n) zero h = ap (λ i. some (mem i)) (omega arith)
get_elem?-bytes mem at (suc n) (suc k) h =
    get_elem?-bytes mem (at + 1) n k (omega arith) ∙ ap (λ i. some (mem i)) (omega arith)

get_elem?-take : (xs : List ℕ) (n k : ℕ) → k < n → get_elem? (take n xs) k ≡ get_elem? xs k
get_elem?-take xs zero k h = elim h [ ]
get_elem?-take [] (suc n) k h = refl
get_elem?-take (x ∷ xs) (suc n) zero h = refl
get_elem?-take (x ∷ xs) (suc n) (suc k) h = get_elem?-take xs n k (omega arith)

-- The byte `k` of a transfer as the controller finds it in memory behind the cache: what the last clean of
-- its line wrote back, nothing if no clean did. Counted from the offset of the first pointer, the pages are
-- those of the pointers in turn.
abbrev pub fetched : Td → List Access → ℕ → Option ℕ
fetched td log k = elim (get_elem? td.buffer_pointers 0) [
  | none ↦ none
  | some first ↦ elim (get_elem? td.buffer_pointers ((first % 4096 + k) / 4096)) [
    | none ↦ none
    | some q ↦ written_back log (q / 4096 * 4096 + (first % 4096 + k) % 4096)
  ]
]

fetched-pages :
    (td : Td) (log : List Access) (ptr k : ℕ)
    → td.buffer_pointers ≡ page_list ptr
    → k ≤ 4 * 4096
    → fetched td log k ≡ written_back log (ptr + k)
fetched-pages td log ptr k points le =
    let (q, there, at) = page_of ptr ((ptr % 4096 + k) / 4096) k le refl in
    ground (
      arith,
      ap (λ l. get_elem? l 0) points,
      ap (λ l. get_elem? l ((ptr % 4096 + k) / 4096)) points ∙ there,
      at,
    )

module _ (p : Platform) where
  -- The controller has stored a packet of the host for an endpoint whose descriptor it was given: the
  -- packet is at the front of the buffer, its length is off the bytes that are left, and no failure is
  -- reported. Of the endpoint nothing else is changed that the driver reads.
  pub record IsReceived (packet : List ℕ) (ep ep' : Endpoint) (mem' : ℕ → ℕ) : Type 0 where
    pub same_address : ep'.address ≡ ep.address
    pub same_buffer : ep'.buffer ≡ ep.buffer
    pub same_size : ep'.td.last_transfer_size ≡ ep.td.last_transfer_size
    pub same_packet : ep'.qh.capabilities ≡ ep.qh.capabilities
    pub fewer :
        p.ral.read Td.total_bytes ep'.td.token + length packet
        ≡ p.ral.read Td.total_bytes ep.td.token
    pub no_failure : failed p (p.ral.read Td.status_field ep'.td.token) ≡ false
    pub stored : bytes mem' ep.buffer.ptr (length packet) ≡ packet

  maximum_packet_length-lt : (qh : Qh.Qh) → Qh.max_packet_len p.ral qh < 2 ^ 11
  unfolding Qh.max_packet_len
  maximum_packet_length-lt qh = read-lt p.ral maximum_packet_length-IsField qh.capabilities

  -- What is transferred of a packet.
  received-bytes :
      (size : ℕ) (packet : List ℕ) (ep ep' : Endpoint) (mem' : ℕ → ℕ)
      → size < 2 ^ 15
      → IsPrepared p size ep.td
      → IsReceived packet ep ep' mem'
      → Td.bytes_transferred p.ral p.checks ep'.td ≡ done (length packet)
  received-bytes size packet ep ep' mem' small prep got =
      bytes_transferred_lem p.ral p.checks ep'.td
        (omega (arith, got.fewer, got.same_size, prep.fields.0, prep.last_size))
      ∙ ap done (omega (arith, got.fewer, got.same_size, prep.fields.0, prep.last_size))

  module _ (fuel : ℕ) (buffer : List ℕ) (addr : EndpointAddress) (d : Driver) (ep : Endpoint)
      (v : IsValid p d.ep_allocator) (there : found p addr d ≡ some ep) where
    abbrev now : Session
    now = record { ep = ep; world = d.world }

    -- An endpoint, as `given`, was scheduled for a transfer of its packet size, and the controller has
    -- stored a packet of the host for it (`IsReceived`). Over a valid endpoint allocator, when a poll
    -- has seen the completion, the endpoint is not primed, its packets fit its buffer, nothing stands in
    -- the way of a transfer (`IsReady`) and the controller takes a prime within `fuel` reads, a read of
    -- endpoints 0 to 15 gives that packet, as much as the caller's slice holds; the rest of the slice
    -- stays, and the next transfer is prepared in the endpoint's descriptor.
    pub ep_read-received :
        (given : Endpoint) (packet : List ℕ)
        → IsPrepared p (Qh.max_packet_len p.ral given.qh) given.td
        → IsReceived packet given ep d.world.mem
        → p.index ep.address < 16
        → primed p now ≡ false
        → bit d.ep_out (p.index ep.address) ≡ 1
        → FitsPacket p ep
        → IsReady p now
        → Settles p endptprime fuel
        → let n = min (length buffer) (length packet) in
          (s' : Session) × (ep_read p fuel buffer addr d
            ≡ done (
              (ok n, take n packet ++ drop n buffer),
              record d {
                ep_allocator = endpoint_set p addr s'.ep d.ep_allocator;
                world = s'.world;
              },
            ))
          × IsPrepared p (Qh.max_packet_len p.ral ep.qh) s'.ep.td
    unfolding Qh.max_packet_len
    ep_read-received given packet prep got small idle polled fits ready settles =
        let n = min (length buffer) (length packet) in
        let limit = maximum_packet_length-lt given.qh in
        let moved =
          received-bytes (Qh.max_packet_len p.ral given.qh) packet given ep d.world.mem
            (omega (arith, limit)) prep got in
        let (s', ran, sch, _) =
          ep_read_data p fuel buffer addr d ep v there (length packet) small
            (check_errors_lem p ep ∙ rw got.no_failure refl) idle polled fits moved ready settles in
        let size : read_size p buffer (length packet) now ≡ n =
          rw got.same_packet (omega (arith, limit, got.fewer, prep.fields.0)) in
        let content : bytes d.world.mem ep.buffer.ptr n ≡ take n packet = rw got.same_buffer (
          sym (take-bytes d.world.mem given.buffer.ptr n (length packet) (omega arith))
          ∙ ap (take n) got.stored) in
        (s', ran ∙ rw (size, content) refl, sch.prepared)

    -- Over a valid endpoint allocator, a write to an endpoint that did not fail and is not primed, its
    -- packets fitting a buffer away from the end of the address space, with nothing in the way of a
    -- transfer (`IsReady`) and a controller that takes a prime within `fuel` reads: the descriptor that
    -- is scheduled counts as many bytes as the packet size and the slice allow. For each of them that is
    -- in one of the `num_lines` cache lines from the start of the buffer's line on, the last clean of
    -- its line wrote that byte of the slice back to where the descriptor's pointers lead.
    pub ep_write-fetched :
        (k : ℕ)
        → check_errors p ep ≡ ok tt
        → primed p now ≡ false
        → FitsPacket p ep
        → ep.buffer.ptr + ep.buffer.len + 32 < 2 ^ 32
        → IsReady p now
        → Settles p endptprime fuel
        → k < min (Qh.max_packet_len p.ral ep.qh) (length buffer)
        → let n = min (Qh.max_packet_len p.ral ep.qh) (length buffer) in
          ep.buffer.ptr + k < line ep.buffer.ptr + 32 * num_lines n
          → (s' : Session) × (ep_write p fuel buffer addr d
              ≡ done (
                ok n,
                record d {
                  ep_allocator = endpoint_set p addr s'.ep d.ep_allocator;
                  world = s'.world;
                },
              ))
            × (p.ral.read Td.total_bytes s'.ep.td.token ≡ n)
            × (fetched s'.ep.td s'.world.log k ≡ get_elem? buffer k)
    unfolding ep_write
    ep_write-fetched k fine idle fits room ready settles lt covered =
        let limit = maximum_packet_length-lt ep.qh in
        let n = min (Qh.max_packet_len p.ral ep.qh) (length buffer) in
        let ptr = ep.buffer.ptr in
        let (_, s', ran, sch, _, stored, _, back) =
          write_data_lem p fuel buffer (ptr + ep.buffer.len) now fine idle fits room ready settles
            (inr (omega arith)) in
        (
          s',
          with_ep-found p addr d v ep (write_data p fuel buffer) there ∙ rw ran refl,
          omega (arith, sch.prepared.fields.0, limit),
          fetched-pages s'.ep.td s'.world.log ptr k (sch.points (omega arith))
                (omega (arith, limit))
              ∙ back (ptr + k) (ground arith)
              ∙ sym (get_elem?-bytes s'.world.mem ptr n k lt)
              ∙ ap (λ xs. get_elem? xs k) stored
              ∙ get_elem?-take buffer n k lt,
        )
