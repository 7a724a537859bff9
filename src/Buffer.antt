-- ===== src/Buffer.antt =====
-- src/buffer.rs: the endpoint memory, its allocator and the buffers that it hands out. A pointer
-- is its address.
pub mod Alloc
pub mod Copy
pub mod Tests
use Prim.Native.Nat.{min}
use imxrt_usbd.Common.{
  ℕ, zero, suc, ◌+◌, ◌-◌, Bool, true, false, List, [], ◌∷◌, Option, none, some, if◌then◌else◌, ltb,
  leb, ◌==◌, length, M,
}
use imxrt_usbd.Machine.{World}
use imxrt_usbd.Cache.{clean_invalidate_dcache_by_address}

pub record Buffer : Type 0 where
  pub ptr : ℕ
  pub len : ℕ

pub record Allocator : Type 0 where
  pub start : ℕ
  pub ptr : ℕ

-- `buffer` is the address of the bytes, `size` the const parameter `SIZE`.
pub record EndpointMemory : Type 0 where
  pub buffer : ℕ
  pub size : ℕ
  pub taken : Bool

pub new : ℕ → ℕ → EndpointMemory
new address size = record { buffer = address; size = size; taken = false }

pub from_buffer : ℕ → ℕ → Allocator
from_buffer start len = record { start = start; ptr = start + len }

-- `taken.swap(true)` gives the old value.
unfoldable pub allocator : EndpointMemory → Option Allocator × EndpointMemory
unfolding from_buffer
allocator m =
    (if m.taken then none else some (from_buffer m.buffer m.size), record m { taken = true })

abbrev pub checked_sub : ℕ → ℕ → Option ℕ
checked_sub a b = if leb b a then some (a - b) else none

-- The allocator at the new pointer, and the buffer there, unless that is below the start.
carve : Allocator → ℕ → ℕ → Option Buffer × Allocator
carve a size ptr =
    if ltb ptr a.start
    then (none, a)
    else (some (record { ptr = ptr; len = size }), record a { ptr = ptr })

unfoldable pub allocate : Allocator → ℕ → Option Buffer × Allocator
unfolding carve
allocate a size = elim (checked_sub a.ptr size) [ none ↦ (none, a) | some ptr ↦ carve a size ptr ]

-- The folds over `take(size)`: `n` bytes are left to copy.
pub copy_out : (ℕ → ℕ) → ℕ → ℕ → List ℕ → List ℕ
copy_out mem src zero dst = dst
copy_out mem src (suc n) [] = []
copy_out mem src (suc n) (_ ∷ dst) = mem src ∷ copy_out mem (src + 1) n dst

abbrev pub update : (ℕ → ℕ) → ℕ → ℕ → ℕ → ℕ
update mem at byte address = if at == address then byte else mem address

pub copy_in : (ℕ → ℕ) → ℕ → ℕ → List ℕ → ℕ → ℕ
copy_in mem dst zero src = mem
copy_in mem dst (suc n) [] = mem
copy_in mem dst (suc n) (byte ∷ src) = copy_in (update mem dst byte) (dst + 1) n src

-- The caller's slice after the read, and the number of bytes read.
unfoldable pub volatile_read : Buffer → (ℕ → ℕ) → List ℕ → ℕ × List ℕ
unfolding copy_out
volatile_read b mem dst = let size = min (length dst) b.len in (size, copy_out mem b.ptr size dst)

-- Memory after the write, and the number of bytes written.
unfoldable pub volatile_write : Buffer → (ℕ → ℕ) → List ℕ → ℕ × (ℕ → ℕ)
unfolding copy_in
volatile_write b mem src = let size = min (length src) b.len in (size, copy_in mem b.ptr size src)

abbrev pub as_ptr_mut : Buffer → ℕ
as_ptr_mut b = b.ptr

abbrev pub len : Buffer → ℕ
len b = b.len

unfoldable pub clean_invalidate_dcache : Bool → Buffer → ℕ → M World (Unit {0})
clean_invalidate_dcache checks b n = clean_invalidate_dcache_by_address checks b.ptr (min b.len n)
