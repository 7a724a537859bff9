-- ===== src/Buffer/Copy.antt =====
-- What volatile reads and writes of a buffer do to memory and to the caller's slice.
use Prim.Native.Nat.{min}
use mathlib.Core.Path.{ap₂}
use mathlib.Core.List.{append-nil}
use imxrt_usbd.Common.{
  ◌⊎◌, inl, sym, take-length, drop-length, length-take, take-take, drop-take, ℕ, zero, suc, ◌+◌,
  ◌≤◌, ◌<◌, ◌≡◌, refl, ap, ◌∙◌, arith, List, [], ◌∷◌, ◌++◌, length, take, drop,
}
use imxrt_usbd.Buffer.{Buffer, update, copy_out, copy_in, volatile_read, volatile_write}
use imxrt_usbd.Buffer.Alloc.{AreApart}

-- The `n` bytes of memory from address `at` on.

abbrev pub bytes : (ℕ → ℕ) → ℕ → ℕ → List ℕ
bytes mem at zero = []
bytes mem at (suc n) = mem at ∷ bytes mem (at + 1) n

copy_out-bytes :
    (mem : ℕ → ℕ) (src n : ℕ) (dst : List ℕ)
    → n ≤ length dst
    → copy_out mem src n dst ≡ bytes mem src n ++ drop n dst
unfolding copy_out
copy_out-bytes mem src zero dst h = refl
copy_out-bytes mem src (suc n) [] h = elim h [ ]
copy_out-bytes mem src (suc n) (d ∷ dst) h =
    ap (λ rest. mem src ∷ rest) (copy_out-bytes mem (src + 1) n dst (omega arith))

-- A byte outside of what is written keeps its value.
copy_in_outside :
    (mem : ℕ → ℕ) (dst n : ℕ) (src : List ℕ) (at : ℕ)
    → (at < dst) ⊎ (dst + n ≤ at)
    → copy_in mem dst n src at ≡ mem at
unfolding copy_in
copy_in_outside mem dst zero src at h = refl
copy_in_outside mem dst (suc n) [] at h = refl
copy_in_outside mem dst (suc n) (x ∷ src) at h =
    ground (arith, copy_in_outside (update mem dst x) (dst + 1) n src at)

-- The written bytes are there.
copy_in-bytes :
    (mem : ℕ → ℕ) (dst n : ℕ) (src : List ℕ)
    → n ≤ length src
    → bytes (copy_in mem dst n src) dst n ≡ take n src
unfolding copy_in
copy_in-bytes mem dst zero src h = refl
copy_in-bytes mem dst (suc n) [] h = elim h [ ]
copy_in-bytes mem dst (suc n) (x ∷ src) h =
    ap₂ ◌∷◌
      (copy_in_outside (update mem dst x) (dst + 1) n src dst (inl (omega arith)) ∙ ground arith)
      (copy_in-bytes (update mem dst x) (dst + 1) n src (omega arith))

bytes_outside :
    (mem : ℕ → ℕ) (dst n : ℕ) (src : List ℕ) (at m : ℕ)
    → (at + m ≤ dst) ⊎ (dst + n ≤ at)
    → bytes (copy_in mem dst n src) at m ≡ bytes mem at m
bytes_outside mem dst n src at zero h = refl
bytes_outside mem dst n src at (suc m) h =
    ap₂ ◌∷◌ (copy_in_outside mem dst n src at (ground arith))
      (bytes_outside mem dst n src (at + 1) m (ground arith))

-- A read fills the caller's slice from the front with as many bytes of the buffer as fit and
-- leaves the rest of the slice, and returns their number.
pub volatile_read_lem :
    (b : Buffer) (mem : ℕ → ℕ) (dst : List ℕ)
    → let size = min (length dst) b.len in
      volatile_read b mem dst ≡ (size, bytes mem b.ptr size ++ drop size dst)
unfolding volatile_read
volatile_read_lem b mem dst =
    rw (copy_out-bytes mem b.ptr (min (length dst) b.len) dst (omega arith))

-- What is written to a buffer, if it fits, is what a read of as many bytes gives back.
pub read-write :
    (b : Buffer) (mem : ℕ → ℕ) (src dst : List ℕ)
    → length src ≤ b.len
    → length dst ≡ length src
    → volatile_read b (volatile_write b mem src).1 dst ≡ (length src, src)
unfolding volatile_write
read-write b mem src dst fits same =
    volatile_read_lem b (volatile_write b mem src).1 dst
    ∙ rw (size_dst, volatile_write, size_src) (ap (λ got. (length src, got)) whole)
  where
    size_dst : min (length dst) b.len ≡ length src
    size_dst = omega arith

    size_src : min (length src) b.len ≡ length src
    size_src = omega arith

    whole :
        bytes (copy_in mem b.ptr (length src) src) b.ptr (length src) ++ drop (length src) dst ≡ src
    whole =
        rw
          (
            copy_in-bytes mem b.ptr (length src) src (omega arith),
            take-length src,
            sym same,
            drop-length dst,
            append-nil,
          )
          refl

-- A write to one buffer changes nothing that a read of a buffer apart from it gives.
pub read-write_apart :
    (b c : Buffer) (mem : ℕ → ℕ) (src dst : List ℕ)
    → AreApart b c
    → volatile_read c (volatile_write b mem src).1 dst ≡ volatile_read c mem dst
unfolding volatile_write
read-write_apart b c mem src dst apart =
    volatile_read_lem c (volatile_write b mem src).1 dst
    ∙ rw (bytes_outside mem b.ptr (min (length src) b.len) src c.ptr (min (length dst) c.len) clear)
        (sym (volatile_read_lem c mem dst))
  where
    clear : (c.ptr + min (length dst) c.len ≤ b.ptr) ⊎ (b.ptr + min (length src) b.len ≤ c.ptr)
    clear = ground arith

-- A write stores as many bytes from the front of the slice as fit the buffer, returns their number
-- and changes no other byte of memory.
pub volatile_write_lem :
    (b : Buffer) (mem : ℕ → ℕ) (src : List ℕ)
    → let n = min (length src) b.len in
      ((volatile_write b mem src).0 ≡ n)
      × (bytes (volatile_write b mem src).1 b.ptr n ≡ take n src)
      × ((at : ℕ) → (at < b.ptr) ⊎ (b.ptr + n ≤ at) → (volatile_write b mem src).1 at ≡ mem at)
unfolding volatile_write
volatile_write_lem b mem src =
    let n = min (length src) b.len in
    (
      refl,
      copy_in-bytes mem b.ptr n src (omega arith),
      λ at h. copy_in_outside mem b.ptr n src at h,
    )

-- A read and a write of a whole slice that fits the buffer.
pub volatile_read-take :
    (b : Buffer) (mem : ℕ → ℕ) (dst : List ℕ) (n : ℕ)
    → n ≤ b.len
    → n ≤ length dst
    → volatile_read b mem (take n dst) ≡ (n, bytes mem b.ptr n)
volatile_read-take b mem dst n fits short =
    volatile_read_lem b mem (take n dst) ∙ rw (size, drop-take n dst, append-nil) refl
  where
    size : min (length (take n dst)) b.len ≡ n
    size = omega (arith, length-take {0} n dst)

pub volatile_write-take :
    (b : Buffer) (mem : ℕ → ℕ) (src : List ℕ) (n : ℕ)
    → n ≤ b.len
    → n ≤ length src
    → (mem' : ℕ → ℕ) × (volatile_write b mem (take n src) ≡ (n, mem'))
      × (bytes mem' b.ptr n ≡ take n src)
      × ((at : ℕ) → (at < b.ptr) ⊎ (b.ptr + n ≤ at) → mem' at ≡ mem at)
unfolding volatile_write
volatile_write-take b mem src n fits short = (
  copy_in mem b.ptr n (take n src),
  rw size refl,
  copy_in-bytes mem b.ptr n (take n src) (omega (arith, length-take {0} n src)) ∙ take-take n src,
  λ at h. copy_in_outside mem b.ptr n (take n src) at h,
)
  where
    size : min (length (take n src)) b.len ≡ n
    size = omega (arith, length-take {0} n src)
