-- ===== src/Buffer/Tests.antt =====
-- Endpoint memory: a run of each theorem, its hypotheses met.
use imxrt_usbd.Common.{ℕ, ◌+◌, ◌≤◌, ◌≡◌, refl, arith, List, [], ◌∷◌, some, inl}
use imxrt_usbd.Buffer.{Buffer, Allocator, allocate, volatile_read, volatile_write}
use imxrt_usbd.Buffer.Alloc.{
  allocate_all, allocate_all-AreApart, AreApart, get_buffer, total, remaining,
}
use imxrt_usbd.Buffer.Copy.{read-write, read-write_apart}

abbrev memory : Allocator
memory = record { start = 1000; ptr = 1100 }

abbrev sizes : List ℕ
sizes = 64 ∷ 200 ∷ 8 ∷ []

abbrev high : Buffer
high = record { ptr = 1036; len = 64 }

abbrev low : Buffer
low = record { ptr = 1028; len = 8 }

first : get_buffer (allocate_all memory sizes).0 0 ≡ some high
unfolding allocate_all allocate
first = refl

third : get_buffer (allocate_all memory sizes).0 2 ≡ some low
unfolding allocate_all allocate
third = refl

allocate_all-AreApart_example :
    AreApart high low
    × (1000 ≤ 1036)
    × (1036 + 64 ≤ 1100)
    × (total (allocate_all memory sizes).0 + remaining (allocate_all memory sizes).1 ≡ 100)
allocate_all-AreApart_example =
    allocate_all-AreApart memory sizes 0 2 (omega arith) (λ e. omega (arith, e)) first third

read-write_example :
    volatile_read low (volatile_write low (λ at. 0) (1 ∷ 2 ∷ [])).1 (9 ∷ 9 ∷ []) ≡ (2, 1 ∷ 2 ∷ [])
read-write_example = read-write low (λ at. 0) (1 ∷ 2 ∷ []) (9 ∷ 9 ∷ []) (omega arith) refl

read-write_apart_example :
    volatile_read high (volatile_write low (λ at. 0) (1 ∷ 2 ∷ [])).1 (9 ∷ [])
    ≡ volatile_read high (λ at. 0) (9 ∷ [])
read-write_apart_example =
    read-write_apart low high (λ at. 0) (1 ∷ 2 ∷ []) (9 ∷ []) (inl (omega arith))
