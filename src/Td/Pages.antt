-- ===== src/Td/Pages.antt =====
-- The buffer pointers of a transfer: one page of 4096 bytes after the other.
use imxrt_usbd.Common.{
  ℕ, zero, suc, ◌+◌, ◌*◌, ◌/◌, ◌%◌, ◌^◌, ◌≤◌, ◌<◌, bit_and, ◌≡◌, refl, arith, Bool, List, [], ◌∷◌,
  some, done, get_elem?, and_then, ap,
}
use imxrt_usbd.Common.Bits.Shift.{bit_and_mask}
use imxrt_usbd.Ral.{Ral}
use imxrt_usbd.Td.{Td, ptr_mask, total_bytes, next_pages, pages, set_buffer}
use imxrt_usbd.Machine.{add32}

-- The start of the `i`-th page after that of `ptr`.
abbrev pub page : ℕ → ℕ → ℕ
page ptr i = (ptr / 4096 + i) * 4096

pub bit_and-page : (ptr : ℕ) → ptr < 2 ^ 32 → bit_and ptr ptr_mask ≡ ptr / 4096 * 4096
bit_and-page ptr h = omega (arith, bit_and_mask 12 20 ptr)

abbrev pub page_list : ℕ → List ℕ
page_list ptr = ptr ∷ page ptr 1 ∷ page ptr 2 ∷ page ptr 3 ∷ page ptr 4 ∷ []

next_pages-suc :
    (checks : Bool) (n ptr base i : ℕ)
    → ptr < 2 ^ 32
    → ptr / 4096 ≡ base / 4096 + i
    → page base (suc i) < 2 ^ 32
    → next_pages checks (suc n) ptr
      ≡ and_then (next_pages checks n (page base (suc i))) (λ rest. done (page base (suc i) ∷ rest))
unfolding next_pages
next_pages-suc checks n ptr base i fits e h =
    ap (λ o. and_then o (λ p. and_then (next_pages checks n p) (λ rest. done (p ∷ rest)))) added
  where
    added : add32 checks (bit_and ptr ptr_mask) 4096 ≡ done (page base (suc i))
    added = ground (arith, bit_and-page ptr)

next_pages-zero : (checks : Bool) (ptr : ℕ) → next_pages checks 0 ptr ≡ done []
unfolding next_pages
next_pages-zero checks ptr = refl

pub pages_lem :
    (checks : Bool) (ptr : ℕ) → page ptr 4 < 2 ^ 32 → pages checks ptr ≡ done (page_list ptr)
unfolding pages
pages_lem checks ptr h = ground (
  arith,
  next_pages-suc checks 3 ptr ptr 0,
  next_pages-suc checks 2 (page ptr 1) ptr 1,
  next_pages-suc checks 1 (page ptr 2) ptr 2,
  next_pages-suc checks 0 (page ptr 3) ptr 3,
  next_pages-zero checks (page ptr 4),
)

-- The pointer at index `i` is that of the page which holds byte `k`.
pub page_of :
    (ptr i k : ℕ)
    → k ≤ 4 * 4096
    → i ≡ (ptr % 4096 + k) / 4096
    → (q : ℕ) × (get_elem? (page_list ptr) i ≡ some q)
      × (q / 4096 * 4096 + (ptr % 4096 + k) % 4096 ≡ ptr + k)
page_of ptr zero k le e = (ptr, refl, omega arith)
page_of ptr (suc zero) k le e = (page ptr 1, refl, omega arith)
page_of ptr (suc (suc zero)) k le e = (page ptr 2, refl, omega arith)
page_of ptr (suc (suc (suc zero))) k le e = (page ptr 3, refl, omega arith)
page_of ptr (suc (suc (suc (suc zero)))) k le e = (page ptr 4, refl, omega arith)
page_of ptr (suc (suc (suc (suc (suc i))))) k le e = absurd (omega arith)

-- For a transfer of at least one byte whose buffer starts below the last pages of the address
-- space, `set_buffer` returns, the first pointer is that of the buffer, and byte `k`, up to 16
-- KiB, lies in the page that the controller finds for it among the five pointers.
pub set_buffer-covers :
    (ral : Ral) (checks : Bool) (ptr size k : ℕ) (td : Td)
    → 0 < size
    → page ptr 4 < 2 ^ 32
    → k ≤ 4 * 4096
    → (td' : Td) × (q : ℕ) × (set_buffer ral checks ptr size td ≡ done td')
      × (get_elem? td'.buffer_pointers 0 ≡ some ptr)
      × (get_elem? td'.buffer_pointers ((ptr % 4096 + k) / 4096) ≡ some q)
      × (q / 4096 * 4096 + (ptr % 4096 + k) % 4096 ≡ ptr + k)
unfolding set_buffer
set_buffer-covers ral checks ptr size k td pos h le =
    let (q, there, at) = page_of ptr ((ptr % 4096 + k) / 4096) k le refl in
    (
      record {
        next = td.next;
        token = ral.modify total_bytes (size % 2 ^ 32) td.token;
        buffer_pointers = page_list ptr;
        last_transfer_size = size;
      },
      q,
      ground (arith, pages_lem checks ptr),
      refl,
      there,
      at,
    )

-- Setting a buffer returns, for every size.
pub set_buffer_total :
    (ral : Ral) (checks : Bool) (ptr size : ℕ) (td : Td)
    → page ptr 4 < 2 ^ 32
    → (td' : Td) × (set_buffer ral checks ptr size td ≡ done td')
unfolding set_buffer
set_buffer_total ral checks ptr zero td h = (_, refl)
set_buffer_total ral checks ptr (suc size) td h =
    let (td', _, ran, _, _, _) =
      set_buffer-covers ral checks ptr (suc size) 0 td (omega arith) h (omega arith) in
    (td', ran)

-- The pointers of a transfer of at least one byte.
pub set_buffer-pages :
    (ral : Ral) (checks : Bool) (ptr size : ℕ) (td : Td) {td' : Td}
    → 0 < size
    → page ptr 4 < 2 ^ 32
    → set_buffer ral checks ptr size td ≡ done td'
    → td'.buffer_pointers ≡ page_list ptr
unfolding set_buffer
set_buffer-pages ral checks ptr size td pos h e = ground (arith, pages_lem checks ptr)
