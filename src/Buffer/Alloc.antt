-- ===== src/Buffer/Alloc.antt =====
-- What the allocator of endpoint memory promises: its buffers lie in the memory and apart.
use imxrt_usbd.Common.{
  ℕ, zero, suc, ◌+◌, ◌-◌, ◌≤◌, ◌<◌, ◌≡◌, ◌≢◌, ◌⊎◌, inl, inr, refl, arith, List, [], ◌∷◌, Option,
  none, some,
}
use native.Mathlib.Decide.{dec_le, dec_lt}
use imxrt_usbd.Buffer.{Buffer, Allocator, EndpointMemory, new, allocator, allocate}

-- The bytes that are left.
abbrev pub remaining : Allocator → ℕ
remaining a = a.ptr - a.start

abbrev pub IsValid : Allocator → Type 0
IsValid a = a.start ≤ a.ptr

-- A request is granted exactly when that many bytes remain, and then at the top of them; a
-- refused request changes nothing.
pub allocate_granted :
    (a : Allocator) (size : ℕ)
    → IsValid a
    → size ≤ remaining a
    → allocate a size
      ≡ (some (record { ptr = a.ptr - size; len = size }), record a { ptr = a.ptr - size })
unfolding allocate
allocate_granted a size v h = ground arith

pub allocate_refused :
    (a : Allocator) (size : ℕ) → IsValid a → remaining a < size → allocate a size ≡ (none, a)
unfolding allocate
allocate_refused a size v h = ground arith

-- Requests one after the other, each with its answer.
unfoldable pub allocate_all : Allocator → List ℕ → List (Option Buffer) × Allocator
allocate_all a [] = ([], a)
allocate_all a (size ∷ sizes) =
    let (b, a') = allocate a size in let (bs, a'') = allocate_all a' sizes in (b ∷ bs, a'')

-- All granted buffers lie in `[lo, hi)`, each below the ones granted before it.
abbrev pub AreStacked : ℕ → ℕ → List (Option Buffer) → Type 0
AreStacked lo hi [] = Unit {0}
AreStacked lo hi (none ∷ bs) = AreStacked lo hi bs
AreStacked lo hi (some b ∷ bs) = (lo ≤ b.ptr) × (b.ptr + b.len ≤ hi) × AreStacked lo b.ptr bs

abbrev pub total : List (Option Buffer) → ℕ
total [] = 0
total (none ∷ bs) = total bs
total (some b ∷ bs) = b.len + total bs

pub allocate_all-AreStacked :
    (a : Allocator) (sizes : List ℕ)
    → IsValid a
    → let (bs, a') = allocate_all a sizes in
      AreStacked a.start a.ptr bs
      × (a'.start ≡ a.start)
      × (total bs + remaining a' ≡ remaining a)
      × IsValid a'
unfolding allocate_all
allocate_all-AreStacked a [] v = ground arith
allocate_all-AreStacked a (size ∷ sizes) v = elim (dec_le size (remaining a)) [
  | yes fits ↦
      let (stacked, start, sum, valid) =
        allocate_all-AreStacked (record a { ptr = a.ptr - size }) sizes (omega arith) in
      rw (allocate_granted a size v fits)
        ((omega arith, omega arith, stacked), start, omega arith, valid)
  | no full ↦
      let (stacked, start, sum, valid) = allocate_all-AreStacked a sizes v in
      rw (allocate_refused a size v (omega arith)) (stacked, start, sum, valid)
]

-- After one call, every later call gives `none`.
pub allocator_again : (m : EndpointMemory) → (allocator (allocator m).1).0 ≡ none
unfolding allocator
allocator_again m = refl

-- The allocator of fresh memory of `size` bytes at `address` is valid with all of it left.
pub allocator-new :
    (address size : ℕ)
    → (a : Allocator) × ((allocator (new address size)).0 ≡ some a)
      × IsValid a
      × (a.start ≡ address)
      × (a.ptr ≡ address + size)
unfolding allocator new
allocator-new address size =
    (record { start = address; ptr = address + size }, refl, omega arith, refl, refl)

-- Buffers that share no byte.
abbrev pub AreApart : Buffer → Buffer → Type 0
AreApart b c = (b.ptr + b.len ≤ c.ptr) ⊎ (c.ptr + c.len ≤ b.ptr)

abbrev pub get_buffer : List (Option Buffer) → ℕ → Option Buffer
get_buffer [] i = none
get_buffer (b ∷ bs) zero = b
get_buffer (b ∷ bs) (suc i) = get_buffer bs i

AreStacked-within :
    (lo hi : ℕ) (bs : List (Option Buffer)) (i : ℕ) {b : Buffer}
    → AreStacked lo hi bs
    → get_buffer bs i ≡ some b
    → (lo ≤ b.ptr) × (b.ptr + b.len ≤ hi)
AreStacked-within lo hi [] i s e = cc
AreStacked-within lo hi (none ∷ bs) zero s e = cc
AreStacked-within lo hi (some c ∷ bs) zero s e = ground arith
AreStacked-within lo hi (none ∷ bs) (suc i) s e = AreStacked-within lo hi bs i s e
AreStacked-within lo hi (some c ∷ bs) (suc i) s e =
    omega (arith, AreStacked-within lo c.ptr bs i s.2 e)

AreStacked-apart :
    (lo hi : ℕ) (bs : List (Option Buffer)) (i j : ℕ) {b c : Buffer}
    → AreStacked lo hi bs
    → i < j
    → get_buffer bs i ≡ some b
    → get_buffer bs j ≡ some c
    → c.ptr + c.len ≤ b.ptr
AreStacked-apart lo hi [] i j s lt e f = cc
AreStacked-apart lo hi (b ∷ bs) i zero s lt e f = elim lt [ ]
AreStacked-apart lo hi (none ∷ bs) zero (suc j) s lt e f = cc
AreStacked-apart lo hi (some d ∷ bs) zero (suc j) s lt e f =
    ground (arith, AreStacked-within lo d.ptr bs j s.2 f)
AreStacked-apart lo hi (none ∷ bs) (suc i) (suc j) s lt e f =
    AreStacked-apart lo hi bs i j s (omega arith) e f
AreStacked-apart lo hi (some d ∷ bs) (suc i) (suc j) s lt e f =
    AreStacked-apart lo d.ptr bs i j s.2 (omega arith) e f

-- Any two buffers that one allocator, its pointer not below its start, grants by any sequence of
-- requests lie inside its memory and share no byte, and what all grants hold and what remains add
-- up.
pub allocate_all-AreApart :
    (a : Allocator) (sizes : List ℕ) (i j : ℕ) {b c : Buffer}
    → IsValid a
    → i ≢ j
    → get_buffer (allocate_all a sizes).0 i ≡ some b
    → get_buffer (allocate_all a sizes).0 j ≡ some c
    → AreApart b c
      × (a.start ≤ b.ptr)
      × (b.ptr + b.len ≤ a.ptr)
      × (total (allocate_all a sizes).0 + remaining (allocate_all a sizes).1 ≡ remaining a)
allocate_all-AreApart a sizes i j v ne e f =
    let bs = (allocate_all a sizes).0 in
    let (stacked, start, sum, valid) = allocate_all-AreStacked a sizes v in
    let (low, high) = AreStacked-within a.start a.ptr bs i stacked e in
    elim (dec_lt i j) [
      | yes lt ↦ (inr (AreStacked-apart a.start a.ptr bs i j stacked lt e f), low, high, sum)
      | no le ↦
          (inl (AreStacked-apart a.start a.ptr bs j i stacked (omega arith) f e), low, high, sum)
    ]
