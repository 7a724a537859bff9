-- ===== src/Common/Effects.antt =====
-- What a call of the driver can come to, and state passing over it.
use mathlib.Core.Option.{Option, none, some}

-- `panic` is a Rust panic; `hang` means that a loop's fuel ran out before the loop ended; `fault`
-- is undefined behaviour, such as a read of memory that was never initialised.
pub data Outcome {ℓ} (A : Type ℓ) : Type ℓ where
  done : A → Outcome A
  panic hang fault : Outcome A

abbrev pub and_then {ℓ κ} : {A : Type ℓ} {B : Type κ} → Outcome A → (A → Outcome B) → Outcome B
and_then (done a) f = f a
and_then panic f = panic
and_then hang f = hang
and_then fault f = fault

-- A stateful computation: the state is passed along and may be lost to a panic.
abbrev pub M : Type 0 → Type 0 → Type 0
M S A = S → Outcome (A × S)

abbrev pub pure : {S A : Type 0} → A → M S A
pure a s = done (a, s)

infixl 5 ◌>>=◌ ◌>>◌
abbrev pub ◌>>=◌ : {S A B : Type 0} → M S A → (A → M S B) → M S B
◌>>=◌ m f s = and_then (m s) λ r. f r.0 r.1

abbrev pub ◌>>◌ : {S B : Type 0} → M S (Unit {0}) → M S B → M S B
m >> k = m >>= λ _. k

-- An outcome that depends on no state, inside a stateful computation.
abbrev pub lift : {S A : Type 0} → Outcome A → M S A
lift o s = and_then o λ a. done (a, s)

-- `Option::unwrap` and `Option::expect`.
abbrev pub unwrap : {A : Type 0} → Option A → Outcome A
unwrap none = panic
unwrap (some a) = done a
