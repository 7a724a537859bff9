-- ===== src/Common/Total.antt =====
-- Stateful computations that return from every state with an invariant, and keep it.
use mathlib.Core.Path.{◌≡◌, refl}
use mathlib.Core.Bool.{Bool, true, false}
use imxrt_usbd.Common.Tests.{if◌then◌else◌}
use imxrt_usbd.Common.Effects.{Outcome, done, M, pure, lift, ◌>>=◌, ◌>>◌}

-- From every state with `I`, the computation returns, and the state afterwards has `I`.
pub record Total {S A : Type 0} (I : S → Type 0) (m : M S A) : Type 0 where
  pub runs : (s : S) → I s → (a : A) × (s' : S) × (m s ≡ done (a, s')) × I s'

-- The same, with what is known of the result.
pub record Gives {S A : Type 0} (I : S → Type 0) (Q : A → Type 0) (m : M S A) : Type 0 where
  pub runs : (s : S) → I s → (a : A) × (s' : S) × (m s ≡ done (a, s')) × I s' × Q a

module _ {S : Type 0} {I : S → Type 0} where
  pub pure-Total : {A : Type 0} (a : A) → Total I (pure a)
  pure-Total a = record { runs = λ s i. (a, s, refl, i) }

  pub bind-Total :
      {A B : Type 0} {m : M S A} {f : A → M S B}
      → Total I m
      → ((a : A) → Total I (f a))
      → Total I (m >>= f)
  bind-Total km kf = record {
    runs = λ s i.
        let (a, s1, ran, i1) = km.runs s i in
        let (b, s2, rest, i2) = (kf a).runs s1 i1 in (b, s2, rw ran rest, i2);
  }

  pub then-Total :
      {B : Type 0} {m : M S (Unit {0})} {k : M S B} → Total I m → Total I k → Total I (m >> k)
  then-Total km kk = bind-Total km (λ _. kk)

  pub lift-Total : {A : Type 0} (o : Outcome A) (a : A) → o ≡ done a → Total I (lift o)
  lift-Total o a e = record { runs = λ s i. (a, s, rw e refl, i) }

  pub view-Total : {A : Type 0} (f : S → A) → Total I (λ s. done (f s, s))
  view-Total f = record { runs = λ s i. (f s, s, refl, i) }

  pub if-Total :
      {A : Type 0} {m k : M S A} (b : Bool) → Total I m → Total I k → Total I (if b then m else k)
  if-Total true km kk = km
  if-Total false km kk = kk

  pub bind-Gives :
      {A B : Type 0} {Q : A → Type 0} {m : M S A} {f : A → M S B}
      → Gives I Q m
      → ((a : A) → Q a → Total I (f a))
      → Total I (m >>= f)
  bind-Gives km kf = record {
    runs = λ s i.
        let (a, s1, ran, i1, q) = km.runs s i in
        let (b, s2, rest, i2) = (kf a q).runs s1 i1 in (b, s2, rw ran rest, i2);
  }
