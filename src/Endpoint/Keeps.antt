-- ===== src/Endpoint/Keeps.antt =====
-- Every operation of an endpoint keeps its address.
use imxrt_usbd.Common.{
  ℕ, List, ◌∷◌, if◌then◌else◌, ◌≡◌, refl, sym, ap, ◌∙◌, Bool, true, false, Outcome, done, panic,
  hang, fault, and_then, M, pure, lift, ◌>>=◌, ◌>>◌,
}
use imxrt_usbd.Machine.{Reg, World, td_store, qh_store}
use imxrt_usbd.Platform.{Platform, UsbField}
use imxrt_usbd.Td
use imxrt_usbd.Td.{Td}
use imxrt_usbd.Qh
use imxrt_usbd.Qh.{Qh}
use imxrt_usbd.Endpoint.{
  Session, on_world, on_td, on_qh, this, enable_zlt, is_primed, initialize, has_setup, read_setup,
  read, write, write_bit, clear_complete, clear_nack, schedule_transfer, set_stalled, enable,
  is_enabled,
}

-- The value of an outcome that is known to have one.
abbrev pub value : {A : Type 0} → A → Outcome A → A
value a (done b) = b
value a panic = a
value a hang = a
value a fault = a

pub and_then-done :
    {A B : Type 0} (o : Outcome A) (f : A → Outcome B) (b : B)
    → and_then o f ≡ done b
    → (a : A) × (o ≡ done a) × (f a ≡ done b)
and_then-done (done a) f b e = (a, refl, e)
and_then-done panic f b e = absurd (cc)
and_then-done hang f b e = absurd (cc)
and_then-done fault f b e = absurd (cc)

-- A computation that leaves the endpoint the address it has.
pub record KeepsAddress {A : Type 0} (m : M Session A) : Type 0 where
  pub keeps :
      (s : Session) (a : A) (s' : Session) → m s ≡ done (a, s') → s'.ep.address ≡ s.ep.address

same :
    {A : Type 0} (s s' : Session) (a b : A)
    → ◌≡◌ {A = Outcome (A × Session)} (done (a, s)) (done (b, s'))
    → s'.ep.address ≡ s.ep.address
same {A} s s' a b e = ap (λ (o : Outcome (A × Session)). (value (a, s) o).1.ep.address) (sym e)

pub pure-keeps : {A : Type 0} (a : A) → KeepsAddress (pure a)
pure-keeps a = record { keeps = λ s b s' e. same s s' a b e }

pub bind-keeps :
    {A B : Type 0} {m : M Session A} {f : A → M Session B}
    → KeepsAddress m
    → ((a : A) → KeepsAddress (f a))
    → KeepsAddress (m >>= f)
bind-keeps {A} {B} {m} {f} km kf = record {
  keeps = λ s b s' e.
      let (r, ran, rest) = and_then-done (m s) (λ r. f r.0 r.1) (b, s') e in
      (kf (r.0)).keeps (r.1) b s' rest ∙ km.keeps s (r.0) (r.1) ran;
}

pub lift-keeps : {A : Type 0} (o : Outcome A) → KeepsAddress (lift o)
lift-keeps o = record {
  keeps = λ s b s' e.
      let (r, ran, rest) = and_then-done o (λ a. done (a, s)) (b, s') e in same s s' r b rest;
}

pub on_world-keeps : {A : Type 0} (m : M World A) → KeepsAddress (on_world m)
on_world-keeps m = record {
  keeps = λ s b s' e.
      let (r, ran, rest) =
        and_then-done (m s.world) (λ r. done (r.0, record s { world = r.1 })) (b, s') e in
      same (record s { world = r.1 }) s' (r.0) b rest;
}

pub this-keeps : KeepsAddress this
this-keeps = record { keeps = λ s b s' e. same s s' s.ep b e }

pub on_td-keeps : (f : Td → Td) → KeepsAddress (on_td f)
on_td-keeps f = record {
  keeps = λ s b s' e.
      same
        (record {
          ep = record (s.ep) { td = f s.ep.td };
          world = record (s.world) {
            log = td_store s.ep.td_at (Td.words (f s.ep.td)) ∷ s.world.log;
          };
        })
        s' tt b e;
}

pub on_qh-keeps : (f : Qh → Qh) → KeepsAddress (on_qh f)
on_qh-keeps f = record {
  keeps = λ s b s' e.
      same
        (record {
          ep = record (s.ep) { qh = f s.ep.qh };
          world = record (s.world) {
            log = qh_store s.ep.qh_at (Qh.words (f s.ep.qh)) ∷ s.world.log;
          };
        })
        s' tt b e;
}

pub then-keeps :
    {B : Type 0} {m : M Session (Unit {0})} {k : M Session B}
    → KeepsAddress m
    → KeepsAddress k
    → KeepsAddress (m >> k)
then-keeps km kk = bind-keeps km (λ _. kk)

-- What a computation tells of the state, which it leaves alone.
pub view-keeps : {A : Type 0} (f : Session → A) → KeepsAddress (λ s. done (f s, s))
view-keeps f = record { keeps = λ s a s' e. same s s' (f s) a e }

pub if-keeps :
    {A : Type 0} {m k : M Session A} (b : Bool)
    → KeepsAddress m
    → KeepsAddress k
    → KeepsAddress (if b then m else k)
if-keeps true km kk = km
if-keeps false km kk = kk

pub ruleset keeping = (
  bind-keeps, then-keeps, pure-keeps, lift-keeps, on_world-keeps, this-keeps, on_td-keeps,
  on_qh-keeps, if-keeps, view-keeps,
)

module _ (p : Platform) where
  pub enable_zlt-keeps : KeepsAddress (enable_zlt p)
  unfolding enable_zlt
  enable_zlt-keeps = search keeping

  pub is_primed-keeps : KeepsAddress (is_primed p)
  unfolding is_primed
  is_primed-keeps = search keeping

  pub has_setup-keeps : KeepsAddress (has_setup p)
  unfolding has_setup
  has_setup-keeps = search keeping

  pub read_setup-keeps : (fuel : ℕ) → KeepsAddress (read_setup p fuel)
  unfolding read_setup
  read_setup-keeps fuel = search keeping

  pub write-keeps : (buffer : List ℕ) → KeepsAddress (write p buffer)
  unfolding write
  write-keeps buffer = search keeping

  write_bit-keeps :
      (reg : Reg) (for_in for_out : UsbField) → KeepsAddress (write_bit p reg for_in for_out)
  unfolding write_bit
  write_bit-keeps reg for_in for_out = search keeping

  pub clear_complete-keeps : KeepsAddress (clear_complete p)
  unfolding clear_complete
  clear_complete-keeps = write_bit-keeps _ _ _

  pub clear_nack-keeps : KeepsAddress (clear_nack p)
  unfolding clear_nack
  clear_nack-keeps = write_bit-keeps _ _ _

  pub schedule_transfer-keeps : (fuel size : ℕ) → KeepsAddress (schedule_transfer p fuel size)
  unfolding schedule_transfer
  schedule_transfer-keeps fuel size = search (keeping, write_bit-keeps) depth 20

  pub set_stalled-keeps : (stall : Bool) → KeepsAddress (set_stalled p stall)
  unfolding set_stalled
  set_stalled-keeps stall = search keeping

  pub read-keeps : (buffer : List ℕ) → KeepsAddress (read p buffer)
  unfolding read
  read-keeps buffer = search keeping

  pub enable-keeps : KeepsAddress (enable p)
  unfolding enable
  enable-keeps = search keeping

  pub initialize-keeps : KeepsAddress (initialize p)
  unfolding initialize
  initialize-keeps = search keeping

  pub is_enabled-keeps : KeepsAddress (is_enabled p)
  unfolding is_enabled
  is_enabled-keeps = search keeping
