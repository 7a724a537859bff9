-- ===== src/Driver/Invariant.antt =====
-- Every operation of the driver keeps the endpoint allocator valid.
use imxrt_usbd.Common.{
  ℕ, ◌≡◌, sym, ap, ◌∙◌, subst, Bool, true, false, List, [], ◌∷◌, some, if◌then◌else◌, Option-cases,
  inl, inr, Outcome, done, panic, M, pure, ◌>>=◌, ◌>>◌,
}
use imxrt_usbd.Machine.{World}
use imxrt_usbd.Platform.{Platform, EndpointAddress}
use imxrt_usbd.Endpoint.{Endpoint, Session}
use imxrt_usbd.Endpoint.Keeps.{KeepsAddress, value, and_then-done}
use imxrt_usbd.State.{EndpointAllocator, endpoint_set}
use imxrt_usbd.State.Slots.{IsValid}
use imxrt_usbd.State.Allocate.{endpoint_set-IsValid}
use imxrt_usbd.Driver.{Driver, self, set_ep_out, on_regs, in_session, with_ep, if_ep}
use imxrt_usbd.Driver.Lookup.{found, with_ep-found, with_ep-missing, if_ep-found, if_ep-missing}
use imxrt_usbd.Driver.Endpoints.{for_endpoints}

module _ (p : Platform) where
  -- An operation after which the endpoint allocator is valid if it was so before.
  pub record KeepsValid {A : Type 0} (m : M Driver A) : Type 0 where
    pub keeps :
        (d : Driver) (a : A) (d' : Driver)
        → m d ≡ done (a, d')
        → IsValid p d.ep_allocator
        → IsValid p d'.ep_allocator

  pub ends :
      {A : Type 0} (d d' : Driver) (a b : A)
      → ◌≡◌ {A = Outcome (A × Driver)} (done (a, d)) (done (b, d'))
      → IsValid p d.ep_allocator
      → IsValid p d'.ep_allocator
  ends {A} d d' a b e v =
      subst (λ (x : EndpointAllocator). IsValid p x)
        (ap (λ (o : Outcome (A × Driver)). (value (a, d) o).1.ep_allocator) e) v

  pub pure-valid : {A : Type 0} (a : A) → KeepsValid (pure a)
  pure-valid a = record { keeps = λ d b d' e. ends d d' a b e }

  pub bind-valid :
      {A B : Type 0} {m : M Driver A} {f : A → M Driver B}
      → KeepsValid m
      → ((a : A) → KeepsValid (f a))
      → KeepsValid (m >>= f)
  bind-valid {A} {B} {m} {f} km kf = record {
    keeps = λ d b d' e v.
        let (r, ran, rest) = and_then-done (m d) (λ r. f r.0 r.1) (b, d') e in
        (kf (r.0)).keeps (r.1) b d' rest (km.keeps d (r.0) (r.1) ran v);
  }

  pub then-valid :
      {B : Type 0} {m : M Driver (Unit {0})} {k : M Driver B}
      → KeepsValid m
      → KeepsValid k
      → KeepsValid (m >> k)
  then-valid km kk = bind-valid km (λ _. kk)

  pub if-valid :
      {A : Type 0} {m k : M Driver A} (b : Bool)
      → KeepsValid m
      → KeepsValid k
      → KeepsValid (if b then m else k)
  if-valid true km kk = km
  if-valid false km kk = kk

  pub on_regs-valid : {A : Type 0} (m : M World A) → KeepsValid (on_regs m)
  on_regs-valid m = record {
    keeps = λ d b d' e v.
        let (r, ran, rest) =
          and_then-done (m d.world) (λ r. done (r.0, record d { world = r.1 })) (b, d') e in
        ends (record d { world = r.1 }) d' (r.0) b rest v;
  }

  pub self-valid : KeepsValid self
  self-valid = record { keeps = λ d b d' e. ends d d' d b e }

  pub set_ep_out-valid : (mask : ℕ) → KeepsValid (set_ep_out mask)
  set_ep_out-valid mask = record { keeps = λ d b d' e. ends (record d { ep_out = mask }) d' tt b e }

  in_session-valid :
      {A : Type 0} (addr : EndpointAddress) (ep : Endpoint) (m : M Session A) (d : Driver) (a : A)
      (d' : Driver)
      → KeepsAddress m
      → found p addr d ≡ some ep
      → in_session p addr ep m d ≡ done (a, d')
      → IsValid p d.ep_allocator
      → IsValid p d'.ep_allocator
  in_session-valid addr ep m d a d' km there e v =
      let s : Session = record { ep = ep; world = d.world } in
      let (r, ran, rest) =
        and_then-done (m s)
          (λ r. done (
            r.0,
            record d {
              ep_allocator = endpoint_set p addr r.1.ep d.ep_allocator;
              world = r.1.world;
            },
          ))
          (a, d') e in
      ends
        (record d { ep_allocator = endpoint_set p addr r.1.ep d.ep_allocator; world = r.1.world })
        d' (r.0) a rest
        (endpoint_set-IsValid p d.ep_allocator v addr ep (r.1.ep) there
          (km.keeps s (r.0) (r.1) ran))

  pub with_ep-valid :
      {A : Type 0} {m : M Session A} (addr : EndpointAddress)
      → KeepsAddress m
      → KeepsValid (with_ep p addr m)
  with_ep-valid {A} {m} addr km = record {
    keeps = λ d a d' e v. elim (Option-cases (found p addr d)) [
      | inl gone ↦ absurd (done-panic (a, d') (sym e ∙ with_ep-missing p addr d v m gone))
      | inr (ep, there) ↦
          in_session-valid addr ep m d a d' km there (sym (with_ep-found p addr d v ep m there) ∙ e)
            v
    ];
  }
    where
      done-panic : {A : Type 0} (a : A) → done a ≡ panic → ⊥
      done-panic a e = cc

  pub if_ep-valid :
      {m : M Session (Unit {0})} (addr : EndpointAddress)
      → KeepsAddress m
      → KeepsValid (if_ep p addr m)
  if_ep-valid {m} addr km = record {
    keeps = λ d a d' e v. elim (Option-cases (found p addr d)) [
      | inl gone ↦ ends d d' tt a (sym (if_ep-missing p addr d v m gone) ∙ e) v
      | inr (ep, there) ↦
          in_session-valid addr ep m d a d' km there (sym (if_ep-found p addr d v ep m there) ∙ e) v
    ];
  }

  pub for_endpoints-valid :
      {m : M Session (Unit {0})} (addrs : List EndpointAddress)
      → KeepsAddress m
      → KeepsValid (for_endpoints p addrs m)
  unfolding for_endpoints
  for_endpoints-valid [] km = pure-valid tt
  for_endpoints-valid (addr ∷ addrs) km =
      then-valid (if_ep-valid addr km) (for_endpoints-valid addrs km)
