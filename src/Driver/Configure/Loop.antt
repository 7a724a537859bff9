-- ===== src/Driver/Configure/Loop.antt =====
-- The loop that primes the endpoints, over an enabled driver.
use imxrt_usbd.Common.{
  ℕ, ◌+◌, ◌^◌, ◌<◌, ◌≡◌, ◌≢◌, ◌⊎◌, inl, inr, refl, sym, ap, ◌∙◌, subst, arith, List, [], ◌∷◌, map,
  ◌==◌, if◌then◌else◌, length, get_elem?-lt, get_elem?-set_ne, Option-cases, some, done, M, pure,
  ◌>>=◌,
}
use native.Mathlib.Decide.{ℕ_discrete}
use imxrt_usbd.Buffer.{Buffer}
use imxrt_usbd.Machine.{Access, endptprime}
use imxrt_usbd.Td.Pages.{page}
use imxrt_usbd.Platform.{Platform, EndpointAddress, UsbField, txe, rxe, txt, rxt}
use imxrt_usbd.Platform.Waits.{Settles}
use imxrt_usbd.State.{slot, endpoint_set}
use imxrt_usbd.State.Slots.{IsValid, at_slot, at_slot-some, at_slot-set}
use imxrt_usbd.State.Allocate.{endpoint_set-IsValid}
use imxrt_usbd.Endpoint.{Endpoint, Session, into_raw_endpoint_type, by_direction, this}
use imxrt_usbd.Endpoint.Transfer.{IsReady}
use imxrt_usbd.Driver.{Driver, if_ep}
use imxrt_usbd.Driver.Lookup.{found, if_ep-found, if_ep-missing, endpoint_set-same}
use imxrt_usbd.Driver.Endpoints.{for_endpoints, prime}
use imxrt_usbd.Driver.Registers.{IsKept, AreKept, Half}
use imxrt_usbd.Driver.Registers.Frame.{value_after}
use imxrt_usbd.Driver.Registers.Loop.{Hit, Standing, index-lt}
use imxrt_usbd.Driver.Configure.Prime.{IsEnabled, IsWaiting, IsPrimed, prime_lem}

-- The slots after an endpoint was put back.
put_back :
    (p : Platform) (d : Driver) (addr : EndpointAddress) (e : Endpoint) (i : ℕ)
    → slot p addr < length d.ep_allocator.ep_list
    → ((slot p addr ≡ i) × (at_slot i (endpoint_set p addr e d.ep_allocator).ep_list ≡ some e))
      ⊎ ((slot p addr ≢ i)
          × (at_slot i (endpoint_set p addr e d.ep_allocator).ep_list
              ≡ at_slot i d.ep_allocator.ep_list))
unfolding endpoint_set
put_back p d addr e i lt = elim (ℕ_discrete (slot p addr) i) [
  | yes same ↦ inl (
    same,
    subst (λ (j : ℕ). at_slot j (endpoint_set p addr e d.ep_allocator).ep_list ≡ some e) same
        (at_slot-set (slot p addr) d.ep_allocator.ep_list e lt),
  )
  | no ne ↦
      inr
        (ne, rw (get_elem?-set_ne d.ep_allocator.ep_list (slot p addr) i (some e) ne, at_slot) refl)
]

module _ (p : Platform) (keeps : AreKept p) (fuel : ℕ) (settles : Settles p endptprime fuel)
    (low_stack : (log : List Access) → p.self_slot log + 96 < 2 ^ 32) (d1 : Driver)
    (on : (i : ℕ) (ep : Endpoint) → Standing p d1 i ep → IsEnabled p ep d1.world.log)
    (low : (i : ℕ) (ep : Endpoint)
      → at_slot i d1.ep_allocator.ep_list ≡ some ep
      → page ep.buffer.ptr 4 < 2 ^ 32) where
  -- The driver after some of the priming: in each slot stands the endpoint that stood, with its
  -- address, its buffer and its type, and the control registers are as they were.
  pub record IsFramed (d : Driver) : Type 0 where
    pub valid : IsValid p d.ep_allocator
    pub same :
        (i : ℕ) (ep : Endpoint)
        → at_slot i d.ep_allocator.ep_list ≡ some ep
        → (ep1 : Endpoint) × (at_slot i d1.ep_allocator.ep_list ≡ some ep1)
          × (ep.address ≡ ep1.address)
          × (ep.buffer ≡ ep1.buffer)
          × (ep.kind ≡ ep1.kind)
    pub stays :
        (i : ℕ) (ep1 : Endpoint)
        → at_slot i d1.ep_allocator.ep_list ≡ some ep1
        → (ep : Endpoint) × (at_slot i d.ep_allocator.ep_list ≡ some ep)
    pub frame :
        (f : UsbField) (k : IsKept p f) (n : ℕ)
        → value_after p f k n d.world.log ≡ value_after p f k n d1.world.log

  abbrev pub AllWaiting : Driver → ℕ → Type 0
  AllWaiting d i = (ep : Endpoint) → Standing p d i ep → IsWaiting p ep

  -- What a part of the loop does.
  pub record Primes (ran : Driver → Type 0) (these : ℕ → Type 0) (d : Driver) : Type 0 where
    pub d' : Driver
    pub run : ran d'
    pub framed : IsFramed d'
    pub waiting : (i : ℕ) → these i → AllWaiting d' i
    pub keeps_waiting : (i : ℕ) → AllWaiting d i → AllWaiting d' i

  abbrev pub body : M Session (Unit {0})
  body = this >>= λ ep. if p.index ep.address == 0 then pure tt else prime p fuel

  -- An endpoint of the framed driver is enabled still.
  pub still_on :
      (d : Driver) (i : ℕ) (ep : Endpoint)
      → IsFramed d
      → Standing p d i ep
      → IsEnabled p ep d.world.log
  still_on d i ep framed (there, nonzero) =
      let (ep1, there1, address, _, kind) = framed.same i ep there in
      let nonzero1 : p.index ep1.address ≢ 0 = λ e. nonzero (ap p.index address ∙ e) in
      let (enabled, typed) = on i ep1 (there1, nonzero1) in
      let n = p.index ep1.address in
      subst
        (λ (a : EndpointAddress).
          Half p (p.direction a) (p.index a) 1 (into_raw_endpoint_type p ep.kind) d.world.log)
        (sym address)
        (
          framed.frame (by_direction p ep1 txe rxe) (keeps.enables ep1) n ∙ enabled,
          framed.frame (by_direction p ep1 txt rxt) (keeps.types ep1) n
              ∙ typed
              ∙ ap (into_raw_endpoint_type p) (sym kind),
        )

  put_back-IsFramed :
      (d : Driver) (addr : EndpointAddress) (ep : Endpoint) (s' : Session)
      → IsFramed d
      → found p addr d ≡ some ep
      → slot p addr < length d.ep_allocator.ep_list
      → IsPrimed p (record { ep = ep; world = d.world }) s'
      → IsFramed
          (record d { ep_allocator = endpoint_set p addr s'.ep d.ep_allocator; world = s'.world })
  put_back-IsFramed d addr ep s' framed there lt primed = record {
    valid =
        endpoint_set-IsValid p d.ep_allocator framed.valid addr ep s'.ep there primed.same_address;
    same = λ i e at. elim (put_back p d addr s'.ep i lt) [
      | inl (here, is_it) ↦
          let (ep1, there1, address, buffer, kind) = framed.same (slot p addr) ep there in
          let same : s'.ep ≡ e = cc in
          (
            ep1,
            cc,
            ap (λ x. x.address) (sym same) ∙ primed.same_address ∙ address,
            ap (λ x. x.buffer) (sym same) ∙ primed.same_buffer ∙ buffer,
            ap (λ x. x.kind) (sym same) ∙ primed.same_kind ∙ kind,
          )
      | inr (ne, as_before) ↦ framed.same i e (sym as_before ∙ at)
    ];
    stays = λ i ep1 there1. elim (put_back p d addr s'.ep i lt) [
      | inl (_, is_it) ↦ (s'.ep, is_it)
      | inr (_, as_before) ↦ let (e, at) = framed.stays i ep1 there1 in (e, as_before ∙ at)
    ];
    frame = λ f k n. primed.frame f k n ∙ framed.frame f k n;
  }

  one-Primes :
      (addr : EndpointAddress) (d : Driver)
      → IsFramed d
      → Primes (λ d'. if_ep p addr body d ≡ done (tt, d')) (λ i. slot p addr ≡ i) d
  one-Primes addr d framed = elim (Option-cases (found p addr d)) [
    | inl gone ↦ record {
      d' = d;
      run = if_ep-missing p addr d framed.valid body gone;
      framed = framed;
      waiting = λ i here ep (there, _). absurd (cc);
      keeps_waiting = λ i all. all;
    }
    | inr (ep, there) ↦ elim (ℕ_discrete (p.index ep.address) 0) [
      | yes control ↦ record {
        d' = d;
        run =
            if_ep-found p addr d framed.valid ep body there
            ∙ ground (arith, control, endpoint_set-same p addr d framed.valid ep there);
        framed = framed;
        waiting = λ i here other (same, nonzero). absurd (nonzero (cc));
        keeps_waiting = λ i all. all;
      }
      | no nonzero ↦
          let (ep1, there1, address, buffer, _) = framed.same (slot p addr) ep there in
          let small = index-lt p d framed.valid (slot p addr) ep there in
          let ready : IsReady p (record { ep = ep; world = d.world }) = record {
            low_buffer =
                subst (λ (b : Buffer). page b.ptr 4 < 2 ^ 32) (sym buffer)
                  (low (slot p addr) ep1 there1);
            low_stack = low_stack;
            has_bit = omega (arith, small);
          } in
          let (s', ran, primed) =
            prime_lem p fuel (record { ep = ep; world = d.world }) (omega (arith, nonzero)) small
              ((still_on d (slot p addr) ep framed (there, nonzero)).0) ready settles in
          let lt =
            get_elem?-lt d.ep_allocator.ep_list (slot p addr)
              (at_slot-some (slot p addr) d.ep_allocator.ep_list there) in
          record {
            d' = record d {
              ep_allocator = endpoint_set p addr s'.ep d.ep_allocator;
              world = s'.world;
            };
            run = if_ep-found p addr d framed.valid ep body there ∙ ground (arith, nonzero, ran);
            framed = put_back-IsFramed d addr ep s' framed there lt primed;
            waiting = λ i here other (at, _). elim (put_back p d addr s'.ep i lt) [
              | inl (_, is_it) ↦
                  let same : s'.ep ≡ other = cc in subst (IsWaiting p) same primed.waiting
              | inr (ne, _) ↦ absurd (ne here)
            ];
            keeps_waiting = λ i all other (at, positive). elim (put_back p d addr s'.ep i lt) [
              | inl (_, is_it) ↦
                  let same : s'.ep ≡ other = cc in subst (IsWaiting p) same primed.waiting
              | inr (_, as_before) ↦ all other (sym as_before ∙ at, positive)
            ];
          }
    ]
  ]

  pub all-Primes :
      (addrs : List EndpointAddress) (d : Driver)
      → IsFramed d
      → Primes
          (λ d'. for_endpoints p addrs body d ≡ done (tt, d'))
          (λ i. Hit i (map (slot p) addrs))
          d
  unfolding for_endpoints
  all-Primes [] d framed = record {
    d' = d;
    run = refl;
    framed = framed;
    waiting = λ i hit. absurd hit;
    keeps_waiting = λ i all. all;
  }
  all-Primes (addr ∷ addrs) d framed =
      let first = one-Primes addr d framed in
      let rest = all-Primes addrs first.d' first.framed in
      record {
        d' = rest.d';
        run = rw (first.run) rest.run;
        framed = rest.framed;
        waiting = λ i hit. elim hit [
          | inl here ↦ rest.keeps_waiting i (first.waiting i here)
          | inr later ↦ rest.waiting i later
        ];
        keeps_waiting = λ i all. rest.keeps_waiting i (first.keeps_waiting i all);
      }
