-- ===== src/Driver/Registers/Loop.antt =====
-- The loop over all endpoints but those of endpoint 0, for an operation that sets up each.
use mathlib.Core.Path.{ap₂}
use imxrt_usbd.Common.{
  ℕ, zero, suc, ◌+◌, ◌*◌, ◌<◌, ◌≤◌, ◌≡◌, ◌≢◌, ◌⊎◌, inl, inr, refl, sym, ◌∙◌, subst, arith, List, [],
  ◌∷◌, map, ◌==◌, if◌then◌else◌, get_elem?-lt, Option-cases, some, done, M, pure, ◌>>=◌,
}
use native.Mathlib.Decide.{ℕ_discrete}
use imxrt_usbd.Machine.{Access}
use imxrt_usbd.Platform.{Platform, EndpointAddress, UsbDirection}
use imxrt_usbd.State.{slot, addresses}
use imxrt_usbd.State.Slots.{IsValid, at_slot, at_slot-some}
use imxrt_usbd.State.Iterate.{slots_from, slot-addresses}
use imxrt_usbd.Endpoint
use imxrt_usbd.Endpoint.{Endpoint, Session, into_raw_endpoint_type, by_direction, this}
use imxrt_usbd.Driver.{Driver, if_ep}
use imxrt_usbd.Driver.Lookup.{found, if_ep-found, if_ep-missing, endpoint_set-same}
use imxrt_usbd.Driver.Endpoints.{for_endpoints, for_nonzero}
use imxrt_usbd.Driver.Registers.{AreKept, Setting, IsSetUp, set_log, self-IsSetUp, stays-IsSetUp}

-- The slot is among these.
abbrev pub Hit : ℕ → List ℕ → Type 0
Hit i [] = ⊥
Hit i (j ∷ js) = (j ≡ i) ⊎ Hit i js

slots_from-Hit : (i k n : ℕ) → k ≤ i → i < k + n → Hit i (slots_from k n)
slots_from-Hit i k zero le lt = absurd (omega arith)
slots_from-Hit i k (suc n) le lt = elim (ℕ_discrete k i) [
  | yes here ↦ inl here
  | no ne ↦ inr (slots_from-Hit i (suc k) n (omega (arith, ne)) (omega arith))
]

-- An endpoint, but of endpoint 0, stands in a slot.
abbrev pub Standing : Platform → Driver → ℕ → Endpoint → Type 0
Standing p d i ep = (at_slot i d.ep_allocator.ep_list ≡ some ep) × (p.index ep.address ≢ 0)

abbrev pub logged : Driver → List Access → Driver
logged d log = record d { world = record (d.world) { log = log } }

module _ (p : Platform) (d : Driver) (v : IsValid p d.ep_allocator) where
  pub index-lt :
      (i : ℕ) (ep : Endpoint) → at_slot i d.ep_allocator.ep_list ≡ some ep → p.index ep.address < 8
  unfolding slot
  index-lt i ep there =
      let held = at_slot-some i d.ep_allocator.ep_list there in
      omega
        (arith, v.in_slot i ep held, get_elem?-lt d.ep_allocator.ep_list i held, v.same_ep, v.small)

  -- In a valid allocator, endpoints of one half of a register are one.
  one_half :
      (i j : ℕ) (ep other : Endpoint)
      → at_slot i d.ep_allocator.ep_list ≡ some ep
      → at_slot j d.ep_allocator.ep_list ≡ some other
      → p.direction ep.address ≡ p.direction other.address
      → p.index ep.address ≡ p.index other.address
      → ep ≡ other
  unfolding slot
  one_half i j ep other there there' way same =
      let at_i = v.in_slot i ep (at_slot-some i d.ep_allocator.ep_list there) in
      let at_j = v.in_slot j other (at_slot-some j d.ep_allocator.ep_list there') in
      let one : i ≡ j =
        sym at_i
        ∙ ap₂ (λ (n : ℕ) (dir : UsbDirection). n * 2 + (if Endpoint.is_out dir then 0 else 1)) same
            way
        ∙ at_j in
      cc

  -- The loop comes to every endpoint that stands.
  pub in_addresses :
      (i : ℕ) (ep : Endpoint)
      → at_slot i d.ep_allocator.ep_list ≡ some ep
      → Hit i (map (slot p) (addresses p))
  in_addresses i ep there =
      let held = at_slot-some i d.ep_allocator.ep_list there in
      subst (Hit i) (sym (slot-addresses p)) (
        slots_from-Hit i 0 16 (omega arith)
          (omega (arith, get_elem?-lt d.ep_allocator.ep_list i held, v.same_ep, v.small)))

module _ (p : Platform) (keeps : AreKept p) (setting : Setting p) (d : Driver)
    (v : IsValid p d.ep_allocator) where
  -- What a part of the loop does: it only logs, it sets up these endpoints, and it leaves set up what
  -- was.
  record Sets (ran : List Access → Type 0) (these : ℕ → Type 0) (log : List Access) : Type 0 where
    pub log' : List Access
    pub run : ran log'
    pub sets :
        (i : ℕ) (ep : Endpoint) → these i → Standing p d i ep → IsSetUp p keeps setting ep log'
    pub keeps_set :
        (i : ℕ) (ep : Endpoint)
        → Standing p d i ep
        → IsSetUp p keeps setting ep log
        → IsSetUp p keeps setting ep log'

  abbrev body : M Session (Unit {0})
  body = this >>= λ ep. if p.index ep.address == 0 then pure tt else setting.op

  one-Sets :
      (addr : EndpointAddress) (log : List Access)
      → Sets
          (λ log'. if_ep p addr body (logged d log) ≡ done (tt, logged d log'))
          (λ i. slot p addr ≡ i)
          log
  one-Sets addr log = elim (Option-cases (found p addr d)) [
    | inl gone ↦ record {
      log' = log;
      run = if_ep-missing p addr (logged d log) v body gone;
      sets = λ i ep here (there, _). absurd (cc);
      keeps_set = λ i ep standing set. set;
    }
    | inr (ep, there) ↦ elim (ℕ_discrete (p.index ep.address) 0) [
      | yes control ↦ record {
        log' = log;
        run =
            if_ep-found p addr (logged d log) v ep body there
            ∙ ground (arith, control, endpoint_set-same p addr (logged d log) v ep there);
        sets = λ i other here (same, nonzero). absurd (nonzero (cc));
        keeps_set = λ i other standing set. set;
      }
      | no nonzero ↦ record {
        log' = set_log p keeps setting ep log;
        run =
            if_ep-found p addr (logged d log) v ep body there
            ∙ ground (
              arith,
              nonzero,
              setting.runs (record { ep = ep; world = record (d.world) { log = log } })
                  (omega (arith, nonzero)) (index-lt p d v (slot p addr) ep there),
              endpoint_set-same p addr (logged d log) v ep there,
            );
        sets = λ i other here (same, _).
            let is_it : ep ≡ other = cc in
            subst (λ (o : Endpoint). IsSetUp p keeps setting o (set_log p keeps setting ep log))
              is_it (self-IsSetUp p keeps setting ep log);
        keeps_set = λ i other (same, _) set.
            stays-IsSetUp p keeps setting ep other log
              (one_half p d v (slot p addr) i ep other there same) set;
      }
    ]
  ]

  all-Sets :
      (addrs : List EndpointAddress) (log : List Access)
      → Sets
          (λ log'. for_endpoints p addrs body (logged d log) ≡ done (tt, logged d log'))
          (λ i. Hit i (map (slot p) addrs))
          log
  unfolding for_endpoints
  all-Sets [] log = record {
    log' = log;
    run = refl;
    sets = λ i ep hit standing. absurd hit;
    keeps_set = λ i ep standing set. set;
  }
  all-Sets (addr ∷ addrs) log =
      let first = one-Sets addr log in
      let rest = all-Sets addrs first.log' in
      record {
        log' = rest.log';
        run = rw (first.run) rest.run;
        sets = λ i ep hit standing. elim hit [
          | inl here ↦ rest.keeps_set i ep standing (first.sets i ep here standing)
          | inr later ↦ rest.sets i ep later standing
        ];
        keeps_set =
            λ i ep standing set. rest.keeps_set i ep standing (first.keeps_set i ep standing set);
      }

  -- The loop sets up every endpoint that stands, but those of endpoint 0.
  pub for_nonzero-sets :
      (log : List Access)
      → (log' : List Access) × (for_nonzero p setting.op (logged d log) ≡ done (tt, logged d log'))
        × ((i : ℕ) (ep : Endpoint) → Standing p d i ep → IsSetUp p keeps setting ep log')
  unfolding for_nonzero
  for_nonzero-sets log =
      let loop = all-Sets (addresses p) log in
      (
        loop.log',
        loop.run,
        λ i ep standing. loop.sets i ep (in_addresses p d v i ep standing.0) standing,
      )
