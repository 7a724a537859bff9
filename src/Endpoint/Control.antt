-- ===== src/Endpoint/Control.antt =====
-- An endpoint's half of its control register, in stalls, enabling and initialising.
use mathlib.Core.Path.{◌∙◌}
use imxrt_usbd.Common.{
  ℕ, ◌<◌, ◌≡◌, ◌≢◌, refl, sym, ap, arith, Bool, List, ◌∷◌, if◌then◌else◌, ◌==◌, done, ◌>>=◌,
}
use imxrt_usbd.Machine.{Reg, Access, rd, wr, endptctrl}
use imxrt_usbd.Platform.{Platform, UsbField, RegKind, home, width, get, put, txs, rxs, bulk}
use imxrt_usbd.Platform.Laws.{get-put_other, get-put_flag, ReadsBack}
use imxrt_usbd.Endpoint.{
  Session, register, into_raw_endpoint_type, by_direction, initialize, set_stalled, is_stalled,
  enable,
}
use imxrt_usbd.Endpoint.Halves.{
  enable_field, toggle_field, type_field, fields-AreHalf, put_three, put_three_other, put_two,
  put_two_other,
}

module _ (p : Platform) where
  -- Endpoints 0 to 7 have a control register.
  pub register-endptctrl : (n : ℕ) → n < 8 → register p n ≡ done (endptctrl n)
  unfolding register
  register-endptctrl n h = ground (arith, p.endptctrl_seven)

  -- One access of a control register: the world after `v` was read from it and `v'` written.
  abbrev pub changed : Session → Reg → ℕ → ℕ → Session
  changed s reg v v' = record s {
    world = record (s.world) { log = wr reg v' ∷ rd reg v ∷ s.world.log };
  }

  abbrev pub stall_field : Session → UsbField
  stall_field s = by_direction p s.ep txs rxs

  set_stalled_lem :
      (stall : Bool) (s : Session)
      → p.index s.ep.address < 8
      → let reg = endptctrl (p.index s.ep.address) in
        let v = p.answer s.world.log reg in
        set_stalled p stall s
        ≡ done (tt, changed s reg v (put p (stall_field s) (if stall then 1 else 0) v))
  unfolding set_stalled
  set_stalled_lem stall s h = ground (arith, register-endptctrl (p.index s.ep.address) h)

  stall_field-home :
      (s : Session) → (home (stall_field s) ≡ RegKind.endptctrl) × (width (stall_field s) ≡ 1)
  stall_field-home s = ground arith

  -- `set_stalled` on endpoints 0 to 7 is one read and one write of the endpoint's control register,
  -- which sets the stall bit of the endpoint's direction to `stall` and keeps every other field `g`.
  pub set_stalled-sets :
      (stall : Bool) (g : UsbField) (s : Session)
      → p.index s.ep.address < 8
      → home g ≡ RegKind.endptctrl
      → stall_field s ≢ g
      → let reg = endptctrl (p.index s.ep.address) in
        let v = p.answer s.world.log reg in
        (v' : ℕ) × (set_stalled p stall s ≡ done (tt, changed s reg v v'))
        × (get p (stall_field s) v' ≡ (if stall then 1 else 0))
        × (get p g v' ≡ get p g v)
  set_stalled-sets stall g s h at ne =
      let v = p.answer s.world.log (endptctrl (p.index s.ep.address)) in
      let x : ℕ = if stall then 1 else 0 in
      (
        put p (stall_field s) x v,
        set_stalled_lem stall s h,
        get-put_flag p (stall_field s) stall v (stall_field-home s).1,
        get-put_other p (stall_field s) g x v ((stall_field-home s).0 ∙ sym at) ne,
      )

  -- To ask if an endpoint is stalled only reads a register.
  pub is_stalled_log :
      (s : Session)
      → p.index s.ep.address < 8
      → (b : Bool) × (log : List Access) × (is_stalled p s
          ≡ done (b, record s { world = record (s.world) { log = log } }))
  unfolding is_stalled
  is_stalled_log s h =
      let reg = endptctrl (p.index s.ep.address) in
      let v = p.answer s.world.log reg in
      (
        get p (by_direction p s.ep txs rxs) v == 1,
        rd reg v ∷ s.world.log,
        rw (register-endptctrl (p.index s.ep.address) h) refl,
      )

  -- If the stall bit of the endpoint's direction reads as written right after `set_stalled` has set
  -- it, endpoints 0 to 7 read as stalled exactly if they were set so. The endpoint is unchanged.
  pub is_stalled-set_stalled :
      (stall : Bool) (s : Session)
      → p.index s.ep.address < 8
      → ReadsBack p
          (endptctrl (p.index s.ep.address))
          (stall_field s)
          (if stall then 1 else 0)
          s.world.log
      → (s' : Session) × ((set_stalled p stall >>= λ _. is_stalled p) s ≡ done (stall, s'))
        × (s'.ep ≡ s.ep)
  unfolding is_stalled
  is_stalled-set_stalled stall s h back =
      let reg = endptctrl (p.index s.ep.address) in
      let v = p.answer s.world.log reg in
      let x : ℕ = if stall then 1 else 0 in
      let log = wr reg (put p (stall_field s) x v) ∷ rd reg v ∷ s.world.log in
      let flag : get p (stall_field s) (p.answer log reg) ≡ x =
        back ∙ get-put_flag p (stall_field s) stall v (stall_field-home s).1 in
      let s' = record s { world = record (s.world) { log = rd reg (p.answer log reg) ∷ log } } in
      (
        s',
        rw (set_stalled_lem stall s h, register-endptctrl (p.index s.ep.address) h)
            (ap (λ b. done (b, s')) (ap (λ n. n == 1) flag ∙ flag-eq stall)),
        refl,
      )
    where
      flag-eq : (on : Bool) → ((if on then 1 else 0) == 1) ≡ on
      flag-eq on = ground arith

  -- What `enable` writes to the control register that reads as `v`.
  abbrev pub enabling : Session → ℕ → ℕ
  enabling s v =
      put p (type_field p s) (into_raw_endpoint_type p s.ep.kind)
        (put p (toggle_field p s) 1 (put p (enable_field p s) 1 v))

  pub enable_lem :
      (s : Session)
      → 0 < p.index s.ep.address
      → p.index s.ep.address < 8
      → let reg = endptctrl (p.index s.ep.address) in
        let v = p.answer s.world.log reg in enable p s ≡ done (tt, changed s reg v (enabling s v))
  unfolding enable
  enable_lem s pos h = ground (arith, register-endptctrl (p.index s.ep.address) h)

  -- `enable` on endpoints 1 to 7 is one read and one write of the control register: it sets the
  -- enable and the toggle reset bit of the endpoint's direction and its transfer type, and keeps
  -- every other field `g`, those of the other direction among them.
  pub enable-sets :
      (g : UsbField) (s : Session)
      → 0 < p.index s.ep.address
      → p.index s.ep.address < 8
      → home g ≡ RegKind.endptctrl
      → enable_field p s ≢ g
      → toggle_field p s ≢ g
      → type_field p s ≢ g
      → let reg = endptctrl (p.index s.ep.address) in
        let v = p.answer s.world.log reg in
        (v' : ℕ) × (enable p s ≡ done (tt, changed s reg v v'))
        × (get p (enable_field p s) v' ≡ 1)
        × (get p (toggle_field p s) v' ≡ 1)
        × (get p (type_field p s) v' ≡ into_raw_endpoint_type p s.ep.kind)
        × (get p g v' ≡ get p g v)
  enable-sets g s pos h at eg rg tg =
      let half = fields-AreHalf p s in
      let v = p.answer s.world.log (endptctrl (p.index s.ep.address)) in
      let (e, r, t) = put_three p half s.ep.kind v in
      (enabling s v, enable_lem s pos h, e, r, t, put_three_other p half s.ep.kind v g at eg rg tg)

  -- What `initialize` writes to the control register that reads as `v`.
  abbrev pub initial : Session → ℕ → ℕ
  initial s v =
      put p (type_field p s) (into_raw_endpoint_type p bulk) (put p (enable_field p s) 0 v)

  pub initialize_lem :
      (s : Session)
      → 0 < p.index s.ep.address
      → p.index s.ep.address < 8
      → let reg = endptctrl (p.index s.ep.address) in
        let v = p.answer s.world.log reg in
        initialize p s ≡ done (tt, changed s reg v (initial s v))
  unfolding initialize
  initialize_lem s pos h = ground (arith, register-endptctrl (p.index s.ep.address) h)

  -- `initialize` on endpoints 1 to 7 clears the enable bit of the endpoint's direction, sets its
  -- transfer type to bulk, and keeps every other field `g` of the control register.
  pub initialize-sets :
      (g : UsbField) (s : Session)
      → 0 < p.index s.ep.address
      → p.index s.ep.address < 8
      → home g ≡ RegKind.endptctrl
      → enable_field p s ≢ g
      → type_field p s ≢ g
      → let reg = endptctrl (p.index s.ep.address) in
        let v = p.answer s.world.log reg in
        (v' : ℕ) × (initialize p s ≡ done (tt, changed s reg v v'))
        × (get p (enable_field p s) v' ≡ 0)
        × (get p (type_field p s) v' ≡ into_raw_endpoint_type p bulk)
        × (get p g v' ≡ get p g v)
  initialize-sets g s pos h at eg tg =
      let half = fields-AreHalf p s in
      let v = p.answer s.world.log (endptctrl (p.index s.ep.address)) in
      let (e, t) = put_two p half bulk v in
      (initial s v, initialize_lem s pos h, e, t, put_two_other p half bulk v g at eg tg)
