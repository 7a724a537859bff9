-- ===== src/Driver/Registers.antt =====
-- Setting up endpoints, one after another, in control registers that two endpoints share.

pub mod Loop
pub mod Frame
use imxrt_usbd.Common.{
  ℕ, ◌<◌, ◌≡◌, ◌≢◌, ◌⊎◌, inl, inr, refl, sym, ◌∙◌, subst, arith, List, ◌∷◌, if◌then◌else◌, M, done,
}
use native.Mathlib.Decide.{ℕ_discrete}
use imxrt_usbd.Machine.{Access, rd, wr, endptctrl}
use imxrt_usbd.Platform.{
  Platform, UsbField, UsbDirection, home, get, txe, rxe, txr, rxr, txt, rxt, dir_out, dir_in,
}
use imxrt_usbd.Endpoint
use imxrt_usbd.Endpoint.{Endpoint, Session, by_direction}
use imxrt_usbd.Endpoint.Control.{changed}

module _ (p : Platform) where
  -- A field of the control registers reads as it was last written, whatever else is done.
  pub record IsKept (f : UsbField) : Type 0 where
    pub written :
        (n v : ℕ) (log : List Access)
        → get p f (p.answer (wr (endptctrl n) v ∷ log) (endptctrl n)) ≡ get p f v
    pub kept :
        (n : ℕ) (a : Access) (log : List Access)
        → ((v : ℕ) → a ≢ wr (endptctrl n) v)
        → get p f (p.answer (a ∷ log) (endptctrl n)) ≡ get p f (p.answer log (endptctrl n))

  -- The enable bits and the types of both directions are kept.
  pub record AreKept : Type 0 where
    pub enables : (ep : Endpoint) → IsKept (by_direction p ep txe rxe)
    pub types : (ep : Endpoint) → IsKept (by_direction p ep txt rxt)

  -- A half of a control register has this enable bit and this type.
  abbrev pub Half : UsbDirection → ℕ → ℕ → ℕ → List Access → Type 0
  Half dir n on kind log =
      let v = p.answer log (endptctrl n) in
      (get p (if Endpoint.is_out dir then rxe else txe) v ≡ on)
      × (get p (if Endpoint.is_out dir then rxt else txt) v ≡ kind)

  -- An operation that sets the enable bit and the type of an endpoint by one read and one write of
  -- its control register, and leaves the other half of the register.
  pub record Setting : Type 0 where
    pub op : M Session (Unit {0})
    pub change : Endpoint → ℕ → ℕ
    pub on : Endpoint → ℕ
    pub kind : Endpoint → ℕ
    pub runs :
        (s : Session)
        → 0 < p.index s.ep.address
        → p.index s.ep.address < 8
        → let reg = endptctrl (p.index s.ep.address) in
          let v = p.answer s.world.log reg in op s ≡ done (tt, changed p s reg v (change s.ep v))
    pub sets :
        (ep : Endpoint) (v : ℕ)
        → (get p (by_direction p ep txe rxe) (change ep v) ≡ on ep)
          × (get p (by_direction p ep txt rxt) (change ep v) ≡ kind ep)
    pub leaves :
        (ep : Endpoint) (v : ℕ) (f : UsbField)
        → home f ≡ home txe
        → by_direction p ep txe rxe ≢ f
        → by_direction p ep txr rxr ≢ f
        → by_direction p ep txt rxt ≢ f
        → get p f (change ep v) ≡ get p f v

  -- What another half has stays where the three fields of this half are written.
  halves :
      (a b : UsbDirection)
      → (a ≡ b)
        ⊎ ((g : UsbField)
            → (g ≡ (if Endpoint.is_out b then rxe else txe))
              ⊎ (g ≡ (if Endpoint.is_out b then rxt else txt))
            → (home g ≡ home txe)
              × ((if Endpoint.is_out a then rxe else txe) ≢ g)
              × ((if Endpoint.is_out a then rxr else txr) ≢ g)
              × ((if Endpoint.is_out a then rxt else txt) ≢ g))
  halves dir_out dir_out = inl refl
  halves dir_in dir_in = inl refl
  halves dir_out dir_in = inr λ g hg. ground (arith, hg)
  halves dir_in dir_out = inr λ g hg. ground (arith, hg)

  module _ (keeps : AreKept) (setting : Setting) where
    abbrev pub IsSetUp : Endpoint → List Access → Type 0
    IsSetUp ep log =
        Half (p.direction ep.address) (p.index ep.address) (setting.on ep) (setting.kind ep) log

    -- The accesses that set up an endpoint.
    abbrev pub set_log : Endpoint → List Access → List Access
    set_log ep log =
        let reg = endptctrl (p.index ep.address) in
        let v = p.answer log reg in wr reg (setting.change ep v) ∷ rd reg v ∷ log

    pub self-IsSetUp : (ep : Endpoint) (log : List Access) → IsSetUp ep (set_log ep log)
    self-IsSetUp ep log =
        let n = p.index ep.address in
        let v = p.answer log (endptctrl n) in
        let (e, t) = setting.sets ep v in
        (
          (keeps.enables ep).written n (setting.change ep v) _ ∙ e,
          (keeps.types ep).written n (setting.change ep v) _ ∙ t,
        )

    other_register :
        (f : UsbField) (ep : Endpoint) (n : ℕ) (log : List Access)
        → IsKept f
        → n ≢ p.index ep.address
        → get p f (p.answer (set_log ep log) (endptctrl n)) ≡ get p f (p.answer log (endptctrl n))
    other_register f ep n log k ne =
        k.kept n _ _ (λ x e. absurd (ne (cc))) ∙ k.kept n _ log (λ x e. cc)

    other_half :
        (f : UsbField) (ep : Endpoint) (n : ℕ) (log : List Access)
        → IsKept f
        → n ≡ p.index ep.address
        → (home f ≡ home txe)
          × (by_direction p ep txe rxe ≢ f)
          × (by_direction p ep txr rxr ≢ f)
          × (by_direction p ep txt rxt ≢ f)
        → get p f (p.answer (set_log ep log) (endptctrl n)) ≡ get p f (p.answer log (endptctrl n))
    other_half f ep n log k same (at, e, r, t) =
        let m = p.index ep.address in
        let v = p.answer log (endptctrl m) in
        subst
          (λ (i : ℕ).
            get p f (p.answer (set_log ep log) (endptctrl i))
            ≡ get p f (p.answer log (endptctrl i)))
          (sym same) (k.written m (setting.change ep v) _ ∙ setting.leaves ep v f at e r t)

    -- What is set up stays so when an endpoint is set up, another or the same.
    pub stays-IsSetUp :
        (ep other : Endpoint) (log : List Access)
        → (p.direction ep.address ≡ p.direction other.address
            → p.index ep.address ≡ p.index other.address
            → ep ≡ other)
        → IsSetUp other log
        → IsSetUp other (set_log ep log)
    stays-IsSetUp ep other log unique (e, t) =
        let f = by_direction p other txe rxe in
        let g = by_direction p other txt rxt in
        let n = p.index other.address in
        elim (ℕ_discrete n (p.index ep.address)) [
          | no ne ↦ (
            other_register f ep n log (keeps.enables other) ne ∙ e,
            other_register g ep n log (keeps.types other) ne ∙ t,
          )
          | yes same ↦ elim (halves (p.direction ep.address) (p.direction other.address)) [
            | inl way ↦
                subst (λ (o : Endpoint). IsSetUp o (set_log ep log)) (unique way (sym same))
                  (self-IsSetUp ep log)
            | inr apart ↦ (
              other_half f ep n log (keeps.enables other) same (apart f (inl refl)) ∙ e,
              other_half g ep n log (keeps.types other) same (apart g (inr refl)) ∙ t,
            )
          ]
        ]
