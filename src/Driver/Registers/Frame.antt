-- ===== src/Driver/Registers/Frame.antt =====
-- What does not write a control register leaves its kept fields.
use imxrt_usbd.Common.{
  ℕ, zero, suc, ◌≡◌, ◌≢◌, refl, sym, ◌∙◌, subst, arith, List, [], ◌∷◌, Option, none, some,
  Option-cases, inl, inr,
}
use native.Mathlib.Decide.{ℕ_discrete}
use imxrt_usbd.Machine.{
  Reg, Access, rd, wr, dccimvac, td_store, qh_store, setup_read, dsb, isb, endptctrl, endptprime,
}
use imxrt_usbd.Cache.Cover.{reg_log}
use imxrt_usbd.Platform.{Platform, UsbField, get}
use imxrt_usbd.Platform.Waits.{polled}
use imxrt_usbd.Endpoint.{Session}
use imxrt_usbd.Endpoint.Transfer.{IsScheduled, primed_log}
use imxrt_usbd.Driver.Registers.{IsKept}

abbrev pub ctrl_number : Reg → Option ℕ
ctrl_number (Reg.endptctrl n) = some n
ctrl_number _ = none

pub ctrl_number_lem : (r : Reg) (k : ℕ) → ctrl_number r ≡ some k → r ≡ endptctrl k
ctrl_number_lem r k e = ground (arith, e)

module _ (p : Platform) (f : UsbField) (k : IsKept p f) (n : ℕ) where
  -- The field as it reads after some accesses.
  abbrev pub value_after : List Access → ℕ
  value_after log = get p f (p.answer log (endptctrl n))

  pub value-rd :
      (r : Reg) (v : ℕ) (log : List Access) → value_after (rd r v ∷ log) ≡ value_after log
  value-rd r v log = k.kept n (rd r v) log (λ x e. cc)

  value-polled :
      (reg : Reg) (log : List Access) (m : ℕ) → value_after (polled p reg log m) ≡ value_after log
  value-polled reg log zero = refl
  value-polled reg log (suc m) =
      value-polled reg (rd reg (p.answer log reg) ∷ log) m ∙ value-rd reg (p.answer log reg) log

  -- Only the accesses of registers matter.
  value-reg_log : (log : List Access) → value_after log ≡ value_after (reg_log log)
  value-reg_log [] = refl
  value-reg_log (rd r v ∷ log) =
      value-rd r v log ∙ value-reg_log log ∙ sym (value-rd r v (reg_log log))
  value-reg_log (wr r v ∷ log) = elim (Option-cases (ctrl_number r)) [
    | inl outside ↦
        let ne : (x : ℕ) → wr r v ≢ wr (endptctrl n) x =
          λ x e. absurd (ground (arith, e, outside)) in
        k.kept n (wr r v) log ne ∙ value-reg_log log ∙ sym (k.kept n (wr r v) (reg_log log) ne)
    | inr (m, is_ctrl) ↦
        let at = ctrl_number_lem r m is_ctrl in
        elim (ℕ_discrete m n) [
          | yes same ↦ rw (at, same) (k.written n v log ∙ sym (k.written n v (reg_log log)))
          | no ne ↦
              let apart : (x : ℕ) → wr r v ≢ wr (endptctrl n) x = λ x e. absurd (ne (cc)) in
              k.kept n (wr r v) log apart
              ∙ value-reg_log log
              ∙ sym (k.kept n (wr r v) (reg_log log) apart)
        ]
  ]
  value-reg_log (dccimvac a m ∷ log) = k.kept n (dccimvac a m) log (λ x e. cc) ∙ value-reg_log log
  value-reg_log (td_store a m ∷ log) = k.kept n (td_store a m) log (λ x e. cc) ∙ value-reg_log log
  value-reg_log (qh_store a m ∷ log) = k.kept n (qh_store a m) log (λ x e. cc) ∙ value-reg_log log
  value-reg_log (setup_read a b ∷ log) =
      k.kept n (setup_read a b) log (λ x e. cc) ∙ value-reg_log log
  value-reg_log (dsb ∷ log) = k.kept n dsb log (λ x e. cc) ∙ value-reg_log log
  value-reg_log (isb ∷ log) = k.kept n isb log (λ x e. cc) ∙ value-reg_log log

  -- Scheduling a transfer leaves it.
  pub value-IsScheduled :
      (size : ℕ) (s s' : Session)
      → IsScheduled p size s s'
      → value_after s'.world.log ≡ value_after s.world.log
  value-IsScheduled size s s' sch = rw (sch.primed) (
      value-polled endptprime (primed_log p s sch.before) (suc sch.reads)
      ∙ k.kept n _ sch.before (λ x e. cc)
      ∙ value-reg_log sch.before
      ∙ subst (λ (l : List Access). value_after l ≡ value_after s.world.log) (sym sch.cleaned_only)
          (sym (value-reg_log s.world.log)))
