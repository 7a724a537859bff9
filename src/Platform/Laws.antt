-- ===== src/Platform/Laws.antt =====
-- Fields of the registers of the USB core, read and set.
use imxrt_usbd.Common.{ℕ, ◌%◌, ◌^◌, ◌<◌, ◌≡◌, ◌≢◌, ◌∙◌, arith, Bool, if◌then◌else◌, List, ◌∷◌}
use imxrt_usbd.Ral.Fields.{read-modify_self, read-modify_other, read-lt, read-zero}
use imxrt_usbd.Machine.{Reg, Access, rd, wr}
use imxrt_usbd.Platform.{Platform, UsbField, home, width, get, put}

module _ (p : Platform) where
  pub get-put_self : (f : UsbField) (x v : ℕ) → get p f (put p f x v) ≡ x % 2 ^ width f
  get-put_self f x v = read-modify_self p.ral (p.layout-IsField f) x v

  pub get-put_other :
      (f g : UsbField) (x v : ℕ) → home f ≡ home g → f ≢ g → get p g (put p f x v) ≡ get p g v
  get-put_other f g x v same ne =
      read-modify_other p.ral (p.layout-IsField f) (p.layout-IsField g)
        (p.layout-AreDisjoint f g same ne) x v

  pub get-lt : (f : UsbField) (v : ℕ) → get p f v < 2 ^ width f
  get-lt f v = read-lt p.ral (p.layout-IsField f) v

  flag-below : (on : Bool) → (if on then 1 else 0) % 2 ^ 1 ≡ (if on then 1 else 0)
  flag-below on = ground arith

  -- A field of one bit.
  pub get-put_flag :
      (f : UsbField) (on : Bool) (v : ℕ)
      → width f ≡ 1
      → get p f (put p f (if on then 1 else 0) v) ≡ (if on then 1 else 0)
  get-put_flag f on v e = get-put_self f (if on then 1 else 0) v ∙ rw e (flag-below on)

  -- A write of one field writes zero to the others.
  pub get-put_zero : (f g : UsbField) (x : ℕ) → home f ≡ home g → f ≢ g → get p g (put p f x 0) ≡ 0
  get-put_zero f g x same ne = get-put_other f g x 0 same ne ∙ read-zero p.ral (p.layout g)

  -- When after some accesses the field of a register is set, by a read and a write, then the field
  -- reads as written right after that; the rest of the register may read as anything.
  abbrev pub ReadsBack : Reg → UsbField → ℕ → List Access → Type 0
  ReadsBack reg f x log =
      let v = p.answer log reg in
      get p f (p.answer (wr reg (put p f x v) ∷ rd reg v ∷ log) reg) ≡ get p f (put p f x v)
