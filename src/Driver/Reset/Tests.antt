-- ===== src/Driver/Reset/Tests.antt =====
-- A bus reset of the small device, whose control registers hold what is written to them.
use imxrt_usbd.Common.{
  ℕ, ◌≡◌, ◌≢◌, refl, ap, ◌∙◌, arith, List, [], ◌∷◌, Option, none, some, ◌==◌, ==_iff, if◌then◌else◌,
  Option-cases, Bool-cases, inl, inr, done,
}
use imxrt_usbd.Machine.{
  Reg, Access, rd, wr, dccimvac, td_store, qh_store, setup_read, dsb, isb, endptctrl, endptprime,
  endptflush,
}
use imxrt_usbd.Platform.{Platform, UsbField, get, pr}
use imxrt_usbd.Platform.Laws.{get-put_self}
use imxrt_usbd.Platform.Waits.{Settles}
use imxrt_usbd.State.{slot}
use imxrt_usbd.Driver.Lookup.{found}
use imxrt_usbd.Driver.Endpoints.{bus_reset}
use imxrt_usbd.Driver.Returns.Endpoints.{InReset}
use imxrt_usbd.Driver.Reset.{IsDisabled, bus_reset-IsDisabled}
use imxrt_usbd.Driver.Registers.Loop.{logged}
use imxrt_usbd.Driver.Registers.{IsKept, AreKept}
use imxrt_usbd.Manual.{platform, macros}
use imxrt_usbd.Manual.Layout.{layout}
use imxrt_usbd.Manual.Device.{driver0, ep_out1, allocator0-IsValid}

abbrev pub number : Reg → Option ℕ
number (Reg.endptctrl n) = some n
number _ = none

number_lem : (r : Reg) (k : ℕ) → number r ≡ some k → r ≡ endptctrl k
number_lem r k e = ground (arith, e)

-- What was last written to control register `n`.
abbrev pub held : ℕ → List Access → ℕ
held n [] = 0
held n (wr r v ∷ log) = elim (number r) [
  | none ↦ held n log
  | some k ↦ if k == n then v else held n log
]
held n (rd r v ∷ log) = held n log
held n (dccimvac a m ∷ log) = held n log
held n (td_store a ws ∷ log) = held n log
held n (qh_store a ws ∷ log) = held n log
held n (setup_read a b ∷ log) = held n log
held n (dsb ∷ log) = held n log
held n (isb ∷ log) = held n log

-- The port is in reset, and the control registers hold what is written.
abbrev pub resetting : List Access → Reg → ℕ
resetting log (Reg.endptctrl n) = held n log
resetting log Reg.portsc1 = macros.modify (layout pr) 1 0
resetting log _ = 0

abbrev pub device : Platform
device = platform resetting 0

all-IsKept : (f : UsbField) → IsKept device f
all-IsKept f = record {
  written = λ n v log. ap (get device f) (ground (arith, (==_iff n n).1 refl));
  kept = λ n a log ne. ap (get device f) (others n a log ne);
}
  where
    others :
        (n : ℕ) (a : Access) (log : List Access)
        → ((v : ℕ) → a ≢ wr (endptctrl n) v)
        → held n (a ∷ log) ≡ held n log
    others n (wr r v) log ne = elim (Option-cases (number r)) [
      | inl none_of ↦ rw (none_of, held) refl
      | inr (k, is_ctrl) ↦ elim (Bool-cases (k == n)) [
        | inl same ↦ absurd (ne v (cc (number_lem r k is_ctrl, (==_iff k n).0 same)))
        | inr differ ↦ rw (is_ctrl, held, differ) refl
      ]
    ]
    others n (rd r v) log ne = refl
    others n (dccimvac a m) log ne = refl
    others n (td_store a ws) log ne = refl
    others n (qh_store a ws) log ne = refl
    others n (setup_read a b) log ne = refl
    others n dsb log ne = refl
    others n isb log ne = refl

pub keeps : AreKept device
keeps = record { enables = λ ep. all-IsKept _; types = λ ep. all-IsKept _ }

pub primes : Settles device endptprime 1
primes log = (0, omega arith, refl)

flushes : Settles device endptflush 1
flushes log = (0, omega arith, refl)

in_reset : InReset device
in_reset on log = get-put_self device pr 1 0 ∙ refl

found_out : found device 1 driver0 ≡ some ep_out1
unfolding slot
found_out = refl

bus_reset-IsDisabled_example :
    (log : List Access) × (bus_reset device 1 driver0 ≡ done (tt, logged driver0 log))
    × IsDisabled device ep_out1 log
bus_reset-IsDisabled_example =
    bus_reset-IsDisabled device keeps driver0 (allocator0-IsValid resetting 0) 1 1 ep_out1 primes
      flushes in_reset found_out (λ e. omega (arith, e))
