-- ===== src/Endpoint/Tests.antt =====
-- Endpoints on the small device: a run of each theorem, its hypotheses met.
use imxrt_usbd.Common.{ℕ, ◌≡◌, refl, arith, true, List, [], ◌∷◌, done, ◌>>=◌}
use imxrt_usbd.Machine.{Access, wr, endptsetupstat}
use imxrt_usbd.Platform.{Platform, err, invalid_state}
use imxrt_usbd.Endpoint.{Session, check_errors, read_setup, set_stalled, is_stalled}
use imxrt_usbd.Endpoint.Control.{is_stalled-set_stalled}
use imxrt_usbd.Endpoint.Status.{check_errors_lem}
use imxrt_usbd.Endpoint.Setup.{read_setup_lem, attempt, attempts, holds, disarmed}
use imxrt_usbd.Manual.{platform, quiet, memory}
use imxrt_usbd.Manual.Device.{world0, ep_out1, td0}

abbrev at_rest : Platform
at_rest = platform quiet 0

-- The registers hold what is written, and the host sent a setup packet.
abbrev storing : Platform
storing = platform memory 0x0100_0680

abbrev out1 : Session
out1 = record { ep = ep_out1; world = world0 }

check_errors_lem_example :
    check_errors at_rest (record ep_out1 { td = record td0 { token = 64 } }) ≡ err invalid_state
check_errors_lem_example =
    check_errors_lem at_rest (record ep_out1 { td = record td0 { token = 64 } })

is_stalled-set_stalled_example :
    (s' : Session) × ((set_stalled storing true >>= λ _. is_stalled storing) out1 ≡ done (true, s'))
    × (s'.ep ≡ ep_out1)
is_stalled-set_stalled_example = is_stalled-set_stalled storing true out1 (omega arith) refl

abbrev cleared : List Access
cleared = wr endptsetupstat 2 ∷ []

read_setup_lem_example :
    (m : ℕ) × (holds storing 0x2000_1080 (attempts storing 0x2000_1080 cleared m) ≡ true)
    × (read_setup storing 1 out1
        ≡ done (
          0x0100_0680,
          record out1 {
            world = record world0 {
              log =
                  disarmed storing 0x2000_1080
                    (attempt storing 0x2000_1080 (attempts storing 0x2000_1080 cleared m));
            };
          },
        ))
read_setup_lem_example = read_setup_lem storing 1 0 out1 (omega arith) (omega arith) refl
