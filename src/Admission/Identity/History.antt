-- ===== src/Admission/Identity/History.antt =====
-- The operations of the identity admission state as data, and the state after a list of them; each
-- operation runs under the lock, so every interleaving of callers is such a list.
use incom_udon_server.Base.{ℕ, List, [], ◌∷◌, Bool, false, ◌&&◌, ◌||◌, ◌==◌, Option}
use incom_udon_server.Platform.{Platform, UdpAddr}
use incom_udon_server.Wire.Types.{ParsedPacket}
use incom_udon_server.Auth.State.{ControlAuthMeta}
use incom_udon_server.Admission.Types.{AdmissionKey, admission_key_eq, admission_key_of}
use incom_udon_server.Admission.Ticket.{TicketCodec}
use incom_udon_server.Admission.Identity.{
  IdentityAdmissionState, begin, proof, take_verified_admission, admission_for_join,
}

pub data Operation : Type 0 where
  begins proves takes joins : ParsedPacket → Option UdpAddr → ControlAuthMeta → Operation

unfoldable pub apply :
    Platform
    → TicketCodec
    → Operation
    → ℕ
    → Option IdentityAdmissionState
    → Option IdentityAdmissionState
apply p codec (begins pkt addr meta) now a = (begin p codec a pkt addr meta now).0
apply p codec (proves pkt addr meta) now a = (proof p a pkt addr meta now).0
apply p codec (takes pkt addr meta) now a = (take_verified_admission a pkt addr meta now).0
apply p codec (joins pkt addr meta) now a = (admission_for_join a pkt addr meta now).0

-- Each operation with its reading of the clock, the oldest first.
unfoldable pub run :
    Platform
    → TicketCodec
    → List (Operation × ℕ)
    → Option IdentityAdmissionState
    → Option IdentityAdmissionState
run p codec [] a = a
run p codec ((op, now) ∷ rest) a = run p codec rest (apply p codec op now a)

-- The operation is a proof under the key that succeeds.
unfoldable pub is_proof :
    Platform → AdmissionKey → Operation → ℕ → Option IdentityAdmissionState → Bool
is_proof p k (begins pkt addr meta) now a = false
is_proof p k (proves pkt addr meta) now a =
    admission_key_eq (admission_key_of pkt addr meta.session_id) k
    && ((proof p a pkt addr meta now).1 == 0)
is_proof p k (takes pkt addr meta) now a = false
is_proof p k (joins pkt addr meta) now a = false

-- One of the operations is.
unfoldable pub is_proved :
    Platform
    → TicketCodec
    → AdmissionKey
    → List (Operation × ℕ)
    → Option IdentityAdmissionState
    → Bool
is_proved p codec k [] a = false
is_proved p codec k ((op, now) ∷ rest) a =
    is_proof p k op now a || is_proved p codec k rest (apply p codec op now a)
