-- ===== src/Admission/Service/History.antt =====
-- The operations of the service admission state as data, and the state after a list of them; each
-- operation runs under the lock, so every interleaving of callers is such a list.
use incom_udon_server.Base.{ℕ, List, [], ◌∷◌, Option}
use incom_udon_server.Platform.{Platform, UdpAddr}
use incom_udon_server.Wire.Types.{ParsedPacket}
use incom_udon_server.Auth.State.{ControlAuthMeta}
use incom_udon_server.Admission.Types.{ServiceAdmission}
use incom_udon_server.Admission.Grant.{GrantCodec}
use incom_udon_server.Admission.Service.{
  ServiceAdmissionState, ServiceAdmissionRevocationTarget, active_deny_rules,
  admission_allowed_for_membership, install_revocation,
}
use incom_udon_server.Admission.Service.Exchange.{
  begin, proof, take_verified_admission, admission_for_join,
}

pub data Operation : Type 0 where
  begins proves takes joins : ParsedPacket → Option UdpAddr → ControlAuthMeta → Operation
  asks : ℕ → ServiceAdmission → Operation
  revokes : ServiceAdmissionRevocationTarget → ℕ → Operation
  lists : Operation

unfoldable pub apply :
    Platform
    → GrantCodec
    → Operation
    → ℕ
    → Option ServiceAdmissionState
    → Option ServiceAdmissionState
apply p codec (begins pkt addr meta) now a = (begin p codec a pkt addr meta now).0
apply p codec (proves pkt addr meta) now a = (proof p a pkt addr meta now).0
apply p codec (takes pkt addr meta) now a = (take_verified_admission a pkt addr meta now).0
apply p codec (joins pkt addr meta) now a = (admission_for_join a pkt addr meta now).0
apply p codec (asks channel_id admission) now a =
    (admission_allowed_for_membership a channel_id admission now).0
apply p codec (revokes target deny_until) now a = (install_revocation a target deny_until now).0
apply p codec lists now a = (active_deny_rules a now).0

-- Each operation with its reading of the clock, the oldest first.
unfoldable pub run :
    Platform
    → GrantCodec
    → List (Operation × ℕ)
    → Option ServiceAdmissionState
    → Option ServiceAdmissionState
run p codec [] a = a
run p codec ((op, now) ∷ rest) a = run p codec rest (apply p codec op now a)
