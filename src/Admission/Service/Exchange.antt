-- ===== src/Admission/Service/Exchange.antt =====
-- The exchange of a service: `begin`, `serviceProofMessage`, `proof`, `takeVerifiedAdmission` and
-- `admissionForJoin` of service_admission.go.
use Prim.Native.Nat.{min}
use incom_udon_server.Base.{
  ℕ, ◌+◌, ◌*◌, ◌/◌, ◌%◌, ◌^◌, List, ◌∷◌, ◌++◌, not, ◌&&◌, ◌||◌, Option, none, some, ltb, leb, ◌==◌,
  if◌then◌else◌, length, slice, drop, take,
}
use incom_udon_server.Base.Assoc.{lookup, insert, delete}
use incom_udon_server.Platform.{Platform, UdpAddr, codes, second}
use incom_udon_server.Wire.{put32, be16}
use incom_udon_server.Wire.Types.{ParsedPacket}
use incom_udon_server.Auth.State.{ControlAuthMeta}
use incom_udon_server.Admission.Types.{
  AdmissionKey, admission_key_Eq, admission_key_of, ServiceAdmission, Verdict, grant, deny,
  grant_current,
}
use incom_udon_server.Admission.Identity.{Answer, challenge, denied, JoinVerdict, allowed, rejected}
use incom_udon_server.Admission.Grant.{
  GrantCodec, validate_grant, service_grant_max_bytes, service_deny_disabled,
  service_deny_invalid_grant, service_deny_invalid_proof, service_deny_revoked,
}
use incom_udon_server.Admission.Service.{ServiceAdmissionState, cleanup, is_denied}

abbrev service_challenge_ttl : ℕ
service_challenge_ttl = 30 * second

abbrev pub max_pending_service_admissions : ℕ
max_pending_service_admissions = 1024

unfoldable pub note_failure : ServiceAdmissionState → AdmissionKey → ℕ → ℕ → ServiceAdmissionState
note_failure a k reason now = record a {
  failed = insert k (record { reason = reason; expires_at = now + service_challenge_ttl }) a.failed;
}

-- The part of `begin` under the lock, after the sweep.
unfoldable pub begin_validated :
    Platform
    → ServiceAdmissionState
    → AdmissionKey
    → List ℕ
    → Verdict ServiceAdmission
    → ℕ
    → ServiceAdmissionState × Answer
begin_validated p a k public_key (deny reason) now = (note_failure a k reason now, denied reason)
begin_validated p a k public_key (grant admission) now =
    let drawn = record a { draws = a.draws + 1 } in
    let expiry = min (now + service_challenge_ttl) admission.grant_expires in
    if is_denied a.denied k.channel_id admission
    then (note_failure a k service_deny_revoked now, denied service_deny_revoked)
    else if leb max_pending_service_admissions (length a.pending)
    then (note_failure a k service_deny_invalid_grant now, denied service_deny_invalid_grant)
    else elim (p.random_challenge a.draws) [
      | none ↦ (drawn, denied service_deny_invalid_grant)
      | some value ↦ (
        record drawn {
          pending =
              insert k
                (record {
                  admission = admission;
                  public_key = public_key;
                  challenge = value;
                  expires_at = expiry;
                })
                a.pending;
          failed = delete k a.failed;
        },
        challenge (put32 (expiry / second % 2 ^ 32) ++ value),
      )
    ]

-- A length field, the grant, and a 32-byte public key.
unfoldable pub begin :
    Platform
    → GrantCodec
    → Option ServiceAdmissionState
    → ParsedPacket
    → Option UdpAddr
    → ControlAuthMeta
    → ℕ
    → Option ServiceAdmissionState × Answer
begin p codec none pkt addr meta now = (none, denied service_deny_disabled)
begin p codec (some a) pkt addr meta now =
    let grant_length = be16 (take 2 pkt.payload) in
    let token = slice 2 (2 + grant_length) pkt.payload in
    let public_key = drop (2 + grant_length) pkt.payload in
    let verdict =
      validate_grant p codec a.issuer a.audience a.keys token public_key pkt.header.channel_id
        pkt.header.sender_id now in
    let k = admission_key_of pkt addr meta.session_id in
    let (a', answer) = begin_validated p (cleanup a now) k public_key verdict now in
    if ltb (length pkt.payload) 34
    then (some a, denied service_deny_disabled)
    else if ltb grant_length 1
        || ltb service_grant_max_bytes grant_length
        || not (length pkt.payload == 2 + grant_length + 32)
    then (some a, denied service_deny_invalid_grant)
    else (some a', answer)

unfoldable pub service_proof_message : Platform → List ℕ → ℕ → ℕ → List ℕ → List ℕ
service_proof_message p challenge_value channel_id sender_id grant_hash = p.sha256 (
    codes "incomudon-managed-service-admission-v1"
    ++ (0 ∷ (challenge_value ++ (put32 channel_id ++ (put32 sender_id ++ grant_hash)))))

-- The part of `proof` under the lock, after the sweep; reason 0 is success.
unfoldable pub check_proof :
    Platform → ServiceAdmissionState → AdmissionKey → List ℕ → ℕ → ServiceAdmissionState × ℕ
check_proof p a k signature now = elim (lookup k a.pending) [
  | none ↦ (note_failure a k service_deny_invalid_proof now, service_deny_invalid_proof)
  | some pending ↦
      let message =
        service_proof_message p pending.challenge k.channel_id k.sender_id
          pending.admission.grant_hash in
      let rest = record a { pending = delete k a.pending } in
      if not (ltb now pending.expires_at)
      then (note_failure a k service_deny_invalid_proof now, service_deny_invalid_proof)
      else if is_denied a.denied k.channel_id pending.admission
      then (note_failure rest k service_deny_revoked now, service_deny_revoked)
      else if not (p.ed25519_verify pending.public_key message signature)
      then (note_failure rest k service_deny_invalid_proof now, service_deny_invalid_proof)
      else (
        record rest {
          failed = delete k a.failed;
          verified = insert k pending.admission a.verified;
        },
        0,
      )
]

unfoldable pub proof :
    Platform
    → Option ServiceAdmissionState
    → ParsedPacket
    → Option UdpAddr
    → ControlAuthMeta
    → ℕ
    → Option ServiceAdmissionState × ℕ
proof p none pkt addr meta now = (none, service_deny_invalid_proof)
proof p (some a) pkt addr meta now =
    let (a', reason) =
      check_proof p (cleanup a now) (admission_key_of pkt addr meta.session_id) pkt.payload now in
    if not (length pkt.payload == 64)
    then (some a, service_deny_invalid_proof)
    else (some a', reason)

-- The verified admission under a key, when its grant is current and no rule denies it.
unfoldable pub current_verified : ServiceAdmissionState → AdmissionKey → ℕ → Option ServiceAdmission
current_verified a k now = elim (lookup k a.verified) [
  | none ↦ none
  | some admission ↦
      if grant_current admission now && not (is_denied a.denied k.channel_id admission)
      then some admission
      else none
]

abbrev take_key : ServiceAdmissionState → AdmissionKey → ServiceAdmissionState
take_key a k = record a { verified = delete k a.verified }

unfoldable pub take_verified_admission :
    Option ServiceAdmissionState
    → ParsedPacket
    → Option UdpAddr
    → ControlAuthMeta
    → ℕ
    → Option ServiceAdmissionState × Option ServiceAdmission
take_verified_admission none pkt addr meta now = (none, none)
take_verified_admission (some a) pkt addr meta now =
    let k = admission_key_of pkt addr meta.session_id in
    let clean = cleanup a now in (some (take_key clean k), current_verified clean k now)

unfoldable pub join_without_admission :
    ServiceAdmissionState → AdmissionKey → JoinVerdict ServiceAdmission
join_without_admission a k = elim (lookup k a.failed) [
  | some failure ↦ rejected failure.reason
  | none ↦ elim (lookup k a.pending) [
    | some pending ↦ rejected service_deny_invalid_proof
    | none ↦ allowed none
  ]
]

unfoldable pub admission_for_join :
    Option ServiceAdmissionState
    → ParsedPacket
    → Option UdpAddr
    → ControlAuthMeta
    → ℕ
    → Option ServiceAdmissionState × JoinVerdict ServiceAdmission
admission_for_join none pkt addr meta now = (none, allowed none)
admission_for_join (some a) pkt addr meta now =
    let k = admission_key_of pkt addr meta.session_id in
    let clean = cleanup a now in
    elim (current_verified clean k now) [
      | none ↦ (some clean, join_without_admission clean k)
      | some admission ↦ (some (take_key clean k), allowed (some admission))
    ]
