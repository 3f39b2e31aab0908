-- ===== src/Admission/Identity.antt =====
-- The identity admission state: `begin`, `proof`, `takeVerifiedAdmission` and `admissionForJoin` of
-- identity_admission.go. A nil state is `none`.
use Prim.Native.Nat.{min}
use incom_udon_server.Base.{
  ℕ, ◌+◌, ◌*◌, ◌/◌, ◌%◌, ◌^◌, List, ◌∷◌, ◌++◌, Bool, true, false, not, ◌||◌, Option, none, some,
  ltb, leb, ◌==◌, if◌then◌else◌, length, slice, drop, take,
}
use incom_udon_server.Base.Assoc.{Map, keep, lookup, insert, delete}
use incom_udon_server.Platform.{Platform, UdpAddr, codes, second}
use incom_udon_server.Wire.{put32, be16}
use incom_udon_server.Wire.Types.{ParsedPacket}
use incom_udon_server.Auth.State.{ControlAuthMeta}
use incom_udon_server.Admission.Types.{
  AdmissionKey, admission_key_Eq, admission_key_of, IdentityAdmission, AdmissionFailure, Verdict,
  grant, deny,
}
use incom_udon_server.Admission.Ticket.{
  TicketCodec, validate_ticket, identity_ticket_max_bytes, identity_deny_admission_required,
  identity_deny_invalid_ticket, identity_deny_invalid_proof,
}
pub mod History
pub mod Once

pub data IdentityAdmissionMode : Type 0 where
  optional required : IdentityAdmissionMode

pub record IdentityPendingAdmission : Type 0 where
  pub admission : IdentityAdmission
  pub public_key : List ℕ
  pub challenge : List ℕ
  pub expires_at : ℕ

-- `draws` counts the readings of the random source.
pub record IdentityAdmissionState : Type 0 where
  pub mode : IdentityAdmissionMode
  pub issuer : List ℕ
  pub audience : List ℕ
  pub keys : Map (List ℕ) (List ℕ)
  pub pending : Map AdmissionKey IdentityPendingAdmission
  pub verified : Map AdmissionKey IdentityAdmission
  pub failed : Map AdmissionKey AdmissionFailure
  pub draws : ℕ

abbrev pub identity_challenge_ttl : ℕ
identity_challenge_ttl = 30 * second

abbrev pub max_pending_identity_admissions : ℕ
max_pending_identity_admissions = 1024

unfoldable pub cleanup : IdentityAdmissionState → ℕ → IdentityAdmissionState
cleanup a now = record a {
  pending = keep (λ k (v : IdentityPendingAdmission). ltb now v.expires_at) a.pending;
  verified = keep (λ k (v : IdentityAdmission). ltb now v.expires_at) a.verified;
  failed = keep (λ k (v : AdmissionFailure). ltb now v.expires_at) a.failed;
}

-- A challenge goes out, or the packet is denied with a reason.
pub data Answer : Type 0 where
  challenge : List ℕ → Answer
  denied : ℕ → Answer

unfoldable pub note_failure : IdentityAdmissionState → AdmissionKey → ℕ → ℕ → IdentityAdmissionState
note_failure a k reason now = record a {
  failed =
      insert k (record { reason = reason; expires_at = now + identity_challenge_ttl }) a.failed;
}

unfoldable pub begin_validated :
    Platform
    → IdentityAdmissionState
    → AdmissionKey
    → List ℕ
    → Verdict IdentityAdmission
    → ℕ
    → IdentityAdmissionState × Answer
unfolding note_failure
begin_validated p a k public_key (deny reason) now = (note_failure a k reason now, denied reason)
begin_validated p a k public_key (grant admission) now =
    let drawn = record a { draws = a.draws + 1 } in
    let expiry = min (now + identity_challenge_ttl) admission.expires_at in
    if leb max_pending_identity_admissions (length a.pending)
    then (note_failure a k identity_deny_invalid_ticket now, denied identity_deny_invalid_ticket)
    else elim (p.random_challenge a.draws) [
      | none ↦ (drawn, denied identity_deny_invalid_ticket)
      | some value ↦ (
        record drawn {
          pending =
              insert k
                (record {
                  admission = admission;
                  public_key = public_key;
                  challenge = value;
                  expires_at = expiry;
                })
                a.pending;
          failed = delete k a.failed;
        },
        challenge (put32 (expiry / second % 2 ^ 32) ++ value),
      )
    ]

-- A length field, the ticket, and a 32-byte public key.
unfoldable pub begin :
    Platform
    → TicketCodec
    → Option IdentityAdmissionState
    → ParsedPacket
    → Option UdpAddr
    → ControlAuthMeta
    → ℕ
    → Option IdentityAdmissionState × Answer
begin p codec none pkt addr meta now = (none, denied identity_deny_invalid_ticket)
begin p codec (some a) pkt addr meta now =
    let ticket_length = be16 (take 2 pkt.payload) in
    let ticket = slice 2 (2 + ticket_length) pkt.payload in
    let public_key = drop (2 + ticket_length) pkt.payload in
    let verdict =
      validate_ticket p codec a.issuer a.audience a.keys ticket public_key pkt.header.channel_id
        pkt.header.sender_id now in
    let k = admission_key_of pkt addr meta.session_id in
    let (a', answer) = begin_validated p (cleanup a now) k public_key verdict now in
    if ltb (length pkt.payload) 34
    then (some a, denied identity_deny_invalid_ticket)
    else if ltb ticket_length 1
        || ltb identity_ticket_max_bytes ticket_length
        || not (length pkt.payload == 2 + ticket_length + 32)
    then (some a, denied identity_deny_invalid_ticket)
    else (some a', answer)

unfoldable pub identity_proof_message : Platform → List ℕ → ℕ → ℕ → List ℕ → List ℕ
identity_proof_message p challenge_value channel_id sender_id ticket_hash = p.sha256 (
    codes "incomudon-identity-admission-v1"
    ++ (0 ∷ (challenge_value ++ (put32 channel_id ++ (put32 sender_id ++ ticket_hash)))))

-- The part under the lock, after the sweep; reason 0 is success.
unfoldable pub check_proof :
    Platform → IdentityAdmissionState → AdmissionKey → List ℕ → ℕ → IdentityAdmissionState × ℕ
unfolding note_failure
check_proof p a k signature now = elim (lookup k a.pending) [
  | none ↦ (note_failure a k identity_deny_invalid_proof now, identity_deny_invalid_proof)
  | some pending ↦
      let message =
        identity_proof_message p pending.challenge k.channel_id k.sender_id
          pending.admission.ticket_hash in
      let rest = record a { pending = delete k a.pending } in
      if not (ltb now pending.expires_at)
      then (note_failure a k identity_deny_invalid_proof now, identity_deny_invalid_proof)
      else if not (p.ed25519_verify pending.public_key message signature)
      then (note_failure rest k identity_deny_invalid_proof now, identity_deny_invalid_proof)
      else (
        record rest {
          failed = delete k a.failed;
          verified = insert k pending.admission a.verified;
        },
        0,
      )
]

unfoldable pub proof :
    Platform
    → Option IdentityAdmissionState
    → ParsedPacket
    → Option UdpAddr
    → ControlAuthMeta
    → ℕ
    → Option IdentityAdmissionState × ℕ
proof p none pkt addr meta now = (none, identity_deny_invalid_proof)
proof p (some a) pkt addr meta now =
    let (a', reason) =
      check_proof p (cleanup a now) (admission_key_of pkt addr meta.session_id) pkt.payload now in
    if not (length pkt.payload == 64)
    then (some a, identity_deny_invalid_proof)
    else (some a', reason)

-- The current verified admission under a key.
unfoldable pub current_verified :
    IdentityAdmissionState → AdmissionKey → ℕ → Option IdentityAdmission
current_verified a k now = elim (lookup k a.verified) [
  | none ↦ none
  | some admission ↦ if ltb now admission.expires_at then some admission else none
]

unfoldable pub take_verified_admission :
    Option IdentityAdmissionState
    → ParsedPacket
    → Option UdpAddr
    → ControlAuthMeta
    → ℕ
    → Option IdentityAdmissionState × Option IdentityAdmission
unfolding current_verified
take_verified_admission none pkt addr meta now = (none, none)
take_verified_admission (some a) pkt addr meta now =
    let k = admission_key_of pkt addr meta.session_id in
    let clean = cleanup a now in
    elim (current_verified clean k now) [
      | none ↦ (some clean, none)
      | some admission ↦
          (some (record clean { verified = delete k clean.verified }), some admission)
    ]

-- Whether the JOIN may go on, with the admission that it used up, if any.
pub data JoinVerdict {ℓ} (A : Type ℓ) : Type ℓ where
  allowed : Option A → JoinVerdict A
  rejected : ℕ → JoinVerdict A

abbrev pub is_required_mode : IdentityAdmissionMode → Bool
is_required_mode optional = false
is_required_mode required = true

unfoldable pub join_without_admission :
    IdentityAdmissionState → AdmissionKey → JoinVerdict IdentityAdmission
join_without_admission a k = elim (lookup k a.failed) [
  | some failure ↦ rejected failure.reason
  | none ↦ elim (lookup k a.pending) [
    | some pending ↦ rejected identity_deny_invalid_proof
    | none ↦
        if is_required_mode a.mode then rejected identity_deny_admission_required else allowed none
  ]
]

unfoldable pub admission_for_join :
    Option IdentityAdmissionState
    → ParsedPacket
    → Option UdpAddr
    → ControlAuthMeta
    → ℕ
    → Option IdentityAdmissionState × JoinVerdict IdentityAdmission
unfolding current_verified join_without_admission
admission_for_join none pkt addr meta now = (none, allowed none)
admission_for_join (some a) pkt addr meta now =
    let k = admission_key_of pkt addr meta.session_id in
    let clean = cleanup a now in
    elim (current_verified clean k now) [
      | none ↦ (some clean, join_without_admission clean k)
      | some admission ↦
          (some (record clean { verified = delete k clean.verified }), allowed (some admission))
    ]

-- `isRequired` and `isEnabled`.
unfoldable pub is_required : Option IdentityAdmissionState → Bool
is_required none = false
is_required (some a) = is_required_mode a.mode

unfoldable pub is_enabled : Option IdentityAdmissionState → Bool
is_enabled none = false
is_enabled (some a) = true
