-- ===== src/Examples/Admission.antt =====
-- Runs of the admission of endpoints.
use incom_udon_server.Base.{
  ℕ, ◌*◌, ◌<◌, ◌≡◌, ◌≢◌, refl, arith, List, [], ◌∷◌, ◌++◌, true, false, none, some, replicate,
  bytes_Eq,
}
use incom_udon_server.Base.Assoc.{Map, lookup, delete, keep, insert}
use incom_udon_server.Platform.{peer_map_key, second, codes}
use incom_udon_server.Admission.Types.{
  pos, grant, IdentityAdmission, ServiceAdmission, admission_key_of, admission_key_Eq,
  grant_current,
}
use incom_udon_server.Admission.Ticket.{
  TicketCodec, validate_ticket, decode_ticket, check_ticket_claims, check_ticket_times,
  check_ticket_permissions, strict_base64_url, split_dots,
}
use incom_udon_server.Admission.Grant.{
  GrantCodec, GrantClaims, validate_grant, decode_grant, check_grant_claims, check_grant_times,
  check_grant_permissions, is_managed_service_id, is_service_grant_id,
}
use incom_udon_server.Admission.Sound.{
  IsTicketed, IsServed, validate_ticket_sound, validate_grant_sound,
}
use incom_udon_server.Admission.Identity.{
  IdentityAdmissionMode, IdentityAdmissionState, IdentityPendingAdmission, cleanup, allowed, proof,
  check_proof, admission_for_join, current_verified,
}
use incom_udon_server.Admission.Joins.{admission_for_join_required, proof_sound}
use incom_udon_server.Admission.Identity.History as History
use incom_udon_server.Admission.Identity.Once.{admission_for_join_once}
use incom_udon_server.Admission.Service.{
  ServiceAdmissionState, ServiceAdmissionRevocationTarget, install_revocation, evict, deny_rule,
  target_matches, deny_rule_Eq, admission_allowed_for_membership,
}
use incom_udon_server.Admission.Service as Service
use incom_udon_server.Admission.Service.History.{Operation, joins, lists, run}
use incom_udon_server.Admission.Service.Revocation.{install_revocation_binding}
use incom_udon_server.Admission.Service.Bounds.{IsBoundedState, run-IsBounded}
use incom_udon_server.Examples.World.{small_world, digest, phone, packet, session}

-- `h.p.` and sixty-four bytes.
abbrev token : List ℕ
token = b'h' ∷ (b'.' ∷ (b'p' ∷ (b'.' ∷ replicate 64 b's')))

abbrev holder : List ℕ
holder = replicate 32 5

abbrev keys : Map (List ℕ) (List ℕ)
keys = (codes "k", replicate 32 6) ∷ []

abbrev pub ticket_codec : TicketCodec
ticket_codec = record {
  base64_decode = some;
  base64_encode = λ bytes. bytes;
  json_header = λ bytes. some (record {
    algorithm = codes "EdDSA";
    key_id = codes "k";
    token_type = codes "incomudon-admission+jwt";
  });
  json_claims = λ bytes. some (record {
    issuer = codes "i";
    audience = codes "a";
    subject = codes "s";
    ticket_id = codes "t";
    issued_at = pos 1000;
    expires_at = pos 1200;
    channel_id = 10;
    sender_id = 7;
    permissions = 7;
    priority = some 4;
    jwk_thumbprint = digest holder;
  });
}

abbrev ticketed : IdentityAdmission
ticketed = record {
  permissions = 7;
  priority = 4;
  expires_at = 1200 * second;
  ticket_hash = digest token;
  actor_id_hash = codes "s" ++ replicate 15 0;
}

validate_ticket_sound_example : IsTicketed small_world token (1100 * second) ticketed
unfolding validate_ticket decode_ticket check_ticket_claims check_ticket_times
    check_ticket_permissions strict_base64_url split_dots lookup
validate_ticket_sound_example =
    validate_ticket_sound small_world ticket_codec (codes "i") (codes "a") keys token holder 10 7
      (1100 * second) ticketed refl

abbrev pub grant_codec : GrantCodec
grant_codec = record {
  base64_decode = some;
  base64_encode = λ bytes. bytes;
  json_header = λ bytes. some (record {
    algorithm = codes "EdDSA";
    key_id = codes "k";
    token_type = codes "incomudon-service-admission+jwt";
  });
  json_claims = λ bytes. some (record {
    issuer = codes "i";
    audience = codes "a";
    service_id = codes "recorder-1";
    grant_id = replicate 16 b'g';
    issued_at = pos 1000;
    expires_at = pos 1200;
    channel_id = 10;
    sender_id = 7;
    role = codes "recorder";
    permissions = 1;
    priority = none;
    grace_seconds = some 60;
    jwk_thumbprint = digest holder;
  });
}

abbrev pub served : ServiceAdmission
served = record {
  service_id = codes "recorder-1";
  role = codes "recorder";
  permissions = 1;
  priority = 0;
  grant_expires = 1200 * second;
  grace = 60 * second;
  grant_hash = digest token;
  grant_id_hash = digest (replicate 16 b'g');
}

validate_grant_sound_example :
    (claims : GrantClaims) × (decode_grant small_world grant_codec keys token holder ≡ grant claims)
    × IsServed small_world token (1100 * second) claims served
unfolding validate_grant decode_grant check_grant_claims check_grant_times check_grant_permissions
    is_managed_service_id is_service_grant_id strict_base64_url split_dots lookup
validate_grant_sound_example =
    validate_grant_sound small_world grant_codec (codes "i") (codes "a") keys token holder 10 7
      (1100 * second) served refl

-- One admission waits for its JOIN, and one for its proof.
abbrev identities : IdentityAdmissionState
identities = record {
  mode = IdentityAdmissionMode.required;
  issuer = codes "i";
  audience = codes "a";
  keys = keys;
  pending = [];
  verified = (admission_key_of (packet []) (some phone) 3, ticketed) ∷ [];
  failed = [];
  draws = 0;
}

admission_for_join_required_example :
    (admission_for_join (some identities) (packet []) none session 8).1 ≢ allowed none
admission_for_join_required_example =
    admission_for_join_required identities (packet []) none session 8 refl

-- Another endpoint asks, and the same one comes back with a proof that fails.
abbrev asking : List (History.Operation × ℕ)
asking =
    (History.joins (packet []) none session, 1101 * second)
    ∷ ((History.proves (packet (replicate 64 0)) (some phone) session, 1102 * second)
        ∷ ((History.takes (packet []) (some phone) session, 1103 * second) ∷ []))

admission_for_join_once_example :
    (1100 * second < 1200 * second)
    × ((admission_for_join
          (History.run small_world ticket_codec asking (some (record identities { verified = [] })))
          (packet [])
          (some phone)
          session
          (1104 * second)).1
        ≢ allowed (some ticketed))
unfolding admission_for_join current_verified cleanup keep delete lookup peer_map_key
    History.is_proved History.is_proof History.apply proof check_proof
admission_for_join_once_example =
    admission_for_join_once small_world ticket_codec identities
      (record identities { verified = [] }) (packet []) (packet []) (some phone) (some phone)
      session session (1100 * second) (1104 * second) ticketed ticketed asking refl refl refl

abbrev waiting : IdentityPendingAdmission
waiting = record {
  admission = ticketed;
  public_key = holder;
  challenge = replicate 32 7;
  expires_at = 1130 * second;
}

abbrev proving : IdentityAdmissionState
proving = record identities {
  pending = (admission_key_of (packet []) (some phone) 3, waiting) ∷ [];
  verified = [];
}

proof_sound_example :
    (pending : IdentityPendingAdmission) × ((lookup
          (admission_key_of (packet (replicate 64 0)) (some phone) 3)
          (cleanup proving (1100 * second)).pending
        ≡ some pending)
      × ((1100 * second < pending.expires_at)
          × ((true ≡ true)
              × ((lookup
                      (admission_key_of (packet (replicate 64 0)) (some phone) 3)
                      (record proving {
                        pending = [];
                        verified = (admission_key_of (packet []) (some phone) 3, ticketed) ∷ [];
                      }).pending
                    ≡ none)
                  × (lookup
                        (admission_key_of (packet (replicate 64 0)) (some phone) 3)
                        (record proving {
                          pending = [];
                          verified = (admission_key_of (packet []) (some phone) 3, ticketed) ∷ [];
                        }).verified
                      ≡ some pending.admission)))))
unfolding proof check_proof cleanup keep delete insert lookup peer_map_key
proof_sound_example =
    proof_sound small_world proving
      (record proving {
        pending = [];
        verified = (admission_key_of (packet []) (some phone) 3, ticketed) ∷ [];
      })
      (packet (replicate 64 0)) (some phone) session (1100 * second) refl

abbrev pub services : ServiceAdmissionState
services = record {
  issuer = codes "i";
  audience = codes "a";
  keys = keys;
  pending = [];
  verified = (admission_key_of (packet []) (some phone) 3, served) ∷ [];
  failed = [];
  denied = [];
  draws = 0;
}

abbrev pub revoked : ServiceAdmissionRevocationTarget
revoked = record { channel_id = 10; service_id = codes "recorder-1"; grant_id_hash = none }

abbrev after_revocation : ServiceAdmissionState
after_revocation = record services {
  verified = [];
  denied = (deny_rule revoked, 1190 * second) ∷ [];
}

-- The service joins again, and the rules are listed, before the membership is asked for.
abbrev meanwhile : List (Operation × ℕ)
meanwhile = (joins (packet []) (some phone) session, 1101 * second) ∷ ((lists, 1102 * second) ∷ [])

install_revocation_binding_example :
    (admission_allowed_for_membership
      (run small_world grant_codec meanwhile (some after_revocation))
      10
      served
      (1103 * second)).1
    ≡ false
unfolding install_revocation evict deny_rule target_matches Service.cleanup keep insert lookup
    grant_current
install_revocation_binding_example =
    install_revocation_binding small_world grant_codec services after_revocation revoked
      (1190 * second) (1100 * second) refl meanwhile 10 served (1103 * second)
      (omega arith, (omega arith, tt)) (omega arith) refl

run-IsBounded_example :
    IsBoundedState (run small_world grant_codec meanwhile (some after_revocation))
run-IsBounded_example =
    run-IsBounded small_world grant_codec meanwhile (some after_revocation)
      (omega arith, omega arith)
