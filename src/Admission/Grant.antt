-- ===== src/Admission/Grant.antt =====
-- `validateGrant` of service_admission.go.
use incom_udon_server.Base.{
  ℕ, ◌+◌, ◌-◌, ◌*◌, List, [], ◌∷◌, ◌++◌, Bool, true, false, not, ◌&&◌, ◌||◌, Option, ltb, leb, ◌==◌,
  if◌then◌else◌, length, any, bytes_eq, bytes_Eq,
}
use incom_udon_server.Base.Assoc.{Map, lookup}
use incom_udon_server.Platform.{Platform, codes, second}
use incom_udon_server.Admission.Types.{
  ℤ, pos, negsuc, ServiceAdmission, Verdict, grant, deny, ◌>>=◌, ◌>>◌, deny_if, or_deny,
  has_permission, identity_permission_listen,
}
use incom_udon_server.Admission.Ticket.{
  TokenHeader, Validity, three_segments, split_dots, strict_base64_url, is_missing_or_zero,
  is_present, or_zero,
}

abbrev pub service_grant_max_bytes : ℕ
service_grant_max_bytes = 768

abbrev pub service_deny_admission_required : ℕ
service_deny_admission_required = 0

abbrev pub service_deny_invalid_grant : ℕ
service_deny_invalid_grant = 1

abbrev pub service_deny_grant_expired : ℕ
service_deny_grant_expired = 2

abbrev pub service_deny_scope_mismatch : ℕ
service_deny_scope_mismatch = 3

abbrev pub service_deny_permission_denied : ℕ
service_deny_permission_denied = 4

abbrev pub service_deny_invalid_proof : ℕ
service_deny_invalid_proof = 5

abbrev pub service_deny_disabled : ℕ
service_deny_disabled = 6

abbrev pub service_deny_revoked : ℕ
service_deny_revoked = 7

pub record GrantClaims : Type 0 where
  pub issuer : List ℕ
  pub audience : List ℕ
  pub service_id : List ℕ
  pub grant_id : List ℕ
  pub issued_at : ℤ
  pub expires_at : ℤ
  pub channel_id : ℕ
  pub sender_id : ℕ
  pub role : List ℕ
  pub permissions : ℕ
  pub priority : Option ℕ
  pub grace_seconds : Option ℕ
  pub jwk_thumbprint : List ℕ

-- encoding/base64 and the strict `decodeStrictServiceJSON` over encoding/json.
pub record GrantCodec : Type 0 where
  pub base64_decode : List ℕ → Option (List ℕ)
  pub base64_encode : List ℕ → List ℕ
  pub json_header : List ℕ → Option TokenHeader
  pub json_claims : List ℕ → Option GrantClaims

abbrev is_between : ℕ → ℕ → ℕ → Bool
is_between lo hi b = leb lo b && leb b hi

abbrev is_alphanumeric : ℕ → Bool
is_alphanumeric b = is_between b'A' b'Z' b || is_between b'a' b'z' b || is_between b'0' b'9' b

abbrev all_bytes : (ℕ → Bool) → List ℕ → Bool
all_bytes p [] = true
all_bytes p (b ∷ bs) = p b && all_bytes p bs

-- `^[A-Za-z0-9][A-Za-z0-9._-]{0,127}$`
unfoldable pub is_managed_service_id : List ℕ → Bool
is_managed_service_id [] = false
is_managed_service_id (b ∷ bs) =
    is_alphanumeric b
    && leb (length bs) 127
    && all_bytes (λ c. is_alphanumeric c || (c == b'.') || (c == b'_') || (c == b'-')) bs

-- `^[A-Za-z0-9_-]{16,128}$`
unfoldable pub is_service_grant_id : List ℕ → Bool
is_service_grant_id bs =
    is_between 16 128 (length bs)
    && all_bytes (λ c. is_alphanumeric c || (c == b'_') || (c == b'-')) bs

unfoldable pub decode_grant :
    Platform → GrantCodec → Map (List ℕ) (List ℕ) → List ℕ → List ℕ → Verdict GrantClaims
unfolding strict_base64_url split_dots
decode_grant p codec keys token public_key = do
  deny_if
      ((length token == 0)
        || ltb service_grant_max_bytes (length token)
        || not (length public_key == 32))
      service_deny_invalid_grant
  deny_if (any (λ b. ltb 0x7f b) token) service_deny_invalid_grant
  segments ← or_deny (three_segments (split_dots [] token)) service_deny_invalid_grant
  header_raw ←
      or_deny (strict_base64_url codec.base64_decode codec.base64_encode segments.header)
        service_deny_invalid_grant
  payload_raw ←
      or_deny (strict_base64_url codec.base64_decode codec.base64_encode segments.payload)
        service_deny_invalid_grant
  signature ←
      or_deny (strict_base64_url codec.base64_decode codec.base64_encode segments.signature)
        service_deny_invalid_grant
  deny_if (not (length signature == 64)) service_deny_invalid_grant
  header ← or_deny (codec.json_header header_raw) service_deny_invalid_grant
  claims ← or_deny (codec.json_claims payload_raw) service_deny_invalid_grant
  issuer_key ← or_deny (lookup header.key_id keys) service_deny_invalid_grant
  deny_if
      (not (bytes_eq header.algorithm (codes "EdDSA"))
        || not (bytes_eq header.token_type (codes "incomudon-service-admission+jwt"))
        || not (length issuer_key == 32)
        || not
            (p.ed25519_verify issuer_key (segments.header ++ (b'.' ∷ segments.payload)) signature))
      service_deny_invalid_grant
  grant claims

-- The times of a grant, in seconds: for one minute to one hour.
unfoldable pub check_grant_times : ℤ → ℤ → ℕ → Verdict Validity
check_grant_times (negsuc n) expires now = deny service_deny_grant_expired
check_grant_times (pos issued) (negsuc n) now = deny service_deny_grant_expired
check_grant_times (pos issued) (pos expires) now =
    if leb expires issued
      || ltb (expires - issued) 60
      || ltb 3600 (expires - issued)
      || not (ltb now (expires * second))
      || ltb (now + 30 * second) (issued * second)
    then deny service_deny_grant_expired
    else grant (record { issued = issued; expires = expires })

abbrev is_role : List ℕ → Bool
is_role role =
    bytes_eq role (codes "recorder")
    || bytes_eq role (codes "observer")
    || bytes_eq role (codes "automation")

-- Permissions, priority, role and grace belong together.
unfoldable pub check_grant_permissions : ℕ → Option ℕ → List ℕ → Option ℕ → Verdict (Unit {0})
check_grant_permissions permissions priority role grace = do
  deny_if
      ((not (permissions == 1) && not (permissions == 3) && not (permissions == 7))
        || not (has_permission permissions identity_permission_listen))
      service_deny_permission_denied
  deny_if ((permissions == 7) && is_missing_or_zero priority) service_deny_permission_denied
  deny_if (not (permissions == 7) && is_present priority) service_deny_permission_denied
  deny_if
      ((bytes_eq role (codes "recorder") || bytes_eq role (codes "observer"))
        && not (permissions == 1))
      service_deny_permission_denied
  deny_if (not (is_role role)) service_deny_permission_denied
  deny_if (ltb 1800 (or_zero grace) || (not (permissions == 1) && not (or_zero grace == 0)))
      service_deny_permission_denied

-- The part of `validateGrant` after the signature.
unfoldable pub check_grant_claims :
    Platform
    → GrantCodec
    → List ℕ
    → List ℕ
    → List ℕ
    → List ℕ
    → ℕ
    → ℕ
    → ℕ
    → GrantClaims
    → Verdict ServiceAdmission
check_grant_claims p codec issuer audience token public_key channel_id sender_id now claims = do
  times ← check_grant_times claims.issued_at claims.expires_at now
  deny_if
      (not (bytes_eq claims.issuer issuer)
        || not (bytes_eq claims.audience audience)
        || not (claims.channel_id == channel_id)
        || not (claims.sender_id == sender_id)
        || (claims.sender_id == 0))
      service_deny_scope_mismatch
  deny_if
      (not (is_managed_service_id claims.service_id) || not (is_service_grant_id claims.grant_id))
      service_deny_invalid_grant
  check_grant_permissions claims.permissions claims.priority claims.role claims.grace_seconds
  deny_if
      ((length claims.jwk_thumbprint == 0)
        || not (bytes_eq claims.jwk_thumbprint (codec.base64_encode (p.sha256 public_key))))
      service_deny_scope_mismatch
  grant (record {
    service_id = claims.service_id;
    role = claims.role;
    permissions = claims.permissions;
    priority = or_zero claims.priority;
    grant_expires = times.expires * second;
    grace = or_zero claims.grace_seconds * second;
    grant_hash = p.sha256 token;
    grant_id_hash = p.sha256 claims.grant_id;
  })

unfoldable pub validate_grant :
    Platform
    → GrantCodec
    → List ℕ
    → List ℕ
    → Map (List ℕ) (List ℕ)
    → List ℕ
    → List ℕ
    → ℕ
    → ℕ
    → ℕ
    → Verdict ServiceAdmission
validate_grant p codec issuer audience keys token public_key channel_id sender_id now = do
  claims ← decode_grant p codec keys token public_key
  check_grant_claims p codec issuer audience token public_key channel_id sender_id now claims
