-- ===== src/Admission/Ticket.antt =====
-- `validateTicket` of identity_admission.go, with the decoding of its segments.
use incom_udon_server.Base.{
  ℕ, ◌+◌, ◌-◌, ◌*◌, List, [], ◌∷◌, ◌++◌, Bool, true, false, not, ◌&&◌, ◌||◌, Option, none, some,
  ltb, leb, ◌==◌, if◌then◌else◌, length, take, any, bytes_eq, bit_and,
}
use incom_udon_server.Base.Assoc.{Map, lookup}
use incom_udon_server.Base.{bytes_Eq}
use incom_udon_server.Platform.{Platform, codes, second}
use incom_udon_server.Admission.Types.{
  ℤ, pos, negsuc, IdentityAdmission, Verdict, grant, deny, ◌>>=◌, ◌>>◌, deny_if, or_deny,
  has_permission, identity_permission_listen, identity_permission_talk,
  identity_permission_interrupt,
}

abbrev pub identity_ticket_max_bytes : ℕ
identity_ticket_max_bytes = 768

abbrev pub identity_deny_admission_required : ℕ
identity_deny_admission_required = 0

abbrev pub identity_deny_invalid_ticket : ℕ
identity_deny_invalid_ticket = 1

abbrev pub identity_deny_ticket_expired : ℕ
identity_deny_ticket_expired = 2

abbrev pub identity_deny_scope_mismatch : ℕ
identity_deny_scope_mismatch = 3

abbrev pub identity_deny_permission_denied : ℕ
identity_deny_permission_denied = 4

abbrev pub identity_deny_invalid_proof : ℕ
identity_deny_invalid_proof = 5

pub record TokenHeader : Type 0 where
  pub algorithm : List ℕ
  pub key_id : List ℕ
  pub token_type : List ℕ

pub record TicketClaims : Type 0 where
  pub issuer : List ℕ
  pub audience : List ℕ
  pub subject : List ℕ
  pub ticket_id : List ℕ
  pub issued_at : ℤ
  pub expires_at : ℤ
  pub channel_id : ℕ
  pub sender_id : ℕ
  pub permissions : ℕ
  pub priority : Option ℕ
  pub jwk_thumbprint : List ℕ

-- encoding/base64 (RawURLEncoding) and encoding/json, at the types that the tickets use.
pub record TicketCodec : Type 0 where
  pub base64_decode : List ℕ → Option (List ℕ)
  pub base64_encode : List ℕ → List ℕ
  pub json_header : List ℕ → Option TokenHeader
  pub json_claims : List ℕ → Option TicketClaims

unfoldable pub strict_base64_url :
    (List ℕ → Option (List ℕ)) → (List ℕ → List ℕ) → List ℕ → Option (List ℕ)
strict_base64_url decode encode value =
    if (length value == 0) || any (λ b. b == b'=') value then none else elim (decode value) [
      | none ↦ none
      | some decoded ↦ if bytes_eq (encode decoded) value then some decoded else none
    ]

-- `strings.Split(ticket, ".")`.
unfoldable pub split_dots : List ℕ → List ℕ → List (List ℕ)
split_dots acc [] = acc ∷ []
split_dots acc (b ∷ bs) = elim (b == b'.') [
  | true ↦ acc ∷ split_dots [] bs
  | false ↦ split_dots (acc ++ (b ∷ [])) bs
]

pub record Segments : Type 0 where
  pub header : List ℕ
  pub payload : List ℕ
  pub signature : List ℕ

abbrev pub three_segments : List (List ℕ) → Option Segments
three_segments (h ∷ p ∷ s ∷ []) = some (record { header = h; payload = p; signature = s })
three_segments _ = none

-- The part up to the signature's check: the segments, decoded, under a known issuer key.
unfoldable pub decode_ticket :
    Platform → TicketCodec → Map (List ℕ) (List ℕ) → List ℕ → List ℕ → Verdict TicketClaims
unfolding strict_base64_url split_dots
decode_ticket p codec keys ticket public_key = do
  deny_if
      ((length ticket == 0)
        || ltb identity_ticket_max_bytes (length ticket)
        || not (length public_key == 32))
      identity_deny_invalid_ticket
  deny_if (any (λ b. ltb 0x7f b) ticket) identity_deny_invalid_ticket
  segments ← or_deny (three_segments (split_dots [] ticket)) identity_deny_invalid_ticket
  header_raw ←
      or_deny (strict_base64_url codec.base64_decode codec.base64_encode segments.header)
        identity_deny_invalid_ticket
  payload_raw ←
      or_deny (strict_base64_url codec.base64_decode codec.base64_encode segments.payload)
        identity_deny_invalid_ticket
  signature ←
      or_deny (strict_base64_url codec.base64_decode codec.base64_encode segments.signature)
        identity_deny_invalid_ticket
  deny_if (not (length signature == 64)) identity_deny_invalid_ticket
  header ← or_deny (codec.json_header header_raw) identity_deny_invalid_ticket
  claims ← or_deny (codec.json_claims payload_raw) identity_deny_invalid_ticket
  issuer_key ← or_deny (lookup header.key_id keys) identity_deny_invalid_ticket
  deny_if
      (not (bytes_eq header.algorithm (codes "EdDSA"))
        || not (bytes_eq header.token_type (codes "incomudon-admission+jwt"))
        || not (length issuer_key == 32)
        || not
            (p.ed25519_verify issuer_key (segments.header ++ (b'.' ∷ segments.payload)) signature))
      identity_deny_invalid_ticket
  grant claims

pub record Validity : Type 0 where
  pub issued : ℕ
  pub expires : ℕ

-- The times of a ticket, in seconds: issued after 1970, for at most five minutes, not run out, and
-- issued no later than 30 seconds from now.
unfoldable pub check_ticket_times : ℤ → ℤ → ℕ → Verdict Validity
check_ticket_times (negsuc n) expires now = deny identity_deny_ticket_expired
check_ticket_times (pos issued) (negsuc n) now = deny identity_deny_ticket_expired
check_ticket_times (pos issued) (pos expires) now =
    if leb issued 0
      || leb expires issued
      || ltb 300 (expires - issued)
      || not (ltb now (expires * second))
      || ltb (now + 30 * second) (issued * second)
    then deny identity_deny_ticket_expired
    else grant (record { issued = issued; expires = expires })

abbrev pub is_missing_or_zero : Option ℕ → Bool
is_missing_or_zero none = true
is_missing_or_zero (some v) = v == 0

abbrev pub is_present : Option ℕ → Bool
is_present none = false
is_present (some v) = true

abbrev pub or_zero : Option ℕ → ℕ
or_zero none = 0
or_zero (some v) = v

-- The permissions of a ticket and the priority that goes with the third.
unfoldable pub check_ticket_permissions : ℕ → Option ℕ → Verdict (Unit {0})
check_ticket_permissions permissions priority = do
  deny_if
      (not (bit_and permissions 0xf8 == 0)
        || not (has_permission permissions identity_permission_listen))
      identity_deny_permission_denied
  deny_if
      (has_permission permissions identity_permission_interrupt
        && (not (has_permission permissions identity_permission_talk)
            || is_missing_or_zero priority))
      identity_deny_permission_denied
  deny_if (not (has_permission permissions identity_permission_interrupt) && is_present priority)
      identity_deny_permission_denied

-- The part of `validateTicket` after the signature.
unfoldable pub check_ticket_claims :
    Platform
    → TicketCodec
    → List ℕ
    → List ℕ
    → List ℕ
    → List ℕ
    → ℕ
    → ℕ
    → ℕ
    → TicketClaims
    → Verdict IdentityAdmission
check_ticket_claims p codec issuer audience ticket public_key channel_id sender_id now claims = do
  times ← check_ticket_times claims.issued_at claims.expires_at now
  deny_if
      (not (bytes_eq claims.issuer issuer)
        || not (bytes_eq claims.audience audience)
        || not (claims.channel_id == channel_id)
        || not (claims.sender_id == sender_id)
        || (claims.sender_id == 0))
      identity_deny_scope_mismatch
  deny_if ((length claims.subject == 0) || (length claims.ticket_id == 0))
      identity_deny_permission_denied
  check_ticket_permissions claims.permissions claims.priority
  deny_if
      ((length claims.jwk_thumbprint == 0)
        || not (bytes_eq claims.jwk_thumbprint (codec.base64_encode (p.sha256 public_key))))
      identity_deny_scope_mismatch
  grant (record {
    permissions = claims.permissions;
    priority = or_zero claims.priority;
    expires_at = times.expires * second;
    ticket_hash = p.sha256 ticket;
    actor_id_hash = take 16 (p.sha256 claims.subject);
  })

unfoldable pub validate_ticket :
    Platform
    → TicketCodec
    → List ℕ
    → List ℕ
    → Map (List ℕ) (List ℕ)
    → List ℕ
    → List ℕ
    → ℕ
    → ℕ
    → ℕ
    → Verdict IdentityAdmission
validate_ticket p codec issuer audience keys ticket public_key channel_id sender_id now = do
  claims ← decode_ticket p codec keys ticket public_key
  check_ticket_claims p codec issuer audience ticket public_key channel_id sender_id now claims
