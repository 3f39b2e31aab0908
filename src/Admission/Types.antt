-- ===== src/Admission/Types.antt =====
-- The data of both kinds of admission. Strings are their bytes.
use Prim.Native.String.{String}
use text.Mathlib.Text.{◌==◌ as str_eq}
use text.Mathlib.TextEquality.{eq_iff}
use incom_udon_server.Base.{
  ℕ, ◌+◌, ◌≡◌, ◌↔◌, arith, List, Bool, true, false, not, ◌&&◌, Option, none, some, ltb, ◌==◌,
  if◌then◌else◌, bit_and, Eq,
}
use incom_udon_server.Platform.{UdpAddr, peer_map_key}
use incom_udon_server.Wire.Types.{ParsedPacket}

-- An int64; `negsuc n` is -(n + 1).
pub data ℤ : Type 0 where
  pos : ℕ → ℤ
  negsuc : ℕ → ℤ

abbrev pub identity_permission_listen : ℕ
identity_permission_listen = 1

abbrev pub identity_permission_talk : ℕ
identity_permission_talk = 2

abbrev pub identity_permission_interrupt : ℕ
identity_permission_interrupt = 4

abbrev pub has_permission : ℕ → ℕ → Bool
has_permission permissions mask = not (bit_and permissions mask == 0)

pub record AdmissionKey : Type 0 where
  pub channel_id : ℕ
  pub sender_id : ℕ
  pub session_id : ℕ
  pub address : String

abbrev pub admission_key_eq : AdmissionKey → AdmissionKey → Bool
admission_key_eq a b =
    (a.channel_id == b.channel_id)
    && (a.sender_id == b.sender_id)
    && (a.session_id == b.session_id)
    && str_eq a.address b.address

pub admission_key_eq_iff : (a b : AdmissionKey) → (admission_key_eq a b ≡ true) ↔ (a ≡ b)
admission_key_eq_iff a b = ground (arith, eq_iff a.address b.address)

instance abbrev pub admission_key_Eq : Eq AdmissionKey
admission_key_Eq = record { beq = admission_key_eq; beq_iff = admission_key_eq_iff }

-- `identityKeyForPacket` and `serviceKeyForPacket`.
abbrev pub admission_key_of : ParsedPacket → Option UdpAddr → ℕ → AdmissionKey
admission_key_of pkt addr session_id = record {
  channel_id = pkt.header.channel_id;
  sender_id = pkt.header.sender_id;
  session_id = session_id;
  address = peer_map_key addr;
}

pub record IdentityAdmission : Type 0 where
  pub permissions : ℕ
  pub priority : ℕ
  pub expires_at : ℕ
  pub ticket_hash : List ℕ
  pub actor_id_hash : List ℕ

pub record ServiceAdmission : Type 0 where
  pub service_id : List ℕ
  pub role : List ℕ
  pub permissions : ℕ
  pub priority : ℕ
  pub grant_expires : ℕ
  pub grace : ℕ
  pub grant_hash : List ℕ
  pub grant_id_hash : List ℕ

-- What both states remember of a failed exchange.
pub record AdmissionFailure : Type 0 where
  pub reason : ℕ
  pub expires_at : ℕ

-- A validation grants an admission or names the reason of the denial; the code returns the pair of
-- both, with reason 0 for a grant.
pub data Verdict {ℓ} (A : Type ℓ) : Type ℓ where
  grant : A → Verdict A
  deny : ℕ → Verdict A

infixl 5 ◌>>=◌ ◌>>◌
abbrev pub ◌>>=◌ {ℓ κ} : {A : Type ℓ} {B : Type κ} → Verdict A → (A → Verdict B) → Verdict B
grant a >>= f = f a
deny r >>= f = deny r

abbrev pub ◌>>◌ {ℓ} : {B : Type ℓ} → Verdict (Unit {0}) → Verdict B → Verdict B
m >> k = m >>= λ _. k

abbrev pub deny_if : Bool → ℕ → Verdict (Unit {0})
deny_if true reason = deny reason
deny_if false reason = grant tt

abbrev pub or_deny {ℓ} : {A : Type ℓ} → Option A → ℕ → Verdict A
or_deny none reason = deny reason
or_deny (some a) reason = grant a

-- `expiryDeadline`, `grantCurrent` and `membershipCurrent`.
unfoldable pub expiry_deadline : ServiceAdmission → ℕ
expiry_deadline s =
    if (s.permissions == identity_permission_listen) && ltb 0 s.grace
    then s.grant_expires + s.grace
    else s.grant_expires

unfoldable pub grant_current : ServiceAdmission → ℕ → Bool
grant_current s now = ltb now s.grant_expires

unfoldable pub membership_current : ServiceAdmission → ℕ → Bool
unfolding expiry_deadline
membership_current s now = ltb now (expiry_deadline s)

-- `admissionAllowsTalk` and `admissionAllowsInterrupt`.
unfoldable pub admission_allows_talk : Option IdentityAdmission → ℕ → Bool → Bool
admission_allows_talk none now required = not required
admission_allows_talk (some a) now required =
    ltb now a.expires_at && has_permission a.permissions identity_permission_talk

unfoldable pub admission_allows_interrupt : Option IdentityAdmission → ℕ → Bool
admission_allows_interrupt none now = false
admission_allows_interrupt (some a) now =
    ltb now a.expires_at
    && has_permission a.permissions identity_permission_talk
    && has_permission a.permissions identity_permission_interrupt
    && not (a.priority == 0)
