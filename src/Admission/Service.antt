-- ===== src/Admission/Service.antt =====
-- The service admission state and its deny rules: `serviceAdmissionState` of service_admission.go,
-- with `cleanupLocked`, `activeDenyRules`, `deniedLocked`, `admissionAllowedForMembership` and
-- `installRevocation`. A nil state is `none`; `draws` counts the readings of the random source.
use incom_udon_server.Base.{
  ℕ, ◌+◌, ◌≡◌, ◌↔◌, arith, List, [], ◌∷◌, Bool, true, false, not, ◌&&◌, ◌||◌, Option, none, some,
  ltb, leb, ◌==◌, if◌then◌else◌, length, replicate, bytes_eq, bytes_eq_iff, Eq,
}
use incom_udon_server.Base.Assoc.{Map, keep, lookup, insert}
use incom_udon_server.Admission.Types.{
  AdmissionKey, ServiceAdmission, AdmissionFailure, grant_current,
}
pub mod Exchange
pub mod History
pub mod Bounds
pub mod Denies
pub mod Revocation

pub record ServiceAdmissionDenyRule : Type 0 where
  pub channel_id : ℕ
  pub service_id : List ℕ
  pub grant_id_hash : List ℕ
  pub has_grant_id_hash : Bool

abbrev same : Bool → Bool → Bool
same true b = b
same false b = not b

abbrev pub deny_rule_eq : ServiceAdmissionDenyRule → ServiceAdmissionDenyRule → Bool
deny_rule_eq a b =
    (a.channel_id == b.channel_id)
    && bytes_eq a.service_id b.service_id
    && bytes_eq a.grant_id_hash b.grant_id_hash
    && same a.has_grant_id_hash b.has_grant_id_hash

pub deny_rule_eq_iff : (a b : ServiceAdmissionDenyRule) → (deny_rule_eq a b ≡ true) ↔ (a ≡ b)
deny_rule_eq_iff a b =
    ground
      (arith, bytes_eq_iff a.service_id b.service_id, bytes_eq_iff a.grant_id_hash b.grant_id_hash)

instance abbrev pub deny_rule_Eq : Eq ServiceAdmissionDenyRule
deny_rule_Eq = record { beq = deny_rule_eq; beq_iff = deny_rule_eq_iff }

pub record ServiceAdmissionRevocationTarget : Type 0 where
  pub channel_id : ℕ
  pub service_id : List ℕ
  pub grant_id_hash : Option (List ℕ)

pub record ServicePendingAdmission : Type 0 where
  pub admission : ServiceAdmission
  pub public_key : List ℕ
  pub challenge : List ℕ
  pub expires_at : ℕ

pub record ServiceAdmissionState : Type 0 where
  pub issuer : List ℕ
  pub audience : List ℕ
  pub keys : Map (List ℕ) (List ℕ)
  pub pending : Map AdmissionKey ServicePendingAdmission
  pub verified : Map AdmissionKey ServiceAdmission
  pub failed : Map AdmissionKey AdmissionFailure
  pub denied : Map ServiceAdmissionDenyRule ℕ
  pub draws : ℕ

abbrev pub max_service_admission_deny_rules : ℕ
max_service_admission_deny_rules = 1024

-- `target.matches`, `target.denyRule` and `rule.matches`.
abbrev pub hash_fits : Option (List ℕ) → List ℕ → Bool
hash_fits none hash = true
hash_fits (some wanted) hash = bytes_eq wanted hash

unfoldable pub target_matches : ServiceAdmissionRevocationTarget → ℕ → ServiceAdmission → Bool
target_matches target channel_id admission =
    if not (target.channel_id == channel_id)
    then false
    else if not (length target.service_id == 0)
        && not (bytes_eq target.service_id admission.service_id)
    then false
    else hash_fits target.grant_id_hash admission.grant_id_hash

abbrev rule_with : Option (List ℕ) → ServiceAdmissionDenyRule → ServiceAdmissionDenyRule
rule_with none rule = rule
rule_with (some hash) rule = record rule { grant_id_hash = hash; has_grant_id_hash = true }

unfoldable pub deny_rule : ServiceAdmissionRevocationTarget → ServiceAdmissionDenyRule
deny_rule target = rule_with target.grant_id_hash (record {
  channel_id = target.channel_id;
  service_id = target.service_id;
  grant_id_hash = replicate 32 0;
  has_grant_id_hash = false;
})

unfoldable pub rule_matches : ServiceAdmissionDenyRule → ℕ → ServiceAdmission → Bool
rule_matches rule channel_id admission =
    if not (rule.channel_id == channel_id)
    then false
    else if not (length rule.service_id == 0) && not (bytes_eq rule.service_id admission.service_id)
    then false
    else not rule.has_grant_id_hash || bytes_eq rule.grant_id_hash admission.grant_id_hash

unfoldable pub cleanup : ServiceAdmissionState → ℕ → ServiceAdmissionState
cleanup a now = record a {
  pending = keep (λ k (v : ServicePendingAdmission). ltb now v.expires_at) a.pending;
  verified = keep (λ k (v : ServiceAdmission). grant_current v now) a.verified;
  failed = keep (λ k (v : AdmissionFailure). ltb now v.expires_at) a.failed;
  denied = keep (λ rule expiry. ltb now expiry) a.denied;
}

unfoldable pub active_deny_rules :
    Option ServiceAdmissionState → ℕ → Option ServiceAdmissionState × Map ServiceAdmissionDenyRule ℕ
active_deny_rules none now = (none, [])
active_deny_rules (some a) now = (some (cleanup a now), (cleanup a now).denied)

-- `deniedLocked`, on the deny rules of the state.
unfoldable pub is_denied : Map ServiceAdmissionDenyRule ℕ → ℕ → ServiceAdmission → Bool
is_denied [] channel_id admission = false
is_denied ((rule, expiry) ∷ denied) channel_id admission =
    rule_matches rule channel_id admission || is_denied denied channel_id admission

unfoldable pub admission_allowed_for_membership :
    Option ServiceAdmissionState → ℕ → ServiceAdmission → ℕ → Option ServiceAdmissionState × Bool
admission_allowed_for_membership none channel_id admission now = (none, false)
admission_allowed_for_membership (some a) channel_id admission now =
    let clean = cleanup a now in
    (some clean, grant_current admission now && not (is_denied clean.denied channel_id admission))

abbrev is_unscoped : ServiceAdmissionRevocationTarget → Option (List ℕ) → Bool
is_unscoped target none = length target.service_id == 0
is_unscoped target (some hash) = false

-- The later of a rule's expiry and the new one.
abbrev pub later_expiry : Option ℕ → ℕ → ℕ
later_expiry none expiry = expiry
later_expiry (some existing) expiry = if ltb expiry existing then existing else expiry

-- The state after the rule is written: what it matches is evicted.
unfoldable pub evict :
    ServiceAdmissionState → ServiceAdmissionRevocationTarget → ℕ → ServiceAdmissionState
evict a target expiry = record a {
  denied = insert (deny_rule target) expiry a.denied;
  pending =
      keep (λ k (v : ServicePendingAdmission). not (target_matches target k.channel_id v.admission))
        a.pending;
  verified =
      keep (λ k (v : ServiceAdmission). not (target_matches target k.channel_id v)) a.verified;
}

abbrev is_new : Option ℕ → Bool
is_new none = true
is_new (some expiry) = false

unfoldable pub install_revocation :
    Option ServiceAdmissionState
    → ServiceAdmissionRevocationTarget
    → ℕ
    → ℕ
    → Option ServiceAdmissionState × Bool
install_revocation none target deny_until now = (none, false)
install_revocation (some a) target deny_until now =
    let clean = cleanup a now in
    let existing = lookup (deny_rule target) clean.denied in
    if not (ltb now deny_until) || is_unscoped target target.grant_id_hash
    then (some a, false)
    else if is_new existing && leb max_service_admission_deny_rules (length clean.denied)
    then (some clean, false)
    else (some (evict clean target (later_expiry existing deny_until)), true)
