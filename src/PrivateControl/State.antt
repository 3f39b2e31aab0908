-- ===== src/PrivateControl/State.antt =====
-- Deny rules on the disk: `validPrivateControlRevocation` and `decodePrivateControlGrantIDHash` of
-- private_control.go, `privateControlPersistentRuleFromEntry`, `persistentRuleTarget` and the rules of
-- `persistentStateSnapshot` and `restorePersistentState` of private_control_state.go. Texts are their
-- bytes, base64 is an argument, and a time on the disk is in seconds; a negative one acts as 0 does.
use Prim.Native.String.{String}
use incom_udon_server.Base.{
  ℕ, ◌*◌, ◌/◌, List, [], ◌∷◌, Bool, true, false, not, ◌&&◌, ◌||◌, Option, none, some, ltb, leb,
  ◌==◌, if◌then◌else◌, length, bytes_eq, string_eq, is_some,
}
use incom_udon_server.Base.Assoc.{Map}
use incom_udon_server.Platform.{second}
use incom_udon_server.Admission.Grant.{is_managed_service_id}
use incom_udon_server.Admission.Service.{
  ServiceAdmissionState, ServiceAdmissionDenyRule, ServiceAdmissionRevocationTarget,
  active_deny_rules, install_revocation,
}
pub mod RoundTrip
pub mod Restart

-- `DecodeString` and `EncodeToString` of `base64.RawURLEncoding`.
pub record Base64 : Type 0 where
  pub decode : List ℕ → Option (List ℕ)
  pub encode : List ℕ → List ℕ

pub record RevokeServiceAdmission : Type 0 where
  pub schema_version : String
  pub kind : String
  pub message_id : List ℕ
  pub channel_id : ℕ
  pub service_id : List ℕ
  pub grant_id_hash : List ℕ
  pub reason : String
  pub deny_until : ℕ

pub record PersistentRule : Type 0 where
  pub channel_id : ℕ
  pub service_id : List ℕ
  pub grant_id_hash : List ℕ
  pub deny_until : ℕ

abbrev pub max_json_integer : ℕ
max_json_integer = 9007199254740991

module _ (base64 : Base64) where
  abbrev pub is_exact : ℕ → List ℕ → List ℕ → Bool
  is_exact size value decoded = (length decoded == size) && bytes_eq (base64.encode decoded) value

  abbrev exact_or_none : ℕ → List ℕ → Option (List ℕ) → Option (List ℕ)
  exact_or_none size value none = none
  exact_or_none size value (some decoded) =
      if is_exact size value decoded then some decoded else none

  unfoldable pub valid_private_control_id : List ℕ → Bool
  valid_private_control_id value =
      if not (length value == 22)
      then false
      else is_some (exact_or_none 16 value (base64.decode value))

  abbrev pub present : Option (List ℕ) → Option (Option (List ℕ))
  present none = none
  present (some hash) = some (some hash)

  -- No text is no hash, and a text that is not the base64 of 32 bytes is invalid.
  unfoldable pub decode_grant_id_hash : List ℕ → Option (Option (List ℕ))
  decode_grant_id_hash value =
      if length value == 0
      then some none
      else present (exact_or_none 32 value (base64.decode value))

  -- What both forms of a rule have in common: one of the service and the hash, at least.
  abbrev target_with :
      ℕ → List ℕ → Option (Option (List ℕ)) → Option ServiceAdmissionRevocationTarget
  target_with channel_id service_id none = none
  target_with channel_id service_id (some hash) =
      if (length service_id == 0) && not (is_some hash)
      then none
      else some (record { channel_id = channel_id; service_id = service_id; grant_id_hash = hash })

  unfoldable pub valid_revocation : RevokeServiceAdmission → Option ServiceAdmissionRevocationTarget
  valid_revocation message =
      if not (string_eq.beq message.schema_version "private-control-link-v1")
        || not (string_eq.beq message.kind "revoke_service_admission")
        || not (valid_private_control_id message.message_id)
        || ltb message.deny_until 1
        || ltb max_json_integer message.deny_until
        || (not (length message.service_id == 0) && not (is_managed_service_id message.service_id))
        || (not (string_eq.beq message.reason "acl_removed")
            && not (string_eq.beq message.reason "service_disabled")
            && not (string_eq.beq message.reason "grant_revoked"))
      then none
      else target_with message.channel_id message.service_id
          (decode_grant_id_hash message.grant_id_hash)

  unfoldable pub persistent_rule_target : PersistentRule → Option ServiceAdmissionRevocationTarget
  persistent_rule_target rule =
      if ltb rule.deny_until 1
        || ltb max_json_integer rule.deny_until
        || (not (length rule.service_id == 0) && not (is_managed_service_id rule.service_id))
      then none
      else target_with rule.channel_id rule.service_id (decode_grant_id_hash rule.grant_id_hash)

  unfoldable pub persistent_rule_from_entry : ServiceAdmissionDenyRule × ℕ → PersistentRule
  persistent_rule_from_entry (rule, expires_at) = record {
    channel_id = rule.channel_id;
    service_id = rule.service_id;
    grant_id_hash = if rule.has_grant_id_hash then base64.encode rule.grant_id_hash else [];
    deny_until = expires_at / second;
  }

  unfoldable pub persistent_rules : Map ServiceAdmissionDenyRule ℕ → List PersistentRule
  persistent_rules [] = []
  persistent_rules (entry ∷ entries) = persistent_rule_from_entry entry ∷ persistent_rules entries

  abbrev pub installed :
      Option ServiceAdmissionState
      → PersistentRule
      → ℕ
      → Option ServiceAdmissionRevocationTarget
      → Option ServiceAdmissionState × Bool
  installed a rule now none = (a, false)
  installed a rule now (some target) =
      if not (ltb now (rule.deny_until * second))
      then (a, true)
      else install_revocation a target (rule.deny_until * second) now

  -- The loop over the rules of a saved state, which are installed again; a rule that has run out is
  -- passed over, and an invalid one ends the start.
  unfoldable pub restore_each :
      Option ServiceAdmissionState → List PersistentRule → ℕ → Option ServiceAdmissionState × Bool
  restore_each a [] now = (a, true)
  restore_each a (rule ∷ rules) now =
      let (a', ok) = installed a rule now (persistent_rule_target rule) in
      let rest = restore_each a' rules now in if ok then rest else (a', false)

  -- The rules of a saved state need a service admission state, even where they have all run out.
  unfoldable pub restore_rules :
      Option ServiceAdmissionState → List PersistentRule → ℕ → Option ServiceAdmissionState × Bool
  restore_rules none [] now = (none, true)
  restore_rules none (rule ∷ rules) now = (none, false)
  restore_rules (some a) rules now = restore_each (some a) rules now
