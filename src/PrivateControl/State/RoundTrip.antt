-- ===== src/PrivateControl/State/RoundTrip.antt =====
-- A deny rule that is written to the disk and read again.
use mathlib.Core.Path.{transport}
use incom_udon_server.Base.{
  [], ap, sym, refl, ◌==◌, ◌&&◌, is_some, ℕ, ◌*◌, ◌/◌, ◌≡◌, arith, List, false, not, Option, none,
  some, length, bytes_eq_iff, ltb, Option-cases, inl, inr,
}
use incom_udon_server.Admission.Grant.{is_managed_service_id}
use incom_udon_server.Platform.{second}
use incom_udon_server.Admission.Service.{ServiceAdmissionRevocationTarget, deny_rule}
use incom_udon_server.PrivateControl.State.{
  max_json_integer, Base64, RevokeServiceAdmission, decode_grant_id_hash, valid_revocation,
  persistent_rule_target, persistent_rule_from_entry,
}

-- A hash that was decoded is what its text decodes to again.
decode_grant_id_hash-encode :
    (base64 : Base64) (value hash : List ℕ)
    → decode_grant_id_hash base64 value ≡ some (some hash)
    → decode_grant_id_hash base64 (base64.encode hash) ≡ some (some hash)
unfolding decode_grant_id_hash
decode_grant_id_hash-encode base64 value hash h = elim (Option-cases (base64.decode value)) [
  | inl refused ↦ ground (arith, refused, h)
  | inr (decoded, found) ↦ ground (arith, found, h, bytes_eq_iff (base64.encode decoded) value)
]

abbrev target_of : RevokeServiceAdmission → Option (List ℕ) → ServiceAdmissionRevocationTarget
target_of message hash = record {
  channel_id = message.channel_id;
  service_id = message.service_id;
  grant_id_hash = hash;
}

-- What a valid command has shown.
record Checked (base64 : Base64) (message : RevokeServiceAdmission) (hash : Option (List ℕ))
    : Type 0 where
  decoded : decode_grant_id_hash base64 message.grant_id_hash ≡ some hash
  early : ltb message.deny_until 1 ≡ false
  late : ltb max_json_integer message.deny_until ≡ false
  named :
      (not (length message.service_id == 0) && not (is_managed_service_id message.service_id))
      ≡ false
  scoped : ((length message.service_id == 0) && not (is_some hash)) ≡ false

valid_revocation-Checked :
    (base64 : Base64) (message : RevokeServiceAdmission) (target : ServiceAdmissionRevocationTarget)
    → valid_revocation base64 message ≡ some target
    → (hash : Option (List ℕ)) × ((target ≡ target_of message hash) × Checked base64 message hash)
unfolding valid_revocation
valid_revocation-Checked base64 message target h =
    elim (Option-cases (decode_grant_id_hash base64 message.grant_id_hash)) [
      | inl refused ↦ ground (arith, refused, h)
      | inr (hash, found) ↦ (
        hash,
        (
          ground (arith, found, h),
          record {
            decoded = found;
            early = ground (arith, found, h);
            late = ground (arith, found, h);
            named = ground (arith, found, h);
            scoped = ground (arith, found, h);
          },
        ),
      )
    ]

-- Whole seconds are seconds again.
seconds : (n : ℕ) → n * second / second ≡ n
seconds n = omega arith

persistent_rule_target-Checked :
    (base64 : Base64) (message : RevokeServiceAdmission) (hash : Option (List ℕ))
    → Checked base64 message hash
    → persistent_rule_target base64 (
        persistent_rule_from_entry base64
          (deny_rule (target_of message hash), message.deny_until * second))
      ≡ some (target_of message hash)
unfolding persistent_rule_target persistent_rule_from_entry deny_rule
persistent_rule_target-Checked base64 message none c =
    let nothing : decode_grant_id_hash base64 [] ≡ some none =
      unfold decode_grant_id_hash in refl in
    rw (seconds message.deny_until, c.early, c.late, c.named, nothing, c.scoped)
persistent_rule_target-Checked base64 message (some hash) c =
    let again = decode_grant_id_hash-encode base64 message.grant_id_hash hash c.decoded in
    rw (seconds message.deny_until, c.early, c.late, c.named, again, c.scoped)

-- The rule that a valid command installs comes back from the disk as the same target, until the same
-- second: nothing of a revocation is lost or widened by a restart, whatever base64 is.
pub valid_revocation_persists :
    (base64 : Base64) (message : RevokeServiceAdmission) (target : ServiceAdmissionRevocationTarget)
    → valid_revocation base64 message ≡ some target
    → (persistent_rule_target base64
          (persistent_rule_from_entry base64 (deny_rule target, message.deny_until * second))
        ≡ some target)
      × ((persistent_rule_from_entry base64
            (deny_rule target, message.deny_until * second)).deny_until
          ≡ message.deny_until)
unfolding persistent_rule_from_entry
valid_revocation_persists base64 message target h =
    let (hash, (is, checked)) = valid_revocation-Checked base64 message target h in
    (
      transport
          (ap
            (λ t.
              persistent_rule_target base64
                (persistent_rule_from_entry base64 (deny_rule t, message.deny_until * second))
              ≡ some t)
            (sym is))
          (persistent_rule_target-Checked base64 message hash checked),
      seconds message.deny_until,
    )
