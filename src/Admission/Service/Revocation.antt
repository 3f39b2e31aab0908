-- ===== src/Admission/Service/Revocation.antt =====
-- What an accepted `installRevocation` binds the Relay to.
use incom_udon_server.Base.{ℕ, ◌<◌, ◌≡◌, arith, List, true, false, some, ◌∙◌}
use incom_udon_server.Base.Assoc.{lookup, lookup-insert}
use incom_udon_server.Platform.{Platform}
use incom_udon_server.Admission.Types.{ServiceAdmission}
use incom_udon_server.Admission.Grant.{GrantCodec}
use incom_udon_server.Admission.Service.{
  ServiceAdmissionState, ServiceAdmissionRevocationTarget, deny_rule_Eq, deny_rule, rule_matches,
  target_matches, cleanup, install_revocation, evict, admission_allowed_for_membership,
  later_expiry,
}
use incom_udon_server.Admission.Service.History.{Operation, run}
use incom_udon_server.Admission.Service.Denies.{
  DeniesUntil, IsBefore, run-Denies, refuses-membership,
}

pub rule_matches-deny_rule :
    (target : ServiceAdmissionRevocationTarget) (channel_id : ℕ) (admission : ServiceAdmission)
    → rule_matches (deny_rule target) channel_id admission
      ≡ target_matches target channel_id admission
unfolding rule_matches deny_rule target_matches
rule_matches-deny_rule target channel_id admission = ground arith

-- An accepted revocation stands in the deny set at once.
pub install-DeniesUntil :
    (a b : ServiceAdmissionState) (target : ServiceAdmissionRevocationTarget) (deny_until now : ℕ)
    → install_revocation (some a) target deny_until now ≡ (some b, true)
    → DeniesUntil (deny_rule target) deny_until b.denied
unfolding install_revocation evict
install-DeniesUntil a b target deny_until now h =
    let denied = (cleanup a now).denied in
    let expiry = later_expiry (lookup (deny_rule target) denied) deny_until in
    (
      expiry,
      (
        ground (
          arith,
          h,
          lookup-insert (deny_rule target) (deny_rule target) expiry denied,
          deny_rule_Eq.beq_iff (deny_rule target) (deny_rule target),
        ),
        ground arith,
      ),
    )

-- Once a revocation is accepted, an admission that it names gets no membership before the deadline,
-- whatever operations, at times before the deadline, run in between: beginning and proving again,
-- joining, listing, or revoking anything else.
pub install_revocation_binding :
    (p : Platform) (codec : GrantCodec) (a b : ServiceAdmissionState)
    (target : ServiceAdmissionRevocationTarget) (deny_until now : ℕ)
    → install_revocation (some a) target deny_until now ≡ (some b, true)
    → (ops : List (Operation × ℕ)) (channel_id : ℕ) (admission : ServiceAdmission) (later : ℕ)
    → IsBefore deny_until ops
    → later < deny_until
    → target_matches target channel_id admission ≡ true
    → (admission_allowed_for_membership (run p codec ops (some b)) channel_id admission later).1
      ≡ false
install_revocation_binding p codec a b target deny_until now h ops channel_id admission later early
      in_time fits =
    refuses-membership (deny_rule target) deny_until (run p codec ops (some b)) channel_id admission
      later in_time (rule_matches-deny_rule target channel_id admission ∙ fits)
      (run-Denies (deny_rule target) deny_until p codec ops (some b) early
        (install-DeniesUntil a b target deny_until now h))
