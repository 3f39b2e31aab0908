-- ===== src/PrivateControl/State/Restart.antt =====
-- What a start from the saved rules refuses.
use incom_udon_server.Base.{
  ℕ, ◌*◌, ◌<◌, ◌≡◌, ap, sym, ◌∙◌, arith, List, [], ◌∷◌, ◌++◌, true, false, Option, none, some,
  lt→ltb, Option-cases, inl, inr,
}
use mathlib.Core.Path.{transport}
use incom_udon_server.Platform.{second}
use incom_udon_server.Admission.Types.{ServiceAdmission}
use incom_udon_server.Admission.Service.{
  ServiceAdmissionState, ServiceAdmissionDenyRule, ServiceAdmissionRevocationTarget, deny_rule,
  target_matches, install_revocation, admission_allowed_for_membership,
}
use incom_udon_server.Admission.Service.Denies.{Denies, install-Denies, refuses-membership}
use incom_udon_server.Admission.Service.Revocation.{install-DeniesUntil, rule_matches-deny_rule}
use incom_udon_server.PrivateControl.State.{
  Base64, RevokeServiceAdmission, PersistentRule, valid_revocation, persistent_rule_target,
  persistent_rule_from_entry, installed, restore_each, restore_rules,
}
use incom_udon_server.PrivateControl.State.RoundTrip.{valid_revocation_persists}

module _ (base64 : Base64) (rule : ServiceAdmissionDenyRule) (deadline now : ℕ)
    (in_time : now < deadline) where
  installed-Denies :
      (a : Option ServiceAdmissionState) (saved : PersistentRule)
      (target : Option ServiceAdmissionRevocationTarget)
      → Denies rule deadline a
      → Denies rule deadline (installed base64 a saved now target).0
  installed-Denies a saved none h = h
  installed-Denies none saved (some target) h = unfold install_revocation in ground arith
  installed-Denies (some a) saved (some target) h =
      ground
        (arith, h, install-Denies rule deadline now in_time a target (saved.deny_until * second) h)

  restore_each-Denies :
      (rules : List PersistentRule) (a : Option ServiceAdmissionState)
      → Denies rule deadline a
      → Denies rule deadline (restore_each base64 a rules now).0
  unfolding restore_each
  restore_each-Denies [] a h = h
  restore_each-Denies (saved ∷ rules) a h =
      let target = persistent_rule_target base64 saved in
      let step = installed-Denies a saved target h in
      ground (arith, step, restore_each-Denies rules (installed base64 a saved now target).0 step)

module _ (base64 : Base64) (saved : PersistentRule) (target : ServiceAdmissionRevocationTarget)
    (now : ℕ) (in_time : now < saved.deny_until * second) where
  install-binds :
      (a : ServiceAdmissionState)
      → (install_revocation (some a) target (saved.deny_until * second) now).1 ≡ true
      → Denies
          (deny_rule target)
          (saved.deny_until * second)
          (install_revocation (some a) target (saved.deny_until * second) now).0
  install-binds a good =
      let result = install_revocation (some a) target (saved.deny_until * second) now in
      elim (Option-cases result.0) [
        | inl nothing ↦
            transport (ap (Denies (deny_rule target) (saved.deny_until * second)) (sym nothing)) tt
        | inr (b, found) ↦
            transport (ap (Denies (deny_rule target) (saved.deny_until * second)) (sym found)) (
              install-DeniesUntil a b target (saved.deny_until * second) now
                (ground (arith, found, good)))
      ]

  installed-binds :
      (a : Option ServiceAdmissionState)
      → (installed base64 a saved now (some target)).1 ≡ true
      → Denies
          (deny_rule target)
          (saved.deny_until * second)
          (installed base64 a saved now (some target)).0
  unfolding install_revocation
  installed-binds none good = ground (arith, lt→ltb now (saved.deny_until * second) in_time)
  installed-binds (some a) good =
      ground (arith, lt→ltb now (saved.deny_until * second) in_time, install-binds a, good)

  -- A rule anywhere among the saved ones binds what a successful start leaves.
  restore_each-binds :
      (before after : List PersistentRule) (a : Option ServiceAdmissionState)
      → persistent_rule_target base64 saved ≡ some target
      → (restore_each base64 a (before ++ (saved ∷ after)) now).1 ≡ true
      → Denies
          (deny_rule target)
          (saved.deny_until * second)
          (restore_each base64 a (before ++ (saved ∷ after)) now).0
  unfolding restore_each
  restore_each-binds [] after a is good =
      let step = installed base64 a saved now (some target) in
      ground (
        arith,
        is,
        good,
        installed-binds a,
        restore_each-Denies base64 (deny_rule target) (saved.deny_until * second) now in_time after
            step.0,
      )
  restore_each-binds (x ∷ before) after a is good =
      let step = installed base64 a x now (persistent_rule_target base64 x) in
      ground (arith, good, restore_each-binds before after step.0 is)

  -- Without a service admission state the start fails.
  restore_rules-binds :
      (before after : List PersistentRule) (a : Option ServiceAdmissionState)
      → persistent_rule_target base64 saved ≡ some target
      → (restore_rules base64 a (before ++ (saved ∷ after)) now).1 ≡ true
      → Denies
          (deny_rule target)
          (saved.deny_until * second)
          (restore_rules base64 a (before ++ (saved ∷ after)) now).0
  unfolding restore_rules
  restore_rules-binds [] after none is good = cc
  restore_rules-binds (x ∷ before) after none is good = cc
  restore_rules-binds before after (some a) is good =
      restore_each-binds before after (some a) is good

-- A restart lifts no revocation: where the rule of a valid command stands anywhere among the saved
-- rules, and the start from them succeeds before the command's deadline, a service admission that the
-- command names gets no membership before that deadline.
pub restore_rules_binding :
    (base64 : Base64) (message : RevokeServiceAdmission) (target : ServiceAdmissionRevocationTarget)
    (before after : List PersistentRule) (a : Option ServiceAdmissionState) (now channel_id : ℕ)
    (admission : ServiceAdmission) (later : ℕ)
    → valid_revocation base64 message ≡ some target
    → (restore_rules base64 a
        (before
          ++ (persistent_rule_from_entry base64 (deny_rule target, message.deny_until * second)
              ∷ after))
        now).1
      ≡ true
    → now < message.deny_until * second
    → later < message.deny_until * second
    → target_matches target channel_id admission ≡ true
    → (admission_allowed_for_membership
        (restore_rules base64 a
          (before
            ++ (persistent_rule_from_entry base64 (deny_rule target, message.deny_until * second)
                ∷ after))
          now).0
        channel_id
        admission
        later).1
      ≡ false
restore_rules_binding base64 message target before after a now channel_id admission later valid
      started in_time early fits =
    let saved = persistent_rule_from_entry base64 (deny_rule target, message.deny_until * second) in
    let (is, same) = valid_revocation_persists base64 message target valid in
    let deadline : saved.deny_until * second ≡ message.deny_until * second =
      ap (λ n. n * second) same in
    refuses-membership (deny_rule target) (saved.deny_until * second)
      (restore_rules base64 a (before ++ (saved ∷ after)) now).0 channel_id admission later
      (omega (arith, early, deadline)) (rule_matches-deny_rule target channel_id admission ∙ fits)
      (restore_rules-binds base64 saved target now (omega (arith, in_time, deadline)) before after a
        is started)
