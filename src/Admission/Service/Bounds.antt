-- ===== src/Admission/Service/Bounds.antt =====
-- The size of the service admission state.
use Prim.Native.Nat.{◌≤◌, min}
use incom_udon_server.Base.{
  ℕ, ◌+◌, ◌*◌, arith, List, [], ◌∷◌, not, Option, none, some, ltb, length, take, drop, slice,
  Option-cases, inl, inr,
}
use incom_udon_server.Base.Assoc.{lookup, length-keep-le, length-insert, length-delete-le}
use incom_udon_server.Platform.{Platform, UdpAddr, second}
use incom_udon_server.Wire.{be16}
use incom_udon_server.Wire.Types.{ParsedPacket}
use incom_udon_server.Auth.State.{ControlAuthMeta}
use incom_udon_server.Admission.Types.{
  AdmissionKey, admission_key_Eq, ServiceAdmission, Verdict, grant, deny, admission_key_of,
}
use incom_udon_server.Admission.Grant.{GrantCodec, validate_grant}
use incom_udon_server.Admission.Service.{
  ServiceAdmissionState, ServiceAdmissionRevocationTarget, ServicePendingAdmission, deny_rule_Eq,
  deny_rule, target_matches, cleanup, install_revocation, evict, active_deny_rules,
  admission_allowed_for_membership, later_expiry,
}
use incom_udon_server.Admission.Service.Exchange.{
  begin, begin_validated, note_failure, proof, check_proof, take_verified_admission,
  admission_for_join,
}
use incom_udon_server.Admission.Service.History.{
  Operation, begins, proves, takes, joins, asks, revokes, lists, apply, run,
}

-- At most 1024 challenges and at most 1024 deny rules are kept.
abbrev pub IsBounded : ServiceAdmissionState → Type 0
IsBounded a = (length a.pending ≤ 1024) × (length a.denied ≤ 1024)

abbrev pub IsBoundedState : Option ServiceAdmissionState → Type 0
IsBoundedState none = Unit
IsBoundedState (some a) = IsBounded a

cleanup-IsBounded : (a : ServiceAdmissionState) (now : ℕ) → IsBounded a → IsBounded (cleanup a now)
unfolding cleanup
cleanup-IsBounded a now h = ground (
  arith,
  length-keep-le (λ k (v : ServicePendingAdmission). ltb now v.expires_at) a.pending,
  length-keep-le (λ rule (expiry : ℕ). ltb now expiry) a.denied,
)

begin_validated-IsBounded :
    (p : Platform) (a : ServiceAdmissionState) (k : AdmissionKey) (public_key : List ℕ)
    (verdict : Verdict ServiceAdmission) (now : ℕ)
    → IsBounded a
    → IsBounded (begin_validated p a k public_key verdict now).0
unfolding begin_validated note_failure
begin_validated-IsBounded p a k public_key (deny reason) now h = h
begin_validated-IsBounded p a k public_key (grant admission) now h =
    elim (Option-cases (p.random_challenge a.draws)) [
      | inl failed ↦ ground (arith, failed, h)
      | inr (value, e) ↦
          let added : ServicePendingAdmission = record {
            admission = admission;
            public_key = public_key;
            challenge = value;
            expires_at = min (now + 30 * second) admission.grant_expires;
          } in
          ground (arith, e, h, length-insert k added a.pending)
    ]

check_proof-IsBounded :
    (p : Platform) (a : ServiceAdmissionState) (k : AdmissionKey) (signature : List ℕ) (now : ℕ)
    → IsBounded a
    → IsBounded (check_proof p a k signature now).0
unfolding check_proof note_failure
check_proof-IsBounded p a k signature now h = ground (arith, length-delete-le k a.pending)

begin-IsBounded :
    (p : Platform) (codec : GrantCodec) (a : ServiceAdmissionState) (pkt : ParsedPacket)
    (addr : Option UdpAddr) (meta : ControlAuthMeta) (now : ℕ)
    → IsBounded a
    → IsBoundedState (begin p codec (some a) pkt addr meta now).0
unfolding begin
begin-IsBounded p codec a pkt addr meta now h =
    let grant_length = be16 (take 2 pkt.payload) in
    let public_key = drop (2 + grant_length) pkt.payload in
    ground (
      arith,
      begin_validated-IsBounded p (cleanup a now) (admission_key_of pkt addr meta.session_id)
          public_key
          (validate_grant p codec a.issuer a.audience a.keys
            (slice 2 (2 + grant_length) pkt.payload) public_key pkt.header.channel_id
            pkt.header.sender_id now)
          now (cleanup-IsBounded a now h),
    )

install-IsBounded :
    (a : ServiceAdmissionState) (target : ServiceAdmissionRevocationTarget) (deny_until now : ℕ)
    → IsBounded a
    → IsBoundedState (install_revocation (some a) target deny_until now).0
unfolding install_revocation evict
install-IsBounded a target deny_until now h =
    let clean = cleanup a now in
    let existing = lookup (deny_rule target) clean.denied in
    ground (
      arith,
      cleanup-IsBounded a now h,
      length-insert (deny_rule target) (later_expiry existing deny_until) clean.denied,
      length-keep-le
          (λ (k : AdmissionKey) (v : ServicePendingAdmission).
            not (target_matches target k.channel_id v.admission))
          clean.pending,
    )

apply-IsBounded :
    (p : Platform) (codec : GrantCodec) (op : Operation) (now : ℕ)
    (a : Option ServiceAdmissionState)
    → IsBoundedState a
    → IsBoundedState (apply p codec op now a)
unfolding apply begin proof take_verified_admission admission_for_join
    admission_allowed_for_membership install_revocation active_deny_rules
apply-IsBounded p codec (begins pkt addr meta) now none h = tt
apply-IsBounded p codec (proves pkt addr meta) now none h = tt
apply-IsBounded p codec (takes pkt addr meta) now none h = tt
apply-IsBounded p codec (joins pkt addr meta) now none h = tt
apply-IsBounded p codec (asks channel_id admission) now none h = tt
apply-IsBounded p codec (revokes target deny_until) now none h = tt
apply-IsBounded p codec lists now none h = tt
apply-IsBounded p codec (begins pkt addr meta) now (some a) h =
    begin-IsBounded p codec a pkt addr meta now h
apply-IsBounded p codec (proves pkt addr meta) now (some a) h = ground (
  arith,
  h,
  check_proof-IsBounded p (cleanup a now) (admission_key_of pkt addr meta.session_id) pkt.payload
      now (cleanup-IsBounded a now h),
)
apply-IsBounded p codec (takes pkt addr meta) now (some a) h = cleanup-IsBounded a now h
apply-IsBounded p codec (joins pkt addr meta) now (some a) h =
    ground (arith, cleanup-IsBounded a now h)
apply-IsBounded p codec (asks channel_id admission) now (some a) h = cleanup-IsBounded a now h
apply-IsBounded p codec (revokes target deny_until) now (some a) h =
    install-IsBounded a target deny_until now h
apply-IsBounded p codec lists now (some a) h = cleanup-IsBounded a now h

-- From a state with at most 1024 pending challenges and at most 1024 deny rules, every sequence of
-- operations, at any times, leads to a state with at most 1024 of each; no state at all stays so.
pub run-IsBounded :
    (p : Platform) (codec : GrantCodec) (ops : List (Operation × ℕ))
    (a : Option ServiceAdmissionState)
    → IsBoundedState a
    → IsBoundedState (run p codec ops a)
unfolding run
run-IsBounded p codec [] a h = h
run-IsBounded p codec ((op, now) ∷ rest) a h =
    run-IsBounded p codec rest (apply p codec op now a) (apply-IsBounded p codec op now a h)
