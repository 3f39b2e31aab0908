-- ===== src/Admission/Service/Denies.antt =====
-- A deny rule outlives every operation that comes before its deadline.
use Prim.Native.Nat.{◌≤◌}
use incom_udon_server.Base.{
  ℕ, ◌<◌, ◌≡◌, refl, arith, List, [], ◌∷◌, true, false, Option, none, some, ltb, ◌+◌, take, drop,
  slice,
}
use incom_udon_server.Base.Assoc.{Map, lookup, lookup-insert, keep-some}
use incom_udon_server.Platform.{Platform, UdpAddr}
use incom_udon_server.Wire.{be16}
use incom_udon_server.Wire.Types.{ParsedPacket}
use incom_udon_server.Auth.State.{ControlAuthMeta}
use incom_udon_server.Admission.Types.{
  AdmissionKey, ServiceAdmission, Verdict, grant, deny, admission_key_of,
}
use incom_udon_server.Admission.Grant.{GrantCodec, validate_grant}
use incom_udon_server.Admission.Service.{
  ServiceAdmissionState, ServiceAdmissionRevocationTarget, ServiceAdmissionDenyRule, deny_rule_Eq,
  deny_rule, rule_matches, cleanup, is_denied, install_revocation, evict, active_deny_rules,
  admission_allowed_for_membership, later_expiry,
}
use incom_udon_server.Admission.Service.Exchange.{
  begin, begin_validated, note_failure, proof, check_proof, take_verified_admission,
  admission_for_join,
}
use incom_udon_server.Admission.Service.History.{
  Operation, begins, proves, takes, joins, asks, revokes, lists, apply, run,
}

-- The rule stands in the deny set, with an expiry that is not before the deadline.
abbrev pub DeniesUntil : ServiceAdmissionDenyRule → ℕ → Map ServiceAdmissionDenyRule ℕ → Type 0
DeniesUntil rule deadline denied =
    (expiry : ℕ) × ((lookup rule denied ≡ some expiry) × (deadline ≤ expiry))

abbrev pub Denies : ServiceAdmissionDenyRule → ℕ → Option ServiceAdmissionState → Type 0
Denies rule deadline none = Unit
Denies rule deadline (some a) = DeniesUntil rule deadline a.denied

-- Every operation reads the clock before the deadline.
abbrev pub IsBefore : ℕ → List (Operation × ℕ) → Type 0
IsBefore deadline [] = Unit
IsBefore deadline ((op, now) ∷ rest) = (now < deadline) × IsBefore deadline rest

module _ (rule : ServiceAdmissionDenyRule) (deadline : ℕ) where
  carry :
      {m m' : Map ServiceAdmissionDenyRule ℕ}
      → m ≡ m'
      → DeniesUntil rule deadline m'
      → DeniesUntil rule deadline m
  carry e h = (h.0, (cc, h.1.1))

  is_denied-lookup :
      (channel_id : ℕ) (admission : ServiceAdmission) (expiry : ℕ)
      → rule_matches rule channel_id admission ≡ true
      → (denied : Map ServiceAdmissionDenyRule ℕ) → lookup rule denied ≡ some expiry
      → is_denied denied channel_id admission ≡ true
  unfolding lookup is_denied
  is_denied-lookup channel_id admission expiry h [] e = cc
  is_denied-lookup channel_id admission expiry h ((r, x) ∷ denied) e =
      ground
        (arith, deny_rule_Eq.beq_iff r rule, is_denied-lookup channel_id admission expiry h denied)

  cleanup-Denies :
      (a : ServiceAdmissionState) (now : ℕ)
      → now < deadline
      → DeniesUntil rule deadline a.denied
      → DeniesUntil rule deadline (cleanup a now).denied
  unfolding cleanup
  cleanup-Denies a now h (expiry, (e, le)) = (
    expiry,
    (keep-some (λ rule expiry. ltb now expiry) rule expiry a.denied e (ground arith), le),
  )

  module _ (p : Platform) (a : ServiceAdmissionState) where
    begin_validated-denied :
        (k : AdmissionKey) (public_key : List ℕ) (verdict : Verdict ServiceAdmission) (now : ℕ)
        → (begin_validated p a k public_key verdict now).0.denied ≡ a.denied
    unfolding begin_validated note_failure
    begin_validated-denied k public_key (deny reason) now = refl
    begin_validated-denied k public_key (grant admission) now = ground (arith)

    check_proof-denied :
        (k : AdmissionKey) (signature : List ℕ) (now : ℕ)
        → (check_proof p a k signature now).0.denied ≡ a.denied
    unfolding check_proof note_failure
    check_proof-denied k signature now = ground (arith)

  module _ (now : ℕ) (in_time : now < deadline) where
    begin-Denies :
        (p : Platform) (codec : GrantCodec) (a : ServiceAdmissionState) (pkt : ParsedPacket)
        (addr : Option UdpAddr) (meta : ControlAuthMeta)
        → Denies rule deadline (some a)
        → Denies rule deadline ((begin p codec (some a) pkt addr meta now).0)
    unfolding begin
    begin-Denies p codec a pkt addr meta h =
        let clean = cleanup a now in
        let grant_length = be16 (take 2 pkt.payload) in
        let public_key = drop (2 + grant_length) pkt.payload in
        let kept =
          begin_validated-denied p clean (admission_key_of pkt addr meta.session_id) public_key
            (validate_grant p codec a.issuer a.audience a.keys
              (slice 2 (2 + grant_length) pkt.payload) public_key pkt.header.channel_id
              pkt.header.sender_id now)
            now in
        ground (arith, carry kept (cleanup-Denies a now in_time h))

    proof-Denies :
        (p : Platform) (a : ServiceAdmissionState) (pkt : ParsedPacket) (addr : Option UdpAddr)
        (meta : ControlAuthMeta)
        → Denies rule deadline (some a)
        → Denies rule deadline ((proof p (some a) pkt addr meta now).0)
    unfolding proof
    proof-Denies p a pkt addr meta h =
        let kept =
          check_proof-denied p (cleanup a now) (admission_key_of pkt addr meta.session_id)
            pkt.payload now in
        ground (arith, carry kept (cleanup-Denies a now in_time h))

    join-Denies :
        (a : ServiceAdmissionState) (pkt : ParsedPacket) (addr : Option UdpAddr)
        (meta : ControlAuthMeta)
        → Denies rule deadline (some a)
        → Denies rule deadline ((admission_for_join (some a) pkt addr meta now).0)
    unfolding admission_for_join
    join-Denies a pkt addr meta h = ground (arith, cleanup-Denies a now in_time h)

    pub install-Denies :
        (a : ServiceAdmissionState) (target : ServiceAdmissionRevocationTarget) (deny_until : ℕ)
        → Denies rule deadline (some a)
        → Denies rule deadline ((install_revocation (some a) target deny_until now).0)
    unfolding install_revocation evict
    install-Denies a target deny_until h =
        let rest = cleanup a now in
        ground (
          arith,
          cleanup-Denies a now in_time h,
          lookup-insert (deny_rule target) rule
              (later_expiry (lookup (deny_rule target) rest.denied) deny_until) rest.denied,
          deny_rule_Eq.beq_iff (deny_rule target) rule,
        )

    apply-Denies :
        (p : Platform) (codec : GrantCodec) (op : Operation) (a : Option ServiceAdmissionState)
        → Denies rule deadline a
        → Denies rule deadline (apply p codec op now a)
    unfolding apply begin proof take_verified_admission admission_for_join
        admission_allowed_for_membership install_revocation active_deny_rules
    apply-Denies p codec (begins pkt addr meta) none h = tt
    apply-Denies p codec (proves pkt addr meta) none h = tt
    apply-Denies p codec (takes pkt addr meta) none h = tt
    apply-Denies p codec (joins pkt addr meta) none h = tt
    apply-Denies p codec (asks channel_id admission) none h = tt
    apply-Denies p codec (revokes target deny_until) none h = tt
    apply-Denies p codec lists none h = tt
    apply-Denies p codec (begins pkt addr meta) (some a) h = begin-Denies p codec a pkt addr meta h
    apply-Denies p codec (proves pkt addr meta) (some a) h = proof-Denies p a pkt addr meta h
    apply-Denies p codec (takes pkt addr meta) (some a) h = cleanup-Denies a now in_time h
    apply-Denies p codec (joins pkt addr meta) (some a) h = join-Denies a pkt addr meta h
    apply-Denies p codec (asks channel_id admission) (some a) h = cleanup-Denies a now in_time h
    apply-Denies p codec (revokes target deny_until) (some a) h =
        install-Denies a target deny_until h
    apply-Denies p codec lists (some a) h = cleanup-Denies a now in_time h

  pub run-Denies :
      (p : Platform) (codec : GrantCodec) (ops : List (Operation × ℕ))
      (a : Option ServiceAdmissionState)
      → IsBefore deadline ops
      → Denies rule deadline a
      → Denies rule deadline (run p codec ops a)
  unfolding run
  run-Denies p codec [] a early h = h
  run-Denies p codec ((op, now) ∷ rest) a early h =
      run-Denies p codec rest (apply p codec op now a) early.1
        (apply-Denies now early.0 p codec op a h)

  pub refuses-membership :
      (a : Option ServiceAdmissionState) (channel_id : ℕ) (admission : ServiceAdmission) (now : ℕ)
      → now < deadline
      → rule_matches rule channel_id admission ≡ true
      → Denies rule deadline a
      → (admission_allowed_for_membership a channel_id admission now).1 ≡ false
  unfolding admission_allowed_for_membership
  refuses-membership none channel_id admission now early fits h = refl
  refuses-membership (some a) channel_id admission now early fits h =
      let (expiry, (e, le)) = cleanup-Denies a now early h in
      ground (arith, is_denied-lookup channel_id admission expiry fits (cleanup a now).denied e)
