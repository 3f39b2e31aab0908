-- ===== src/Admission/Identity/Once.antt =====
-- That an admission of the identity state serves one JOIN.
use mathlib.Core.Path.{transport}
use incom_udon_server.Base.{
  ℕ, ◌<◌, ◌≡◌, ◌≢◌, ◌⊎◌, arith, refl, List, [], ◌∷◌, false, Option, none, some, ltb, ◌==◌, ◌+◌,
  length, slice, take, drop, Option-cases, Bool-cases, beq_refl, inl, inr, ap, sym,
}
use incom_udon_server.Base.Assoc.{lookup, keep-none, lookup-insert, lookup-delete}
use incom_udon_server.Platform.{Platform, UdpAddr}
use incom_udon_server.Wire.{be16}
use incom_udon_server.Wire.Types.{ParsedPacket}
use incom_udon_server.Auth.State.{ControlAuthMeta}
use incom_udon_server.Admission.Types.{
  AdmissionKey, admission_key_eq, admission_key_Eq, admission_key_of, IdentityAdmission, Verdict,
  grant, deny,
}
use incom_udon_server.Admission.Ticket.{TicketCodec, validate_ticket}
use incom_udon_server.Admission.Identity.{
  IdentityAdmissionState, cleanup, begin_validated, begin, check_proof, proof, current_verified,
  take_verified_admission, allowed, join_without_admission, admission_for_join, note_failure,
}
use incom_udon_server.Admission.Identity.History.{
  Operation, begins, proves, takes, joins, apply, run, is_proof, is_proved,
}

-- No admission waits for a JOIN under the key.
abbrev Absent : AdmissionKey → Option IdentityAdmissionState → Type 0
Absent k none = Unit {0}
Absent k (some a) = lookup k a.verified ≡ none

cleanup-Absent :
    (k : AdmissionKey) (a : IdentityAdmissionState) (now : ℕ)
    → lookup k a.verified ≡ none
    → lookup k (cleanup a now).verified ≡ none
unfolding cleanup
cleanup-Absent k a now h =
    keep-none (λ j (v : IdentityAdmission). ltb now v.expires_at) k a.verified h

begin_validated-verified :
    (p : Platform) (a : IdentityAdmissionState) (k : AdmissionKey) (public_key : List ℕ)
    (verdict : Verdict IdentityAdmission) (now : ℕ)
    → (begin_validated p a k public_key verdict now).0.verified ≡ a.verified
unfolding begin_validated note_failure
begin_validated-verified p a k public_key (deny reason) now = refl
begin_validated-verified p a k public_key (grant admission) now = ground arith

-- A proof that fails, or is of another key, leaves no admission under the key.
check_proof-Absent :
    (p : Platform) (a : IdentityAdmissionState) (k j : AdmissionKey) (signature : List ℕ) (now : ℕ)
    → lookup k a.verified ≡ none
    → (admission_key_eq j k ≡ false) ⊎ ((check_proof p a j signature now).1 ≢ 0)
    → lookup k (check_proof p a j signature now).0.verified ≡ none
unfolding check_proof note_failure
check_proof-Absent p a k j signature now h (inl other) = elim (Option-cases (lookup j a.pending)) [
  | inl missing ↦ ground (arith, missing, h)
  | inr (pending, here) ↦
      ground (arith, here, h, other, lookup-insert j k pending.admission a.verified)
]
check_proof-Absent p a k j signature now h (inr failed) = elim (Option-cases (lookup j a.pending)) [
  | inl missing ↦ ground (arith, missing, h)
  | inr (pending, here) ↦ ground (arith, here, h, failed)
]

module _ (p : Platform) (codec : TicketCodec) (k : AdmissionKey) where
  apply-Absent :
      (op : Operation) (now : ℕ) (a : Option IdentityAdmissionState)
      → Absent k a
      → is_proof p k op now a ≡ false
      → Absent k (apply p codec op now a)
  unfolding apply is_proof begin proof take_verified_admission admission_for_join
  apply-Absent (begins pkt addr meta) now none h quiet = tt
  apply-Absent (proves pkt addr meta) now none h quiet = tt
  apply-Absent (takes pkt addr meta) now none h quiet = tt
  apply-Absent (joins pkt addr meta) now none h quiet = tt
  apply-Absent (begins pkt addr meta) now (some a) h quiet =
      let ticket_length = be16 (take 2 pkt.payload) in
      let public_key = drop (2 + ticket_length) pkt.payload in
      let verdict =
        validate_ticket p codec a.issuer a.audience a.keys (slice 2 (2 + ticket_length) pkt.payload)
          public_key pkt.header.channel_id pkt.header.sender_id now in
      let j = admission_key_of pkt addr meta.session_id in
      ground (
        arith,
        h,
        cleanup-Absent k a now h,
        begin_validated-verified p (cleanup a now) j public_key verdict now,
      )
  apply-Absent (proves pkt addr meta) now (some a) h quiet =
      let j = admission_key_of pkt addr meta.session_id in
      elim (Bool-cases (length pkt.payload == 64)) [
        | inr short ↦ ground (arith, short, h)
        | inl signed ↦ elim (Bool-cases (admission_key_eq j k)) [
          | inr other ↦ ground (
            arith,
            signed,
            check_proof-Absent p (cleanup a now) k j pkt.payload now (cleanup-Absent k a now h)
                (inl other),
          )
          | inl own ↦ ground (
            arith,
            signed,
            check_proof-Absent p (cleanup a now) k j pkt.payload now (cleanup-Absent k a now h)
                (inr (ground (arith, signed, own, quiet))),
          )
        ]
      ]
  apply-Absent (takes pkt addr meta) now (some a) h quiet =
      let j = admission_key_of pkt addr meta.session_id in
      let clean = cleanup a now in
      ground (arith, cleanup-Absent k a now h, lookup-delete j k clean.verified)
  apply-Absent (joins pkt addr meta) now (some a) h quiet =
      let j = admission_key_of pkt addr meta.session_id in
      let clean = cleanup a now in
      ground (arith, cleanup-Absent k a now h, lookup-delete j k clean.verified)

  run-Absent :
      (ops : List (Operation × ℕ)) (a : Option IdentityAdmissionState)
      → Absent k a
      → is_proved p codec k ops a ≡ false
      → Absent k (run p codec ops a)
  unfolding run is_proved
  run-Absent [] a h quiet = h
  run-Absent ((op, now) ∷ rest) a h quiet =
      run-Absent rest (apply p codec op now a) (apply-Absent op now a h (ground (arith, quiet)))
        (ground (arith, quiet))

-- Where nothing waits under the key, a JOIN gets no admission.
Absent-refuses :
    (a : Option IdentityAdmissionState) (pkt : ParsedPacket) (addr : Option UdpAddr)
    (meta : ControlAuthMeta) (now : ℕ) (again : IdentityAdmission)
    → Absent (admission_key_of pkt addr meta.session_id) a
    → (admission_for_join a pkt addr meta now).1 ≢ allowed (some again)
unfolding admission_for_join current_verified join_without_admission
Absent-refuses none pkt addr meta now again h = ground arith
Absent-refuses (some a) pkt addr meta now again h =
    ground (arith, cleanup-Absent (admission_key_of pkt addr meta.session_id) a now h)

joined-Absent :
    (a b : IdentityAdmissionState) (pkt : ParsedPacket) (addr : Option UdpAddr)
    (meta : ControlAuthMeta) (now : ℕ) (used : IdentityAdmission)
    → admission_for_join (some a) pkt addr meta now ≡ (some b, allowed (some used))
    → (now < used.expires_at)
      × (lookup (admission_key_of pkt addr meta.session_id) b.verified ≡ none)
unfolding admission_for_join current_verified join_without_admission
joined-Absent a b pkt addr meta now used e =
    let k = admission_key_of pkt addr meta.session_id in
    ground (arith, lookup-delete k k (cleanup a now).verified, beq_refl k)

-- A JOIN that uses an admission up does so before it expires. From then on, whatever tickets, proofs,
-- lookups and JOINs of any endpoint follow, no JOIN of the same channel, sender, session and address
-- gets an admission, as long as no proof of theirs is accepted again.
pub admission_for_join_once :
    (p : Platform) (codec : TicketCodec) (a b : IdentityAdmissionState) (pkt pkt' : ParsedPacket)
    (addr addr' : Option UdpAddr) (meta meta' : ControlAuthMeta) (now later : ℕ)
    (used again : IdentityAdmission) (ops : List (Operation × ℕ))
    → admission_for_join (some a) pkt addr meta now ≡ (some b, allowed (some used))
    → is_proved p codec (admission_key_of pkt addr meta.session_id) ops (some b) ≡ false
    → admission_key_of pkt' addr' meta'.session_id ≡ admission_key_of pkt addr meta.session_id
    → (now < used.expires_at)
      × ((admission_for_join (run p codec ops (some b)) pkt' addr' meta' later).1
          ≢ allowed (some again))
admission_for_join_once p codec a b pkt pkt' addr addr' meta meta' now later used again ops e quiet
      same =
    let (in_time, gone) = joined-Absent a b pkt addr meta now used e in
    let after =
      run-Absent p codec (admission_key_of pkt addr meta.session_id) ops (some b) gone quiet in
    (
      in_time,
      Absent-refuses (run p codec ops (some b)) pkt' addr' meta' later again
          (transport (ap (λ k. Absent k (run p codec ops (some b))) (sym same)) after),
    )
