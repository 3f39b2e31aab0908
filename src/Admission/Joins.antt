-- ===== src/Admission/Joins.antt =====
-- What a proof of possession and a JOIN need of the identity admission state.
use incom_udon_server.Base.{
  ℕ, ◌<◌, ◌≡◌, ◌≢◌, arith, true, Option, none, some, Option-cases, beq_refl, inl, inr,
}
use incom_udon_server.Base.Assoc.{lookup, lookup-insert, lookup-delete}
use incom_udon_server.Platform.{Platform, UdpAddr}
use incom_udon_server.Wire.Types.{ParsedPacket}
use incom_udon_server.Auth.State.{ControlAuthMeta}
use incom_udon_server.Admission.Types.{admission_key_Eq, admission_key_of}
use incom_udon_server.Admission.Identity.{
  required, IdentityAdmissionState, IdentityPendingAdmission, cleanup, identity_proof_message,
  check_proof, proof, allowed, join_without_admission, admission_for_join,
}

-- In the required mode no JOIN goes on without an admission.
pub admission_for_join_required :
    (a : IdentityAdmissionState) (pkt : ParsedPacket) (addr : Option UdpAddr)
    (meta : ControlAuthMeta) (now : ℕ)
    → a.mode ≡ required
    → (admission_for_join (some a) pkt addr meta now).1 ≢ allowed none
unfolding admission_for_join join_without_admission cleanup
admission_for_join_required a pkt addr meta now h = ground arith

-- A proof is accepted only for a challenge of this endpoint and session that has not run out, under a
-- signature of the key that the ticket names over that challenge, the channel, the sender and the
-- ticket's hash; it uses the challenge up and leaves the ticket's admission for a JOIN.
pub proof_sound :
    (p : Platform) (a b : IdentityAdmissionState) (pkt : ParsedPacket) (addr : Option UdpAddr)
    (meta : ControlAuthMeta) (now : ℕ)
    → proof p (some a) pkt addr meta now ≡ (some b, 0)
    → (pending : IdentityPendingAdmission) × ((lookup
            (admission_key_of pkt addr meta.session_id)
            (cleanup a now).pending
          ≡ some pending)
        × ((now < pending.expires_at)
            × ((p.ed25519_verify pending.public_key
                    (identity_proof_message p pending.challenge pkt.header.channel_id
                      pkt.header.sender_id pending.admission.ticket_hash)
                    pkt.payload
                  ≡ true)
                × ((lookup (admission_key_of pkt addr meta.session_id) b.pending ≡ none)
                    × (lookup (admission_key_of pkt addr meta.session_id) b.verified
                        ≡ some pending.admission)))))
unfolding proof check_proof
proof_sound p a b pkt addr meta now h =
    let k = admission_key_of pkt addr meta.session_id in
    elim (Option-cases (lookup k (cleanup a now).pending)) [
      | inl missing ↦ ground (arith, missing)
      | inr (pending, found) ↦ (
        pending,
        ground (
          arith,
          found,
          lookup-delete k k (cleanup a now).pending,
          lookup-insert k k pending.admission (cleanup a now).verified,
          beq_refl k,
        ),
      )
    ]
