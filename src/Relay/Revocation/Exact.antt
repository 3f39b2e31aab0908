-- ===== src/Relay/Revocation/Exact.antt =====
-- What a revocation leaves.
use Prim.Native.String.{String}
use mathlib.Core.Path.{transport}
use incom_udon_server.Base.{
  ℕ, ◌<◌, ◌≡◌, ◌≢◌, ◌⊎◌, refl, arith, List, [], ◌∷◌, true, false, length, ◌==◌, Option, none, some,
  nat_eq, string_eq, bytes_eq, bytes_eq_iff, inl, inr, Option-cases, Bool-cases, ap, sym,
}
use incom_udon_server.Admission.Types.{ServiceAdmission}
use incom_udon_server.Base.Assoc.{Map, lookup, lookup-delete, Distinct}
use incom_udon_server.Platform.{Platform}
use incom_udon_server.Admission.Service.{
  ServiceAdmissionRevocationTarget, install_revocation, target_matches, hash_fits,
}
use incom_udon_server.Relay.{Peer, Channel, Server}
use incom_udon_server.Relay.Membership.{drop_peer}
use incom_udon_server.Relay.Output.{broadcast_relay_control}
use incom_udon_server.Relay.Output.Sent.{
  Sent, Sent-refl, Sent-trans, unchanged-Sent, along-Sent, relay_control_for_peer-Sent,
}
use incom_udon_server.Relay.Output.Sends.{broadcast_relay_control-Sent}
use incom_udon_server.Relay.Expiry.{member_at, put_or_delete-member_at}
use incom_udon_server.Wire.Types.{pkt_talk_release, talk_release_service_revoked}
use incom_udon_server.Wire.Build.{talk_release_payload}
use incom_udon_server.Relay.Revocation.{
  RevokedPeer, ManagedServiceRevocationResult, revoked_admission, revoke_peers, release_revoked,
  announce_revoked, end_memberships, revoke_managed_service_admission,
}

-- What stays of an entry, given the peer that the loop meets under its key.
abbrev spared : ServiceAdmissionRevocationTarget → Option Peer → Option Peer → Option Peer
spared target none entry = entry
spared target (some peer) entry = elim (revoked_admission target peer) [
  | none ↦ entry
  | some admission ↦ none
]

revoke_peers-lookup :
    (target : ServiceAdmissionRevocationTarget) (key : String) (peers : Map String Peer)
    (ch : Channel)
    → Distinct peers
    → lookup key (revoke_peers target peers ch).0.peers
      ≡ spared target (lookup key peers) (lookup key ch.peers)
unfolding revoke_peers lookup
revoke_peers-lookup target key [] ch distinct = refl
revoke_peers-lookup target key ((k, peer) ∷ peers) ch distinct =
    elim (Option-cases (revoked_admission target peer)) [
      | inl stays ↦ ground (
        arith,
        stays,
        distinct,
        string_eq.beq_iff k key,
        revoke_peers-lookup target key peers ch distinct.1,
      )
      | inr (admission, revoked) ↦ ground (
        arith,
        revoked,
        distinct,
        string_eq.beq_iff k key,
        lookup-delete k key ch.peers,
        revoke_peers-lookup target key peers (drop_peer ch k peer) distinct.1,
      )
    ]

end_memberships-member_at :
    (s : Server) (target : ServiceAdmissionRevocationTarget) (ch : Channel) (key : String)
    → lookup target.channel_id s.channels ≡ some ch
    → Distinct ch.peers
    → member_at (end_memberships s target).0 target.channel_id key
      ≡ spared target (lookup key ch.peers) (lookup key ch.peers)
unfolding end_memberships
end_memberships-member_at s target ch key here distinct = ground (
  arith,
  here,
  put_or_delete-member_at s target.channel_id (revoke_peers target ch.peers ch).0 key,
  revoke_peers-lookup target key ch.peers ch distinct,
)

module _ (p : Platform) (channel_id : ℕ) where
  release_revoked-Sent :
      (revoked : RevokedPeer) (s : Server) → Sent p s (release_revoked p channel_id revoked s).0
  unfolding release_revoked
  release_revoked-Sent revoked s =
      let payload = talk_release_payload revoked.sender_id talk_release_service_revoked in
      let s1 =
        (broadcast_relay_control p s channel_id pkt_talk_release revoked.sender_id payload).0 in
      elim (Bool-cases revoked.active) [
        | inl active ↦ along-Sent p (ground (arith, active)) (
            Sent-trans p
              (broadcast_relay_control-Sent p s channel_id pkt_talk_release revoked.sender_id
                payload)
              (relay_control_for_peer-Sent p s1 channel_id (some revoked.peer) pkt_talk_release
                revoked.sender_id payload))
        | inr silent ↦ unchanged-Sent p (ground (arith, silent))
      ]

  announce_revoked-Sent :
      (revoked : List RevokedPeer) (s : Server)
      → Sent p s (announce_revoked p channel_id revoked s).0
  unfolding announce_revoked
  announce_revoked-Sent [] s = Sent-refl p s
  announce_revoked-Sent (r ∷ others) s =
      Sent-trans p (release_revoked-Sent r s)
        (announce_revoked-Sent others (release_revoked p channel_id r s).0)

member_at-Sent :
    (p : Platform) (s s' : Server) (channel_id : ℕ) (key : String)
    → Sent p s s'
    → member_at s' channel_id key ≡ member_at s channel_id key
member_at-Sent p s s' channel_id key f = ground (arith, f.channels)

-- The target names an admission: by the service, if it names one, and by the grant, if it names one.
abbrev IsNamed : ServiceAdmissionRevocationTarget → ServiceAdmission → Type 0
IsNamed target admission =
    ((length target.service_id ≡ 0) ⊎ (target.service_id ≡ admission.service_id))
    × ((target.grant_id_hash ≡ none) ⊎ (target.grant_id_hash ≡ some admission.grant_id_hash))

-- The target names another service, or another grant.
abbrev IsOther : ServiceAdmissionRevocationTarget → ServiceAdmission → Type 0
IsOther target admission =
    ((0 < length target.service_id) × (target.service_id ≢ admission.service_id))
    ⊎ ((hash : List ℕ) × (target.grant_id_hash ≡ some hash) × (hash ≢ admission.grant_id_hash))

-- What a revocation makes of the entry of a member, given the service admission of that member.
abbrev pub Judged :
    ServiceAdmissionRevocationTarget → Option ServiceAdmission → Option Peer → Option Peer → Type 0
Judged target none before after = after ≡ before
Judged target (some admission) before after =
    (IsNamed target admission × (after ≡ none)) ⊎ (IsOther target admission × (after ≡ before))

abbrev pub Revoked : ServiceAdmissionRevocationTarget → Option Peer → Option Peer → Type 0
Revoked target none after = after ≡ none
Revoked target (some peer) after = Judged target peer.service_admission (some peer) after

hash-cases :
    (target : ServiceAdmissionRevocationTarget) (admission : ServiceAdmission)
    → ((hash_fits target.grant_id_hash admission.grant_id_hash ≡ true)
        × ((target.grant_id_hash ≡ none) ⊎ (target.grant_id_hash ≡ some admission.grant_id_hash)))
      ⊎ ((hash_fits target.grant_id_hash admission.grant_id_hash ≡ false)
          × ((hash : List ℕ) × (target.grant_id_hash ≡ some hash)
              × (hash ≢ admission.grant_id_hash)))
hash-cases target admission = elim (Option-cases target.grant_id_hash) [
  | inl missing ↦ inl (ground (arith, missing), inl missing)
  | inr (hash, here) ↦ elim (Bool-cases (bytes_eq hash admission.grant_id_hash)) [
    | inl equal ↦ inl (
      ground (arith, here, equal),
      inr (ground (arith, here, equal, bytes_eq_iff hash admission.grant_id_hash)),
    )
    | inr other ↦ inr (
      ground (arith, here, other),
      (hash, here, ground (arith, other, bytes_eq_iff hash admission.grant_id_hash)),
    )
  ]
]

service-cases :
    (target : ServiceAdmissionRevocationTarget) (admission : ServiceAdmission)
    → ((length target.service_id ≡ 0) ⊎ (target.service_id ≡ admission.service_id))
      ⊎ ((0 < length target.service_id) × (target.service_id ≢ admission.service_id))
service-cases target admission = elim (Bool-cases (length target.service_id == 0)) [
  | inl empty ↦ inl (inl (ground (arith, empty)))
  | inr present ↦ elim (Bool-cases (bytes_eq target.service_id admission.service_id)) [
    | inl equal ↦
        inl (inr (ground (arith, equal, bytes_eq_iff target.service_id admission.service_id)))
    | inr other ↦ inr (
      ground (arith, present),
      ground (arith, other, bytes_eq_iff target.service_id admission.service_id),
    )
  ]
]

IsNamed-cases :
    (target : ServiceAdmissionRevocationTarget) (admission : ServiceAdmission)
    → ((target_matches target target.channel_id admission ≡ true) × IsNamed target admission)
      ⊎ ((target_matches target target.channel_id admission ≡ false) × IsOther target admission)
unfolding target_matches
IsNamed-cases target admission =
    let fits = bytes_eq_iff target.service_id admission.service_id in
    elim (service-cases target admission) [
      | inr other ↦ inr (ground (arith, other, fits), inl other)
      | inl named ↦ elim (hash-cases target admission) [
        | inl (same, granted) ↦ inl (ground (arith, named, fits, same), (named, granted))
        | inr (different, other) ↦ inr (ground (arith, named, fits, different), inr other)
      ]
    ]

spared-Revoked :
    (target : ServiceAdmissionRevocationTarget) (entry : Option Peer)
    → Revoked target entry (spared target entry entry)
unfolding revoked_admission
spared-Revoked target none = refl
spared-Revoked target (some peer) = judge peer.service_admission refl
  where
    judge :
        (admission : Option ServiceAdmission)
        → peer.service_admission ≡ admission
        → Judged target admission (some peer) (spared target (some peer) (some peer))
    judge none here = ground (arith, here)
    judge (some admission) here = elim (IsNamed-cases target admission) [
      | inl (matches, named) ↦ inl (named, ground (arith, here, matches))
      | inr (differs, other) ↦ inr (other, ground (arith, here, differs))
    ]

-- A revocation that is applied ends exactly the memberships that it is about. In its channel, where no
-- address stands twice there, the member under an address is gone if it has a service admission of the
-- service and of the grant that the target names, where either may be left open; it stays as it was if
-- it has no service admission, or one of another service or grant. An address without a member gets
-- none.
pub revoke_managed_service_admission_exact :
    (p : Platform) (s : Server) (target : ServiceAdmissionRevocationTarget) (deny_until now : ℕ)
    (ch : Channel) (key : String) (result : ManagedServiceRevocationResult)
    → (revoke_managed_service_admission p s target deny_until now).1 ≡ some result
    → lookup target.channel_id s.channels ≡ some ch
    → Distinct ch.peers
    → Revoked target (lookup key ch.peers) (
        member_at
          (revoke_managed_service_admission p s target deny_until now).0.0
          target.channel_id
          key)
unfolding revoke_managed_service_admission
revoke_managed_service_admission_exact p s target deny_until now ch key result applied here
      distinct =
    let services = (install_revocation s.service_admission target deny_until now).0 in
    let asked : Server = record s { service_admission = services } in
    let ended = end_memberships asked target in
    let final = (revoke_managed_service_admission p s target deny_until now).0.0 in
    let after : member_at final target.channel_id key
        ≡ spared target (lookup key ch.peers) (lookup key ch.peers) =
      ground (
        arith,
        applied,
        end_memberships-member_at asked target ch key here distinct,
        member_at-Sent p ended.0 (announce_revoked p target.channel_id ended.1 ended.0).0
            target.channel_id key (announce_revoked-Sent p target.channel_id ended.1 ended.0),
      ) in
    transport (ap (Revoked target (lookup key ch.peers)) (sym after))
      (spared-Revoked target (lookup key ch.peers))
