-- ===== src/Relay/Revocation.antt =====
-- `revokeManagedServiceAdmission` of management.go: a deny rule, the end of the memberships that it
-- is about, and what is sent for each.
use Prim.Native.String.{String}
use incom_udon_server.Base.{
  ℕ, ◌+◌, ◌%◌, ◌^◌, List, [], ◌∷◌, ◌++◌, Bool, true, false, not, Option, none, some, ◌==◌,
  if◌then◌else◌, length, nat_eq, string_eq,
}
use incom_udon_server.Base.Assoc.{Map, lookup, delete}
use incom_udon_server.Platform.{Platform}
use incom_udon_server.Wire.Types.{pkt_talk_release, talk_release_service_revoked}
use incom_udon_server.Wire.Build.{talk_release_payload}
use incom_udon_server.Admission.Types.{ServiceAdmission}
use incom_udon_server.Admission.Service.{
  ServiceAdmissionRevocationTarget, target_matches, install_revocation,
}
use incom_udon_server.Relay.{
  Peer, Channel, Server, set_channel, revocation_audit, revoked_talk_ended, revoked_left,
  service_admission_revoked,
}
use incom_udon_server.Relay.Floor.{is_active}
use incom_udon_server.Relay.Membership.{put_or_delete, drop_peer}
use incom_udon_server.Relay.Output.{
  Output, note, broadcast_relay_control, relay_control_for_peer, datagrams,
}
pub mod Exact

pub record RevokedPeer : Type 0 where
  pub sender_id : ℕ
  pub service_id : List ℕ
  pub active : Bool
  pub peer : Peer

pub record ManagedServiceRevocationResult : Type 0 where
  pub affected_memberships : ℕ
  pub talk_releases : ℕ

-- The admission of a peer that the revocation is about.
abbrev matching :
    ServiceAdmissionRevocationTarget → Option ServiceAdmission → Option ServiceAdmission
matching target none = none
matching target (some admission) =
    if target_matches target target.channel_id admission then some admission else none

unfoldable pub revoked_admission : ServiceAdmissionRevocationTarget → Peer → Option ServiceAdmission
revoked_admission target peer = matching target peer.service_admission

-- The loop over the peers, on the channel that it changes.
unfoldable pub revoke_peers :
    ServiceAdmissionRevocationTarget → Map String Peer → Channel → Channel × List RevokedPeer
revoke_peers target [] ch = (ch, [])
revoke_peers target ((key, peer) ∷ peers) ch = elim (revoked_admission target peer) [
  | none ↦ revoke_peers target peers ch
  | some admission ↦
      let (rest, revoked) = revoke_peers target peers (drop_peer ch key peer) in
      (
        rest,
        record {
          sender_id = peer.sender_id;
          service_id = admission.service_id;
          active = is_active ch peer.sender_id;
          peer = peer;
        }
            ∷ revoked,
      )
]

-- The release of a revoked talker, to the channel and to the talker itself, who is no member any more.
unfoldable pub release_revoked : Platform → ℕ → RevokedPeer → Server → Server × List Output
release_revoked p channel_id revoked s =
    let payload = talk_release_payload revoked.sender_id talk_release_service_revoked in
    let (s1, released) =
      broadcast_relay_control p s channel_id pkt_talk_release revoked.sender_id payload in
    let (s2, packet) =
      relay_control_for_peer p s1 channel_id (some revoked.peer) pkt_talk_release revoked.sender_id
        payload in
    let ended = note (revoked_talk_ended channel_id revoked.sender_id revoked.service_id) in
    if revoked.active
    then (s2, released ++ (datagrams revoked.peer.addr packet ++ (ended ∷ [])))
    else (s, [])

unfoldable pub announce_revoked : Platform → ℕ → List RevokedPeer → Server → Server × List Output
announce_revoked p channel_id [] s = (s, [])
announce_revoked p channel_id (revoked ∷ others) s =
    let (s1, released) = release_revoked p channel_id revoked s in
    let (s2, rest) = announce_revoked p channel_id others s1 in
    (
      s2,
      note (revocation_audit channel_id)
          ∷ (released
              ++ (note (revoked_left channel_id revoked.sender_id revoked.service_id)
                  ∷ (note
                        (service_admission_revoked channel_id revoked.sender_id revoked.service_id)
                      ∷ rest))),
    )

abbrev count_active : List RevokedPeer → ℕ
count_active [] = 0
count_active (revoked ∷ others) =
    if revoked.active then 1 + count_active others else count_active others

-- The memberships that end: the state after, and the peers of them.
unfoldable pub end_memberships :
    Server → ServiceAdmissionRevocationTarget → Server × List RevokedPeer
end_memberships s target = elim (lookup target.channel_id s.channels) [
  | none ↦ (s, [])
  | some ch ↦
      let (rest, revoked) = revoke_peers target ch.peers ch in
      (put_or_delete s target.channel_id rest, revoked)
]

unfoldable pub revoke_managed_service_admission :
    Platform
    → Server
    → ServiceAdmissionRevocationTarget
    → ℕ
    → ℕ
    → (Server × List Output) × Option ManagedServiceRevocationResult
revoke_managed_service_admission p s target deny_until now =
    let (services, installed) = install_revocation s.service_admission target deny_until now in
    let asked = record s { service_admission = services } in
    let (ended, revoked) = end_memberships asked target in
    let result = announce_revoked p target.channel_id revoked ended in
    if not installed then ((asked, []), none) else (
      result,
      some (record {
        affected_memberships = length revoked % 2 ^ 32;
        talk_releases = count_active revoked % 2 ^ 32;
      }),
    )
