-- ===== src/Relay/Membership.antt =====
-- Membership of main.go: `startMembership`, `refreshMembership`, `membershipTimingForPeer`,
-- `membershipExpired`, `expireMembershipIfNeeded` and `emitMembershipExpirations`.
use Prim.Native.String.{String}
use incom_udon_server.Base.{
  ℕ, ◌+◌, List, [], ◌∷◌, Bool, true, false, not, ◌&&◌, ◌||◌, Option, none, some, ltb, leb, ◌==◌,
  if◌then◌else◌, length, nat_eq, string_eq,
}
use incom_udon_server.Base.Assoc.{Map, lookup, delete}
use incom_udon_server.Platform.{UdpAddr}
use incom_udon_server.Wire.Types.{
  pkt_talk_release, talk_release_identity_expired, talk_release_service_expired,
  talk_release_membership_timeout,
}
use incom_udon_server.Wire.Build.{talk_release_payload}
use incom_udon_server.Admission.Types.{IdentityAdmission, ServiceAdmission, expiry_deadline}
use incom_udon_server.Relay.{
  Peer, Channel, Server, Effect, broadcast, talk_ended, participant_left, set_channel, peer_at,
  set_peer,
}
use incom_udon_server.Relay.Floor.{is_active}

unfoldable pub start_membership : Server → ℕ → ℕ → Option UdpAddr → ℕ → Server × Bool
start_membership s channel_id sender_id none now = (s, false)
start_membership s channel_id sender_id (some addr) now =
    if sender_id == 0 then (s, false) else elim (lookup channel_id s.channels) [
      | none ↦ (s, false)
      | some ch ↦ elim (peer_at ch sender_id addr) [
        | none ↦ (s, false)
        | some peer ↦ (
          set_peer s channel_id ch addr (record peer {
            membership_lease = s.membership_lease;
            keepalive_interval = s.keepalive_interval;
            membership_deadline = now + s.membership_lease;
            last_seen = now;
          }),
          true,
        )
      ]
    ]

unfoldable pub refresh_membership : Server → ℕ → ℕ → Option UdpAddr → ℕ → Server × Bool
refresh_membership s channel_id sender_id none now = (s, false)
refresh_membership s channel_id sender_id (some addr) now =
    if sender_id == 0 then (s, false) else elim (lookup channel_id s.channels) [
      | none ↦ (s, false)
      | some ch ↦ elim (peer_at ch sender_id addr) [
        | none ↦ (s, false)
        | some peer ↦
            if (peer.membership_deadline == 0) || not (ltb now peer.membership_deadline)
            then (s, false)
            else (
              set_peer s channel_id ch addr (record peer {
                membership_deadline = now + peer.membership_lease;
                last_seen = now;
              }),
              true,
            )
      ]
    ]

-- The first peer of the sender that has both times.
unfoldable pub timing_of : Map String Peer → ℕ → ℕ × ℕ → ℕ × ℕ
timing_of [] sender_id default = default
timing_of ((key, peer) ∷ peers) sender_id default =
    let rest = timing_of peers sender_id default in
    if (peer.sender_id == sender_id) && ltb 0 peer.membership_lease && ltb 0 peer.keepalive_interval
    then (peer.membership_lease, peer.keepalive_interval)
    else rest

unfoldable pub membership_timing_for_peer : Server → ℕ → ℕ → ℕ × ℕ
membership_timing_for_peer s channel_id sender_id =
    let default : ℕ × ℕ = (s.membership_lease, s.keepalive_interval) in
    elim (lookup channel_id s.channels) [
      | none ↦ default
      | some ch ↦ timing_of ch.peers sender_id default
    ]

abbrev pub identity_end : Option IdentityAdmission → Option ℕ
identity_end none = none
identity_end (some a) = some a.expires_at

abbrev pub service_end : Option ServiceAdmission → Option ℕ
service_end none = none
service_end (some a) = some (expiry_deadline a)

-- Whether an end, if there is one, is not after a time; and whether it is before one.
abbrev pub is_over : Option ℕ → ℕ → Bool
is_over none now = false
is_over (some end) now = leb end now

abbrev is_sooner : Option ℕ → ℕ → Bool
is_sooner none time = false
is_sooner (some end) time = ltb end time

abbrev pub normal_expired : Peer → ℕ → Bool
normal_expired peer now = not (peer.membership_deadline == 0) && leb peer.membership_deadline now

-- The reason of an expiry, or none.
unfoldable pub membership_expired : Peer → ℕ → Option ℕ
membership_expired peer now =
    let normal = normal_expired peer now in
    let identity = identity_end peer.identity_admission in
    let service = service_end peer.service_admission in
    let identity_expired = is_over identity now in
    let service_expired = is_over service now in
    let is_first = λ (end : Option ℕ).
      not normal || (peer.membership_deadline == 0) || is_sooner end peer.membership_deadline in
    if not normal && not identity_expired && not service_expired
    then none
    else if identity_expired && is_first identity
    then some talk_release_identity_expired
    else if service_expired && is_first service
    then some talk_release_service_expired
    else some talk_release_membership_timeout

pub record MembershipExpiry : Type 0 where
  pub sender_id : ℕ
  pub reason : ℕ
  pub active : Bool

abbrev insert_expiry : MembershipExpiry → List MembershipExpiry → List MembershipExpiry
insert_expiry x [] = x ∷ []
insert_expiry x (y ∷ ys) =
    let rest = insert_expiry x ys in if leb x.sender_id y.sender_id then x ∷ (y ∷ ys) else y ∷ rest

-- What an expired peer takes with it.
abbrev pub drop_peer : Channel → String → Peer → Channel
drop_peer ch key peer = record {
  peers = delete key ch.peers;
  active_talkers = delete peer.sender_id ch.active_talkers;
  codec_configs = delete peer.sender_id ch.codec_configs;
  media_codec_configs = delete peer.sender_id ch.media_codec_configs;
}

-- The loop over the peers, on the channel that it changes.
unfoldable pub expire_peers : ℕ → Map String Peer → Channel → Channel × List MembershipExpiry
expire_peers now [] ch = (ch, [])
expire_peers now ((key, peer) ∷ peers) ch = elim (membership_expired peer now) [
  | none ↦ expire_peers now peers ch
  | some reason ↦
      let (rest, released) = expire_peers now peers (drop_peer ch key peer) in
      (
        rest,
        record { sender_id = peer.sender_id; reason = reason; active = is_active ch peer.sender_id }
            ∷ released,
      )
]

unfoldable pub sort_expiries : List MembershipExpiry → List MembershipExpiry
sort_expiries [] = []
sort_expiries (x ∷ xs) = insert_expiry x (sort_expiries xs)

-- A channel without peers is deleted.
abbrev pub put_or_delete : Server → ℕ → Channel → Server
put_or_delete s channel_id ch =
    if length ch.peers == 0
    then record s { channels = delete channel_id s.channels }
    else set_channel s channel_id ch

unfoldable pub expire_membership_if_needed : Server → ℕ → ℕ → Server × List MembershipExpiry
expire_membership_if_needed s channel_id now = elim (lookup channel_id s.channels) [
  | none ↦ (s, [])
  | some ch ↦
      let (rest, released) = expire_peers now ch.peers ch in
      (put_or_delete s channel_id rest, sort_expiries released)
]

unfoldable pub expiry_effects : ℕ → List MembershipExpiry → List Effect
expiry_effects channel_id [] = []
expiry_effects channel_id (expiry ∷ expiries) =
    let rest =
      participant_left channel_id expiry.sender_id expiry.reason
      ∷ expiry_effects channel_id expiries in
    if expiry.active
    then broadcast channel_id pkt_talk_release expiry.sender_id
        (talk_release_payload expiry.sender_id expiry.reason)
      ∷ (talk_ended channel_id expiry.sender_id expiry.reason ∷ rest)
    else rest

unfoldable pub emit_membership_expirations : Server → ℕ → ℕ → Server × List Effect
emit_membership_expirations s channel_id now =
    let (s', expiries) = expire_membership_if_needed s channel_id now in
    (s', expiry_effects channel_id expiries)
