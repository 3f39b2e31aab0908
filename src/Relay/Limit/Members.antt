-- ===== src/Relay/Limit/Members.antt =====
-- The number of active talkers, across what changes the peers of a channel.
use incom_udon_server.Base.{
  ℕ, ◌+◌, ◌≡◌, arith, Option, none, some, nat_eq, string_eq, Option-cases, inl, inr,
}
use incom_udon_server.Base.Assoc.{lookup, insert, lookup-insert}
use incom_udon_server.Platform.{UdpAddr, peer_map_key}
use incom_udon_server.Admission.Types.{IdentityAdmission}
use incom_udon_server.Relay.{
  Peer, Channel, Server, get_or_create_channel, empty_channel, set_peer, peer_at,
}
use incom_udon_server.Relay.Floor.{talker_limit}
use incom_udon_server.Relay.Membership.{start_membership, refresh_membership}
use incom_udon_server.Relay.Peers.{upsert_peer, remove_peer, removed_key, without_peer, or_new}
use incom_udon_server.Relay.Join.{set_peer_identity_admission}
use incom_udon_server.Relay.Limit.{
  IsWithinLimit, set_channel-IsWithinLimit, put_or_delete-IsWithinLimit,
}

module _ (s : Server) (h : IsWithinLimit s) (channel_id : ℕ) where
  pub set_peer-IsWithinLimit :
      (ch : Channel) (addr : UdpAddr) (peer : Peer)
      → lookup channel_id s.channels ≡ some ch
      → IsWithinLimit (set_peer s channel_id ch addr peer)
  set_peer-IsWithinLimit ch addr peer here =
      set_channel-IsWithinLimit s h channel_id
        (record ch { peers = insert (peer_map_key (some addr)) peer ch.peers })
        (h channel_id ch here)

  pub start_membership-IsWithinLimit :
      (sender_id : ℕ) (addr : Option UdpAddr) (now : ℕ)
      → IsWithinLimit (start_membership s channel_id sender_id addr now).0
  unfolding start_membership
  start_membership-IsWithinLimit sender_id none now other found e = h other found e
  start_membership-IsWithinLimit sender_id (some addr) now other found e =
      elim (Option-cases (lookup channel_id s.channels)) [
        | inl missing ↦ ground (arith, missing, h other found)
        | inr (ch, here) ↦ elim (Option-cases (peer_at ch sender_id addr)) [
          | inl gone ↦ ground (arith, here, gone, h other found)
          | inr (peer, is_there) ↦ ground (
            arith,
            here,
            is_there,
            h other found,
            set_peer-IsWithinLimit ch addr
                (record peer {
                  membership_lease = s.membership_lease;
                  keepalive_interval = s.keepalive_interval;
                  membership_deadline = now + s.membership_lease;
                  last_seen = now;
                })
                here other found,
          )
        ]
      ]

  pub refresh_membership-IsWithinLimit :
      (sender_id : ℕ) (addr : Option UdpAddr) (now : ℕ)
      → IsWithinLimit (refresh_membership s channel_id sender_id addr now).0
  unfolding refresh_membership
  refresh_membership-IsWithinLimit sender_id none now other found e = h other found e
  refresh_membership-IsWithinLimit sender_id (some addr) now other found e =
      elim (Option-cases (lookup channel_id s.channels)) [
        | inl missing ↦ ground (arith, missing, h other found)
        | inr (ch, here) ↦ elim (Option-cases (peer_at ch sender_id addr)) [
          | inl gone ↦ ground (arith, here, gone, h other found)
          | inr (peer, is_there) ↦ ground (
            arith,
            here,
            is_there,
            h other found,
            set_peer-IsWithinLimit ch addr
                (record peer { membership_deadline = now + peer.membership_lease; last_seen = now })
                here other found,
          )
        ]
      ]

  pub set_peer_identity_admission-IsWithinLimit :
      (sender_id : ℕ) (addr : Option UdpAddr) (admission : IdentityAdmission)
      → IsWithinLimit (set_peer_identity_admission s channel_id sender_id addr admission).0
  unfolding set_peer_identity_admission
  set_peer_identity_admission-IsWithinLimit sender_id none admission other found e = h other found e
  set_peer_identity_admission-IsWithinLimit sender_id (some addr) admission other found e =
      elim (Option-cases (lookup channel_id s.channels)) [
        | inl missing ↦ ground (arith, missing, h other found)
        | inr (ch, here) ↦ elim (Option-cases (peer_at ch sender_id addr)) [
          | inl gone ↦ ground (arith, here, gone, h other found)
          | inr (peer, is_there) ↦ ground (
            arith,
            here,
            is_there,
            h other found,
            set_peer-IsWithinLimit ch addr (record peer { identity_admission = some admission })
                here other found,
          )
        ]
      ]

  pub remove_peer-IsWithinLimit :
      (sender_id : ℕ) (addr : Option UdpAddr)
      → IsWithinLimit (remove_peer s channel_id sender_id addr)
  unfolding remove_peer
  remove_peer-IsWithinLimit sender_id addr other found e =
      elim (Option-cases (lookup channel_id s.channels)) [
        | inl missing ↦ ground (arith, missing, h other found)
        | inr (ch, here) ↦ elim (Option-cases (removed_key ch sender_id addr)) [
          | inl nobody ↦ ground (
            arith,
            here,
            nobody,
            put_or_delete-IsWithinLimit s h channel_id ch (h channel_id ch here) other found,
          )
          | inr (key, somebody) ↦ ground (
            arith,
            here,
            somebody,
            put_or_delete-IsWithinLimit s h channel_id (without_peer ch sender_id key)
                (ground (arith, h channel_id ch here)) other found,
          )
        ]
      ]

  pub get_or_create_channel-IsWithinLimit : IsWithinLimit (get_or_create_channel s channel_id).0
  unfolding get_or_create_channel
  get_or_create_channel-IsWithinLimit other found e =
      elim (Option-cases (lookup channel_id s.channels)) [
        | inl missing ↦ ground (
          arith,
          missing,
          set_channel-IsWithinLimit s h channel_id empty_channel (omega arith) other found,
        )
        | inr (ch, here) ↦ ground (arith, here, h other found)
      ]

pub get_or_create_channel-found :
    (s : Server) (channel_id : ℕ)
    → lookup channel_id (get_or_create_channel s channel_id).0.channels
      ≡ some (get_or_create_channel s channel_id).1
unfolding get_or_create_channel
get_or_create_channel-found s channel_id = elim (Option-cases (lookup channel_id s.channels)) [
  | inl missing ↦
      ground (arith, missing, lookup-insert channel_id channel_id empty_channel s.channels)
  | inr (ch, here) ↦ ground (arith, here)
]

pub upsert_peer-IsWithinLimit :
    (s : Server) (channel_id sender_id : ℕ) (addr : Option UdpAddr) (now : ℕ)
    → IsWithinLimit s
    → IsWithinLimit (upsert_peer s channel_id sender_id addr now)
unfolding upsert_peer
upsert_peer-IsWithinLimit s channel_id sender_id none now h other found e =
    get_or_create_channel-IsWithinLimit s h channel_id other found e
upsert_peer-IsWithinLimit s channel_id sender_id (some addr) now h other found e =
    let s' : Server = (get_or_create_channel s channel_id).0 in
    let ch : Channel = (get_or_create_channel s channel_id).1 in
    let h' = get_or_create_channel-IsWithinLimit s h channel_id in
    ground (
      arith,
      h' other found,
      set_peer-IsWithinLimit s' h' channel_id ch addr
          (record (or_new addr (lookup (peer_map_key (some addr)) ch.peers)) {
            sender_id = sender_id;
            addr = some addr;
            last_seen = now;
          })
          (get_or_create_channel-found s channel_id) other found,
    )

-- Only the channels and the limit count.
pub same-IsWithinLimit :
    (s s' : Server)
    → s'.channels ≡ s.channels
    → talker_limit s' ≡ talker_limit s
    → IsWithinLimit s
    → IsWithinLimit s'
same-IsWithinLimit s s' channels limit h other found e =
    ground (arith, channels, limit, e, h other found)
