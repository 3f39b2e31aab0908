-- ===== src/Relay/Peers.antt =====
-- The peers of a channel: `upsertPeer`, `touchKnownPeer`, `acceptUnauthenticatedPeerControl`,
-- `isActiveTalkerEndpoint`, `removePeer` and `peerHasIdentityAdmission` of main.go, and
-- `upsertAuthenticatedPeerWithReplay`, `acceptAuthenticatedPeerControl` and `isAuthenticatedPeer` of
-- control_auth.go.
use Prim.Native.String.{String}
use incom_udon_server.Base.{
  ℕ, [], ◌∷◌, Bool, true, false, not, ◌&&◌, ◌||◌, Option, none, some, ◌==◌, if◌then◌else◌, is_some,
  nat_eq, string_eq,
}
use incom_udon_server.Base.Assoc.{Map, lookup, delete, insert}
use incom_udon_server.Platform.{Platform, UdpAddr, peer_map_key}
use incom_udon_server.Replay.{accept_replay_counter}
use incom_udon_server.Wire.Types.{ParsedPacket}
use incom_udon_server.Auth.State.{ControlAuthMeta, ProvisionalReplayState}
use incom_udon_server.Relay.{
  Peer, Channel, Server, get_or_create_channel, set_channel, peer_at, set_peer,
}
use incom_udon_server.Relay.Floor.{is_active}
use incom_udon_server.Relay.Membership.{put_or_delete}

-- `&peer{addr: addr}`
abbrev pub new_peer : UdpAddr → Peer
new_peer addr = record {
  sender_id = 0;
  addr = some addr;
  last_seen = 0;
  authenticated = false;
  control_session_id = 0;
  control_key_id = 0;
  control_window = record { highest = 0; seen = 0 };
  identity_admission = none;
  service_admission = none;
  membership_lease = 0;
  keepalive_interval = 0;
  membership_deadline = 0;
}

abbrev pub or_new : UdpAddr → Option Peer → Peer
or_new addr none = new_peer addr
or_new addr (some peer) = peer

abbrev pub is_nameless : UdpAddr → Bool
is_nameless addr = string_eq.beq (peer_map_key (some addr)) ""

-- `upsertPeer` after the `getOrCreateChannel` of its caller: the channel is created even for an
-- endpoint without an address.
unfoldable pub upsert_peer : Server → ℕ → ℕ → Option UdpAddr → ℕ → Server
upsert_peer s channel_id sender_id none now = (get_or_create_channel s channel_id).0
upsert_peer s channel_id sender_id (some addr) now =
    let (s', ch) = get_or_create_channel s channel_id in
    if is_nameless addr
    then s'
    else set_peer s' channel_id ch addr
        (record (or_new addr (lookup (peer_map_key (some addr)) ch.peers)) {
          sender_id = sender_id;
          addr = some addr;
          last_seen = now;
        })

unfoldable pub upsert_authenticated_peer_with_replay :
    Server → ℕ → ℕ → Option UdpAddr → ControlAuthMeta → ProvisionalReplayState → ℕ → Server
upsert_authenticated_peer_with_replay s channel_id sender_id none meta replay now =
    (get_or_create_channel s channel_id).0
upsert_authenticated_peer_with_replay s channel_id sender_id (some addr) meta replay now =
    let (s', ch) = get_or_create_channel s channel_id in
    if is_nameless addr
    then s'
    else set_peer s' channel_id ch addr
        (record (or_new addr (lookup (peer_map_key (some addr)) ch.peers)) {
          sender_id = sender_id;
          addr = some addr;
          last_seen = now;
          authenticated = true;
          control_session_id = meta.session_id;
          control_key_id = meta.key_id;
          control_window = replay.window;
        })

abbrev is_endpoint : Platform → UdpAddr → Option UdpAddr → Bool
is_endpoint p addr none = false
is_endpoint p addr (some candidate) =
    (candidate.port == addr.port)
    && string_eq.beq candidate.zone addr.zone
    && p.ip_equal candidate.ip addr.ip

-- The first peer at the endpoint, with its key.
unfoldable pub find_endpoint : Platform → UdpAddr → Map String Peer → Option (String × Peer)
find_endpoint p addr [] = none
find_endpoint p addr ((key, peer) ∷ peers) =
    let rest = find_endpoint p addr peers in
    if is_endpoint p addr peer.addr then some (key, peer) else rest

abbrev pub known_entry : Platform → Channel → UdpAddr → Option (String × Peer)
known_entry p ch addr = elim (lookup (peer_map_key (some addr)) ch.peers) [
  | some peer ↦ some (peer_map_key (some addr), peer)
  | none ↦ find_endpoint p addr ch.peers
]

unfoldable pub touch_known_peer : Platform → Server → ℕ → ℕ → Option UdpAddr → ℕ → Server × Bool
touch_known_peer p s channel_id sender_id none now = (s, false)
touch_known_peer p s channel_id sender_id (some addr) now =
    if sender_id == 0 then (s, false) else elim (lookup channel_id s.channels) [
      | none ↦ (s, false)
      | some ch ↦ elim (known_entry p ch addr) [
        | none ↦ (s, false)
        | some (key, peer) ↦ if not (peer.sender_id == sender_id) then (s, false) else (
          set_channel s channel_id
              (record ch { peers = insert key (record peer { last_seen = now }) ch.peers }),
          true,
        )
      ]
    ]

unfoldable pub accept_unauthenticated_peer_control :
    Server → ℕ → ℕ → Option UdpAddr → ℕ → Server × Bool
accept_unauthenticated_peer_control s channel_id sender_id none now = (s, false)
accept_unauthenticated_peer_control s channel_id sender_id (some addr) now =
    if sender_id == 0 then (s, false) else elim (lookup channel_id s.channels) [
      | none ↦ (s, false)
      | some ch ↦ elim (peer_at ch sender_id addr) [
        | none ↦ (s, false)
        | some peer ↦ (set_peer s channel_id ch addr (record peer { last_seen = now }), true)
      ]
    ]

abbrev is_session_of : Peer → ControlAuthMeta → Bool
is_session_of peer meta =
    peer.authenticated
    && (peer.control_key_id == meta.key_id)
    && (peer.control_session_id == meta.session_id)

-- A refused counter leaves the peer as it is.
unfoldable pub accept_authenticated_peer_control :
    Server → ParsedPacket → Option UdpAddr → ControlAuthMeta → ℕ → Server × Bool
accept_authenticated_peer_control s pkt none meta now = (s, false)
accept_authenticated_peer_control s pkt (some addr) meta now =
    elim (lookup pkt.header.channel_id s.channels) [
      | none ↦ (s, false)
      | some ch ↦ elim (peer_at ch pkt.header.sender_id addr) [
        | none ↦ (s, false)
        | some peer ↦
            let (window, accepted) = accept_replay_counter peer.control_window meta.counter in
            if not (is_session_of peer meta) || not accepted then (s, false) else (
              set_peer s pkt.header.channel_id ch addr
                  (record peer { control_window = window; last_seen = now }),
              true,
            )
      ]
    ]

abbrev holds_of : (Peer → Bool) → Option Peer → Bool
holds_of test none = false
holds_of test (some peer) = test peer

abbrev peer_holds : (Peer → Bool) → Server → ℕ → ℕ → Option UdpAddr → Bool
peer_holds test s channel_id sender_id none = false
peer_holds test s channel_id sender_id (some addr) = elim (lookup channel_id s.channels) [
  | none ↦ false
  | some ch ↦ holds_of test (peer_at ch sender_id addr)
]

unfoldable pub is_authenticated_peer : Server → ℕ → ℕ → Option UdpAddr → Bool
is_authenticated_peer = peer_holds (λ peer. peer.authenticated)

unfoldable pub peer_has_identity_admission : Server → ℕ → ℕ → Option UdpAddr → Bool
peer_has_identity_admission = peer_holds (λ peer. is_some peer.identity_admission)

unfoldable pub is_active_talker_endpoint : Server → ℕ → ℕ → Option UdpAddr → Bool
is_active_talker_endpoint s channel_id sender_id none = false
is_active_talker_endpoint s channel_id sender_id (some addr) =
    if sender_id == 0 then false else elim (lookup channel_id s.channels) [
      | none ↦ false
      | some ch ↦ is_some (peer_at ch sender_id addr) && is_active ch sender_id
    ]

-- The key of the first peer of the sender.
unfoldable pub find_sender : ℕ → Map String Peer → Option String
find_sender sender_id [] = none
find_sender sender_id ((key, peer) ∷ peers) =
    let rest = find_sender sender_id peers in if peer.sender_id == sender_id then some key else rest

abbrev pub removable : ℕ → String → Option Peer → Option String
removable sender_id key none = none
removable sender_id key (some peer) =
    if (sender_id == 0) || (peer.sender_id == sender_id) then some key else none

abbrev pub key_at : Channel → ℕ → Option UdpAddr → Option String
key_at ch sender_id none = none
key_at ch sender_id (some addr) =
    let key = peer_map_key (some addr) in removable sender_id key (lookup key ch.peers)

-- The key to delete: the endpoint's, or the first of the sender.
abbrev pub removed_key : Channel → ℕ → Option UdpAddr → Option String
removed_key ch sender_id addr = elim (key_at ch sender_id addr) [
  | some key ↦ some key
  | none ↦ if sender_id == 0 then none else find_sender sender_id ch.peers
]

abbrev pub without_peer : Channel → ℕ → String → Channel
without_peer ch sender_id key =
    if sender_id == 0 then record ch { peers = delete key ch.peers } else record ch {
      peers = delete key ch.peers;
      codec_configs = delete sender_id ch.codec_configs;
      media_codec_configs = delete sender_id ch.media_codec_configs;
    }

unfoldable pub remove_peer : Server → ℕ → ℕ → Option UdpAddr → Server
remove_peer s channel_id sender_id addr = elim (lookup channel_id s.channels) [
  | none ↦ s
  | some ch ↦ elim (removed_key ch sender_id addr) [
    | none ↦ put_or_delete s channel_id ch
    | some key ↦ put_or_delete s channel_id (without_peer ch sender_id key)
  ]
]
