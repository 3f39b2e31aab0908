-- ===== src/Relay/Output.antt =====
-- What the Relay writes to its socket: `sendAuthenticatedControl`, `relayControlForPeer`,
-- `relayCodecConfigForPeer` and the functions of control_auth.go that send to the peers of a channel;
-- `sendPong`, `sendServerConfig`, `sendCurrentTalkState` and `broadcastExceptAddr` of main.go. A failed
-- write is only logged, so what is written is all that counts. Each packet takes a sequence number, and
-- an authenticated one a nonce.
use Prim.Native.String.{String}
use incom_udon_server.Base.{
  ℕ, List, [], ◌∷◌, ◌++◌, Bool, true, false, not, ◌&&◌, ◌||◌, Option, none, some, ◌==◌,
  if◌then◌else◌, length, nat_eq, string_eq,
}
use incom_udon_server.Base.Assoc.{Map, lookup, keep}
use incom_udon_server.Platform.{Platform, UdpAddr, peer_map_key}
use incom_udon_server.Nonce.{next_relay_nonce}
use incom_udon_server.Wire.Types.{
  pkt_pong, pkt_codec_config, pkt_server_cfg, pkt_talk_grant, zero_base,
}
use incom_udon_server.Wire.Build.{build_relay_control_packet, talk_payload}
use incom_udon_server.Auth.State.{ControlAuthState, key}
use incom_udon_server.Auth.Packet.{build_authenticated_control_packet_with_seq}
use incom_udon_server.Relay.{
  Peer, CodecConfigState, Channel, Server, Effect, send_to, broadcast, control_auth_required,
  next_relay_sequence,
}
use incom_udon_server.Relay.Floor.{sorted_active_talkers}
use incom_udon_server.Relay.Media.{server_config_payload}
pub mod Sent
pub mod Sends

-- A datagram, or what a handler tells the rest of the program.
pub data Output : Type 0 where
  datagram : Option UdpAddr → List ℕ → Output
  note : Effect → Output

-- The packet under a key of the channel; none without a 32-byte key or a nonce.
unfoldable pub authenticated_packet_of :
    Platform → Server → ControlAuthState → ℕ → ℕ → ℕ → ℕ → List ℕ → Server × Option (List ℕ)
authenticated_packet_of p s a channel_id key_id packet_type sender_id payload =
    let k = key a channel_id key_id in
    let (relay, nonce) = next_relay_nonce p a.relay in
    let s1 = record s { control_auth = some (record a { relay = relay }) } in
    let (s2, sequence) = next_relay_sequence s1 in
    if not (length k == 32) then (s, none) else elim nonce [
      | none ↦ (s1, none)
      | some value ↦ (
        s2,
        some (
            build_authenticated_control_packet_with_seq p packet_type channel_id sender_id payload
              key_id k value sequence),
      )
    ]

abbrev pub plain_packet_of : Server → ℕ → ℕ → ℕ → List ℕ → Server × Option (List ℕ)
plain_packet_of s channel_id packet_type sender_id payload =
    let (s', sequence) = next_relay_sequence s in
    (
      s',
      some (
          build_relay_control_packet packet_type channel_id sender_id payload s.no_crypto sequence),
    )

abbrev pub of_authenticated : Option Peer → Option Peer
of_authenticated none = none
of_authenticated (some peer) = if peer.authenticated then some peer else none

-- With control authentication only an authenticated peer gets a packet, under its own key.
unfoldable pub relay_control_for_peer :
    Platform → Server → ℕ → Option Peer → ℕ → ℕ → List ℕ → Server × Option (List ℕ)
relay_control_for_peer p s channel_id peer packet_type sender_id payload =
    if not (control_auth_required s channel_id)
    then plain_packet_of s channel_id packet_type sender_id payload
    else elim s.control_auth [
      | none ↦ (s, none)
      | some a ↦ elim (of_authenticated peer) [
        | none ↦ (s, none)
        | some peer ↦
            authenticated_packet_of p s a channel_id peer.control_key_id packet_type sender_id
              payload
      ]
    ]

-- A codec configuration goes out under the key that it came in under.
unfoldable pub relay_codec_config_for_peer :
    Platform → Server → ℕ → Option Peer → ℕ → CodecConfigState → Server × Option (List ℕ)
relay_codec_config_for_peer p s channel_id peer sender_id config =
    if not (control_auth_required s channel_id)
    then plain_packet_of s channel_id pkt_codec_config sender_id config.payload
    else elim s.control_auth [
      | none ↦ (s, none)
      | some a ↦ elim (of_authenticated peer) [
        | none ↦ (s, none)
        | some peer ↦
            if config.control_key_id == 0
            then (s, none)
            else authenticated_packet_of p s a channel_id config.control_key_id pkt_codec_config
                sender_id config.payload
      ]
    ]

abbrev pub datagrams : Option UdpAddr → Option (List ℕ) → List Output
datagrams addr none = []
datagrams addr (some bytes) = datagram addr bytes ∷ []

-- One packet for each peer, made in turn.
unfoldable pub send_each :
    (Server → Peer → Server × Option (List ℕ)) → Map String Peer → Server → Server × List Output
send_each make [] s = (s, [])
send_each make ((k, peer) ∷ peers) s =
    let (s', packet) = make s peer in
    let (s'', rest) = send_each make peers s' in (s'', datagrams peer.addr packet ++ rest)

abbrev peers_in : Option Channel → Map String Peer
peers_in none = []
peers_in (some ch) = ch.peers

abbrev pub channel_peers : Server → ℕ → Map String Peer
channel_peers s channel_id = peers_in (lookup channel_id s.channels)

abbrev pub sender_peers : Server → ℕ → ℕ → Map String Peer
sender_peers s channel_id target =
    keep (λ k (peer : Peer). peer.sender_id == target) (channel_peers s channel_id)

module _ (p : Platform) where
  unfoldable pub send_authenticated_control :
      Server → Option UdpAddr → ℕ → ℕ → ℕ → ℕ → List ℕ → Server × List Output
  send_authenticated_control s none channel_id sender_id key_id packet_type payload = (s, [])
  send_authenticated_control s (some addr) channel_id sender_id key_id packet_type payload =
      elim s.control_auth [
        | none ↦ (s, [])
        | some a ↦
            let (s', packet) =
              authenticated_packet_of p s a channel_id key_id packet_type sender_id payload in
            (s', datagrams (some addr) packet)
      ]

  unfoldable pub broadcast_relay_control : Server → ℕ → ℕ → ℕ → List ℕ → Server × List Output
  broadcast_relay_control s channel_id packet_type sender_id payload =
      send_each
        (λ t peer. relay_control_for_peer p t channel_id (some peer) packet_type sender_id payload)
        (channel_peers s channel_id) s

  unfoldable pub send_relay_control_to : Server → ℕ → ℕ → ℕ → ℕ → List ℕ → Server × List Output
  send_relay_control_to s channel_id target packet_type sender_id payload =
      send_each
        (λ t peer. relay_control_for_peer p t channel_id (some peer) packet_type sender_id payload)
        (sender_peers s channel_id target) s

  unfoldable pub send_relay_codec_config : Server → ℕ → ℕ → CodecConfigState → Server × List Output
  send_relay_codec_config s channel_id sender_id config =
      send_each (λ t peer. relay_codec_config_for_peer p t channel_id (some peer) sender_id config)
        (channel_peers s channel_id) s

  unfoldable pub send_relay_codec_config_to :
      Server → ℕ → ℕ → ℕ → CodecConfigState → Server × List Output
  send_relay_codec_config_to s channel_id target sender_id config =
      send_each (λ t peer. relay_codec_config_for_peer p t channel_id (some peer) sender_id config)
        (sender_peers s channel_id target) s

  unfoldable pub send_server_config : Server → ℕ → ℕ → Server × List Output
  unfolding send_relay_control_to
  send_server_config s channel_id sender_id =
      send_relay_control_to s channel_id sender_id pkt_server_cfg 0
        (server_config_payload s channel_id sender_id)

  -- The reply to a PING of eight bytes.
  unfoldable pub send_pong : Server → Option UdpAddr → ℕ → ℕ → List ℕ → Server × List Output
  unfolding relay_control_for_peer
  send_pong s none channel_id sender_id nonce = (s, [])
  send_pong s (some addr) channel_id sender_id nonce =
      let target = lookup (peer_map_key (some addr)) (channel_peers s channel_id) in
      let (s', packet) = relay_control_for_peer p s channel_id target pkt_pong sender_id nonce in
      if not (length nonce == 8) then (s, []) else (s', datagrams (some addr) packet)

-- The same bytes to everyone but the endpoint that they came from.
unfoldable pub broadcast_except_addr : Map String Peer → Option UdpAddr → List ℕ → List Output
broadcast_except_addr [] exclude bytes = []
broadcast_except_addr ((k, peer) ∷ peers) exclude bytes =
    let rest = broadcast_except_addr peers exclude bytes in
    if not (string_eq.beq (peer_map_key exclude) "") && string_eq.beq k (peer_map_key exclude)
    then rest
    else datagram peer.addr bytes ∷ rest

-- The configuration of a talker: the one for media, or else the payload alone.
abbrev payload_of : Option (List ℕ) → List ℕ
payload_of none = []
payload_of (some payload) = payload

abbrev media_config_of : Option CodecConfigState → CodecConfigState
media_config_of none = record {
  payload = [];
  media_nonce_base = zero_base;
  media_key_id = 0;
  control_key_id = 0;
}
media_config_of (some config) = config

unfoldable pub talker_config : Channel → ℕ → CodecConfigState
talker_config ch talker =
    let config = media_config_of (lookup talker ch.media_codec_configs) in
    if length config.payload == 0
    then record config { payload = payload_of (lookup talker ch.codec_configs) }
    else config

-- For each talker its configuration first, then the grant.
unfoldable pub send_talkers :
    Platform → ℕ → ℕ → List (ℕ × CodecConfigState) → Server → Server × List Output
send_talkers p channel_id target [] s = (s, [])
send_talkers p channel_id target ((talker, config) ∷ talkers) s =
    let (s1, configured) =
      if length config.payload == 19
      then send_relay_codec_config_to p s channel_id target talker config
      else (s, []) in
    let (s2, granted) =
      send_relay_control_to p s1 channel_id target pkt_talk_grant talker (talk_payload talker) in
    let (s3, rest) = send_talkers p channel_id target talkers s2 in
    (s3, configured ++ (granted ++ rest))

abbrev pub with_configs : Channel → List ℕ → List (ℕ × CodecConfigState)
with_configs ch [] = []
with_configs ch (talker ∷ talkers) = (talker, talker_config ch talker) ∷ with_configs ch talkers

unfoldable pub send_current_talk_state : Platform → Server → ℕ → ℕ → Server × List Output
send_current_talk_state p s channel_id sender_id = elim (lookup channel_id s.channels) [
  | none ↦ (s, [])
  | some ch ↦
      send_talkers p channel_id sender_id
        (with_configs ch (sorted_active_talkers ch.active_talkers)) s
]

-- What becomes of a handler's effects, in their order.
unfoldable pub deliver : Platform → Effect → Server → Server × List Output
deliver p (send_to channel_id target packet_type sender_id payload) s =
    send_relay_control_to p s channel_id target packet_type sender_id payload
deliver p (broadcast channel_id packet_type sender_id payload) s =
    broadcast_relay_control p s channel_id packet_type sender_id payload
deliver p effect s = (s, note effect ∷ [])

unfoldable pub deliver_all : Platform → List Effect → Server → Server × List Output
deliver_all p [] s = (s, [])
deliver_all p (effect ∷ effects) s =
    let (s', out) = deliver p effect s in
    let (s'', rest) = deliver_all p effects s' in (s'', out ++ rest)
