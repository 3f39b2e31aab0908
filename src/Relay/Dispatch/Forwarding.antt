-- ===== src/Relay/Dispatch/Forwarding.antt =====
-- Where a media packet goes.
use Prim.Native.String.{String}
use incom_udon_server.Base.{
  ℕ, ◌≡◌, refl, ◌⊎◌, inl, inr, Option-cases, arith, List, [], ◌∷◌, true, false, not, ◌&&◌, ◌+◌, map,
  some, if◌then◌else◌, nat_eq, string_eq, Bool-cases,
}
use incom_udon_server.Base.Assoc.{Map, lookup, insert, keep, lookup-insert}
use incom_udon_server.Platform.{Platform, UdpAddr, peer_map_key}
use incom_udon_server.Wire.Types.{ParsedPacket, packet_flag_aes_gcm_v2_header_aad}
use incom_udon_server.Wire.Parse.{has_flag}
use incom_udon_server.Relay.{Peer, Channel, Server, peer_at, control_auth_required}
use incom_udon_server.Relay.Membership.{refresh_membership}
use incom_udon_server.Relay.Floor.{is_active, peer_allows_talk}
use incom_udon_server.Relay.Media.{media_matches_codec_config}
use incom_udon_server.Relay.Peers.{is_nameless, is_active_talker_endpoint, is_authenticated_peer}
use incom_udon_server.Relay.Output.{Output, datagram, broadcast_except_addr, channel_peers}
use incom_udon_server.Relay.Dispatch.Serve.{may_forward, handle_media_packet}

-- The peers but the one under a key, and a copy for one of them.
abbrev pub others : String → Map String Peer → Map String Peer
others key peers = keep (λ k (peer : Peer). not (string_eq.beq k key)) peers

abbrev pub copy_to : List ℕ → String × Peer → Output
copy_to bytes (key, peer) = datagram peer.addr bytes

broadcast_except_addr-map :
    (peers : Map String Peer) (addr : UdpAddr) (bytes : List ℕ)
    → is_nameless addr ≡ false
    → broadcast_except_addr peers (some addr) bytes
      ≡ map (copy_to bytes) (others (peer_map_key (some addr)) peers)
unfolding broadcast_except_addr keep
broadcast_except_addr-map [] addr bytes named = refl
broadcast_except_addr-map ((k, peer) ∷ peers) addr bytes named =
    ground (arith, named, broadcast_except_addr-map peers addr bytes named)

others-insert :
    (key : String) (peer : Peer) (peers : Map String Peer)
    → others key (insert key peer peers) ≡ others key peers
unfolding keep insert
others-insert key peer [] = ground (arith, string_eq.beq_iff key key)
others-insert key peer ((k, old) ∷ peers) =
    ground (arith, string_eq.beq_iff key key, others-insert key peer peers)

refresh_membership-others :
    (s : Server) (channel_id sender_id : ℕ) (addr : UdpAddr) (now : ℕ)
    → others
        (peer_map_key (some addr))
        (channel_peers (refresh_membership s channel_id sender_id (some addr) now).0 channel_id)
      ≡ others (peer_map_key (some addr)) (channel_peers s channel_id)
unfolding refresh_membership
refresh_membership-others s channel_id sender_id addr now =
    elim (Option-cases (lookup channel_id s.channels)) [
      | inl missing ↦ ground (arith, missing)
      | inr (ch, here) ↦ elim (Option-cases (peer_at ch sender_id addr)) [
        | inl gone ↦ ground (arith, here, gone)
        | inr (peer, is_there) ↦
            let renewed : Peer = record peer {
              membership_deadline = now + peer.membership_lease;
              last_seen = now;
            } in
            let key = peer_map_key (some addr) in
            ground (
              arith,
              here,
              is_there,
              others-insert key renewed ch.peers,
              lookup-insert channel_id channel_id
                  (record ch { peers = insert key renewed ch.peers }) s.channels,
            )
      ]
    ]

-- What a media packet causes, as one equation: where the checks of the sender pass and its membership
-- is renewed, the bytes that came in go out unchanged, once to every other peer that the channel had,
-- and never back under the sender's own key; in every other case nothing goes out.
pub handle_media_packet_forwards :
    (p : Platform) (clock : ℕ → ℕ) (pkt : ParsedPacket) (addr : UdpAddr) (s : Server)
    → is_nameless addr ≡ false
    → (handle_media_packet p clock pkt (some addr) s).1 ≡ (
        if may_forward p clock pkt (some addr) s
          && (refresh_membership s pkt.header.channel_id pkt.header.sender_id
              (some addr)
              (clock 2)).1
        then map
            (copy_to pkt.raw)
            (others (peer_map_key (some addr)) (channel_peers s pkt.header.channel_id))
        else [])
unfolding handle_media_packet
handle_media_packet_forwards p clock pkt addr s named = ground (
  arith,
  refresh_membership-others s pkt.header.channel_id pkt.header.sender_id addr (clock 2),
  broadcast_except_addr-map
      (channel_peers
        (refresh_membership s pkt.header.channel_id pkt.header.sender_id (some addr) (clock 2)).0
        pkt.header.channel_id)
      addr pkt.raw named,
)

-- A media packet from which anything goes out comes from a registered peer of the channel that has the
-- floor there. Where control authentication is required the peer was admitted with it and the packet
-- has the form of the peer's configuration; where it is not, the packet is not in the AES-GCM v2 form.
pub handle_media_packet_authorized :
    (p : Platform) (clock : ℕ → ℕ) (pkt : ParsedPacket) (addr : UdpAddr) (s : Server) (o : Output)
    (rest : List Output)
    → (handle_media_packet p clock pkt (some addr) s).1 ≡ o ∷ rest
    → (ch : Channel) × ((peer : Peer) × ((lookup pkt.header.channel_id s.channels ≡ some ch)
          × ((peer_at ch pkt.header.sender_id addr ≡ some peer)
              × ((is_active ch pkt.header.sender_id ≡ true)
                  × ((peer_allows_talk s pkt.header.channel_id pkt.header.sender_id
                          (some addr)
                          (clock 1)
                        ≡ true)
                      × (((control_auth_required s pkt.header.channel_id ≡ true)
                            × ((peer.authenticated ≡ true)
                                × (media_matches_codec_config s pkt ≡ true)))
                          ⊎ ((control_auth_required s pkt.header.channel_id ≡ false)
                              × (has_flag pkt.header.flags packet_flag_aes_gcm_v2_header_aad
                                  ≡ false))))))))
unfolding handle_media_packet may_forward is_active_talker_endpoint is_authenticated_peer
handle_media_packet_authorized p clock pkt addr s o rest out =
    elim (Option-cases (lookup pkt.header.channel_id s.channels)) [
      | inl missing ↦ ground (arith, missing, out)
      | inr (ch, here) ↦ elim (Option-cases (peer_at ch pkt.header.sender_id addr)) [
        | inl gone ↦ ground (arith, here, gone, out)
        | inr (peer, is_there) ↦ elim (Bool-cases (control_auth_required s pkt.header.channel_id)) [
          | inl required ↦
              (ch, (peer, (here, (is_there, ground (arith, here, is_there, required, out)))))
          | inr unprotected ↦
              (ch, (peer, (here, (is_there, ground (arith, here, is_there, unprotected, out)))))
        ]
      ]
    ]
