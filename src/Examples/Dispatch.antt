-- ===== src/Examples/Dispatch.antt =====
-- Runs of whole packets.
use incom_udon_server.Base.{
  ℕ, ◌*◌, ◌≡◌, ◌⊎◌, refl, [], ◌∷◌, ◌++◌, true, false, some, nat_eq, string_eq, replicate,
}
use incom_udon_server.Base.Assoc.{lookup, insert, keep}
use incom_udon_server.Platform.{peer_map_key, second}
use incom_udon_server.Wire.Types.{
  ParsedPacket, packet_flag_aes_gcm_v2_header_aad, pkt_keepalive, pkt_audio, aes_gcm_v2_header_size,
}
use incom_udon_server.Wire.Parse.{has_flag}
use incom_udon_server.Admission.Types.{admission_allows_talk}
use incom_udon_server.Auth.State.{requires, key}
use incom_udon_server.Auth.Packet.{
  verify_incoming_control, verify_control_auth_packet, is_control_auth_form,
}
use incom_udon_server.Relay.{
  Peer, Channel, CodecConfigState, Server, peer_at, control_auth_required,
}
use incom_udon_server.Relay.Membership.{refresh_membership, expire_membership_if_needed}
use incom_udon_server.Relay.Request.{expire_talk_if_needed}
use incom_udon_server.Relay.Sweep.{sweep}
use incom_udon_server.Relay.Sweep.Agreement.{sweep-agrees}
use incom_udon_server.Relay.Floor.{is_active, peer_allows_talk}
use incom_udon_server.Relay.Media.{media_matches_codec_config, config_admits}
use incom_udon_server.Relay.Peers.{is_active_talker_endpoint, is_authenticated_peer}
use incom_udon_server.Relay.Output.{datagram, broadcast_except_addr}
use incom_udon_server.Relay.Limit.{IsWithinLimit}
use incom_udon_server.Relay.Dispatch.{handle_packet, sweep_first}
use incom_udon_server.Relay.Dispatch.Serve.{may_forward, handle_media_packet}
use incom_udon_server.Relay.Dispatch.Authenticity.{handle_packet_unverified}
use incom_udon_server.Relay.Dispatch.Forwarding.{
  handle_media_packet_forwards, handle_media_packet_authorized,
}
use incom_udon_server.Relay.Dispatch.Limit.{handle_packet-IsWithinLimit}
use incom_udon_server.Examples.Admission.{ticket_codec, grant_codec}
use incom_udon_server.Examples.World.{small_world, phone, packet}
use incom_udon_server.Examples.Relay.{relay, channel_10, relay-IsWithinLimit, radio}

abbrev clock : ℕ → ℕ
clock n = 1100 * second

-- A KEEPALIVE without a tag.
abbrev forged : ParsedPacket
forged = let p = packet [] in record p { header = record p.header { pkt_type = pkt_keepalive } }

handle_packet_unverified_example :
    handle_packet small_world ticket_codec grant_codec clock forged (some phone) relay
    ≡ sweep_first small_world ticket_codec grant_codec clock forged (some phone) relay
unfolding verify_incoming_control requires verify_control_auth_packet is_control_auth_form key
handle_packet_unverified_example =
    handle_packet_unverified small_world ticket_codec grant_codec clock forged (some phone) relay
      refl refl refl

handle_packet-IsWithinLimit_example :
    IsWithinLimit
      (handle_packet small_world ticket_codec grant_codec clock forged (some phone) relay).0
handle_packet-IsWithinLimit_example =
    handle_packet-IsWithinLimit small_world ticket_codec grant_codec clock forged (some phone) relay
      relay-IsWithinLimit

-- Sender 8 has the floor and a configuration for its media.
abbrev sealed_config : CodecConfigState
sealed_config = record {
  payload = replicate 7 1 ++ replicate 12 9;
  media_nonce_base = replicate 12 9;
  media_key_id = 2;
  control_key_id = 1;
}

abbrev talking : Server
talking = record relay {
  channels = (10, record channel_10 { media_codec_configs = (8, sealed_config) ∷ [] }) ∷ [];
}

abbrev audio : ParsedPacket
audio =
    let p = packet (5 ∷ []) in
    record p {
      header = record p.header {
        pkt_type = pkt_audio;
        header_len = aes_gcm_v2_header_size;
        sender_id = 8;
        flags = packet_flag_aes_gcm_v2_header_aad;
      };
      sec = record p.sec { key_id = 2; media_nonce_base = replicate 12 9 };
      raw = 1 ∷ (2 ∷ (3 ∷ []));
    }

handle_media_packet_forwards_example :
    (handle_media_packet small_world clock audio (some radio) talking).1
    ≡ datagram (some phone) (1 ∷ (2 ∷ (3 ∷ []))) ∷ []
unfolding may_forward is_active_talker_endpoint is_authenticated_peer media_matches_codec_config
    config_admits refresh_membership peer_allows_talk lookup keep requires peer_map_key
    admission_allows_talk
handle_media_packet_forwards_example =
    handle_media_packet_forwards small_world clock audio radio talking refl

handle_media_packet_authorized_example :
    (ch : Channel) × ((peer : Peer) × ((lookup 10 talking.channels ≡ some ch)
        × ((peer_at ch 8 radio ≡ some peer)
            × ((is_active ch 8 ≡ true)
                × ((peer_allows_talk talking 10 8 (some radio) (clock 1) ≡ true)
                    × (((control_auth_required talking 10 ≡ true)
                          × ((peer.authenticated ≡ true)
                              × (media_matches_codec_config talking audio ≡ true)))
                        ⊎ ((control_auth_required talking 10 ≡ false)
                            × (has_flag packet_flag_aes_gcm_v2_header_aad
                                  packet_flag_aes_gcm_v2_header_aad
                                ≡ false))))))))
unfolding handle_media_packet may_forward is_active_talker_endpoint is_authenticated_peer
    media_matches_codec_config config_admits refresh_membership peer_allows_talk lookup insert
    broadcast_except_addr requires peer_map_key admission_allows_talk
handle_media_packet_authorized_example =
    handle_media_packet_authorized small_world clock audio radio talking
      (datagram (some phone) (1 ∷ (2 ∷ (3 ∷ [])))) [] refl

-- A tick at 1200 seconds, when every membership has run out.
sweep-agrees_example :
    lookup 10 (sweep small_world relay (1200 * second)).0.channels
    ≡ lookup 10
        (expire_talk_if_needed
          (expire_membership_if_needed relay 10 (1200 * second)).0
          10
          (1200 * second)).0.channels
unfolding lookup
sweep-agrees_example = sweep-agrees small_world relay (1200 * second) 10 (refl, tt)
