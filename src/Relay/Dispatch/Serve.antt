-- ===== src/Relay/Dispatch/Serve.antt =====
-- The last switch of `handlePacket` in main.go, for a packet that the gate let through, and
-- `handleMediaPacket`.
use incom_udon_server.Base.{
  ℕ, List, [], ◌∷◌, ◌++◌, Bool, not, ◌&&◌, ◌||◌, Option, none, some, ◌==◌, if◌then◌else◌, length,
  bytes_eq,
}
use incom_udon_server.Platform.{Platform, UdpAddr}
use incom_udon_server.Wire.Parse.{has_flag}
use incom_udon_server.Wire.Types.{
  ParsedPacket, packet_flag_aes_gcm_v2_header_aad, pkt_join, pkt_leave, pkt_keepalive, pkt_ptt_on,
  pkt_ptt_request, pkt_ptt_off, pkt_codec_config, pkt_talk_release, talk_release_client_leave,
  talk_release_server_timeout,
}
use incom_udon_server.Wire.Build.{talk_release_payload}
use incom_udon_server.Relay.{
  CodecConfigState, Server, Effect, broadcast, talk_ended, participant_joined, participant_left,
  control_auth_required,
}
use incom_udon_server.Relay.Floor.{
  peer_allows_talk, handle_ptt_on, handle_ptt_off, release_talk_if_needed,
}
use incom_udon_server.Relay.Request.{handle_ptt_request, expire_talk_if_needed}
use incom_udon_server.Relay.Membership.{refresh_membership}
use incom_udon_server.Relay.Peers.{remove_peer, is_active_talker_endpoint, is_authenticated_peer}
use incom_udon_server.Relay.Media.{cache_codec_config, media_matches_codec_config}
use incom_udon_server.Relay.Output.{
  Output, note, channel_peers, send_server_config, send_current_talk_state, send_relay_codec_config,
  broadcast_except_addr, deliver_all,
}

-- A talker whose time is up is released to the channel.
unfoldable pub timeout_effects : ℕ → List ℕ → List Effect
timeout_effects channel_id [] = []
timeout_effects channel_id (talker ∷ talkers) =
    broadcast channel_id pkt_talk_release talker
      (talk_release_payload talker talk_release_server_timeout)
    ∷ (talk_ended channel_id talker talk_release_server_timeout
        ∷ timeout_effects channel_id talkers)

module _ (p : Platform) (clock : ℕ → ℕ) (pkt : ParsedPacket) (addr : Option UdpAddr) where
  -- A handler of the floor or the membership, with what it causes put out.
  abbrev pub put_out : Server × List Effect → Server × List Output
  put_out result = deliver_all p result.1 result.0

  unfoldable pub expire_talkers_first : Server → Server × List Output
  expire_talkers_first s =
      let (s', released) = expire_talk_if_needed s pkt.header.channel_id (clock 10) in
      deliver_all p (timeout_effects pkt.header.channel_id released) s'

  abbrev refreshed : Server → Server
  refreshed s = (refresh_membership s pkt.header.channel_id pkt.header.sender_id addr (clock 12)).0

  unfoldable pub serve_join : Option (List ℕ) → Server → Server × List Output
  serve_join service s =
      let (s1, config) = send_server_config p s pkt.header.channel_id pkt.header.sender_id in
      let (s2, talkers) = send_current_talk_state p s1 pkt.header.channel_id pkt.header.sender_id in
      (
        s2,
        note (participant_joined pkt.header.channel_id pkt.header.sender_id service)
            ∷ (config ++ talkers),
      )

  unfoldable pub serve_leave : Server → Server × List Output
  serve_leave s =
      let (s1, out) = put_out (
        release_talk_if_needed s pkt.header.channel_id pkt.header.sender_id
          talk_release_client_leave) in
      (
        remove_peer s1 pkt.header.channel_id pkt.header.sender_id addr,
        out
            ++ (note (
                  participant_left pkt.header.channel_id pkt.header.sender_id
                    talk_release_client_leave)
                ∷ []),
      )

  unfoldable pub serve_request : Server → Server × List Output
  serve_request s =
      let (result, authorized) =
        handle_ptt_request s pkt.header.channel_id pkt.header.sender_id addr (clock 11) in
      let (s', out) = put_out result in
      if not (bytes_eq pkt.payload (1 ∷ []))
      then (s, [])
      else if not authorized
      then (s', out)
      else (refreshed s', out)

  abbrev send_config : Server → Option CodecConfigState → Server × List Output
  send_config s none = (s, [])
  send_config s (some config) =
      send_relay_codec_config p (refreshed s) pkt.header.channel_id pkt.header.sender_id config

  unfoldable pub serve_codec_config : Server → Server × List Output
  serve_codec_config s =
      let required = control_auth_required s pkt.header.channel_id in
      let (s', config) =
        cache_codec_config s pkt.header.channel_id pkt.header.sender_id pkt.payload
          (if required then pkt.sec.key_id else 0) required in
      send_config s' config

  abbrev is_empty : Bool
  is_empty = length pkt.payload == 0

  -- Other types change nothing.
  unfoldable pub serve : Option (List ℕ) → Server → Server × List Output
  serve service s =
      if pkt.header.pkt_type == pkt_join
      then serve_join service s
      else if pkt.header.pkt_type == pkt_leave
      then (if not is_empty then (s, []) else serve_leave s)
      else if pkt.header.pkt_type == pkt_keepalive
      then (if not is_empty then (s, []) else (refreshed s, []))
      else if pkt.header.pkt_type == pkt_ptt_on
      then (if not is_empty
            || not (peer_allows_talk s pkt.header.channel_id pkt.header.sender_id addr (clock 11))
          then (s, [])
          else put_out
              (handle_ptt_on (refreshed s) pkt.header.channel_id pkt.header.sender_id (clock 13)))
      else if pkt.header.pkt_type == pkt_ptt_request
      then serve_request s
      else if pkt.header.pkt_type == pkt_ptt_off
      then (if not is_empty
          then (s, [])
          else put_out (handle_ptt_off (refreshed s) pkt.header.channel_id pkt.header.sender_id))
      else if pkt.header.pkt_type == pkt_codec_config
      then serve_codec_config s
      else (s, [])

  -- Whether the code goes on to forward a media packet.
  unfoldable pub may_forward : Server → Bool
  may_forward s =
      is_active_talker_endpoint s pkt.header.channel_id pkt.header.sender_id addr
      && peer_allows_talk s pkt.header.channel_id pkt.header.sender_id addr (clock 1)
      && (not (has_flag pkt.header.flags packet_flag_aes_gcm_v2_header_aad)
          || control_auth_required s pkt.header.channel_id)
      && (not (control_auth_required s pkt.header.channel_id)
          || (is_authenticated_peer s pkt.header.channel_id pkt.header.sender_id addr
              && media_matches_codec_config s pkt))

  unfoldable pub handle_media_packet : Server → Server × List Output
  handle_media_packet s =
      let (s', refreshed) =
        refresh_membership s pkt.header.channel_id pkt.header.sender_id addr (clock 2) in
      if not (may_forward s)
      then (s, [])
      else if not refreshed
      then (s', [])
      else (s', broadcast_except_addr (channel_peers s' pkt.header.channel_id) addr pkt.raw)
