-- ===== src/Relay/Dispatch/Limit/Serve.antt =====
-- The number of active talkers, across the last switch of `handlePacket` and `handleMediaPacket`.
use incom_udon_server.Base.{ℕ, arith, List, Option, if◌then◌else◌, nat_eq, Option-cases, inl, inr}
use incom_udon_server.Platform.{Platform, UdpAddr}
use incom_udon_server.Wire.Types.{
  ParsedPacket, talk_release_client_leave, talk_release_client_ptt_off,
}
use incom_udon_server.Auth.State.{ControlAuthMeta}
use incom_udon_server.Relay.{Server, Effect, control_auth_required}
use incom_udon_server.Relay.Floor.{handle_ptt_on, handle_ptt_off, release_talk_if_needed}
use incom_udon_server.Relay.Request.{handle_ptt_request, expire_talk_if_needed}
use incom_udon_server.Relay.Membership.{refresh_membership}
use incom_udon_server.Relay.Media.{cache_codec_config}
use incom_udon_server.Relay.Output.{Output, deliver_all}
use incom_udon_server.Relay.Output.Sent.{Sent}
use incom_udon_server.Relay.Output.Sends.{
  deliver_all-Sent, send_authenticated_control-Sent, send_server_config-Sent,
  send_current_talk_state-Sent, send_relay_codec_config-Sent,
}
use incom_udon_server.Relay.Limit.{
  IsWithinLimit, handle_ptt_on-IsWithinLimit, release_talk_if_needed-IsWithinLimit,
  handle_ptt_request-IsWithinLimit, expire_talk_if_needed-IsWithinLimit,
}
use incom_udon_server.Relay.Limit.Members.{
  same-IsWithinLimit, refresh_membership-IsWithinLimit, remove_peer-IsWithinLimit,
}
use incom_udon_server.Relay.Limit.Sessions.{cache_codec_config-IsWithinLimit}
use incom_udon_server.Relay.Dispatch.Exchange.{reply}
use incom_udon_server.Relay.Dispatch.Serve.{
  timeout_effects, put_out, expire_talkers_first, serve_join, serve_leave, serve_request,
  serve_codec_config, serve, handle_media_packet,
}

pub Sent-IsWithinLimit :
    (p : Platform) (s s' : Server) → Sent p s s' → IsWithinLimit s → IsWithinLimit s'
Sent-IsWithinLimit p s s' f = same-IsWithinLimit s s' f.channels f.limit

-- A handler's result.
abbrev pub Within : Server × List Output → Type 0
Within result = IsWithinLimit result.0

module _ (p : Platform) (clock : ℕ → ℕ) (pkt : ParsedPacket) (addr : Option UdpAddr) where
  pub put_out-Within :
      (result : Server × List Effect)
      → IsWithinLimit result.0
      → Within (put_out p clock pkt addr result)
  put_out-Within result h =
      Sent-IsWithinLimit p result.0 (deliver_all p result.1 result.0).0
        (deliver_all-Sent p result.1 result.0) h

  module _ (s : Server) (h : IsWithinLimit s) where
    pub reply-Within :
        (meta : ControlAuthMeta) (packet_type : ℕ) (payload : List ℕ)
        → Within (reply p clock pkt addr s meta packet_type payload)
    reply-Within meta packet_type payload =
        Sent-IsWithinLimit p s _
          (send_authenticated_control-Sent p s addr pkt.header.channel_id pkt.header.sender_id
            meta.key_id packet_type payload)
          h

    pub expire_talkers_first-Within : Within (expire_talkers_first p clock pkt addr s)
    unfolding expire_talkers_first
    expire_talkers_first-Within =
        let result = expire_talk_if_needed s pkt.header.channel_id (clock 10) in
        put_out-Within (result.0, timeout_effects pkt.header.channel_id result.1)
          (expire_talk_if_needed-IsWithinLimit s h pkt.header.channel_id (clock 10))

    serve_join-Within : (service : Option (List ℕ)) → Within (serve_join p clock pkt addr service s)
    unfolding serve_join
    serve_join-Within service =
        let first = send_server_config-Sent p s pkt.header.channel_id pkt.header.sender_id in
        Sent-IsWithinLimit p _ _
          (send_current_talk_state-Sent p _ pkt.header.channel_id pkt.header.sender_id)
          (Sent-IsWithinLimit p s _ first h)

    serve_leave-Within : Within (serve_leave p clock pkt addr s)
    unfolding serve_leave
    serve_leave-Within =
        remove_peer-IsWithinLimit _
          (put_out-Within
            (release_talk_if_needed s pkt.header.channel_id pkt.header.sender_id
              talk_release_client_leave)
            (release_talk_if_needed-IsWithinLimit s h pkt.header.channel_id pkt.header.sender_id
              talk_release_client_leave))
          pkt.header.channel_id pkt.header.sender_id addr

    serve_request-Within : Within (serve_request p clock pkt addr s)
    unfolding serve_request
    serve_request-Within other found e =
        let result =
          handle_ptt_request s pkt.header.channel_id pkt.header.sender_id addr (clock 11) in
        let after = put_out p clock pkt addr result.0 in
        let served = put_out-Within result.0 (
          handle_ptt_request-IsWithinLimit s h pkt.header.channel_id pkt.header.sender_id addr
            (clock 11)) in
        ground (
          arith,
          h other found,
          served other found,
          refresh_membership-IsWithinLimit after.0 served pkt.header.channel_id pkt.header.sender_id
              addr (clock 12) other found,
        )

    serve_codec_config-Within : Within (serve_codec_config p clock pkt addr s)
    unfolding serve_codec_config
    serve_codec_config-Within other found e =
        let required = control_auth_required s pkt.header.channel_id in
        let cached =
          cache_codec_config s pkt.header.channel_id pkt.header.sender_id pkt.payload
            (if required then pkt.sec.key_id else 0) required in
        let kept =
          cache_codec_config-IsWithinLimit s h pkt.header.channel_id pkt.header.sender_id
            pkt.payload (if required then pkt.sec.key_id else 0) required in
        let renewed =
          (refresh_membership cached.0 pkt.header.channel_id pkt.header.sender_id addr
            (clock 12)).0 in
        elim (Option-cases cached.1) [
          | inl nothing ↦ ground (arith, nothing, kept other found)
          | inr (config, something) ↦ ground (
            arith,
            something,
            Sent-IsWithinLimit p renewed _
                (send_relay_codec_config-Sent p renewed pkt.header.channel_id pkt.header.sender_id
                  config)
                (refresh_membership-IsWithinLimit cached.0 kept pkt.header.channel_id
                  pkt.header.sender_id addr (clock 12))
                other found,
          )
        ]

    pub serve-Within : (service : Option (List ℕ)) → Within (serve p clock pkt addr service s)
    unfolding serve handle_ptt_off
    serve-Within service other found e =
        let channel_id = pkt.header.channel_id in
        let sender_id = pkt.header.sender_id in
        let renewed = (refresh_membership s channel_id sender_id addr (clock 12)).0 in
        let still = refresh_membership-IsWithinLimit s h channel_id sender_id addr (clock 12) in
        ground (
          arith,
          h other found,
          still other found,
          serve_join-Within service other found,
          serve_leave-Within other found,
          serve_request-Within other found,
          serve_codec_config-Within other found,
          put_out-Within (handle_ptt_on renewed channel_id sender_id (clock 13))
              (handle_ptt_on-IsWithinLimit renewed still channel_id sender_id (clock 13)) other
              found,
          put_out-Within (handle_ptt_off renewed channel_id sender_id)
              (release_talk_if_needed-IsWithinLimit renewed still channel_id sender_id
                talk_release_client_ptt_off)
              other found,
        )

    pub handle_media_packet-Within : Within (handle_media_packet p clock pkt addr s)
    unfolding handle_media_packet
    handle_media_packet-Within other found e = ground (
      arith,
      h other found,
      refresh_membership-IsWithinLimit s h pkt.header.channel_id pkt.header.sender_id addr (clock 2)
          other found,
    )
