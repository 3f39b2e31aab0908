-- ===== src/Relay/Output/Sends.antt =====
-- Each way of sending changes nothing but the nonces and the sequence number.
use Prim.Native.String.{String}
use incom_udon_server.Base.{
  nat_eq, string_eq, ℕ, inl, inr, Option-cases, Bool-cases, arith, List, [], ◌∷◌, Option, none,
  some, ◌==◌, length,
}
use incom_udon_server.Base.Assoc.{Map, lookup}
use incom_udon_server.Platform.{Platform, UdpAddr, peer_map_key}
use incom_udon_server.Wire.Types.{pkt_server_cfg, pkt_pong, pkt_talk_grant}
use incom_udon_server.Wire.Build.{talk_payload}
use incom_udon_server.Relay.{
  Peer, CodecConfigState, Server, Effect, send_to, broadcast, talk_started, talk_ended,
  participant_left, participant_joined, service_admission_issued, revocation_audit,
  revoked_talk_ended, revoked_left, service_admission_revoked, observe, audit,
}
use incom_udon_server.Relay.Floor.{sorted_active_talkers}
use incom_udon_server.Relay.Media.{server_config_payload}
use incom_udon_server.Relay.Output.{
  with_configs, send_each, channel_peers, sender_peers, send_authenticated_control,
  broadcast_relay_control, send_relay_control_to, send_relay_codec_config,
  send_relay_codec_config_to, send_server_config, send_pong, send_talkers, send_current_talk_state,
  deliver, deliver_all,
}
use incom_udon_server.Relay.Output.Sent.{
  Sent, Sent-refl, Sent-trans, along-Sent, authenticated_packet_of-Sent,
  relay_codec_config_for_peer-Sent, relay_control_for_peer-Sent, unchanged-Sent,
}

module _ (p : Platform) where
  pub send_each-Sent :
      (make : Server → Peer → Server × Option (List ℕ))
      → ((s : Server) (peer : Peer) → Sent p s (make s peer).0)
      → (peers : Map String Peer) (s : Server) → Sent p s (send_each make peers s).0
  unfolding send_each
  send_each-Sent make h [] s = Sent-refl p s
  send_each-Sent make h ((k, peer) ∷ peers) s =
      Sent-trans p (h s peer) (send_each-Sent make h peers (make s peer).0)

  pub send_relay_control_to-Sent :
      (s : Server) (channel_id target packet_type sender_id : ℕ) (payload : List ℕ)
      → Sent p s (send_relay_control_to p s channel_id target packet_type sender_id payload).0
  unfolding send_relay_control_to
  send_relay_control_to-Sent s channel_id target packet_type sender_id payload =
      send_each-Sent _
        (λ t peer.
          relay_control_for_peer-Sent p t channel_id (some peer) packet_type sender_id payload)
        (sender_peers s channel_id target) s

  pub broadcast_relay_control-Sent :
      (s : Server) (channel_id packet_type sender_id : ℕ) (payload : List ℕ)
      → Sent p s (broadcast_relay_control p s channel_id packet_type sender_id payload).0
  unfolding broadcast_relay_control
  broadcast_relay_control-Sent s channel_id packet_type sender_id payload =
      send_each-Sent _
        (λ t peer.
          relay_control_for_peer-Sent p t channel_id (some peer) packet_type sender_id payload)
        (channel_peers s channel_id) s

  pub send_relay_codec_config-Sent :
      (s : Server) (channel_id sender_id : ℕ) (config : CodecConfigState)
      → Sent p s (send_relay_codec_config p s channel_id sender_id config).0
  unfolding send_relay_codec_config
  send_relay_codec_config-Sent s channel_id sender_id config =
      send_each-Sent _
        (λ t peer. relay_codec_config_for_peer-Sent p t channel_id (some peer) sender_id config)
        (channel_peers s channel_id) s

  send_relay_codec_config_to-Sent :
      (s : Server) (channel_id target sender_id : ℕ) (config : CodecConfigState)
      → Sent p s (send_relay_codec_config_to p s channel_id target sender_id config).0
  unfolding send_relay_codec_config_to
  send_relay_codec_config_to-Sent s channel_id target sender_id config =
      send_each-Sent _
        (λ t peer. relay_codec_config_for_peer-Sent p t channel_id (some peer) sender_id config)
        (sender_peers s channel_id target) s

  pub send_server_config-Sent :
      (s : Server) (channel_id sender_id : ℕ)
      → Sent p s (send_server_config p s channel_id sender_id).0
  unfolding send_server_config
  send_server_config-Sent s channel_id sender_id =
      send_relay_control_to-Sent s channel_id sender_id pkt_server_cfg 0
        (server_config_payload s channel_id sender_id)

  pub send_authenticated_control-Sent :
      (s : Server) (addr : Option UdpAddr) (channel_id sender_id key_id packet_type : ℕ)
      (payload : List ℕ)
      → Sent p s
          (send_authenticated_control p s addr channel_id sender_id key_id packet_type payload).0
  unfolding send_authenticated_control
  send_authenticated_control-Sent s none channel_id sender_id key_id packet_type payload =
      Sent-refl p s
  send_authenticated_control-Sent s (some addr) channel_id sender_id key_id packet_type payload =
      elim (Option-cases s.control_auth) [
        | inl missing ↦ unchanged-Sent p (ground (arith, missing))
        | inr (a, here) ↦ along-Sent p (ground (arith, here)) (
            authenticated_packet_of-Sent p s a channel_id key_id packet_type sender_id payload here)
      ]

  pub send_pong-Sent :
      (s : Server) (addr : Option UdpAddr) (channel_id sender_id : ℕ) (nonce : List ℕ)
      → Sent p s (send_pong p s addr channel_id sender_id nonce).0
  unfolding send_pong
  send_pong-Sent s none channel_id sender_id nonce = Sent-refl p s
  send_pong-Sent s (some addr) channel_id sender_id nonce = elim (Bool-cases (length nonce == 8)) [
    | inl whole ↦ along-Sent p (ground (arith, whole)) (
        relay_control_for_peer-Sent p s channel_id
          (lookup (peer_map_key (some addr)) (channel_peers s channel_id)) pkt_pong sender_id nonce)
    | inr partial ↦ unchanged-Sent p (ground (arith, partial))
  ]

  send_talkers-Sent :
      (channel_id target : ℕ) (talkers : List (ℕ × CodecConfigState)) (s : Server)
      → Sent p s (send_talkers p channel_id target talkers s).0
  unfolding send_talkers
  send_talkers-Sent channel_id target [] s = Sent-refl p s
  send_talkers-Sent channel_id target ((talker, config) ∷ talkers) s =
      elim (Bool-cases (length config.payload == 19)) [
        | inl whole ↦
            let configured = (send_relay_codec_config_to p s channel_id target talker config).0 in
            let granted =
              (send_relay_control_to p configured channel_id target pkt_talk_grant talker
                (talk_payload talker)).0 in
            along-Sent p (ground (arith, whole)) (
              Sent-trans p (send_relay_codec_config_to-Sent s channel_id target talker config) (
                Sent-trans p
                  (send_relay_control_to-Sent configured channel_id target pkt_talk_grant talker
                    (talk_payload talker))
                  (send_talkers-Sent channel_id target talkers granted)))
        | inr partial ↦
            let granted =
              (send_relay_control_to p s channel_id target pkt_talk_grant talker
                (talk_payload talker)).0 in
            along-Sent p (ground (arith, partial)) (
              Sent-trans p
                (send_relay_control_to-Sent s channel_id target pkt_talk_grant talker
                  (talk_payload talker))
                (send_talkers-Sent channel_id target talkers granted))
      ]

  pub send_current_talk_state-Sent :
      (s : Server) (channel_id sender_id : ℕ)
      → Sent p s (send_current_talk_state p s channel_id sender_id).0
  unfolding send_current_talk_state
  send_current_talk_state-Sent s channel_id sender_id =
      elim (Option-cases (lookup channel_id s.channels)) [
        | inl missing ↦ unchanged-Sent p (ground (arith, missing))
        | inr (ch, here) ↦ along-Sent p (ground (arith, here)) (
            send_talkers-Sent channel_id sender_id
              (with_configs ch (sorted_active_talkers ch.active_talkers)) s)
      ]

  deliver-Sent : (effect : Effect) (s : Server) → Sent p s (deliver p effect s).0
  unfolding deliver
  deliver-Sent (send_to channel_id target packet_type sender_id payload) s =
      send_relay_control_to-Sent s channel_id target packet_type sender_id payload
  deliver-Sent (broadcast channel_id packet_type sender_id payload) s =
      broadcast_relay_control-Sent s channel_id packet_type sender_id payload
  deliver-Sent (talk_started channel_id talker) s = Sent-refl p s
  deliver-Sent (talk_ended channel_id talker reason) s = Sent-refl p s
  deliver-Sent (participant_left channel_id talker reason) s = Sent-refl p s
  deliver-Sent (participant_joined channel_id talker service) s = Sent-refl p s
  deliver-Sent (service_admission_issued channel_id talker service) s = Sent-refl p s
  deliver-Sent (revocation_audit channel_id) s = Sent-refl p s
  deliver-Sent (revoked_talk_ended channel_id talker service) s = Sent-refl p s
  deliver-Sent (revoked_left channel_id talker service) s = Sent-refl p s
  deliver-Sent (service_admission_revoked channel_id talker service) s = Sent-refl p s
  deliver-Sent (observe delta) s = Sent-refl p s
  deliver-Sent (audit peer a b c d) s = Sent-refl p s

  pub deliver_all-Sent : (effects : List Effect) (s : Server) → Sent p s (deliver_all p effects s).0
  unfolding deliver_all
  deliver_all-Sent [] s = Sent-refl p s
  deliver_all-Sent (effect ∷ effects) s =
      Sent-trans p (deliver-Sent effect s) (deliver_all-Sent effects (deliver p effect s).0)
