-- ===== src/Relay/Output/Sent.antt =====
-- Sending changes nothing but the nonces and the sequence number.
use mathlib.Core.Path.{transport}
use incom_udon_server.Base.{
  nat_eq, string_eq, ℕ, ◌≡◌, refl, ap, sym, ◌∙◌, inl, inr, Option-cases, Bool-cases, arith, List,
  ◌+◌, ◌%◌, ◌^◌, Option, some, ◌==◌, length,
}
use incom_udon_server.Platform.{Platform}
use incom_udon_server.Nonce.{RelayNonces, next_relay_nonce}
use incom_udon_server.Wire.Types.{ParsedPacket, pkt_codec_config}
use incom_udon_server.Auth.State.{ControlAuthState, requires, key}
use incom_udon_server.Auth.Packet.{verify_incoming_control}
use incom_udon_server.Relay.{
  Peer, CodecConfigState, Server, next_relay_sequence, control_auth_required,
}
use incom_udon_server.Relay.Floor.{talker_limit}
use incom_udon_server.Relay.Output.{
  of_authenticated, authenticated_packet_of, plain_packet_of, relay_control_for_peer,
  relay_codec_config_for_peer,
}

-- What a state and the one after sending have in common.
pub record Sent (p : Platform) (s s' : Server) : Type 0 where
  pub channels : s'.channels ≡ s.channels
  pub limit : talker_limit s' ≡ talker_limit s
  pub identity : s'.identity_admission ≡ s.identity_admission
  pub service : s'.service_admission ≡ s.service_admission
  pub required :
      (channel_id : ℕ) → requires s'.control_auth channel_id ≡ requires s.control_auth channel_id
  pub verifies :
      (pkt : ParsedPacket)
      → verify_incoming_control p s'.control_auth pkt ≡ verify_incoming_control p s.control_auth pkt

module _ (p : Platform) where
  pub Sent-refl : (s : Server) → Sent p s s
  Sent-refl s = record {
    channels = refl;
    limit = refl;
    identity = refl;
    service = refl;
    required = λ c. refl;
    verifies = λ pkt. refl;
  }

  pub unchanged-Sent : {s s' : Server} → s' ≡ s → Sent p s s'
  unchanged-Sent {s} same = transport (ap (Sent p s) (sym same)) (Sent-refl s)

  pub along-Sent : {s s' s'' : Server} → s'' ≡ s' → Sent p s s' → Sent p s s''
  along-Sent {s} same = transport (ap (Sent p s) (sym same))

  pub Sent-trans : {s s' s'' : Server} → Sent p s s' → Sent p s' s'' → Sent p s s''
  Sent-trans f g = record {
    channels = g.channels ∙ f.channels;
    limit = g.limit ∙ f.limit;
    identity = g.identity ∙ f.identity;
    service = g.service ∙ f.service;
    required = λ c. g.required c ∙ f.required c;
    verifies = λ pkt. g.verifies pkt ∙ f.verifies pkt;
  }

  -- A new account of the nonces, and a new sequence number.
  renonced-Sent :
      (s : Server) (a : ControlAuthState) (relay : RelayNonces) (sequence : ℕ)
      → s.control_auth ≡ some a
      → Sent p s
          (record s { control_auth = some (record a { relay = relay }); outbound_seq = sequence })
  unfolding requires verify_incoming_control key
  renonced-Sent s a relay sequence here = record {
    channels = refl;
    limit = refl;
    identity = refl;
    service = refl;
    required = λ c. ap (λ (o : Option ControlAuthState). requires o c) (sym here);
    verifies =
        λ pkt. ap (λ (o : Option ControlAuthState). verify_incoming_control p o pkt) (sym here);
  }

  pub authenticated_packet_of-Sent :
      (s : Server) (a : ControlAuthState) (channel_id key_id packet_type sender_id : ℕ)
      (payload : List ℕ)
      → s.control_auth ≡ some a
      → Sent p s (authenticated_packet_of p s a channel_id key_id packet_type sender_id payload).0
  unfolding authenticated_packet_of next_relay_sequence
  authenticated_packet_of-Sent s a channel_id key_id packet_type sender_id payload here =
      elim (Bool-cases (length (key a channel_id key_id) == 32)) [
        | inl keyed ↦ elim (Option-cases (next_relay_nonce p a.relay).1) [
          | inl none_left ↦
              rw (keyed, none_left)
                (renonced-Sent s a (next_relay_nonce p a.relay).0 s.outbound_seq here)
          | inr (value, found) ↦
              rw (keyed, found)
                (renonced-Sent s a (next_relay_nonce p a.relay).0 ((s.outbound_seq + 1) % 2 ^ 16)
                  here)
        ]
        | inr keyless ↦ rw keyless (Sent-refl s)
      ]

  plain_packet_of-Sent :
      (s : Server) (channel_id packet_type sender_id : ℕ) (payload : List ℕ)
      → Sent p s (plain_packet_of s channel_id packet_type sender_id payload).0
  unfolding next_relay_sequence
  plain_packet_of-Sent s channel_id packet_type sender_id payload = record {
    channels = refl;
    limit = refl;
    identity = refl;
    service = refl;
    required = λ c. refl;
    verifies = λ pkt. refl;
  }

  pub relay_control_for_peer-Sent :
      (s : Server) (channel_id : ℕ) (peer : Option Peer) (packet_type sender_id : ℕ)
      (payload : List ℕ)
      → Sent p s (relay_control_for_peer p s channel_id peer packet_type sender_id payload).0
  unfolding relay_control_for_peer
  relay_control_for_peer-Sent s channel_id peer packet_type sender_id payload =
      elim (Bool-cases (control_auth_required s channel_id)) [
        | inr plain ↦
            along-Sent (ground (arith, plain))
              (plain_packet_of-Sent s channel_id packet_type sender_id payload)
        | inl required ↦ elim (Option-cases s.control_auth) [
          | inl missing ↦ unchanged-Sent (ground (arith, required, missing))
          | inr (a, here) ↦ elim (Option-cases (of_authenticated peer)) [
            | inl unknown ↦ unchanged-Sent (ground (arith, required, here, unknown))
            | inr (known, found) ↦ along-Sent (ground (arith, required, here, found)) (
                authenticated_packet_of-Sent s a channel_id known.control_key_id packet_type
                  sender_id payload here)
          ]
        ]
      ]

  pub relay_codec_config_for_peer-Sent :
      (s : Server) (channel_id : ℕ) (peer : Option Peer) (sender_id : ℕ) (config : CodecConfigState)
      → Sent p s (relay_codec_config_for_peer p s channel_id peer sender_id config).0
  unfolding relay_codec_config_for_peer
  relay_codec_config_for_peer-Sent s channel_id peer sender_id config =
      elim (Bool-cases (control_auth_required s channel_id)) [
        | inr plain ↦
            along-Sent (ground (arith, plain))
              (plain_packet_of-Sent s channel_id pkt_codec_config sender_id config.payload)
        | inl required ↦ elim (Option-cases s.control_auth) [
          | inl missing ↦ unchanged-Sent (ground (arith, required, missing))
          | inr (a, here) ↦ elim (Option-cases (of_authenticated peer)) [
            | inl unknown ↦ unchanged-Sent (ground (arith, required, here, unknown))
            | inr (known, found) ↦ elim (Bool-cases (config.control_key_id == 0)) [
              | inl keyless ↦ unchanged-Sent (ground (arith, required, here, found, keyless))
              | inr keyed ↦ along-Sent (ground (arith, required, here, found, keyed)) (
                  authenticated_packet_of-Sent s a channel_id config.control_key_id pkt_codec_config
                    sender_id config.payload here)
            ]
          ]
        ]
      ]
