-- ===== src/Relay/Media.antt =====
-- Codec configurations and the media that they let through: `cacheCodecConfig` of main.go,
-- `mediaMatchesCodecConfig` and `isCompatibilityMediaPacket` of control_auth.go, and
-- `durationToSecondsClamped` with the payload of `sendServerConfig`, of main.go.
use Prim.Native.Nat.{min}
use incom_udon_server.Base.{
  ℕ, ◌+◌, ◌/◌, List, ◌∷◌, ◌++◌, Bool, false, not, ◌&&◌, ◌||◌, Option, none, some, ltb, ◌==◌,
  if◌then◌else◌, length, drop, bytes_eq, nat_eq, bit_and,
}
use incom_udon_server.Base.Assoc.{lookup, insert}
use incom_udon_server.Platform.{second}
use incom_udon_server.Wire.{put16}
use incom_udon_server.Wire.Types.{
  ParsedPacket, zero_base, packet_flag_aes_gcm_v2_header_aad, packet_flag_control_auth_v1,
  fixed_header_size, security_header_extension_size, aes_gcm_v2_header_size, auth_tag_size,
  max_talk_maximum_seconds_v1, max_active_talkers_v1,
}
use incom_udon_server.Auth.State.{ControlAuthState, is_required}
use incom_udon_server.Relay.{CodecConfigState, Server, set_channel, control_auth_required}
use incom_udon_server.Relay.Membership.{membership_timing_for_peer}

abbrev required_policy : Option ControlAuthState → Bool
required_policy none = false
required_policy (some a) = is_required a.policy

abbrev pub requires_aes_gcm_v2_media_profile : Server → Bool
requires_aes_gcm_v2_media_profile s = required_policy s.control_auth

-- Whether a configuration with this nonce base may be announced.
unfoldable pub may_announce : Server → ℕ → List ℕ → ℕ → Bool → Bool
may_announce s channel_id announced_base control_key_id authenticated =
    let is_keyed = authenticated && not (control_key_id == 0) in
    if not (bytes_eq announced_base zero_base)
    then is_keyed && control_auth_required s channel_id
    else if requires_aes_gcm_v2_media_profile s
    then false
    else not (control_auth_required s channel_id) || is_keyed

unfoldable pub cache_codec_config :
    Server → ℕ → ℕ → List ℕ → ℕ → Bool → Server × Option CodecConfigState
cache_codec_config s channel_id sender_id payload control_key_id authenticated =
    let announced_base = drop 7 payload in
    let state : CodecConfigState = record {
      payload = payload;
      media_nonce_base = announced_base;
      media_key_id = 2;
      control_key_id = control_key_id;
    } in
    if not (length payload == 19)
      || not (may_announce s channel_id announced_base control_key_id authenticated)
    then (s, none)
    else elim (lookup channel_id s.channels) [
      | none ↦ (s, none)
      | some ch ↦ (
        set_channel s channel_id (record ch {
          codec_configs = insert sender_id payload ch.codec_configs;
          media_codec_configs = insert sender_id state ch.media_codec_configs;
        }),
        some state,
      )
    ]

unfoldable pub is_compatibility_media_packet : Server → ParsedPacket → Bool
is_compatibility_media_packet s pkt =
    if not (
      bit_and pkt.header.flags (packet_flag_aes_gcm_v2_header_aad + packet_flag_control_auth_v1)
      == 0)
    then false
    else if pkt.header.header_len == fixed_header_size
    then s.no_crypto && (length pkt.tag == 0)
    else if pkt.header.header_len == fixed_header_size + security_header_extension_size
    then (pkt.sec.key_id == 1) && (length pkt.tag == auth_tag_size)
    else false

unfoldable pub config_admits : Server → CodecConfigState → ParsedPacket → Bool
config_admits s config pkt =
    if bytes_eq config.media_nonce_base zero_base
    then is_compatibility_media_packet s pkt
    else (pkt.header.header_len == aes_gcm_v2_header_size)
      && not (bit_and pkt.header.flags packet_flag_aes_gcm_v2_header_aad == 0)
      && (pkt.sec.key_id == 2)
      && (config.media_key_id == pkt.sec.key_id)
      && bytes_eq config.media_nonce_base pkt.sec.media_nonce_base

unfoldable pub media_matches_codec_config : Server → ParsedPacket → Bool
media_matches_codec_config s pkt = elim (lookup pkt.header.channel_id s.channels) [
  | none ↦ false
  | some ch ↦ elim (lookup pkt.header.sender_id ch.media_codec_configs) [
    | none ↦ false
    | some config ↦ config_admits s config pkt
  ]
]

-- At least 1 for a positive duration, and at most what two bytes hold.
unfoldable pub duration_to_seconds_clamped : ℕ → ℕ
duration_to_seconds_clamped d =
    if d == 0
    then 0
    else if d / second == 0
    then 1
    else if ltb max_talk_maximum_seconds_v1 (d / second)
    then max_talk_maximum_seconds_v1
    else d / second

abbrev announced_limit : Server → ℕ
announced_limit s =
    if not s.multi_talk
    then 1
    else if ltb s.max_active_talkers 1
    then 1
    else min s.max_active_talkers max_active_talkers_v1

-- The payload of `sendServerConfig`.
unfoldable pub server_config_payload : Server → ℕ → ℕ → List ℕ
server_config_payload s channel_id sender_id =
    let (lease, keepalive) = membership_timing_for_peer s channel_id sender_id in
    put16 (duration_to_seconds_clamped s.talk_max)
    ++ ((if s.multi_talk then 1 else 0)
        ∷ (announced_limit s
            ∷ (put16 (duration_to_seconds_clamped lease)
                ++ put16 (duration_to_seconds_clamped keepalive))))
