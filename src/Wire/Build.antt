-- ===== src/Wire/Build.antt =====
-- `buildRelayControlPacket` and its callers, and the payloads of the talk messages.
use incom_udon_server.Base.{ℕ, ◌+◌, List, [], ◌∷◌, ◌++◌, Bool, if◌then◌else◌, replicate}
use incom_udon_server.Wire.Bytes.{put16, put32}
use incom_udon_server.Wire.Types.{
  protocol_version, fixed_header_size, security_header_extension_size, auth_tag_size,
  pkt_talk_release,
}

-- The sixteen bytes that every control packet without authentication starts with.
unfoldable pub relay_header : ℕ → ℕ → ℕ → ℕ → ℕ → List ℕ
relay_header pkt_type header_len channel_id sender_id sequence =
    protocol_version
    ∷ pkt_type
    ∷ (put16 header_len ++ (put32 channel_id ++ (put32 sender_id ++ (put16 sequence ++ put16 0))))

unfoldable pub build_relay_control_packet : ℕ → ℕ → ℕ → List ℕ → Bool → ℕ → List ℕ
unfolding relay_header
build_relay_control_packet pkt_type channel_id sender_id payload no_crypto sequence =
    if no_crypto
    then relay_header pkt_type fixed_header_size channel_id sender_id sequence ++ payload
    else relay_header pkt_type (fixed_header_size + security_header_extension_size) channel_id
        sender_id sequence
      ++ (replicate security_header_extension_size 0 ++ (payload ++ replicate auth_tag_size 0))

unfoldable pub build_control_packet : ℕ → ℕ → ℕ → List ℕ → Bool → List ℕ
unfolding build_relay_control_packet
build_control_packet pkt_type channel_id sender_id payload no_crypto =
    build_relay_control_packet pkt_type channel_id sender_id payload no_crypto 0

unfoldable pub talk_payload : ℕ → List ℕ
talk_payload talker_id = put32 talker_id

unfoldable pub talk_release_payload : ℕ → ℕ → List ℕ
talk_release_payload talker_id reason = put32 talker_id ++ (reason ∷ [])

unfoldable pub build_talk_packet : ℕ → ℕ → ℕ → Bool → List ℕ
unfolding build_control_packet talk_payload
build_talk_packet pkt_type channel_id talker_id no_crypto =
    build_control_packet pkt_type channel_id talker_id (talk_payload talker_id) no_crypto

unfoldable pub build_talk_release_packet : ℕ → ℕ → ℕ → Bool → List ℕ
unfolding build_control_packet talk_release_payload
build_talk_release_packet channel_id talker_id reason no_crypto =
    build_control_packet pkt_talk_release channel_id talker_id
      (talk_release_payload talker_id reason) no_crypto
