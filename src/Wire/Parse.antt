-- ===== src/Wire/Parse.antt =====
-- `parsePacket`, `parsePacketPayload` and `parseCodecConfigPayload`.
use incom_udon_server.Base.{
  ℕ, ◌+◌, ◌-◌, List, [], Bool, not, ◌&&◌, ◌||◌, Option, none, some, bit_and, ltb, ◌==◌,
  if◌then◌else◌, length, slice, drop,
}
use incom_udon_server.Wire.Bytes.{byte, be16, be32, be64}
use incom_udon_server.Wire.Types.{
  PacketHeader, SecurityHeader, ParsedPacket, no_security, fixed_header_size,
  security_header_extension_size, aes_gcm_v2_header_size, auth_tag_size,
  packet_flag_aes_gcm_v2_header_aad, pkt_audio, pkt_fec,
}

-- A payload length below zero is an offset and a tag that the data cannot hold.
unfoldable pub parse_packet_payload :
    List ℕ → PacketHeader → SecurityHeader → ℕ → Option ParsedPacket
parse_packet_payload datagram header sec payload_offset =
    let payload_len = length datagram - payload_offset - auth_tag_size in
    if ltb (length datagram) (payload_offset + auth_tag_size)
    then none
    else some (record {
      header = header;
      sec = sec;
      payload = slice payload_offset (payload_offset + payload_len) datagram;
      tag = drop (payload_offset + payload_len) datagram;
      raw = datagram;
    })

unfoldable pub parse_header : List ℕ → PacketHeader
parse_header datagram = record {
  version = byte datagram 0;
  pkt_type = byte datagram 1;
  header_len = be16 (slice 2 4 datagram);
  channel_id = be32 (slice 4 8 datagram);
  sender_id = be32 (slice 8 12 datagram);
  seq = be16 (slice 12 14 datagram);
  flags = be16 (slice 14 16 datagram);
}

abbrev pub has_flag : ℕ → ℕ → Bool
has_flag flags mask = not (bit_and flags mask == 0)

abbrev pub is_media_type : ℕ → Bool
is_media_type t = (t == pkt_audio) || (t == pkt_fec)

-- The three forms of a packet.
unfoldable pub parse_media_v2 : List ℕ → PacketHeader → Option ParsedPacket
parse_media_v2 datagram header =
    let sec : SecurityHeader = record {
      control_nonce = 0;
      media_nonce_base = slice 16 28 datagram;
      media_counter = be32 (slice 28 32 datagram);
      key_id = be32 (slice 32 36 datagram);
    } in
    if not (header.header_len == aes_gcm_v2_header_size)
      || ltb (length datagram) (aes_gcm_v2_header_size + auth_tag_size)
    then none
    else parse_packet_payload datagram header sec aes_gcm_v2_header_size

unfoldable pub parse_extended : List ℕ → PacketHeader → Option ParsedPacket
parse_extended datagram header =
    let sec : SecurityHeader = record no_security {
      control_nonce = be64 (slice 16 24 datagram);
      key_id = be32 (slice 24 28 datagram);
    } in
    if ltb (length datagram) (fixed_header_size + security_header_extension_size + auth_tag_size)
    then none
    else parse_packet_payload datagram header sec
        (fixed_header_size + security_header_extension_size)

unfoldable pub parse_plain : List ℕ → PacketHeader → Bool → Option ParsedPacket
parse_plain datagram header no_crypto =
    if not (header.header_len == fixed_header_size) || not no_crypto
    then none
    else some (record {
      header = header;
      sec = no_security;
      payload = drop fixed_header_size datagram;
      tag = [];
      raw = datagram;
    })

unfoldable pub parse_packet : List ℕ → Bool → Option ParsedPacket
unfolding parse_media_v2 parse_extended parse_plain
parse_packet datagram no_crypto =
    let header = parse_header datagram in
    if ltb (length datagram) fixed_header_size
    then none
    else if is_media_type header.pkt_type && has_flag header.flags packet_flag_aes_gcm_v2_header_aad
    then parse_media_v2 datagram header
    else if header.header_len == fixed_header_size + security_header_extension_size
    then parse_extended datagram header
    else parse_plain datagram header no_crypto

pub record CodecConfig : Type 0 where
  pub pcm_only : Bool
  pub codec_id : ℕ
  pub mode : ℕ

unfoldable pub parse_codec_config_payload : List ℕ → Option CodecConfig
parse_codec_config_payload payload =
    let pcm_only = has_flag (byte payload 0) 1 in
    if not (length payload == 19)
    then none
    else some (record {
      pcm_only = pcm_only;
      codec_id = if pcm_only then 0 else byte payload 1;
      mode = be32 (slice 2 6 payload);
    })
