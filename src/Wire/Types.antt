-- ===== src/Wire/Types.antt =====
-- The packet types and the constants of the protocol.
use incom_udon_server.Base.{ℕ, List, replicate}

abbrev pub protocol_version : ℕ
protocol_version = 1

abbrev pub fixed_header_size : ℕ
fixed_header_size = 16

abbrev pub security_header_extension_size : ℕ
security_header_extension_size = 12

abbrev pub aes_gcm_v2_header_size : ℕ
aes_gcm_v2_header_size = 36

abbrev pub auth_tag_size : ℕ
auth_tag_size = 16

abbrev pub packet_flag_aes_gcm_v2_header_aad : ℕ
packet_flag_aes_gcm_v2_header_aad = 1

abbrev pub packet_flag_control_auth_v1 : ℕ
packet_flag_control_auth_v1 = 2

abbrev pub max_udp_datagram_bytes : ℕ
max_udp_datagram_bytes = 1200

abbrev pub max_active_talkers_v1 : ℕ
max_active_talkers_v1 = 16

abbrev pub max_talk_maximum_seconds_v1 : ℕ
max_talk_maximum_seconds_v1 = 0xFFFF

abbrev pub pkt_audio : ℕ
pkt_audio = 0x01

abbrev pub pkt_ptt_on : ℕ
pkt_ptt_on = 0x02

abbrev pub pkt_ptt_off : ℕ
pkt_ptt_off = 0x03

abbrev pub pkt_keepalive : ℕ
pkt_keepalive = 0x04

abbrev pub pkt_join : ℕ
pkt_join = 0x05

abbrev pub pkt_leave : ℕ
pkt_leave = 0x06

abbrev pub pkt_talk_grant : ℕ
pkt_talk_grant = 0x07

abbrev pub pkt_talk_release : ℕ
pkt_talk_release = 0x08

abbrev pub pkt_talk_deny : ℕ
pkt_talk_deny = 0x09

abbrev pub pkt_key_exchange : ℕ
pkt_key_exchange = 0x0a

abbrev pub pkt_codec_config : ℕ
pkt_codec_config = 0x0b

abbrev pub pkt_fec : ℕ
pkt_fec = 0x0c

abbrev pub pkt_server_cfg : ℕ
pkt_server_cfg = 0x0d

abbrev pub pkt_ping : ℕ
pkt_ping = 0x0e

abbrev pub pkt_pong : ℕ
pkt_pong = 0x0f

abbrev pub pkt_auth_hello : ℕ
pkt_auth_hello = 0x10

abbrev pub pkt_auth_challenge : ℕ
pkt_auth_challenge = 0x11

abbrev pub pkt_identity_begin : ℕ
pkt_identity_begin = 0x12

abbrev pub pkt_identity_challenge : ℕ
pkt_identity_challenge = 0x13

abbrev pub pkt_identity_proof : ℕ
pkt_identity_proof = 0x14

abbrev pub pkt_identity_deny : ℕ
pkt_identity_deny = 0x15

abbrev pub pkt_service_begin : ℕ
pkt_service_begin = 0x16

abbrev pub pkt_service_challenge : ℕ
pkt_service_challenge = 0x17

abbrev pub pkt_service_proof : ℕ
pkt_service_proof = 0x18

abbrev pub pkt_service_deny : ℕ
pkt_service_deny = 0x19

abbrev pub pkt_ptt_request : ℕ
pkt_ptt_request = 0x1a

abbrev pub talk_release_client_ptt_off : ℕ
talk_release_client_ptt_off = 0x00

abbrev pub talk_release_server_timeout : ℕ
talk_release_server_timeout = 0x01

abbrev pub talk_release_membership_timeout : ℕ
talk_release_membership_timeout = 0x02

abbrev pub talk_release_client_leave : ℕ
talk_release_client_leave = 0x03

abbrev pub talk_release_server_policy : ℕ
talk_release_server_policy = 0x04

abbrev pub talk_release_identity_expired : ℕ
talk_release_identity_expired = 0x05

abbrev pub talk_release_service_revoked : ℕ
talk_release_service_revoked = 0x06

abbrev pub talk_release_preempted : ℕ
talk_release_preempted = 0x07

abbrev pub talk_release_service_expired : ℕ
talk_release_service_expired = 0x08

pub record PacketHeader : Type 0 where
  pub version : ℕ
  pub pkt_type : ℕ
  pub header_len : ℕ
  pub channel_id : ℕ
  pub sender_id : ℕ
  pub seq : ℕ
  pub flags : ℕ

-- The extension of the header; what a packet form does not carry is zero.
pub record SecurityHeader : Type 0 where
  pub control_nonce : ℕ
  pub media_nonce_base : List ℕ
  pub media_counter : ℕ
  pub key_id : ℕ

abbrev pub zero_base : List ℕ
zero_base = replicate 12 0

abbrev pub no_security : SecurityHeader
no_security = record {
  control_nonce = 0;
  media_nonce_base = zero_base;
  media_counter = 0;
  key_id = 0;
}

pub record ParsedPacket : Type 0 where
  pub header : PacketHeader
  pub sec : SecurityHeader
  pub payload : List ℕ
  pub tag : List ℕ
  pub raw : List ℕ
