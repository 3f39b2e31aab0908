-- ===== src/Wire.antt =====
-- Packets on the wire: the types and constants at the top of main.go, `parsePacket`,
-- `buildRelayControlPacket` and the payload builders. A byte slice is a list of numbers.
pub mod Types
pub mod Bytes
pub mod Parse
pub mod Build
pub mod RoundTrip
pub mod Shape
pub use Bytes.{byte, be16, be32, be64, put16, put32, put64}
unfoldable pub use Parse.{parse_packet, parse_packet_payload, parse_codec_config_payload}
unfoldable pub use Build.{
  build_control_packet, build_relay_control_packet, build_talk_packet, build_talk_release_packet,
  talk_payload, talk_release_payload,
}
