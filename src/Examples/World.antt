-- ===== src/Examples/World.antt =====
-- A platform with simple stand-ins for the cryptography, and the endpoint, packet and session that
-- the examples use.
use incom_udon_server.Base.{
  ℕ, ◌+◌, ◌%◌, ◌^◌, List, [], ◌∷◌, ◌++◌, true, some, length, take, replicate, bytes_eq,
}
use incom_udon_server.Platform.{Platform, UdpAddr}
use incom_udon_server.Wire.Types.{ParsedPacket, no_security}
use incom_udon_server.Auth.State.{ControlAuthMeta}

abbrev pub digest : List ℕ → List ℕ
digest bytes = take 32 (bytes ++ replicate 32 0)

abbrev pub small_world : Platform
small_world = record {
  random_u32 = λ n. some ((n + 1) % 2 ^ 32);
  random_challenge = λ n. some (replicate 32 7);
  hmac_sha256 = λ k bytes. k ++ replicate 16 (length bytes % 256);
  sha256 = digest;
  ed25519_verify = λ public_key message signature. true;
  ip_equal = bytes_eq;
  ip_to4 = λ ip. some ip;
  ip_to16 = λ ip. some ip;
  ipv4_to16 = λ ip. some ip;
}

abbrev pub phone : UdpAddr
phone = record {
  ip = 192 ∷ (0 ∷ (2 ∷ (7 ∷ [])));
  port = 50000;
  zone = "";
  text = "192.0.2.7:50000";
}

abbrev pub packet : List ℕ → ParsedPacket
packet payload = record {
  header = record {
    version = 1;
    pkt_type = 5;
    header_len = 28;
    channel_id = 10;
    sender_id = 7;
    seq = 1;
    flags = 2;
  };
  sec = no_security;
  payload = payload;
  tag = replicate 16 0;
  raw = [];
}

abbrev pub session : ControlAuthMeta
session = record { key_id = 1; session_id = 3; counter = 0 }
