-- ===== src/Wire/RoundTrip.antt =====
-- What the relay builds, it parses.
use incom_udon_server.Base.{
  ℕ, ◌+◌, ◌-◌, ◌^◌, ◌<◌, ◌≤◌, ◌≡◌, refl, ap, ◌∙◌, arith, List, [], ◌++◌, Bool, true, false, some,
  length, length-append, drop-append-append, slice-append-append, slice, bit_and, ltb, drop,
  replicate, if◌then◌else◌,
}
use incom_udon_server.Wire.Bytes.{be32, be64}
use incom_udon_server.Wire.Types.{PacketHeader, SecurityHeader, ParsedPacket, no_security}
use incom_udon_server.Wire.Build.{relay_header, build_relay_control_packet}
use incom_udon_server.Wire.Parse.{parse_header, parse_packet, parse_packet_payload}

abbrev pub relay_header_of : ℕ → ℕ → ℕ → ℕ → ℕ → PacketHeader
relay_header_of pkt_type header_len channel_id sender_id sequence = record {
  version = 1;
  pkt_type = pkt_type;
  header_len = header_len;
  channel_id = channel_id;
  sender_id = sender_id;
  seq = sequence;
  flags = 0;
}

pub parse_header-relay_header :
    (t hl ch sender sequence : ℕ) (rest : List ℕ)
    → hl < 2 ^ 16
    → ch < 2 ^ 32
    → sender < 2 ^ 32
    → sequence < 2 ^ 16
    → parse_header (relay_header t hl ch sender sequence ++ rest)
      ≡ relay_header_of t hl ch sender sequence
unfolding parse_header relay_header
parse_header-relay_header t hl ch sender sequence rest a b c d = ground arith

-- The packet that a reader gets out of one that the relay built.
abbrev pub relay_packet_of : ℕ → ℕ → ℕ → List ℕ → Bool → ℕ → ParsedPacket
relay_packet_of t ch sender payload no_crypto sequence = record {
  header = relay_header_of t (if no_crypto then 16 else 28) ch sender sequence;
  sec = no_security;
  payload = payload;
  tag = if no_crypto then [] else replicate 16 0;
  raw = build_relay_control_packet t ch sender payload no_crypto sequence;
}

-- Any packet that ends in a payload and a tag of sixteen bytes is split there.
pub parse_packet_payload-append :
    (front payload tag : List ℕ) (n : ℕ) (h : PacketHeader) (sec : SecurityHeader)
    → length front ≡ n
    → length tag ≡ 16
    → parse_packet_payload (front ++ (payload ++ tag)) h sec n
      ≡ some (record {
        header = h;
        sec = sec;
        payload = payload;
        tag = tag;
        raw = front ++ (payload ++ tag);
      })
unfolding parse_packet_payload
parse_packet_payload-append front payload tag n h sec hf ht =
    let whole : length (front ++ (payload ++ tag)) ≡ n + (length payload + 16) =
      omega (arith, length-append front (payload ++ tag), length-append payload tag) in
    let size : length (front ++ (payload ++ tag)) - n - 16 ≡ length payload =
      omega (arith, whole) in
    let enough : ltb (length (front ++ (payload ++ tag))) (n + 16) ≡ false =
      ground (arith, whole) in
    ground (
      arith,
      enough,
      size,
      drop-append-append front payload tag (n + length payload) (omega arith),
      slice-append-append front payload tag n (n + length payload) (omega arith) refl,
    )

-- A datagram that carries the security extension, whatever its type.
pub extended_form :
    (datagram : List ℕ) (no_crypto : Bool)
    → 44 ≤ length datagram
    → (parse_header datagram).header_len ≡ 28
    → bit_and (parse_header datagram).flags 1 ≡ 0
    → parse_packet datagram no_crypto
      ≡ parse_packet_payload datagram
          (parse_header datagram)
          (record no_security {
            control_nonce = be64 (slice 16 24 datagram);
            key_id = be32 (slice 24 28 datagram);
          })
          28
unfolding parse_packet
extended_form datagram no_crypto len hl fl = ground arith

pub plain_form :
    (datagram : List ℕ)
    → 16 ≤ length datagram
    → (parse_header datagram).header_len ≡ 16
    → bit_and (parse_header datagram).flags 1 ≡ 0
    → parse_packet datagram true
      ≡ some (record {
        header = parse_header datagram;
        sec = no_security;
        payload = drop 16 datagram;
        tag = [];
        raw = datagram;
      })
unfolding parse_packet
plain_form datagram len hl fl = ground arith

-- Whatever the mode, a reader in that mode gets back the fields and the payload of a control packet
-- that the relay built, with a zero security header, and with a zero tag if the mode has tags.
pub parse_packet-build :
    (t ch sender : ℕ) (payload : List ℕ) (no_crypto : Bool) (sequence : ℕ)
    → ch < 2 ^ 32
    → sender < 2 ^ 32
    → sequence < 2 ^ 16
    → parse_packet (build_relay_control_packet t ch sender payload no_crypto sequence) no_crypto
      ≡ some (relay_packet_of t ch sender payload no_crypto sequence)
unfolding build_relay_control_packet
parse_packet-build t ch sender payload true sequence a b c =
    let h = parse_header-relay_header t 16 ch sender sequence payload (omega arith) a b c in
    let d : List ℕ = relay_header t 16 ch sender sequence ++ payload in
    plain_form d (omega arith) (ap (λ (x : PacketHeader). x.header_len) h)
      (ap (λ (x : PacketHeader). bit_and x.flags 1) h)
    ∙ rw h refl
parse_packet-build t ch sender payload false sequence a b c =
    let rest : List ℕ = replicate 12 0 ++ (payload ++ replicate 16 0) in
    let h = parse_header-relay_header t 28 ch sender sequence rest (omega arith) a b c in
    let front : List ℕ = relay_header t 28 ch sender sequence ++ replicate 12 0 in
    let d : List ℕ = front ++ (payload ++ replicate 16 0) in
    let size : 44 ≤ length d = omega (
      arith,
      length-append front (payload ++ replicate 16 0),
      length-append payload (replicate 16 0),
    ) in
    extended_form d false size (ap (λ (x : PacketHeader). x.header_len) h)
      (ap (λ (x : PacketHeader). bit_and x.flags 1) h)
    ∙ parse_packet_payload-append front payload (replicate 16 0) 28 (parse_header d) _ refl refl
    ∙ rw h refl
