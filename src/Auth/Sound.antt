-- ===== src/Auth/Sound.antt =====
-- What is accepted carries the right tag.
use incom_udon_server.Base.{
  ℕ, ◌-◌, ◌≡◌, sym, ap, ◌∙◌, arith, List, ◌++◌, Bool, true, some, length, length-append, take,
  bytes_eq, bytes_eq_iff, take-append,
}
use mathlib.Core.List.{append_assoc}
use incom_udon_server.Platform.{Platform}
use incom_udon_server.Wire.Types.{ParsedPacket}
use incom_udon_server.Wire.Parse.{parse_header, parse_packet}
use incom_udon_server.Wire.Shape.{parse_packet-HasShape}
use incom_udon_server.Auth.Packet.{
  control_auth_tag, is_control_auth_form, verify_control_auth_packet,
}

split_tag :
    (xs front mid tag : List ℕ)
    → front ++ (mid ++ tag) ≡ xs
    → length tag ≡ 16
    → xs ≡ take (length xs - 16) xs ++ tag
split_tag xs front mid tag e h =
    let whole : xs ≡ (front ++ mid) ++ tag = sym e ∙ sym (append_assoc front mid tag) in
    let size : length (front ++ mid) ≡ length xs - 16 =
      omega (arith, ap length whole, length-append (front ++ mid) tag) in
    whole
    ∙ ap (λ (t : List ℕ). t ++ tag)
        (sym
          (ap (take (length xs - 16)) whole ∙ take-append (front ++ mid) tag (length xs - 16) size))

-- A parsed packet that passes is a body followed by the body's tag under a key of 32 bytes, and its
-- header is the one that the datagram begins with: nothing of the datagram is left out of the tag.
pub verify_control_auth_packet_sound :
    (p : Platform) (datagram : List ℕ) (no_crypto : Bool) (pkt : ParsedPacket) (k : List ℕ)
    → parse_packet datagram no_crypto ≡ some pkt
    → verify_control_auth_packet p pkt k ≡ true
    → (body : List ℕ) × (datagram ≡ body ++ control_auth_tag p k body)
      × (length k ≡ 32)
      × (pkt.header ≡ parse_header datagram)
verify_control_auth_packet_sound p d nc pkt k e v =
    let shape = parse_packet-HasShape d nc pkt e in
    let body : List ℕ = take (length pkt.raw - 16) pkt.raw in
    let formed : is_control_auth_form pkt k ≡ true =
      unfold verify_control_auth_packet in ground arith in
    let matches : bytes_eq (control_auth_tag p k body) pkt.tag ≡ true =
      unfold verify_control_auth_packet in ground (arith, formed) in
    let same : control_auth_tag p k body ≡ pkt.tag = (bytes_eq_iff _ pkt.tag).0 matches in
    let len : length pkt.tag ≡ 16 = unfold is_control_auth_form in ground arith in
    let split = split_tag d (take pkt.header.header_len d) pkt.payload pkt.tag shape.split len in
    (
      body,
      split
          ∙ ap (λ (t : List ℕ). take (length t - 16) t ++ pkt.tag) (sym shape.raw)
          ∙ ap (◌++◌ body) (sym same),
      (unfold is_control_auth_form in ground arith),
      shape.header,
    )
