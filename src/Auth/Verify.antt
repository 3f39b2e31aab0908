-- ===== src/Auth/Verify.antt =====
-- Authenticated packets: what is built is accepted, and what is accepted carries the right tag.
use incom_udon_server.Base.{
  ℕ, ◌+◌, ◌-◌, ◌/◌, ◌%◌, ◌^◌, ◌≤◌, ◌<◌, ◌≡◌, ◌≢◌, refl, sym, ap, ◌∙◌, arith, List, ◌∷◌, ◌++◌, Bool,
  true, some, length, length-append, length-take, take, slice, bytes_eq_iff, bit_and, take-append,
}
use mathlib.Core.List.{append_assoc}
use incom_udon_server.Platform.{Platform, codes}
use incom_udon_server.Wire.Bytes.{be32, be64}
use incom_udon_server.Wire.Types.{PacketHeader, ParsedPacket, no_security}
use incom_udon_server.Wire.Parse.{parse_header, parse_packet}
use incom_udon_server.Wire.RoundTrip.{extended_form, parse_packet_payload-append, relay_header_of}
use incom_udon_server.Auth.State.{ControlAuthState, key}
use incom_udon_server.Auth.Packet.{
  control_auth_tag, is_control_auth_form, verify_control_auth_packet, control_auth_header,
  build_authenticated_control_packet_with_seq, verify_incoming_control,
}

-- HMAC-SHA256 yields 32 bytes; the code relies on the first 16.
abbrev pub HasLongMac : Platform → Type 0
HasLongMac p = (k m : List ℕ) → 16 ≤ length (p.hmac_sha256 k m)

tag-length :
    (p : Platform) (k body : List ℕ) → HasLongMac p → length (control_auth_tag p k body) ≡ 16
unfolding control_auth_tag
tag-length p k body h = omega (
  arith,
  length-take 16 (p.hmac_sha256 k (codes "incomudon-control-auth-v1" ++ (0 ∷ body))),
  h k (codes "incomudon-control-auth-v1" ++ (0 ∷ body)),
)

-- What a reader gets out of an authenticated packet.
abbrev pub authenticated_packet : Platform → ℕ → ℕ → ℕ → List ℕ → ℕ → List ℕ → ℕ → ℕ → ParsedPacket
authenticated_packet p t ch sender payload key_id k nonce sequence = record {
  header = record (relay_header_of t 28 ch sender sequence) { flags = 2 };
  sec = record no_security { control_nonce = nonce; key_id = key_id };
  payload = payload;
  tag = control_auth_tag p k (control_auth_header t ch sender key_id nonce sequence ++ payload);
  raw = build_authenticated_control_packet_with_seq p t ch sender payload key_id k nonce sequence;
}

header_fields :
    (t ch sender key_id nonce sequence : ℕ) (rest : List ℕ)
    → ch < 2 ^ 32
    → sender < 2 ^ 32
    → sequence < 2 ^ 16
    → parse_header (control_auth_header t ch sender key_id nonce sequence ++ rest)
      ≡ record (relay_header_of t 28 ch sender sequence) { flags = 2 }
unfolding parse_header control_auth_header
header_fields t ch sender key_id nonce sequence rest a b c = ground arith

nonce_field :
    (t ch sender key_id nonce sequence : ℕ) (rest : List ℕ)
    → nonce < 2 ^ 64
    → be64 (slice 16 24 (control_auth_header t ch sender key_id nonce sequence ++ rest)) ≡ nonce
unfolding control_auth_header
nonce_field t ch sender key_id nonce sequence rest h = omega arith

key_field :
    (t ch sender key_id nonce sequence : ℕ) (rest : List ℕ)
    → key_id < 2 ^ 32
    → be32 (slice 24 28 (control_auth_header t ch sender key_id nonce sequence ++ rest)) ≡ key_id
unfolding control_auth_header
key_field t ch sender key_id nonce sequence rest h = omega arith

header-length :
    (t ch sender key_id nonce sequence : ℕ)
    → length (control_auth_header t ch sender key_id nonce sequence) ≡ 28
unfolding control_auth_header
header-length t ch sender key_id nonce sequence = refl

module _ (p : Platform) (t ch sender : ℕ) (payload : List ℕ) (key_id : ℕ) (k : List ℕ)
    (nonce sequence : ℕ) (mac : HasLongMac p) (ch_fits : ch < 2 ^ 32)
    (sender_fits : sender < 2 ^ 32) (key_id_fits : key_id < 2 ^ 32) (nonce_fits : nonce < 2 ^ 64)
    (sequence_fits : sequence < 2 ^ 16) where
  parse_authenticated :
      (no_crypto : Bool)
      → parse_packet
          (build_authenticated_control_packet_with_seq p t ch sender payload key_id k nonce
            sequence)
          no_crypto
        ≡ some (authenticated_packet p t ch sender payload key_id k nonce sequence)
  unfolding build_authenticated_control_packet_with_seq
  parse_authenticated no_crypto =
      let front : List ℕ = control_auth_header t ch sender key_id nonce sequence in
      let tag : List ℕ = control_auth_tag p k (front ++ payload) in
      let d : List ℕ = front ++ (payload ++ tag) in
      let h =
        header_fields t ch sender key_id nonce sequence (payload ++ tag) ch_fits sender_fits
          sequence_fits in
      let size : 44 ≤ length d = omega (
        arith,
        length-append front (payload ++ tag),
        length-append payload tag,
        header-length t ch sender key_id nonce sequence,
        tag-length p k (front ++ payload) mac,
      ) in
      extended_form d no_crypto size (ap (λ (x : PacketHeader). x.header_len) h)
        (ap (λ (x : PacketHeader). bit_and x.flags 1) h)
      ∙ parse_packet_payload-append front payload tag 28 (parse_header d) _
          (header-length t ch sender key_id nonce sequence) (tag-length p k (front ++ payload) mac)
      ∙ rw (
        h,
        nonce_field t ch sender key_id nonce sequence (payload ++ tag) nonce_fits,
        key_field t ch sender key_id nonce sequence (payload ++ tag) key_id_fits,
      )

  abbrev built : ParsedPacket
  built = authenticated_packet p t ch sender payload key_id k nonce sequence

  body : List ℕ
  body = control_auth_header t ch sender key_id nonce sequence ++ payload

  raw_split : built.raw ≡ body ++ control_auth_tag p k body
  unfolding build_authenticated_control_packet_with_seq body
  raw_split = sym (
      append_assoc (control_auth_header t ch sender key_id nonce sequence) payload
        (control_auth_tag p k body))

  raw-length : length built.raw ≡ length body + 16
  raw-length =
      ap length raw_split
      ∙ omega (arith, length-append body (control_auth_tag p k body), tag-length p k body mac)

  body-length : 28 ≤ length body
  unfolding body
  body-length = omega (
    arith,
    length-append (control_auth_header t ch sender key_id nonce sequence) payload,
    header-length t ch sender key_id nonce sequence,
  )

  raw_body : take (length built.raw - 16) built.raw ≡ body
  raw_body =
      ap (take (length built.raw - 16)) raw_split
      ∙ take-append body (control_auth_tag p k body) (length built.raw - 16)
          (omega (arith, raw-length))

  form_holds : length k ≡ 32 → nonce ≢ 0 → key_id ≢ 0 → is_control_auth_form built k ≡ true
  unfolding is_control_auth_form body
  form_holds hk hn hi = ground (arith, tag-length p k body mac, raw-length, body-length)

  -- The tag of a built packet is that of the bytes in front of it.
  tag_checked : length k ≡ 32 → nonce ≢ 0 → key_id ≢ 0 → verify_control_auth_packet p built k ≡ true
  unfolding verify_control_auth_packet body
  tag_checked hk hn hi =
      rw (form_holds hk hn hi, raw_body) ((bytes_eq_iff (control_auth_tag p k body) _).1 refl)

  checked_under :
      (a : ControlAuthState)
      → key a ch key_id ≡ k
      → length k ≡ 32
      → key_id ≢ 0
      → nonce / 2 ^ 32 ≢ 0
      → verify_control_auth_packet p built (key a ch key_id) ≡ true
  checked_under a hk len hi hn = rw hk (tag_checked len (λ e. hn (omega arith)) hi)

  -- A control packet that is built with a channel's key is parsed and accepted by a holder of the same
  -- key, in either mode, and the receiver reads back the key, the session and the counter that the
  -- nonce was made of, and with them the payload. HMAC is assumed to yield at least 16 bytes.
  pub verify_incoming_control-build :
      (a : ControlAuthState) (no_crypto : Bool)
      → key a ch key_id ≡ k
      → length k ≡ 32
      → key_id ≢ 0
      → nonce / 2 ^ 32 ≢ 0
      → (pkt : ParsedPacket) × (parse_packet
            (build_authenticated_control_packet_with_seq p t ch sender payload key_id k nonce
              sequence)
            no_crypto
          ≡ some pkt)
        × (pkt.payload ≡ payload)
        × (verify_incoming_control p (some a) pkt
            ≡ some
                (record { key_id = key_id; session_id = nonce / 2 ^ 32; counter = nonce % 2 ^ 32 }))
  verify_incoming_control-build a no_crypto hk len hi hn = (
    authenticated_packet p t ch sender payload key_id k nonce sequence,
    parse_authenticated no_crypto,
    refl,
    unfold verify_incoming_control in ground (arith, checked_under a hk len hi hn),
  )
