-- ===== src/Wire/Shape.antt =====
-- What a successful parse says of the datagram.
use incom_udon_server.Base.{
  ℕ, ◌+◌, ◌-◌, ◌≤◌, ◌≡◌, refl, ◌⊎◌, inl, inr, arith, List, [], ◌++◌, Bool, true, false, Option,
  some, length, take, drop, slice, length-drop, length-take, take-slice-drop, take-append-drop,
  some-eq-some, Bool-cases, ==_iff, ltb, ◌==◌, if◌then◌else◌, ◌&&◌, ◌||◌, not, lt→ltb,
}
use mathlib.Core.Path.{subst}
use mathlib.Core.List.{append-nil}
use native.Mathlib.Decide.{dec_lt}
use incom_udon_server.Wire.Types.{PacketHeader, SecurityHeader, ParsedPacket}
use incom_udon_server.Wire.Parse.{
  parse_header, parse_packet, parse_packet_payload, parse_media_v2, parse_extended, parse_plain,
  is_media_type, has_flag,
}

-- The datagram is a header of one of the three sizes, the payload, and a tag of 16 bytes, which only
-- a reader without cryptography lets a 16-byte header go without.
pub record HasShape (datagram : List ℕ) (no_crypto : Bool) (p : ParsedPacket) : Type 0 where
  pub raw : p.raw ≡ datagram
  pub header : p.header ≡ parse_header datagram
  pub split : take p.header.header_len datagram ++ (p.payload ++ p.tag) ≡ datagram
  pub size : p.header.header_len + length p.payload + length p.tag ≡ length datagram
  pub tag :
      ((length p.tag ≡ 16) × ((p.header.header_len ≡ 28) ⊎ (p.header.header_len ≡ 36)))
      ⊎ ((p.tag ≡ []) × (p.header.header_len ≡ 16) × (no_crypto ≡ true))

payload-HasShape :
    (d : List ℕ) (nc : Bool) (h : PacketHeader) (sec : SecurityHeader) (n : ℕ) (p : ParsedPacket)
    → h ≡ parse_header d
    → h.header_len ≡ n
    → (n ≡ 28) ⊎ (n ≡ 36)
    → parse_packet_payload d h sec n ≡ some p
    → HasShape d nc p
unfolding parse_packet_payload
payload-HasShape d nc h sec n p eh hn forms e = elim (Bool-cases (ltb (length d) (n + 16))) [
  | inl short ↦ cc (rw short at e)
  | inr long ↦
      let k : ℕ = length d - n - 16 in
      let room : n + 16 ≤ length d = ground arith in
      let middle : length (slice n (n + k) d) ≡ k =
        omega (arith, length-take (n + k - n) (drop n d), length-drop n d) in
      let last : length (drop (n + k) d) ≡ 16 = omega (arith, length-drop (n + k) d) in
      subst (HasShape d nc) (some-eq-some (rw long at e)) (record {
        raw = refl;
        header = eh;
        split = rw hn (take-slice-drop d n k);
        size = omega (arith, middle, last, hn, room);
        tag = inl (last, rw hn forms);
      })
]

plain-HasShape :
    (d : List ℕ) (nc : Bool) (h : PacketHeader) (p : ParsedPacket)
    → h ≡ parse_header d
    → 16 ≤ length d
    → parse_plain d h nc ≡ some p
    → HasShape d nc p
unfolding parse_plain
plain-HasShape d false h p eh len e = elim (Bool-cases (h.header_len == 16)) [
  | inl same ↦ cc (rw same at e)
  | inr other ↦ cc (rw other at e)
]
plain-HasShape d true h p eh len e = elim (Bool-cases (h.header_len == 16)) [
  | inr other ↦ cc (rw other at e)
  | inl same ↦
      let n : h.header_len ≡ 16 = (==_iff h.header_len 16).0 same in
      subst (HasShape d true) (some-eq-some (rw same at e)) (record {
        raw = refl;
        header = eh;
        split = rw (n, append-nil) (take-append-drop 16 d);
        size = omega (arith, length-drop 16 d, n, len);
        tag = inr (refl, n, refl);
      })
]

media_v2-HasShape :
    (d : List ℕ) (nc : Bool) (p : ParsedPacket)
    → parse_media_v2 d (parse_header d) ≡ some p
    → HasShape d nc p
unfolding parse_media_v2
media_v2-HasShape d nc p e =
    elim (Bool-cases (not ((parse_header d).header_len == 36) || ltb (length d) 52)) [
      | inl bad ↦ cc (rw bad at e)
      | inr good ↦
          let n : (parse_header d).header_len ≡ 36 = ground arith in
          payload-HasShape d nc (parse_header d) _ 36 p refl n (inr refl) (rw good at e)
    ]

extended-HasShape :
    (d : List ℕ) (nc : Bool) (p : ParsedPacket)
    → (parse_header d).header_len ≡ 28
    → parse_extended d (parse_header d) ≡ some p
    → HasShape d nc p
unfolding parse_extended
extended-HasShape d nc p n e = elim (Bool-cases (ltb (length d) 44)) [
  | inl bad ↦ cc (rw bad at e)
  | inr good ↦ payload-HasShape d nc (parse_header d) _ 28 p refl n (inl refl) (rw good at e)
]

-- The form that the header selects.
abbrev forms : List ℕ → Bool → Option ParsedPacket
forms d nc =
    if is_media_type (parse_header d).pkt_type && has_flag (parse_header d).flags 1
    then parse_media_v2 d (parse_header d)
    else if (parse_header d).header_len == 28
    then parse_extended d (parse_header d)
    else parse_plain d (parse_header d) nc

forms-HasShape :
    (d : List ℕ) (nc : Bool) (p : ParsedPacket)
    → 16 ≤ length d
    → forms d nc ≡ some p
    → HasShape d nc p
forms-HasShape d nc p len e =
    elim (Bool-cases
      (is_media_type (parse_header d).pkt_type && has_flag (parse_header d).flags 1)) [
        | inl media ↦ media_v2-HasShape d nc p (rw media at e)
        | inr control ↦ elim (Bool-cases ((parse_header d).header_len == 28)) [
          | inl long ↦ extended-HasShape d nc p ((==_iff _ 28).0 long) (rw (control, long) at e)
          | inr other ↦ plain-HasShape d nc (parse_header d) p refl len (rw (control, other) at e)
        ]
      ]

-- Every datagram that `parsePacket` accepts consists of a header of the length that it states, the
-- payload and the tag, with nothing over: the length is 28 or 36 with a tag of 16 bytes, or, only in
-- no-crypto mode, 16 with none.
pub parse_packet-HasShape :
    (datagram : List ℕ) (no_crypto : Bool) (p : ParsedPacket)
    → parse_packet datagram no_crypto ≡ some p
    → HasShape datagram no_crypto p
parse_packet-HasShape d nc p e = elim (dec_lt (length d) 16) [
  | yes short ↦ unfold parse_packet in cc (rw (lt→ltb _ _ short) at e)
  | no long ↦
      let low : ltb (length d) 16 ≡ false = ground arith in
      forms-HasShape d nc p (omega arith) (unfold parse_packet in rw low at e)
]
