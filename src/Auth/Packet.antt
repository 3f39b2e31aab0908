-- ===== src/Auth/Packet.antt =====
-- Authenticated control packets: `controlAuthTag`, `verifyControlAuthPacket`,
-- `buildAuthenticatedControlPacketWithSeq`, `controlNonceParts` and `verifyIncomingControl`.
use incom_udon_server.Base.{
  ℕ, ◌+◌, ◌-◌, ◌/◌, ◌%◌, ◌^◌, List, ◌∷◌, ◌++◌, Bool, false, not, ◌&&◌, Option, none, some, ltb,
  ◌==◌, if◌then◌else◌, length, take, bytes_eq,
}
use incom_udon_server.Platform.{Platform, codes}
use incom_udon_server.Wire.{put16, put32, put64}
use incom_udon_server.Wire.Types.{
  ParsedPacket, protocol_version, auth_tag_size, packet_flag_aes_gcm_v2_header_aad,
  packet_flag_control_auth_v1,
}
use incom_udon_server.Wire.Parse.{has_flag}
use incom_udon_server.Auth.State.{ControlAuthState, ControlAuthMeta, key}

abbrev pub control_auth_packet_size : ℕ
control_auth_packet_size = 28

unfoldable pub control_auth_tag : Platform → List ℕ → List ℕ → List ℕ
control_auth_tag p key packet_without_tag =
    take auth_tag_size
      (p.hmac_sha256 key (codes "incomudon-control-auth-v1" ++ (0 ∷ packet_without_tag)))

-- The conditions under which the tag is compared at all.
unfoldable pub is_control_auth_form : ParsedPacket → List ℕ → Bool
is_control_auth_form pkt key =
    (length key == 32)
    && (pkt.header.header_len == control_auth_packet_size)
    && has_flag pkt.header.flags packet_flag_control_auth_v1
    && not (has_flag pkt.header.flags packet_flag_aes_gcm_v2_header_aad)
    && not (pkt.sec.control_nonce == 0)
    && not (pkt.sec.key_id == 0)
    && (length pkt.tag == auth_tag_size)
    && not (ltb (length pkt.raw) (control_auth_packet_size + auth_tag_size))

unfoldable pub verify_control_auth_packet : Platform → ParsedPacket → List ℕ → Bool
verify_control_auth_packet p pkt key =
    let want = control_auth_tag p key (take (length pkt.raw - auth_tag_size) pkt.raw) in
    if is_control_auth_form pkt key then bytes_eq want pkt.tag else false

-- The 28 bytes in front of the payload.
unfoldable pub control_auth_header : ℕ → ℕ → ℕ → ℕ → ℕ → ℕ → List ℕ
control_auth_header pkt_type channel_id sender_id key_id nonce sequence =
    protocol_version
    ∷ pkt_type
    ∷ (put16 control_auth_packet_size
        ++ (put32 channel_id
            ++ (put32 sender_id
                ++ (put16 sequence
                    ++ (put16 packet_flag_control_auth_v1 ++ (put64 nonce ++ put32 key_id))))))

unfoldable pub build_authenticated_control_packet_with_seq :
    Platform → ℕ → ℕ → ℕ → List ℕ → ℕ → List ℕ → ℕ → ℕ → List ℕ
build_authenticated_control_packet_with_seq p pkt_type channel_id sender_id payload key_id key nonce
      sequence =
    let front = control_auth_header pkt_type channel_id sender_id key_id nonce sequence in
    front ++ (payload ++ control_auth_tag p key (front ++ payload))

unfoldable pub control_nonce_parts : ℕ → ℕ × ℕ
control_nonce_parts nonce = (nonce / 2 ^ 32 % 2 ^ 32, nonce % 2 ^ 32)

unfoldable pub verify_incoming_control :
    Platform → Option ControlAuthState → ParsedPacket → Option ControlAuthMeta
unfolding control_nonce_parts
verify_incoming_control p none pkt = none
verify_incoming_control p (some a) pkt =
    let (session_id, counter) = control_nonce_parts pkt.sec.control_nonce in
    if not (verify_control_auth_packet p pkt (key a pkt.header.channel_id pkt.sec.key_id))
    then none
    else if session_id == 0
    then none
    else some (record { key_id = pkt.sec.key_id; session_id = session_id; counter = counter })
