-- ===== src/Relay/Sealed.antt =====
-- What the required policy lets through.
use incom_udon_server.Base.{
  ℕ, ◌≡◌, ◌≢◌, arith, List, Bool, true, false, some, drop, bytes_eq_iff, bit_and, Option-cases, inl,
  inr, nat_eq,
}
use incom_udon_server.Base.Assoc.{lookup}
use incom_udon_server.Wire.Types.{
  ParsedPacket, aes_gcm_v2_header_size, packet_flag_aes_gcm_v2_header_aad, zero_base,
}
use incom_udon_server.Relay.{Server, CodecConfigState}
use incom_udon_server.Relay.Media.{
  requires_aes_gcm_v2_media_profile, may_announce, cache_codec_config, config_admits,
}

-- A configuration that is cached under the required policy was authenticated with a key and has a
-- nonce base, and the media that matches it is in the AES-GCM v2 form with that base.
pub cache_codec_config_sealed :
    (s s' : Server) (channel_id sender_id : ℕ) (payload : List ℕ) (control_key_id : ℕ)
    (authenticated : Bool) (config : CodecConfigState) (pkt : ParsedPacket)
    → requires_aes_gcm_v2_media_profile s ≡ true
    → cache_codec_config s channel_id sender_id payload control_key_id authenticated
      ≡ (s', some config)
    → config_admits s' config pkt ≡ true
    → (authenticated ≡ true)
      × ((control_key_id ≢ 0)
          × ((pkt.header.header_len ≡ aes_gcm_v2_header_size)
              × ((bit_and pkt.header.flags packet_flag_aes_gcm_v2_header_aad ≢ 0)
                  × ((pkt.sec.media_nonce_base ≡ drop 7 payload) × (drop 7 payload ≢ zero_base)))))
unfolding cache_codec_config may_announce config_admits
cache_codec_config_sealed s s' channel_id sender_id payload control_key_id authenticated config pkt
      required cached admits =
    elim (Option-cases (lookup channel_id s.channels)) [
      | inl missing ↦ let impossible : true ≡ false = ground (arith, missing, cached) in cc
      | inr (ch, here) ↦ ground (
        arith,
        here,
        bytes_eq_iff (drop 7 payload) zero_base,
        bytes_eq_iff (drop 7 payload) pkt.sec.media_nonce_base,
        required,
        cached,
        admits,
      )
    ]
