-- ===== src/Examples/Relay.antt =====
-- Runs of the Relay's channels.
use incom_udon_server.Base.{
  ℕ, ◌*◌, ◌<◌, ◌≡◌, ◌≢◌, ◌≤◌, ◌⊎◌, refl, arith, List, [], ◌∷◌, ◌++◌, true, false, Option, none,
  some, replicate, bit_and, is_some, drop, nat_eq, string_eq,
}
use incom_udon_server.Base.Assoc.{lookup, insert, delete, keep}
use incom_udon_server.Platform.{UdpAddr, peer_map_key, second}
use incom_udon_server.Wire.Types.{
  ParsedPacket, aes_gcm_v2_header_size, packet_flag_aes_gcm_v2_header_aad, zero_base, no_security,
}
use incom_udon_server.Admission.Types.{
  IdentityAdmission, ServiceAdmission, admission_key_of, admission_allows_interrupt,
}
use incom_udon_server.Admission.Identity.{
  IdentityAdmissionMode, IdentityAdmissionState, is_required,
}
use incom_udon_server.Admission.Identity as Identity
use incom_udon_server.Admission.Service.Exchange as Service
use incom_udon_server.Auth.State.{ControlAuthPolicy, ControlAuthState, requires}
use incom_udon_server.Diagnostics.{
  RelayDiagnosticsState, RelayFloorInterruptCounterDelta, observe_floor_interrupt,
  observe_floor_interrupt-IsExact, zero_counters, IsExact, GrewBy, WouldPass,
}
use incom_udon_server.Relay.{Peer, Channel, Server, CodecConfigState}
use incom_udon_server.Relay.Floor.{
  active_talker_priority, peer_interrupt_priority, peer_allows_interrupt, is_active,
}
use incom_udon_server.Relay.Request.{handle_ptt_request, grant_request, pick_victim, lower_of}
use incom_udon_server.Relay.Membership.{expire_membership_if_needed}
use incom_udon_server.Relay.Join.{resolve_join_admission, resolve}
use incom_udon_server.Relay.Media.{cache_codec_config, may_announce, config_admits}
use incom_udon_server.Relay.Limit.{IsWithinLimit}
use incom_udon_server.Relay.History.{talk_on, talk_off, talk_timeout, run, run-IsWithinLimit}
use incom_udon_server.Relay.Preemption.{handle_ptt_request_preempts}
use incom_udon_server.Relay.Expiry.{member_at, Swept, expire_membership_if_needed_exact}
use incom_udon_server.Relay.Admitted.{
  IsCurrentIdentity, IsCurrentService, resolve_join_admission_single,
}
use incom_udon_server.Relay.Sealed.{cache_codec_config_sealed}
use incom_udon_server.Examples.World.{phone, packet, session}

abbrev pub radio : UdpAddr
radio = record {
  ip = 192 ∷ (0 ∷ (2 ∷ (8 ∷ [])));
  port = 50000;
  zone = "";
  text = "192.0.2.8:50000";
}

abbrev identity : ℕ → IdentityAdmission
identity priority = record {
  permissions = 7;
  priority = priority;
  expires_at = 1200 * second;
  ticket_hash = [];
  actor_id_hash = [];
}

abbrev pub member : ℕ → UdpAddr → ℕ → Peer
member sender_id addr priority = record {
  sender_id = sender_id;
  addr = some addr;
  last_seen = 1000 * second;
  authenticated = true;
  control_session_id = 3;
  control_key_id = 1;
  control_window = record { highest = 1; seen = 3 };
  identity_admission = some (identity priority);
  service_admission = none;
  membership_lease = 30 * second;
  keepalive_interval = 10 * second;
  membership_deadline = 1130 * second;
}

-- Sender 8 talks, with a lower priority than sender 7.
abbrev pub channel_10 : Channel
channel_10 = record {
  peers = ("192.0.2.7:50000", member 7 phone 5) ∷ (("192.0.2.8:50000", member 8 radio 2) ∷ []);
  active_talkers = (8, 1050 * second) ∷ [];
  codec_configs = [];
  media_codec_configs = [];
}

abbrev identities : IdentityAdmissionState
identities = record {
  mode = IdentityAdmissionMode.required;
  issuer = [];
  audience = [];
  keys = [];
  pending = [];
  verified = (admission_key_of (packet []) (some phone) 3, identity 5) ∷ [];
  failed = [];
  draws = 0;
}

abbrev pub control : ControlAuthState
control = record {
  policy = ControlAuthPolicy.required;
  keys = [];
  cookie_secret = [];
  relay = record {
    instance_id = 1;
    counter = 0;
    counter_exhausted = false;
    used_instance_ids = 1 ∷ [];
    draws = 1;
  };
  challenges = [];
  provisional = [];
}

abbrev pub relay : Server
relay = record {
  channels = (10, channel_10) ∷ [];
  no_crypto = false;
  talk_max = 60 * second;
  multi_talk = false;
  max_active_talkers = 1;
  control_auth = some control;
  identity_admission = some identities;
  service_admission = none;
  floor_interrupt = true;
  membership_lease = 30 * second;
  keepalive_interval = 10 * second;
  outbound_seq = 0;
}

pub relay-IsWithinLimit : IsWithinLimit relay
unfolding lookup
relay-IsWithinLimit channel_id ch e = ground arith

run-IsWithinLimit_example :
    IsWithinLimit (run ((10, talk_on 7 5) ∷ ((10, talk_off 8) ∷ ((10, talk_timeout 9) ∷ []))) relay)
run-IsWithinLimit_example =
    run-IsWithinLimit ((10, talk_on 7 5) ∷ ((10, talk_off 8) ∷ ((10, talk_timeout 9) ∷ []))) relay
      relay-IsWithinLimit

handle_ptt_request_preempts_example :
    (requester : Peer) × ((some (member 7 phone 5) ≡ some requester)
      × ((1100 * second < requester.membership_deadline)
          × ((active_talker_priority channel_10.peers 8 (1100 * second)
                < peer_interrupt_priority requester (1100 * second))
              × ((other : ℕ)
                  → is_active channel_10 other ≡ true
                  → active_talker_priority channel_10.peers 8 (1100 * second)
                    ≤ active_talker_priority channel_10.peers other (1100 * second)))))
unfolding handle_ptt_request grant_request pick_victim lower_of active_talker_priority
    peer_interrupt_priority peer_allows_interrupt admission_allows_interrupt is_required requires
    lookup insert delete peer_map_key
handle_ptt_request_preempts_example =
    handle_ptt_request_preempts relay 10 7 phone (1100 * second) channel_10 8 refl refl refl refl

expire_membership_if_needed_exact_example :
    Swept
      (1140 * second)
      (lookup "192.0.2.8:50000" channel_10.peers)
      (member_at (expire_membership_if_needed relay 10 (1140 * second)).0 10 "192.0.2.8:50000")
unfolding lookup
expire_membership_if_needed_exact_example =
    expire_membership_if_needed_exact relay 10 (1140 * second) channel_10 "192.0.2.8:50000" refl
      (refl, (refl, tt))

abbrev no_service : Option ServiceAdmission
no_service = none

resolve_join_admission_single_example :
    ((some (identity 5) ≡ none) ⊎ (no_service ≡ none))
    × ((is_required (some identities) ≡ true
          → (is_some (some (identity 5)) ≡ true) ⊎ (is_some (no_service) ≡ true))
        × (IsCurrentIdentity (1100 * second) (some (identity 5))
            × IsCurrentService (1100 * second) none))
unfolding resolve_join_admission resolve Identity.admission_for_join Identity.current_verified
    Identity.cleanup Service.admission_for_join is_required keep lookup peer_map_key
resolve_join_admission_single_example =
    resolve_join_admission_single relay (packet []) (some phone) session (1100 * second)
      (some (identity 5)) none refl

abbrev announcement : List ℕ
announcement = replicate 7 1 ++ replicate 12 2

abbrev announced : CodecConfigState
announced = record {
  payload = announcement;
  media_nonce_base = replicate 12 2;
  media_key_id = 2;
  control_key_id = 1;
}

abbrev media : ParsedPacket
media = record (packet []) {
  header = record {
    version = 1;
    pkt_type = 1;
    header_len = 36;
    channel_id = 10;
    sender_id = 7;
    seq = 1;
    flags = 1;
  };
  sec = record no_security { media_nonce_base = replicate 12 2; key_id = 2 };
}

abbrev announcing : Server
announcing = record relay {
  channels =
      (
        10,
        record channel_10 {
          codec_configs = (7, announcement) ∷ [];
          media_codec_configs = (7, announced) ∷ [];
        },
      )
      ∷ [];
}

cache_codec_config_sealed_example :
    (true ≡ true)
    × ((announced.control_key_id ≢ 0)
        × ((media.header.header_len ≡ aes_gcm_v2_header_size)
            × ((bit_and media.header.flags packet_flag_aes_gcm_v2_header_aad ≢ 0)
                × ((media.sec.media_nonce_base ≡ drop 7 announcement)
                    × (drop 7 announcement ≢ zero_base)))))
unfolding cache_codec_config may_announce config_admits requires insert lookup
cache_codec_config_sealed_example =
    cache_codec_config_sealed relay announcing 10 7 announcement 1 true announced media refl refl
      refl

abbrev diagnostics : RelayDiagnosticsState
diagnostics = record { counter_epoch = []; floor_interrupt = zero_counters }

abbrev one_grant : RelayFloorInterruptCounterDelta
one_grant = record {
  ptt_requests = 1;
  grants = 1;
  denials = 0;
  preemptions = 0;
  unauthorized_rejections = 0;
}

observe_floor_interrupt-IsExact_example :
    IsExact (observe_floor_interrupt diagnostics one_grant (1 ∷ [])).floor_interrupt
    × ((((observe_floor_interrupt diagnostics one_grant (1 ∷ [])).counter_epoch
            ≡ diagnostics.counter_epoch)
          × GrewBy one_grant zero_counters
              (observe_floor_interrupt diagnostics one_grant (1 ∷ [])).floor_interrupt)
        ⊎ (WouldPass one_grant zero_counters
            × (((observe_floor_interrupt diagnostics one_grant (1 ∷ [])).counter_epoch ≡ 1 ∷ [])
                × GrewBy one_grant zero_counters
                    (observe_floor_interrupt diagnostics one_grant (1 ∷ [])).floor_interrupt)))
observe_floor_interrupt-IsExact_example =
    observe_floor_interrupt-IsExact diagnostics one_grant (1 ∷ [])
      (omega arith, (omega arith, (omega arith, (omega arith, omega arith))))
      (omega arith, (omega arith, (omega arith, (omega arith, omega arith))))
