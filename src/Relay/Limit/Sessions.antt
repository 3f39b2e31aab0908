-- ===== src/Relay/Limit/Sessions.antt =====
-- The number of active talkers, across what a session of a peer changes.
use incom_udon_server.Base.{
  ℕ, arith, List, Bool, Option, none, some, true, drop, nat_eq, string_eq, Option-cases, inl, inr,
}
use incom_udon_server.Base.Assoc.{lookup, insert}
use incom_udon_server.Platform.{Platform, UdpAddr, peer_map_key}
use incom_udon_server.Replay.{accept_replay_counter}
use incom_udon_server.Wire.Types.{ParsedPacket}
use incom_udon_server.Auth.State.{ControlAuthMeta, ProvisionalReplayState}
use incom_udon_server.Admission.Types.{ServiceAdmission}
use incom_udon_server.Admission.Service.{admission_allowed_for_membership}
use incom_udon_server.Relay.{Channel, Server, get_or_create_channel, peer_at}
use incom_udon_server.Relay.Peers.{
  upsert_authenticated_peer_with_replay, accept_authenticated_peer_control,
  accept_unauthenticated_peer_control, touch_known_peer, known_entry, or_new,
}
use incom_udon_server.Relay.Join.{attach_service, set_peer_service_admission}
use incom_udon_server.Relay.Media.{cache_codec_config}
use incom_udon_server.Relay.Limit.{IsWithinLimit, set_channel-IsWithinLimit}
use incom_udon_server.Relay.Limit.Members.{
  get_or_create_channel-IsWithinLimit, get_or_create_channel-found, set_peer-IsWithinLimit,
}

pub upsert_authenticated_peer_with_replay-IsWithinLimit :
    (s : Server) (channel_id sender_id : ℕ) (addr : Option UdpAddr) (meta : ControlAuthMeta)
    (replay : ProvisionalReplayState) (now : ℕ)
    → IsWithinLimit s
    → IsWithinLimit
        (upsert_authenticated_peer_with_replay s channel_id sender_id addr meta replay now)
unfolding upsert_authenticated_peer_with_replay
upsert_authenticated_peer_with_replay-IsWithinLimit s channel_id sender_id none meta replay now h
      other found e =
    get_or_create_channel-IsWithinLimit s h channel_id other found e
upsert_authenticated_peer_with_replay-IsWithinLimit s channel_id sender_id (some addr) meta replay
      now h other found e =
    let s' : Server = (get_or_create_channel s channel_id).0 in
    let ch : Channel = (get_or_create_channel s channel_id).1 in
    let h' = get_or_create_channel-IsWithinLimit s h channel_id in
    ground (
      arith,
      h' other found,
      set_peer-IsWithinLimit s' h' channel_id ch addr
          (record (or_new addr (lookup (peer_map_key (some addr)) ch.peers)) {
            sender_id = sender_id;
            addr = some addr;
            last_seen = now;
            authenticated = true;
            control_session_id = meta.session_id;
            control_key_id = meta.key_id;
            control_window = replay.window;
          })
          (get_or_create_channel-found s channel_id) other found,
    )

module _ (s : Server) (h : IsWithinLimit s) (channel_id sender_id : ℕ) where
  pub accept_unauthenticated_peer_control-IsWithinLimit :
      (addr : Option UdpAddr) (now : ℕ)
      → IsWithinLimit (accept_unauthenticated_peer_control s channel_id sender_id addr now).0
  unfolding accept_unauthenticated_peer_control
  accept_unauthenticated_peer_control-IsWithinLimit none now other found e = h other found e
  accept_unauthenticated_peer_control-IsWithinLimit (some addr) now other found e =
      elim (Option-cases (lookup channel_id s.channels)) [
        | inl missing ↦ ground (arith, missing, h other found)
        | inr (ch, here) ↦ elim (Option-cases (peer_at ch sender_id addr)) [
          | inl gone ↦ ground (arith, here, gone, h other found)
          | inr (peer, is_there) ↦ ground (
            arith,
            here,
            is_there,
            h other found,
            set_peer-IsWithinLimit s h channel_id ch addr (record peer { last_seen = now }) here
                other found,
          )
        ]
      ]

  pub touch_known_peer-IsWithinLimit :
      (p : Platform) (addr : Option UdpAddr) (now : ℕ)
      → IsWithinLimit (touch_known_peer p s channel_id sender_id addr now).0
  unfolding touch_known_peer
  touch_known_peer-IsWithinLimit p none now other found e = h other found e
  touch_known_peer-IsWithinLimit p (some addr) now other found e =
      elim (Option-cases (lookup channel_id s.channels)) [
        | inl missing ↦ ground (arith, missing, h other found)
        | inr (ch, here) ↦ elim (Option-cases (known_entry p ch addr)) [
          | inl gone ↦ ground (arith, here, gone, h other found)
          | inr (entry, is_there) ↦ ground (
            arith,
            here,
            is_there,
            h other found,
            set_channel-IsWithinLimit s h channel_id
                (record ch { peers = insert entry.0 (record entry.1 { last_seen = now }) ch.peers })
                (h channel_id ch here) other found,
          )
        ]
      ]

  attach_service-IsWithinLimit :
      (addr : UdpAddr) (admission : ServiceAdmission)
      → IsWithinLimit (attach_service s channel_id sender_id addr admission).0
  unfolding attach_service
  attach_service-IsWithinLimit addr admission other found e =
      elim (Option-cases (lookup channel_id s.channels)) [
        | inl missing ↦ ground (arith, missing, h other found)
        | inr (ch, here) ↦ elim (Option-cases (peer_at ch sender_id addr)) [
          | inl gone ↦ ground (arith, here, gone, h other found)
          | inr (peer, is_there) ↦ ground (
            arith,
            here,
            is_there,
            h other found,
            set_peer-IsWithinLimit s h channel_id ch addr
                (record peer { service_admission = some admission }) here other found,
          )
        ]
      ]

  pub cache_codec_config-IsWithinLimit :
      (payload : List ℕ) (control_key_id : ℕ) (authenticated : Bool)
      → IsWithinLimit
          (cache_codec_config s channel_id sender_id payload control_key_id authenticated).0
  unfolding cache_codec_config
  cache_codec_config-IsWithinLimit payload control_key_id authenticated other found e =
      elim (Option-cases (lookup channel_id s.channels)) [
        | inl missing ↦ ground (arith, missing, h other found)
        | inr (ch, here) ↦ ground (
          arith,
          here,
          h other found,
          h channel_id ch here,
          set_channel-IsWithinLimit s h channel_id
              (record ch {
                codec_configs = insert sender_id payload ch.codec_configs;
                media_codec_configs =
                    insert sender_id
                      (record {
                        payload = payload;
                        media_nonce_base = drop 7 payload;
                        media_key_id = 2;
                        control_key_id = control_key_id;
                      })
                      ch.media_codec_configs;
              })
              (h channel_id ch here) other found,
        )
      ]

pub set_peer_service_admission-IsWithinLimit :
    (s : Server) (channel_id sender_id : ℕ) (addr : Option UdpAddr) (admission : ServiceAdmission)
    (now : ℕ)
    → IsWithinLimit s
    → IsWithinLimit (set_peer_service_admission s channel_id sender_id addr admission now).0
unfolding set_peer_service_admission
set_peer_service_admission-IsWithinLimit s channel_id sender_id none admission now h other found e =
    h other found e
set_peer_service_admission-IsWithinLimit s channel_id sender_id (some addr) admission now h other
      found e =
    let asked : Server = record s {
      service_admission =
          (admission_allowed_for_membership s.service_admission channel_id admission now).0;
    } in
    ground (
      arith,
      h other found,
      attach_service-IsWithinLimit asked h channel_id sender_id addr admission other found,
    )

module _ (s : Server) (h : IsWithinLimit s) (pkt : ParsedPacket) where
  pub accept_authenticated_peer_control-IsWithinLimit :
      (addr : Option UdpAddr) (meta : ControlAuthMeta) (now : ℕ)
      → IsWithinLimit (accept_authenticated_peer_control s pkt addr meta now).0
  unfolding accept_authenticated_peer_control
  accept_authenticated_peer_control-IsWithinLimit none meta now other found e = h other found e
  accept_authenticated_peer_control-IsWithinLimit (some addr) meta now other found e =
      elim (Option-cases (lookup pkt.header.channel_id s.channels)) [
        | inl missing ↦ ground (arith, missing, h other found)
        | inr (ch, here) ↦ elim (Option-cases (peer_at ch pkt.header.sender_id addr)) [
          | inl gone ↦ ground (arith, here, gone, h other found)
          | inr (peer, is_there) ↦ ground (
            arith,
            here,
            is_there,
            h other found,
            set_peer-IsWithinLimit s h pkt.header.channel_id ch addr
                (record peer {
                  control_window = (accept_replay_counter peer.control_window meta.counter).0;
                  last_seen = now;
                })
                here other found,
          )
        ]
      ]
