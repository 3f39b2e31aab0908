-- ===== src/Examples/Auth.antt =====
-- Runs of the control authentication.
use incom_udon_server.Base.{
  ℕ, ◌+◌, ◌*◌, ◌/◌, ◌%◌, ◌^◌, ◌≡◌, refl, arith, List, [], ◌∷◌, ◌++◌, false, none, some, length,
  replicate, length-append, AllNew, is_some, true,
}
use incom_udon_server.Base.Assoc.{lookup, delete, keep, insert}
use incom_udon_server.Platform.{peer_map_key, second}
use incom_udon_server.Replay.{Window, initial_window, accept_replay_counter, advance}
use incom_udon_server.Wire.Types.{ParsedPacket, pkt_keepalive}
use incom_udon_server.Wire.Bytes.{put32}
use incom_udon_server.Wire.Parse.{parse_packet, parse_header, parse_extended, parse_packet_payload}
use incom_udon_server.Auth.State.{
  ControlAuthPolicy, ControlAuthState, ControlAuthMeta, ProvisionalReplayKey, key,
}
use incom_udon_server.Auth.Packet.{
  build_authenticated_control_packet_with_seq, verify_incoming_control, verify_control_auth_packet,
  control_auth_tag, is_control_auth_form, control_auth_header,
}
use incom_udon_server.Auth.Challenge.{
  cookie, cookie_ip, take_challenge, consume_join_challenge, accept_provisional, cleanup_pending,
  challenge_key_of, replay_key_of, create_challenge, register_challenge, accept_pre_join_control,
}
use incom_udon_server.Auth.Verify.{verify_incoming_control-build, HasLongMac, authenticated_packet}
use incom_udon_server.Auth.Sound.{verify_control_auth_packet_sound}
use incom_udon_server.Auth.Pending.{IsBounded}
use incom_udon_server.Auth.Sessions.{
  Exchange, exchange, exchange_all, exchange_all-IsBounded, opens, opens_any,
}
use incom_udon_server.Auth.Handshake.{consume_join_challenge-create_challenge}
use incom_udon_server.Auth.Once.{consume_join_challenge_once}
use incom_udon_server.Auth.Counters.{passed, let_through}
use incom_udon_server.Auth.Counters.Once.{let_through_once}
use incom_udon_server.Examples.World.{small_world, phone, packet, session}

abbrev secret : List ℕ
secret = replicate 32 9

abbrev channel_10 : ControlAuthState
channel_10 = record {
  policy = ControlAuthPolicy.required;
  keys = (10, ((1, secret) ∷ [])) ∷ [];
  cookie_secret = replicate 32 1;
  relay = record {
    instance_id = 1;
    counter = 0;
    counter_exhausted = false;
    used_instance_ids = 1 ∷ [];
    draws = 1;
  };
  challenges = [];
  provisional = [];
}

abbrev join : ParsedPacket
join = packet (put32 100 ++ replicate 16 1)

abbrev joining : ControlAuthMeta
joining = record { key_id = 1; session_id = 3; counter = 1 }

abbrev window_1 : Window
window_1 = record { highest = 1; seen = 3 }

-- One challenge is open, until second 100.
abbrev challenged : ControlAuthState
challenged = record channel_10 {
  challenges = (challenge_key_of join (some phone) joining 100 (replicate 16 1), 100 * second) ∷ [];
  provisional =
      (
        replay_key_of join (some phone) joining,
        record { window = initial_window; expires_at = 100 * second },
      )
      ∷ [];
}

long_mac : HasLongMac small_world
long_mac k m = omega (arith, length-append k (replicate 16 (length m % 256)))

verify_incoming_control-build_example :
    (pkt : ParsedPacket) × (parse_packet
        (build_authenticated_control_packet_with_seq small_world pkt_keepalive 10 7 [] 1 secret
          (2 ^ 32 + 5)
          8)
        false
      ≡ some pkt)
    × (pkt.payload ≡ [])
    × (verify_incoming_control small_world (some channel_10) pkt
        ≡ some (record {
          key_id = 1;
          session_id = (2 ^ 32 + 5) / 2 ^ 32;
          counter = (2 ^ 32 + 5) % 2 ^ 32;
        }))
unfolding key lookup
verify_incoming_control-build_example =
    verify_incoming_control-build small_world pkt_keepalive 10 7 [] 1 secret (2 ^ 32 + 5) 8 long_mac
      (omega arith) (omega arith) (omega arith) (omega arith) (omega arith) channel_10 false refl
      refl (omega arith) (omega arith)

-- A hello, a control packet and a JOIN of one session.
abbrev exchanges : List Exchange
exchanges =
    Exchange.hello (packet []) (some phone) session 5 6
    ∷ (Exchange.control join (some phone) joining 7
        ∷ (Exchange.join join (some phone) joining 7 8 9 ∷ []))

exchange_all-IsBounded_example : IsBounded (exchange_all small_world exchanges channel_10)
exchange_all-IsBounded_example =
    exchange_all-IsBounded small_world exchanges channel_10 (omega arith)

consumed :
    (consume_join_challenge small_world challenged join (some phone) joining 7 8 9).1
    ≡ some (record { window = window_1; expires_at = 100 * second })
unfolding consume_join_challenge cookie cookie_ip take_challenge accept_provisional cleanup_pending
    accept_replay_counter advance lookup delete keep peer_map_key
consumed = refl

-- The same JOIN and a control packet come back, and another endpoint sends a hello.
abbrev replayed : List Exchange
replayed =
    Exchange.join join (some phone) joining 10 11 12
    ∷ (Exchange.control join (some phone) joining 13
        ∷ (Exchange.hello (packet []) none session 14 15 ∷ []))

consume_join_challenge_once_example :
    ((consume_join_challenge small_world
        (exchange_all small_world replayed
          (consume_join_challenge small_world challenged join (some phone) joining 7 8 9).0)
        join
        (some phone)
        joining
        16
        17
        18).1
      ≡ none)
    × ((accept_pre_join_control
          (exchange_all small_world replayed
            (consume_join_challenge small_world challenged join (some phone) joining 7 8 9).0)
          join
          (some phone)
          joining
          16).1
        ≡ false)
unfolding opens_any opens create_challenge peer_map_key
consume_join_challenge_once_example =
    consume_join_challenge_once small_world challenged join join (some phone) (some phone) joining
      joining 7 8 9 16 17 18 (record { window = window_1; expires_at = 100 * second }) replayed
      consumed refl refl

-- A hello at second 70, and what follows it.
abbrev opening : Exchange
opening = Exchange.hello (packet []) (some phone) session (70 * second) (70 * second)

abbrev following : List Exchange
following =
    Exchange.control (packet []) (some phone) joining (71 * second)
    ∷ (Exchange.control (packet []) (some phone) joining (72 * second)
        ∷ (Exchange.join join (some phone) (record joining { counter = 2 }) (73 * second)
              (73 * second) (73 * second)
            ∷ (Exchange.join join (some phone) (record joining { counter = 2 }) (74 * second)
                  (74 * second) (74 * second)
                ∷ [])))

abbrev phone_session : ProvisionalReplayKey
phone_session = replay_key_of join (some phone) joining

-- The counters 1 and 2 pass, each once.
let_through-following :
    let_through small_world phone_session following (exchange small_world opening channel_10)
    ≡ 1 ∷ (2 ∷ [])
unfolding let_through passed exchange create_challenge register_challenge accept_pre_join_control
    consume_join_challenge cookie cookie_ip take_challenge accept_provisional cleanup_pending
    accept_replay_counter advance lookup delete insert keep peer_map_key key
let_through-following = refl

let_through_once_example :
    AllNew
      (0 ∷ [])
      (let_through small_world phone_session following (exchange small_world opening channel_10))
unfolding opens_any opens create_challenge register_challenge cookie cookie_ip cleanup_pending
    lookup keep peer_map_key key
let_through_once_example =
    let_through_once small_world phone_session opening following channel_10 tt refl refl

consume_join_challenge-create_challenge_example :
    is_some
      (consume_join_challenge small_world
        (create_challenge small_world channel_10
          (packet [])
          (some phone)
          session
          (70 * second)
          (70 * second)).0
        join
        (some phone)
        joining
        (71 * second)
        (71 * second)
        (71 * second)).1
    ≡ true
unfolding create_challenge register_challenge cookie cookie_ip cleanup_pending lookup keep
    peer_map_key key
consume_join_challenge-create_challenge_example =
    consume_join_challenge-create_challenge small_world channel_10 (packet []) phone session
      (put32 100 ++ replicate 16 1) 1 (70 * second) (70 * second) (71 * second) (71 * second)
      (71 * second) long_mac refl (omega arith) (omega arith) (omega arith) (omega arith)

-- A hello of the same second gives the same challenge again, after its JOIN: the JOIN passes again.
reopened :
    let_through small_world phone_session
      (Exchange.join join (some phone) joining (70 * second) (70 * second) (70 * second)
        ∷ (opening
            ∷ (Exchange.join join (some phone) joining (70 * second) (70 * second) (70 * second)
                ∷ [])))
      (exchange small_world opening channel_10)
    ≡ 1 ∷ (1 ∷ [])
unfolding let_through passed exchange create_challenge register_challenge accept_pre_join_control
    consume_join_challenge cookie cookie_ip take_challenge accept_provisional cleanup_pending
    accept_replay_counter advance lookup delete insert keep peer_map_key key
reopened = refl

abbrev keepalive : List ℕ
keepalive =
    build_authenticated_control_packet_with_seq small_world pkt_keepalive 10 7 [] 1 secret
      (2 ^ 32 + 5) 8

verify_control_auth_packet_sound_example :
    (body : List ℕ) × (keepalive ≡ body ++ control_auth_tag small_world secret body)
    × (length secret ≡ 32)
    × ((authenticated_packet small_world pkt_keepalive 10 7 [] 1 secret (2 ^ 32 + 5) 8).header
        ≡ parse_header keepalive)
unfolding build_authenticated_control_packet_with_seq authenticated_packet parse_packet
    parse_extended parse_packet_payload parse_header verify_control_auth_packet is_control_auth_form
    control_auth_tag control_auth_header
verify_control_auth_packet_sound_example =
    verify_control_auth_packet_sound small_world keepalive false
      (authenticated_packet small_world pkt_keepalive 10 7 [] 1 secret (2 ^ 32 + 5) 8) secret refl
      refl
