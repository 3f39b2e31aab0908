-- ===== src/Auth/Challenge.antt =====
-- The cookie challenge before a JOIN: `cookie`, `createChallenge`, `cleanupPendingLocked`,
-- `acceptPreJoinControl` and `consumeJoinChallenge`. Each reading of the clock is an argument.
use incom_udon_server.Base.{
  ℕ, ◌+◌, ◌*◌, ◌/◌, ◌%◌, ◌^◌, List, ◌∷◌, ◌++◌, Bool, true, false, not, ◌||◌, Option, none, some,
  ltb, leb, ◌==◌, if◌then◌else◌, length, take, drop, replicate, bytes_eq, is_some,
}
use incom_udon_server.Base.Assoc.{Map, keep, lookup, insert, delete}
use incom_udon_server.Platform.{Platform, UdpAddr, codes, peer_map_key, second}
use incom_udon_server.Replay.{accept_replay_counter, initial_window}
use incom_udon_server.Wire.{put16, put32, be32}
use incom_udon_server.Wire.Types.{ParsedPacket, auth_tag_size}
use incom_udon_server.Auth.State.{
  ControlAuthState, ControlAuthMeta, AuthChallengeKey, ProvisionalReplayKey, ProvisionalReplayState,
  AuthError, invalid_hello, unknown_key, too_many_pending, already_pending, key, challenge_key_Eq,
  replay_key_Eq,
}

abbrev pub control_auth_cookie_ttl : ℕ
control_auth_cookie_ttl = 30 * second

abbrev pub max_provisional_control_sessions : ℕ
max_provisional_control_sessions = 1024

abbrev or_else : Option (List ℕ) → List ℕ → List ℕ
or_else none d = d
or_else (some x) d = x

-- The sixteen bytes of the address, IPv4 in its mapped form.
unfoldable pub cookie_ip : Platform → List ℕ → List ℕ
cookie_ip p ip = elim (p.ip_to4 ip) [
  | none ↦ or_else (p.ip_to16 ip) (replicate 16 0)
  | some ipv4 ↦ or_else (p.ipv4_to16 ipv4) (replicate 16 0)
]

unfoldable pub cookie : Platform → ControlAuthState → ℕ → ℕ → ControlAuthMeta → ℕ → UdpAddr → List ℕ
unfolding cookie_ip
cookie p a channel_id sender_id meta expires_at addr = take auth_tag_size (
    p.hmac_sha256 a.cookie_secret (
      codes "incomudon-control-cookie-v1"
      ++ (0
          ∷ (cookie_ip p addr.ip
              ++ (put16 (addr.port % 2 ^ 16)
                  ++ (put32 channel_id
                      ++ (put32 sender_id
                          ++ (put32 meta.key_id
                              ++ (put32 meta.session_id ++ put32 expires_at)))))))))

abbrev pub replay_key_of : ParsedPacket → Option UdpAddr → ControlAuthMeta → ProvisionalReplayKey
replay_key_of pkt addr meta = record {
  channel_id = pkt.header.channel_id;
  sender_id = pkt.header.sender_id;
  key_id = meta.key_id;
  session_id = meta.session_id;
  address = peer_map_key addr;
}

abbrev pub challenge_key_of :
    ParsedPacket → Option UdpAddr → ControlAuthMeta → ℕ → List ℕ → AuthChallengeKey
challenge_key_of pkt addr meta expires_at cookie = record {
  channel_id = pkt.header.channel_id;
  sender_id = pkt.header.sender_id;
  key_id = meta.key_id;
  session_id = meta.session_id;
  address = peer_map_key addr;
  expires_at = expires_at;
  cookie = cookie;
}

unfoldable pub cleanup_pending : ControlAuthState → ℕ → ControlAuthState
cleanup_pending a now = record a {
  challenges = keep (λ k deadline. ltb now deadline) a.challenges;
  provisional = keep (λ k state. ltb now state.expires_at) a.provisional;
}

pub data ChallengeResult : Type 0 where
  challenge : List ℕ → ChallengeResult
  refused : AuthError → ChallengeResult

abbrev pub unix_seconds_u32 : ℕ → ℕ
unix_seconds_u32 t = t / second % 2 ^ 32

-- The part under the lock, at the second reading of the clock.
unfoldable pub register_challenge :
    ControlAuthState
    → AuthChallengeKey
    → ProvisionalReplayKey
    → ℕ
    → ControlAuthState × ChallengeResult
register_challenge a challenge_key replay_key now =
    let clean = cleanup_pending a now in
    let expires = challenge_key.expires_at * second in
    if leb max_provisional_control_sessions (length clean.provisional)
    then (clean, refused too_many_pending)
    else if is_some (lookup replay_key clean.provisional)
    then (clean, refused already_pending)
    else (
      record clean {
        challenges = insert challenge_key expires clean.challenges;
        provisional =
            insert replay_key (record { window = initial_window; expires_at = expires })
              clean.provisional;
      },
      challenge (put32 challenge_key.expires_at ++ take auth_tag_size challenge_key.cookie),
    )

unfoldable pub create_challenge :
    Platform
    → ControlAuthState
    → ParsedPacket
    → Option UdpAddr
    → ControlAuthMeta
    → ℕ
    → ℕ
    → ControlAuthState × ChallengeResult
create_challenge p a pkt none meta t1 t2 = (a, refused invalid_hello)
create_challenge p a pkt (some addr) meta t1 t2 =
    let expires_at = unix_seconds_u32 (t1 + control_auth_cookie_ttl) in
    let value = cookie p a pkt.header.channel_id pkt.header.sender_id meta expires_at addr in
    if not (meta.counter == 0) || (meta.session_id == 0)
    then (a, refused invalid_hello)
    else if not (length (key a pkt.header.channel_id meta.key_id) == 32)
    then (a, refused unknown_key)
    else register_challenge a (challenge_key_of pkt (some addr) meta expires_at value)
        (replay_key_of pkt (some addr) meta) t2

-- The window of a pending session takes a counter, if the session and the window allow it.
unfoldable pub accept_provisional :
    Map ProvisionalReplayKey ProvisionalReplayState
    → ProvisionalReplayKey
    → ℕ
    → Option ProvisionalReplayState
accept_provisional m k counter = elim (lookup k m) [
  | none ↦ none
  | some state ↦
      if (accept_replay_counter state.window counter).1
      then some (record state { window = (accept_replay_counter state.window counter).0 })
      else none
]

unfoldable pub accept_pre_join_control :
    ControlAuthState → ParsedPacket → Option UdpAddr → ControlAuthMeta → ℕ → ControlAuthState × Bool
accept_pre_join_control a pkt none meta now = (a, false)
accept_pre_join_control a pkt (some addr) meta now =
    let clean = cleanup_pending a now in
    let k = replay_key_of pkt (some addr) meta in
    if meta.session_id == 0
    then (a, false)
    else elim (accept_provisional clean.provisional k meta.counter) [
      | none ↦ (clean, false)
      | some state ↦ (record clean { provisional = insert k state clean.provisional }, true)
    ]

-- The part under the lock: the readings of the clock are those of the sweep and of the deadline.
unfoldable pub take_challenge :
    ControlAuthState
    → AuthChallengeKey
    → ProvisionalReplayKey
    → ℕ
    → ℕ
    → ℕ
    → ControlAuthState × Option ProvisionalReplayState
take_challenge a challenge_key replay_key counter now later =
    let clean = cleanup_pending a now in
    let missing : ControlAuthState × Option ProvisionalReplayState =
      (record clean { challenges = delete challenge_key clean.challenges }, none) in
    elim (lookup challenge_key clean.challenges) [
      | none ↦ missing
      | some deadline ↦
          if not (ltb later deadline)
          then missing
          else elim (accept_provisional clean.provisional replay_key counter) [
            | none ↦ (clean, none)
            | some state ↦ (
              record clean {
                challenges = delete challenge_key clean.challenges;
                provisional = delete replay_key clean.provisional;
              },
              some state,
            )
          ]
    ]

unfoldable pub consume_join_challenge :
    Platform
    → ControlAuthState
    → ParsedPacket
    → Option UdpAddr
    → ControlAuthMeta
    → ℕ
    → ℕ
    → ℕ
    → ControlAuthState × Option ProvisionalReplayState
consume_join_challenge p a pkt none meta t1 t2 t3 = (a, none)
consume_join_challenge p a pkt (some addr) meta t1 t2 t3 =
    let expires_at = be32 (take 4 pkt.payload) in
    let given = drop 4 pkt.payload in
    let want = cookie p a pkt.header.channel_id pkt.header.sender_id meta expires_at addr in
    if (meta.session_id == 0) || not (length pkt.payload == 20)
    then (a, none)
    else if ltb expires_at (unix_seconds_u32 t1)
    then (a, none)
    else if not (bytes_eq want given)
    then (a, none)
    else take_challenge a (challenge_key_of pkt (some addr) meta expires_at given)
        (replay_key_of pkt (some addr) meta) meta.counter t2 t3
