-- ===== src/Auth/Pending.antt =====
-- What holds of the pending sessions.
use incom_udon_server.Base.{
  ℕ, ◌+◌, ◌*◌, ◌≤◌, ◌≡◌, inl, inr, arith, true, Option, none, some, length, Option-cases, is_some,
  take, drop, ltb,
}
use incom_udon_server.Base.Assoc.{Map, lookup, length-insert, length-keep-le, length-delete-le}
use incom_udon_server.Platform.{Platform, UdpAddr, second}
use incom_udon_server.Replay.{initial_window}
use incom_udon_server.Wire.Bytes.{be32}
use incom_udon_server.Wire.Types.{ParsedPacket}
use incom_udon_server.Auth.State.{
  ControlAuthState, ControlAuthMeta, AuthChallengeKey, ProvisionalReplayKey, ProvisionalReplayState,
  challenge_key_Eq, replay_key_Eq,
}
use incom_udon_server.Auth.Challenge.{
  cleanup_pending, register_challenge, create_challenge, accept_provisional,
  accept_pre_join_control, take_challenge, cookie, unix_seconds_u32, control_auth_cookie_ttl,
  consume_join_challenge, replay_key_of, challenge_key_of,
}

abbrev pub IsBounded : ControlAuthState → Type 0
IsBounded a = length a.provisional ≤ 1024

cleanup-IsBounded :
    (a : ControlAuthState) (now : ℕ) → IsBounded a → IsBounded (cleanup_pending a now)
unfolding cleanup_pending
cleanup-IsBounded a now h = omega (
  arith,
  length-keep-le (λ k (state : ProvisionalReplayState). ltb now state.expires_at) a.provisional,
)

register-IsBounded :
    (a : ControlAuthState) (ck : AuthChallengeKey) (rk : ProvisionalReplayKey) (now : ℕ)
    → IsBounded a
    → IsBounded (register_challenge a ck rk now).0
unfolding register_challenge
register-IsBounded a ck rk now h = ground (
  arith,
  cleanup-IsBounded a now h,
  length-insert rk (record { window = initial_window; expires_at = ck.expires_at * second })
      (cleanup_pending a now).provisional,
)

-- From at most 1024 pending sessions, a challenge leaves at most 1024, whether it is given or refused.
pub create_challenge-IsBounded :
    (p : Platform) (a : ControlAuthState) (pkt : ParsedPacket) (addr : Option UdpAddr)
    (meta : ControlAuthMeta) (t1 t2 : ℕ)
    → IsBounded a
    → IsBounded (create_challenge p a pkt addr meta t1 t2).0
unfolding create_challenge
create_challenge-IsBounded p a pkt none meta t1 t2 h = h
create_challenge-IsBounded p a pkt (some addr) meta t1 t2 h =
    let expires_at = unix_seconds_u32 (t1 + control_auth_cookie_ttl) in
    let value = cookie p a pkt.header.channel_id pkt.header.sender_id meta expires_at addr in
    ground (
      arith,
      h,
      register-IsBounded a (challenge_key_of pkt (some addr) meta expires_at value)
          (replay_key_of pkt (some addr) meta) t2 h,
    )

-- A session that the window lets through was pending.
accept_provisional-found :
    (m : Map ProvisionalReplayKey ProvisionalReplayState) (k : ProvisionalReplayKey) (c : ℕ)
    (state : ProvisionalReplayState)
    → accept_provisional m k c ≡ some state
    → is_some (lookup k m) ≡ true
unfolding accept_provisional
accept_provisional-found m k c state e = ground arith

-- From at most 1024 pending sessions, a control packet before the JOIN leaves at most 1024.
pub accept_pre_join_control-IsBounded :
    (a : ControlAuthState) (pkt : ParsedPacket) (addr : Option UdpAddr) (meta : ControlAuthMeta)
    (now : ℕ)
    → IsBounded a
    → IsBounded (accept_pre_join_control a pkt addr meta now).0
unfolding accept_pre_join_control
accept_pre_join_control-IsBounded a pkt none meta now h = h
accept_pre_join_control-IsBounded a pkt (some addr) meta now h =
    let k : ProvisionalReplayKey = replay_key_of pkt (some addr) meta in
    let m = (cleanup_pending a now).provisional in
    elim (Option-cases (accept_provisional m k meta.counter)) [
      | inl lost ↦ ground (arith, lost, cleanup-IsBounded a now h)
      | inr (state, e) ↦ ground (
        arith,
        e,
        cleanup-IsBounded a now h,
        length-insert k state m,
        accept_provisional-found m k meta.counter state e,
      )
    ]

take_challenge-IsBounded :
    (a : ControlAuthState) (ck : AuthChallengeKey) (rk : ProvisionalReplayKey) (c t2 t3 : ℕ)
    → IsBounded a
    → IsBounded (take_challenge a ck rk c t2 t3).0
unfolding take_challenge
take_challenge-IsBounded a ck rk c t2 t3 h =
    ground (arith, cleanup-IsBounded a t2 h, length-delete-le rk (cleanup_pending a t2).provisional)

-- From at most 1024 pending sessions, a JOIN leaves at most 1024, whether it is let through or not.
pub consume_join_challenge-IsBounded :
    (p : Platform) (a : ControlAuthState) (pkt : ParsedPacket) (addr : Option UdpAddr)
    (meta : ControlAuthMeta) (t1 t2 t3 : ℕ)
    → IsBounded a
    → IsBounded (consume_join_challenge p a pkt addr meta t1 t2 t3).0
unfolding consume_join_challenge
consume_join_challenge-IsBounded p a pkt none meta t1 t2 t3 h = h
consume_join_challenge-IsBounded p a pkt (some addr) meta t1 t2 t3 h = ground (
  arith,
  h,
  take_challenge-IsBounded a
      (challenge_key_of pkt (some addr) meta (be32 (take 4 pkt.payload)) (drop 4 pkt.payload))
      (replay_key_of pkt (some addr) meta) meta.counter t2 t3 h,
)
