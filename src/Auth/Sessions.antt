-- ===== src/Auth/Sessions.antt =====
-- The exchanges of control packets before and at a JOIN, as data, and the state after a list of them.
use incom_udon_server.Base.{ℕ, List, [], ◌∷◌, Bool, true, false, ◌&&◌, ◌||◌, Option}
use incom_udon_server.Platform.{Platform, UdpAddr}
use incom_udon_server.Wire.Types.{ParsedPacket}
use incom_udon_server.Auth.State.{
  ControlAuthState, ControlAuthMeta, ProvisionalReplayKey, replay_key_eq,
}
use incom_udon_server.Auth.Challenge.{
  create_challenge, accept_pre_join_control, consume_join_challenge, ChallengeResult, challenge,
  refused, replay_key_of,
}
use incom_udon_server.Auth.Pending.{
  IsBounded, create_challenge-IsBounded, accept_pre_join_control-IsBounded,
  consume_join_challenge-IsBounded,
}

-- Each with its packet, endpoint and session, and the readings of the clock.
pub data Exchange : Type 0 where
  hello : ParsedPacket → Option UdpAddr → ControlAuthMeta → ℕ → ℕ → Exchange
  control : ParsedPacket → Option UdpAddr → ControlAuthMeta → ℕ → Exchange
  join : ParsedPacket → Option UdpAddr → ControlAuthMeta → ℕ → ℕ → ℕ → Exchange

unfoldable pub exchange : Platform → Exchange → ControlAuthState → ControlAuthState
exchange p (hello pkt addr meta t1 t2) a = (create_challenge p a pkt addr meta t1 t2).0
exchange p (control pkt addr meta now) a = (accept_pre_join_control a pkt addr meta now).0
exchange p (join pkt addr meta t1 t2 t3) a = (consume_join_challenge p a pkt addr meta t1 t2 t3).0

unfoldable pub exchange_all : Platform → List Exchange → ControlAuthState → ControlAuthState
exchange_all p [] a = a
exchange_all p (x ∷ xs) a = exchange_all p xs (exchange p x a)

-- The exchange is a hello of the endpoint and session that is given a challenge.
abbrev is_given : ChallengeResult → Bool
is_given (challenge packet) = true
is_given (refused error) = false

unfoldable pub opens : Platform → ProvisionalReplayKey → Exchange → ControlAuthState → Bool
opens p rk (hello pkt addr meta t1 t2) a =
    replay_key_eq (replay_key_of pkt addr meta) rk
    && is_given (create_challenge p a pkt addr meta t1 t2).1
opens p rk (control pkt addr meta now) a = false
opens p rk (join pkt addr meta t1 t2 t3) a = false

-- One of the exchanges is.
unfoldable pub opens_any : Platform → ProvisionalReplayKey → List Exchange → ControlAuthState → Bool
opens_any p rk [] a = false
opens_any p rk (x ∷ xs) a = opens p rk x a || opens_any p rk xs (exchange p x a)

exchange-IsBounded :
    (p : Platform) (x : Exchange) (a : ControlAuthState) → IsBounded a → IsBounded (exchange p x a)
unfolding exchange
exchange-IsBounded p (hello pkt addr meta t1 t2) a h =
    create_challenge-IsBounded p a pkt addr meta t1 t2 h
exchange-IsBounded p (control pkt addr meta now) a h =
    accept_pre_join_control-IsBounded a pkt addr meta now h
exchange-IsBounded p (join pkt addr meta t1 t2 t3) a h =
    consume_join_challenge-IsBounded p a pkt addr meta t1 t2 t3 h

-- From at most 1024 pending sessions, no sequence of challenges, control packets before a JOIN and
-- JOINs, given or refused, leads to more.
pub exchange_all-IsBounded :
    (p : Platform) (xs : List Exchange) (a : ControlAuthState)
    → IsBounded a
    → IsBounded (exchange_all p xs a)
unfolding exchange_all
exchange_all-IsBounded p [] a h = h
exchange_all-IsBounded p (x ∷ xs) a h =
    exchange_all-IsBounded p xs (exchange p x a) (exchange-IsBounded p x a h)
