-- ===== src/Auth/Counters.antt =====
-- The counters that a session before its JOIN lets through, in control packets and in the JOIN.
use mathlib.Core.Path.{transport}
use incom_udon_server.Base.{
  ℕ, ◌+◌, ◌*◌, ◌≡◌, ◌∙◌, ◌⊎◌, refl, arith, List, [], ◌∷◌, Bool, true, false, ◌&&◌, ◌==◌, Option,
  none, some, ltb, take, drop, Option-cases, Bool-cases, inl, inr, ap, sym, beq_refl, is_some,
  contains, AllNew, if◌then◌else◌,
}
use incom_udon_server.Base.Assoc.{
  Map, lookup, lookup-insert, lookup-delete, keep-none, Distinct, keep-Distinct, insert-Distinct,
  delete-Distinct, lookup-keep, keep, kept, insert, delete,
}
use incom_udon_server.Platform.{Platform, UdpAddr, second}
use incom_udon_server.Replay.{Window, initial_window, accept_replay_counter}
use incom_udon_server.Replay.Accepted.{
  Represents, acceptable, initial-Represents, accept_replay_counter-Represents,
}
use incom_udon_server.Wire.Bytes.{be32}
use incom_udon_server.Wire.Types.{ParsedPacket}
use incom_udon_server.Auth.State.{
  ControlAuthState, ControlAuthMeta, AuthChallengeKey, ProvisionalReplayKey, ProvisionalReplayState,
  replay_key_eq, replay_key_eq_iff, replay_key_Eq, challenge_key_Eq,
}
use incom_udon_server.Auth.Challenge.{
  cleanup_pending, register_challenge, create_challenge, accept_provisional,
  accept_pre_join_control, take_challenge, cookie, unix_seconds_u32, control_auth_cookie_ttl,
  consume_join_challenge, replay_key_of, challenge_key_of, ChallengeResult, challenge,
}
use incom_udon_server.Auth.Sessions.{
  Exchange, hello, control, join, exchange, exchange_all, opens, opens_any,
}
pub mod Tracks
pub mod Once

-- The counter that an exchange lets through for an endpoint and session.
unfoldable pub passed : Platform → ProvisionalReplayKey → Exchange → ControlAuthState → Option ℕ
passed p rk (hello pkt addr meta t1 t2) a = none
passed p rk (control pkt addr meta now) a =
    if replay_key_eq (replay_key_of pkt addr meta) rk
      && (accept_pre_join_control a pkt addr meta now).1
    then some meta.counter
    else none
passed p rk (join pkt addr meta t1 t2 t3) a =
    if replay_key_eq (replay_key_of pkt addr meta) rk
      && is_some (consume_join_challenge p a pkt addr meta t1 t2 t3).1
    then some meta.counter
    else none

abbrev pub before : Option ℕ → List ℕ → List ℕ
before none counters = counters
before (some counter) counters = counter ∷ counters

-- Those of a list of exchanges, in order.
unfoldable pub let_through :
    Platform → ProvisionalReplayKey → List Exchange → ControlAuthState → List ℕ
let_through p rk [] a = []
let_through p rk (x ∷ xs) a = before (passed p rk x a) (let_through p rk xs (exchange p x a))
