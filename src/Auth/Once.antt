-- ===== src/Auth/Once.antt =====
-- That a session before its JOIN serves one JOIN: what is left of it in the table of pending sessions.
use mathlib.Core.Path.{transport}
use incom_udon_server.Base.{
  ℕ, ◌+◌, ◌*◌, ◌≡◌, refl, arith, List, [], ◌∷◌, false, Option, none, some, ltb, take, drop,
  Option-cases, inl, inr, ap, sym, beq_refl,
}
use incom_udon_server.Base.Assoc.{lookup, lookup-insert, lookup-delete, keep-none}
use incom_udon_server.Platform.{Platform, UdpAddr, second}
use incom_udon_server.Replay.{initial_window}
use incom_udon_server.Wire.Bytes.{be32}
use incom_udon_server.Wire.Types.{ParsedPacket}
use incom_udon_server.Auth.State.{
  ControlAuthState, ControlAuthMeta, AuthChallengeKey, ProvisionalReplayKey, ProvisionalReplayState,
  replay_key_eq_iff, replay_key_Eq, challenge_key_Eq,
}
use incom_udon_server.Auth.Challenge.{
  cleanup_pending, register_challenge, create_challenge, accept_provisional,
  accept_pre_join_control, take_challenge, unix_seconds_u32, control_auth_cookie_ttl,
  consume_join_challenge, replay_key_of, challenge_key_of,
}
use incom_udon_server.Auth.Sessions.{
  Exchange, hello, control, join, exchange, exchange_all, opens, opens_any,
}

-- No session is pending under the key.
abbrev IsClosed : ProvisionalReplayKey → ControlAuthState → Type 0
IsClosed rk a = lookup rk a.provisional ≡ none

cleanup-IsClosed :
    (rk : ProvisionalReplayKey) (a : ControlAuthState) (now : ℕ)
    → IsClosed rk a
    → IsClosed rk (cleanup_pending a now)
unfolding cleanup_pending
cleanup-IsClosed rk a now h =
    keep-none (λ k (state : ProvisionalReplayState). ltb now state.expires_at) rk a.provisional h

-- Where no session is pending, no counter passes.
closed-none :
    (rk : ProvisionalReplayKey) (a : ControlAuthState) (counter : ℕ)
    → IsClosed rk a
    → accept_provisional a.provisional rk counter ≡ none
unfolding accept_provisional
closed-none rk a counter h = ground (arith, h)

take_challenge-IsClosed :
    (rk : ProvisionalReplayKey) (a : ControlAuthState) (ck : AuthChallengeKey)
    (k : ProvisionalReplayKey) (c t2 t3 : ℕ)
    → IsClosed rk a
    → IsClosed rk (take_challenge a ck k c t2 t3).0
unfolding take_challenge
take_challenge-IsClosed rk a ck k c t2 t3 h =
    ground
      (arith, cleanup-IsClosed rk a t2 h, lookup-delete k rk (cleanup_pending a t2).provisional)

control-IsClosed :
    (rk : ProvisionalReplayKey) (a : ControlAuthState) (pkt : ParsedPacket) (addr : Option UdpAddr)
    (meta : ControlAuthMeta) (now : ℕ)
    → IsClosed rk a
    → IsClosed rk (accept_pre_join_control a pkt addr meta now).0
unfolding accept_pre_join_control
control-IsClosed rk a pkt none meta now h = h
control-IsClosed rk a pkt (some addr) meta now h =
    let clean = cleanup_pending a now in
    let k : ProvisionalReplayKey = replay_key_of pkt (some addr) meta in
    let closed = cleanup-IsClosed rk a now h in
    elim (Option-cases (accept_provisional clean.provisional k meta.counter)) [
      | inl lost ↦ ground (arith, lost, closed, h)
      | inr (state, e) ↦ ground (
        arith,
        e,
        closed,
        h,
        closed-none rk clean meta.counter closed,
        replay_key_eq_iff k rk,
        lookup-insert k rk state clean.provisional,
      )
    ]

module _ (p : Platform) (rk : ProvisionalReplayKey) where
  hello-IsClosed :
      (a : ControlAuthState) (pkt : ParsedPacket) (addr : Option UdpAddr) (meta : ControlAuthMeta)
      (t1 t2 : ℕ)
      → IsClosed rk a
      → opens p rk (hello pkt addr meta t1 t2) a ≡ false
      → IsClosed rk (create_challenge p a pkt addr meta t1 t2).0
  unfolding create_challenge register_challenge opens
  hello-IsClosed a pkt none meta t1 t2 h quiet = h
  hello-IsClosed a pkt (some addr) meta t1 t2 h quiet =
      let expires_at = unix_seconds_u32 (t1 + control_auth_cookie_ttl) in
      let k : ProvisionalReplayKey = replay_key_of pkt (some addr) meta in
      ground (
        arith,
        quiet,
        h,
        cleanup-IsClosed rk a t2 h,
        lookup-insert k rk (record { window = initial_window; expires_at = expires_at * second })
            (cleanup_pending a t2).provisional,
      )

  exchange-IsClosed :
      (x : Exchange) (a : ControlAuthState)
      → IsClosed rk a
      → opens p rk x a ≡ false
      → IsClosed rk (exchange p x a)
  unfolding exchange consume_join_challenge
  exchange-IsClosed (hello pkt addr meta t1 t2) a h quiet =
      hello-IsClosed a pkt addr meta t1 t2 h quiet
  exchange-IsClosed (control pkt addr meta now) a h quiet =
      control-IsClosed rk a pkt addr meta now h
  exchange-IsClosed (join pkt none meta t1 t2 t3) a h quiet = h
  exchange-IsClosed (join pkt (some addr) meta t1 t2 t3) a h quiet = ground (
    arith,
    h,
    take_challenge-IsClosed rk a
        (challenge_key_of pkt (some addr) meta (be32 (take 4 pkt.payload)) (drop 4 pkt.payload))
        (replay_key_of pkt (some addr) meta) meta.counter t2 t3 h,
  )

  exchange_all-IsClosed :
      (xs : List Exchange) (a : ControlAuthState)
      → IsClosed rk a
      → opens_any p rk xs a ≡ false
      → IsClosed rk (exchange_all p xs a)
  unfolding exchange_all opens_any
  exchange_all-IsClosed [] a h quiet = h
  exchange_all-IsClosed (x ∷ xs) a h quiet =
      exchange_all-IsClosed xs (exchange p x a) (exchange-IsClosed x a h (ground (arith, quiet)))
        (ground (arith, quiet))

-- A JOIN that is let through closes its session.
joined-IsClosed :
    (p : Platform) (a : ControlAuthState) (pkt : ParsedPacket) (addr : Option UdpAddr)
    (meta : ControlAuthMeta) (t1 t2 t3 : ℕ) (state : ProvisionalReplayState)
    → (consume_join_challenge p a pkt addr meta t1 t2 t3).1 ≡ some state
    → IsClosed (replay_key_of pkt addr meta) (consume_join_challenge p a pkt addr meta t1 t2 t3).0
unfolding consume_join_challenge take_challenge
joined-IsClosed p a pkt none meta t1 t2 t3 state e = cc
joined-IsClosed p a pkt (some addr) meta t1 t2 t3 state e =
    let rk : ProvisionalReplayKey = replay_key_of pkt (some addr) meta in
    ground (arith, e, lookup-delete rk rk (cleanup_pending a t2).provisional, beq_refl rk)

closed-refuses :
    (p : Platform) (a : ControlAuthState) (pkt : ParsedPacket) (addr : Option UdpAddr)
    (meta : ControlAuthMeta) (t1 t2 t3 : ℕ)
    → IsClosed (replay_key_of pkt addr meta) a
    → ((consume_join_challenge p a pkt addr meta t1 t2 t3).1 ≡ none)
      × ((accept_pre_join_control a pkt addr meta t1).1 ≡ false)
unfolding consume_join_challenge take_challenge accept_pre_join_control
closed-refuses p a pkt none meta t1 t2 t3 h = (refl, refl)
closed-refuses p a pkt (some addr) meta t1 t2 t3 h =
    let rk : ProvisionalReplayKey = replay_key_of pkt (some addr) meta in
    (
      ground
          (arith, closed-none rk (cleanup_pending a t2) meta.counter (cleanup-IsClosed rk a t2 h)),
      ground
          (arith, closed-none rk (cleanup_pending a t1) meta.counter (cleanup-IsClosed rk a t1 h)),
    )

-- Once a JOIN was let through, no JOIN and no control packet before a JOIN of the same channel, sender,
-- key, session and address passes, the same JOIN again included, with any cookie, counter and readings
-- of the clock. This holds after any hellos, control packets and JOINs, of any endpoints, in between, as
-- long as none of them is a hello that is given a new challenge for that endpoint and session.
pub consume_join_challenge_once :
    (p : Platform) (a : ControlAuthState) (pkt pkt' : ParsedPacket) (addr addr' : Option UdpAddr)
    (meta meta' : ControlAuthMeta) (t1 t2 t3 u1 u2 u3 : ℕ) (state : ProvisionalReplayState)
    (xs : List Exchange)
    → (consume_join_challenge p a pkt addr meta t1 t2 t3).1 ≡ some state
    → opens_any p
        (replay_key_of pkt addr meta)
        xs
        (consume_join_challenge p a pkt addr meta t1 t2 t3).0
      ≡ false
    → replay_key_of pkt' addr' meta' ≡ replay_key_of pkt addr meta
    → ((consume_join_challenge p
          (exchange_all p xs (consume_join_challenge p a pkt addr meta t1 t2 t3).0)
          pkt'
          addr'
          meta'
          u1
          u2
          u3).1
        ≡ none)
      × ((accept_pre_join_control
            (exchange_all p xs (consume_join_challenge p a pkt addr meta t1 t2 t3).0)
            pkt'
            addr'
            meta'
            u1).1
          ≡ false)
consume_join_challenge_once p a pkt pkt' addr addr' meta meta' t1 t2 t3 u1 u2 u3 state xs e quiet
      same =
    let joined = (consume_join_challenge p a pkt addr meta t1 t2 t3).0 in
    let after = exchange_all p xs joined in
    let closed =
      exchange_all-IsClosed p (replay_key_of pkt addr meta) xs joined
        (joined-IsClosed p a pkt addr meta t1 t2 t3 state e) quiet in
    closed-refuses p after pkt' addr' meta' u1 u2 u3
      (transport (ap (λ rk. IsClosed rk after) (sym same)) closed)
