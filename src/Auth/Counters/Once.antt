-- ===== src/Auth/Counters/Once.antt =====
-- That a session before its JOIN lets no counter through twice.
use mathlib.Core.Path.{transport}
use incom_udon_server.Base.{
  ℕ, ◌+◌, ◌*◌, ◌≡◌, ◌⊎◌, refl, arith, List, [], ◌∷◌, true, false, ◌==◌, Option, none, some, ltb,
  take, drop, Option-cases, Bool-cases, inl, inr, ap, sym, contains, AllNew,
}
use incom_udon_server.Base.Assoc.{Map, Distinct, keep-Distinct, keep, insert, delete}
use incom_udon_server.Platform.{Platform, UdpAddr, second}
use incom_udon_server.Replay.{initial_window}
use incom_udon_server.Replay.Accepted.{initial-Represents}
use incom_udon_server.Wire.Bytes.{be32}
use incom_udon_server.Wire.Types.{ParsedPacket}
use incom_udon_server.Auth.State.{
  ControlAuthState, ControlAuthMeta, AuthChallengeKey, ProvisionalReplayKey, ProvisionalReplayState,
  replay_key_eq, replay_key_Eq, challenge_key_Eq,
}
use incom_udon_server.Auth.Challenge.{
  cleanup_pending, register_challenge, create_challenge, accept_provisional,
  accept_pre_join_control, take_challenge, unix_seconds_u32, control_auth_cookie_ttl,
  consume_join_challenge, replay_key_of, challenge_key_of,
}
use incom_udon_server.Auth.Sessions.{Exchange, hello, control, join, exchange, opens, opens_any}
use incom_udon_server.Auth.Counters.{passed, before, let_through}
use incom_udon_server.Auth.Counters.Tracks.{
  Tracks, provisional-new, keep-Tracks, delete-Tracks, delete_own-Tracks, insert-Tracks,
  insert_own-Tracks,
}

-- What an exchange does to the session: it lets no counter through, or a new one.
module _ (p : Platform) (rk : ProvisionalReplayKey) (s : List ℕ) where
  abbrev Outcome : Exchange → ControlAuthState → Type 0
  Outcome x a =
      ((passed p rk x a ≡ none) × Tracks rk s (exchange p x a).provisional)
      ⊎ ((c : ℕ) × (passed p rk x a ≡ some c)
          × (contains s c ≡ false)
          × Tracks rk (c ∷ s) (exchange p x a).provisional)

  becomes :
      (s' : List ℕ) {m : Map ProvisionalReplayKey ProvisionalReplayState}
      (m' : Map ProvisionalReplayKey ProvisionalReplayState)
      → m ≡ m'
      → Tracks rk s' m'
      → Tracks rk s' m
  becomes s' m' e h = transport (ap (Tracks rk s') (sym e)) h

  cleanup-Tracks :
      (a : ControlAuthState) (now : ℕ)
      → Tracks rk s a.provisional
      → Tracks rk s (cleanup_pending a now).provisional
  unfolding cleanup_pending
  cleanup-Tracks a now h =
      keep-Tracks rk s (λ k (state : ProvisionalReplayState). ltb now state.expires_at)
        a.provisional h

  hello-Outcome :
      (pkt : ParsedPacket) (addr : Option UdpAddr) (meta : ControlAuthMeta) (t1 t2 : ℕ)
      (a : ControlAuthState)
      → Tracks rk s a.provisional
      → opens p rk (hello pkt addr meta t1 t2) a ≡ false
      → Outcome (hello pkt addr meta t1 t2) a
  unfolding passed exchange create_challenge register_challenge opens
  hello-Outcome pkt none meta t1 t2 a h quiet = inl (refl, h)
  hello-Outcome pkt (some addr) meta t1 t2 a h quiet =
      let expires_at = unix_seconds_u32 (t1 + control_auth_cookie_ttl) in
      let k : ProvisionalReplayKey = replay_key_of pkt (some addr) meta in
      let entry : ProvisionalReplayState = record {
        window = initial_window;
        expires_at = expires_at * second;
      } in
      let clean = cleanup-Tracks a t2 h in
      inl (
        refl,
        ground
            (arith, quiet, h, clean, insert-Tracks rk s k entry (cleanup_pending a t2).provisional),
      )

  control-Outcome :
      (pkt : ParsedPacket) (addr : Option UdpAddr) (meta : ControlAuthMeta) (now : ℕ)
      (a : ControlAuthState)
      → Tracks rk s a.provisional
      → Outcome (control pkt addr meta now) a
  unfolding passed exchange accept_pre_join_control
  control-Outcome pkt none meta now a h = inl (ground arith, h)
  control-Outcome pkt (some addr) meta now a h =
      let k : ProvisionalReplayKey = replay_key_of pkt (some addr) meta in
      let clean = cleanup_pending a now in
      let swept = cleanup-Tracks a now h in
      elim (Bool-cases (meta.session_id == 0)) [
        | inl zero ↦ inl (ground (arith, zero), becomes s a.provisional (ground (arith, zero)) h)
        | inr session ↦ elim (Option-cases (accept_provisional clean.provisional k meta.counter)) [
          | inl lost ↦ inl (
            ground (arith, session, lost),
            becomes s clean.provisional (ground (arith, session, lost)) swept,
          )
          | inr (state, e) ↦
              let result : (accept_pre_join_control a pkt (some addr) meta now).0.provisional
                  ≡ insert k state clean.provisional =
                ground (arith, session, e) in
              elim (Bool-cases (replay_key_eq k rk)) [
                | inr other ↦ inl (
                  ground (arith, other),
                  becomes s (insert k state clean.provisional) result
                      (insert-Tracks rk s k state clean.provisional other swept),
                )
                | inl own ↦
                    let (new, after) =
                      provisional-new rk s clean.provisional k meta.counter state own swept.1 e in
                    inr (
                      meta.counter,
                      ground (arith, own, session, e),
                      new,
                      becomes (meta.counter ∷ s) (insert k state clean.provisional) result (
                          insert_own-Tracks rk (meta.counter ∷ s) k state clean.provisional own
                            swept.0 after),
                    )
              ]
        ]
      ]

  take-refused :
      (a : ControlAuthState) (ck : AuthChallengeKey) (k : ProvisionalReplayKey) (c t2 t3 : ℕ)
      → (take_challenge a ck k c t2 t3).1 ≡ none
      → (take_challenge a ck k c t2 t3).0.provisional ≡ (cleanup_pending a t2).provisional
  unfolding take_challenge
  take-refused a ck k c t2 t3 e = ground (arith, e)

  take-accepted :
      (a : ControlAuthState) (ck : AuthChallengeKey) (k : ProvisionalReplayKey) (c t2 t3 : ℕ)
      (state : ProvisionalReplayState)
      → (take_challenge a ck k c t2 t3).1 ≡ some state
      → (accept_provisional (cleanup_pending a t2).provisional k c ≡ some state)
        × ((take_challenge a ck k c t2 t3).0.provisional
            ≡ delete k (cleanup_pending a t2).provisional)
  unfolding take_challenge
  take-accepted a ck k c t2 t3 state e =
      elim (Option-cases (accept_provisional (cleanup_pending a t2).provisional k c)) [
        | inl lost ↦ absurd (ground (arith, lost, e))
        | inr (v, here) ↦ ground (arith, e, here)
      ]

  join-Outcome :
      (pkt : ParsedPacket) (addr : Option UdpAddr) (meta : ControlAuthMeta) (t1 t2 t3 : ℕ)
      (a : ControlAuthState)
      → Tracks rk s a.provisional
      → Outcome (join pkt addr meta t1 t2 t3) a
  unfolding passed exchange consume_join_challenge
  join-Outcome pkt none meta t1 t2 t3 a h = inl (ground arith, h)
  join-Outcome pkt (some addr) meta t1 t2 t3 a h =
      let k : ProvisionalReplayKey = replay_key_of pkt (some addr) meta in
      let ck : AuthChallengeKey =
        challenge_key_of pkt (some addr) meta (be32 (take 4 pkt.payload)) (drop 4 pkt.payload) in
      let clean = cleanup_pending a t2 in
      let swept = cleanup-Tracks a t2 h in
      elim (Option-cases (consume_join_challenge p a pkt (some addr) meta t1 t2 t3).1) [
        | inl refused ↦ inl (
          ground (arith, refused),
          ground (arith, refused, h, swept, take-refused a ck k meta.counter t2 t3),
        )
        | inr (state, e) ↦
            let (accepted, result) : (accept_provisional clean.provisional k meta.counter
                  ≡ some state)
                × ((consume_join_challenge p a pkt (some addr) meta t1 t2 t3).0.provisional
                    ≡ delete k clean.provisional) =
              ground (arith, e, take-accepted a ck k meta.counter t2 t3 state) in
            elim (Bool-cases (replay_key_eq k rk)) [
              | inr other ↦ inl (
                ground (arith, other),
                becomes s (delete k clean.provisional) result
                    (delete-Tracks rk s k clean.provisional swept),
              )
              | inl own ↦
                  let (new, after) =
                    provisional-new rk s clean.provisional k meta.counter state own swept.1
                      accepted in
                  inr (
                    meta.counter,
                    ground (arith, own, e),
                    new,
                    becomes (meta.counter ∷ s) (delete k clean.provisional) result
                        (delete_own-Tracks rk (meta.counter ∷ s) k clean.provisional own swept.0),
                  )
            ]
      ]

  exchange-Outcome :
      (x : Exchange) (a : ControlAuthState)
      → Tracks rk s a.provisional
      → opens p rk x a ≡ false
      → Outcome x a
  exchange-Outcome (hello pkt addr meta t1 t2) a h quiet =
      hello-Outcome pkt addr meta t1 t2 a h quiet
  exchange-Outcome (control pkt addr meta now) a h quiet = control-Outcome pkt addr meta now a h
  exchange-Outcome (join pkt addr meta t1 t2 t3) a h quiet = join-Outcome pkt addr meta t1 t2 t3 a h

module _ (p : Platform) (rk : ProvisionalReplayKey) where
  let_through-AllNew :
      (xs : List Exchange) (s : List ℕ) (a : ControlAuthState)
      → Tracks rk s a.provisional
      → opens_any p rk xs a ≡ false
      → AllNew s (let_through p rk xs a)
  unfolding let_through opens_any
  let_through-AllNew [] s a h quiet = tt
  let_through-AllNew (x ∷ xs) s a h quiet =
      let rest = let_through p rk xs (exchange p x a) in
      let quiet_after : opens_any p rk xs (exchange p x a) ≡ false = ground (arith, quiet) in
      elim (exchange-Outcome p rk s x a h (ground (arith, quiet))) [
        | inl (nothing, after) ↦
            transport (ap (λ o. AllNew s (before o rest)) (sym nothing))
              (let_through-AllNew xs s (exchange p x a) after quiet_after)
        | inr (c, something, new, after) ↦
            transport (ap (λ o. AllNew s (before o rest)) (sym something))
              (new, let_through-AllNew xs (c ∷ s) (exchange p x a) after quiet_after)
      ]

  -- A hello that is given a challenge begins with the counter 0, which it has used itself.
  opens-Tracks :
      (x : Exchange) (a : ControlAuthState)
      → Distinct a.provisional
      → opens p rk x a ≡ true
      → Tracks rk (0 ∷ []) (exchange p x a).provisional
  unfolding opens exchange create_challenge register_challenge cleanup_pending
  opens-Tracks (hello pkt none meta t1 t2) a d e = absurd (ground (arith, e))
  opens-Tracks (hello pkt (some addr) meta t1 t2) a d e =
      let expires_at = unix_seconds_u32 (t1 + control_auth_cookie_ttl) in
      let k : ProvisionalReplayKey = replay_key_of pkt (some addr) meta in
      let entry : ProvisionalReplayState = record {
        window = initial_window;
        expires_at = expires_at * second;
      } in
      let q =
        λ (k : ProvisionalReplayKey) (state : ProvisionalReplayState). ltb t2 state.expires_at in
      let clean = keep q a.provisional in
      becomes p rk (0 ∷ []) (0 ∷ []) (insert k entry clean) (ground (arith, e)) (
        insert_own-Tracks rk (0 ∷ []) k entry clean (ground (arith, e))
          (keep-Distinct q a.provisional d) initial-Represents)
  opens-Tracks (control pkt addr meta now) a d e = cc
  opens-Tracks (join pkt addr meta t1 t2 t3) a d e = cc

-- From a hello that is given a challenge on, no counter passes twice for its channel, sender, key,
-- session and address, and the hello's own counter 0 does not pass again, in control packets before
-- the JOIN and in the JOIN: whatever hellos, control packets and JOINs of any endpoints follow, in any
-- order and however often each is sent, as long as none of them is a hello that is given a new
-- challenge for that endpoint and session. In the table of pending sessions, no key stands twice.
pub let_through_once :
    (p : Platform) (rk : ProvisionalReplayKey) (x : Exchange) (xs : List Exchange)
    (a : ControlAuthState)
    → Distinct a.provisional
    → opens p rk x a ≡ true
    → opens_any p rk xs (exchange p x a) ≡ false
    → AllNew (0 ∷ []) (let_through p rk xs (exchange p x a))
let_through_once p rk x xs a d e quiet =
    let_through-AllNew p rk xs (0 ∷ []) (exchange p x a) (opens-Tracks p rk x a d e) quiet
