-- ===== src/Auth/Handshake.antt =====
-- That a challenge which was given lets its JOIN through.
use incom_udon_server.Base.{
  ℕ, ◌+◌, ◌*◌, ◌^◌, ◌<◌, ◌≤◌, ◌≡◌, ◌∙◌, sym, refl, arith, List, [], ◌∷◌, ◌++◌, true, Option, some,
  ltb, take, drop, length, is_some, zero, suc, bytes_eq_iff, beq_refl, ap, length-take, lt→ltb,
}
use incom_udon_server.Base.Assoc.{lookup, lookup-insert, keep-some}
use incom_udon_server.Platform.{Platform, UdpAddr, second}
use incom_udon_server.Replay.{initial_window, accept_replay_counter}
use incom_udon_server.Wire.{put32}
use incom_udon_server.Wire.Bytes.{be32, be32-put32}
use incom_udon_server.Wire.Types.{ParsedPacket, auth_tag_size}
use incom_udon_server.Auth.State.{
  ControlAuthState, ControlAuthMeta, AuthChallengeKey, ProvisionalReplayKey, ProvisionalReplayState,
  replay_key_Eq, challenge_key_Eq,
}
use incom_udon_server.Auth.Challenge.{
  cleanup_pending, register_challenge, create_challenge, accept_provisional, take_challenge, cookie,
  unix_seconds_u32, control_auth_cookie_ttl, consume_join_challenge, replay_key_of,
  challenge_key_of, challenge, ChallengeResult,
}
use incom_udon_server.Auth.Verify.{HasLongMac}

take_all : (n : ℕ) (xs : List ℕ) → length xs ≤ n → take n xs ≡ xs
take_all zero [] h = refl
take_all zero (x ∷ xs) h = absurd (omega arith)
take_all (suc n) [] h = refl
take_all (suc n) (x ∷ xs) h = ap (◌∷◌ x) (take_all n xs (omega arith))

length-take_long : (xs : List ℕ) → 16 ≤ length xs → length (take 16 xs) ≡ 16
length-take_long xs h = omega (arith, length-take 16 xs, h)

-- A cookie is of sixteen bytes, and of the endpoint and the session alone.
length-cookie :
    (p : Platform) (a : ControlAuthState) (channel_id sender_id : ℕ) (meta : ControlAuthMeta)
    (expires_at : ℕ) (addr : UdpAddr)
    → HasLongMac p
    → length (cookie p a channel_id sender_id meta expires_at addr) ≡ 16
unfolding cookie
length-cookie p a channel_id sender_id meta expires_at addr long = length-take_long _ (long _ _)

-- Where a session has just been opened, its challenge and its first counter are taken.
take-open :
    (a : ControlAuthState) (ck : AuthChallengeKey) (rk : ProvisionalReplayKey) (c t2 t3 : ℕ)
    (deadline : ℕ)
    → lookup ck a.challenges ≡ some deadline
    → lookup rk a.provisional ≡ some (record { window = initial_window; expires_at = deadline })
    → t2 < deadline
    → t3 < deadline
    → 0 < c
    → is_some (take_challenge a ck rk c t2 t3).1 ≡ true
unfolding take_challenge cleanup_pending accept_provisional accept_replay_counter
take-open a ck rk c t2 t3 deadline given open_session early later new =
    let entry : ProvisionalReplayState = record {
      window = initial_window;
      expires_at = deadline;
    } in
    ground (
      arith,
      keep-some (λ k end. ltb t2 end) ck deadline a.challenges given (lt→ltb t2 deadline early),
      keep-some (λ k (state : ProvisionalReplayState). ltb t2 state.expires_at) rk entry
          a.provisional open_session (lt→ltb t2 deadline early),
      lt→ltb t3 deadline later,
      lt→ltb 0 c new,
    )

-- The key of the challenge that a hello is given.
abbrev key_at :
    Platform → ControlAuthState → ParsedPacket → UdpAddr → ControlAuthMeta → ℕ → AuthChallengeKey
key_at p a pkt addr meta t1 =
    let expires_at = unix_seconds_u32 (t1 + control_auth_cookie_ttl) in
    challenge_key_of pkt (some addr) meta expires_at
      (cookie p a pkt.header.channel_id pkt.header.sender_id meta expires_at addr)

register-open :
    (a : ControlAuthState) (ck : AuthChallengeKey) (rk : ProvisionalReplayKey) (now : ℕ)
    (packet : List ℕ)
    → (register_challenge a ck rk now).1 ≡ challenge packet
    → (packet ≡ put32 ck.expires_at ++ take auth_tag_size ck.cookie)
      × (lookup ck (register_challenge a ck rk now).0.challenges ≡ some (ck.expires_at * second))
      × (lookup rk (register_challenge a ck rk now).0.provisional
          ≡ some (record { window = initial_window; expires_at = ck.expires_at * second }))
      × ((register_challenge a ck rk now).0.cookie_secret ≡ a.cookie_secret)
unfolding register_challenge cleanup_pending
register-open a ck rk now packet e =
    let entry : ProvisionalReplayState = record {
      window = initial_window;
      expires_at = ck.expires_at * second;
    } in
    let clean = cleanup_pending a now in
    ground (
      arith,
      e,
      lookup-insert ck ck (ck.expires_at * second) clean.challenges,
      lookup-insert rk rk entry clean.provisional,
      beq_refl ck,
      beq_refl rk,
    )

cookie-secret :
    (p : Platform) (a b : ControlAuthState) (channel_id sender_id : ℕ) (meta : ControlAuthMeta)
    (counter expires_at : ℕ) (addr : UdpAddr)
    → b.cookie_secret ≡ a.cookie_secret
    → cookie p a channel_id sender_id meta expires_at addr
      ≡ cookie p b channel_id sender_id (record meta { counter = counter }) expires_at addr
unfolding cookie
cookie-secret p a b channel_id sender_id meta counter expires_at addr same = rw same refl

created :
    (p : Platform) (a : ControlAuthState) (pkt : ParsedPacket) (addr : UdpAddr)
    (meta : ControlAuthMeta) (packet : List ℕ) (t1 t2 : ℕ)
    → (create_challenge p a pkt (some addr) meta t1 t2).1 ≡ challenge packet
    → (0 < meta.session_id)
      × (create_challenge p a pkt (some addr) meta t1 t2
          ≡ register_challenge a
              (key_at p a pkt addr meta t1)
              (replay_key_of pkt (some addr) meta)
              t2)
unfolding create_challenge
created p a pkt addr meta packet t1 t2 e = ground (arith, e)

-- A JOIN whose payload is the challenge of its endpoint and session comes to the table of challenges.
consume-known :
    (p : Platform) (b : ControlAuthState) (pkt : ParsedPacket) (addr : UdpAddr)
    (meta : ControlAuthMeta) (expires_at u1 u2 u3 : ℕ) (value : List ℕ)
    → value ≡ cookie p b pkt.header.channel_id pkt.header.sender_id meta expires_at addr
    → pkt.payload ≡ put32 expires_at ++ value
    → length value ≡ 16
    → 0 < meta.session_id
    → expires_at < 2 ^ 32
    → unix_seconds_u32 u1 ≤ expires_at
    → consume_join_challenge p b pkt (some addr) meta u1 u2 u3
      ≡ take_challenge b
          (challenge_key_of pkt (some addr) meta expires_at value)
          (replay_key_of pkt (some addr) meta)
          meta.counter
          u2
          u3
unfolding consume_join_challenge
consume-known p b pkt addr meta expires_at u1 u2 u3 value right payload size opened small current =
    let stamp : be32 (take 4 pkt.payload) ≡ expires_at =
      ap (λ bytes. be32 (take 4 bytes)) payload ∙ be32-put32 expires_at [] small in
    let given : drop 4 pkt.payload ≡ value = ap (drop 4) payload in
    let sized : length pkt.payload ≡ 20 = omega (arith, ap length payload, size) in
    ground (
      arith,
      stamp,
      given,
      sized,
      opened,
      current,
      right,
      bytes_eq_iff (cookie p b pkt.header.channel_id pkt.header.sender_id meta expires_at addr)
          value,
    )

-- A challenge that is given lets its JOIN through: in the state that the hello leaves, the JOIN of the
-- same channel, sender, key, session and address whose payload is the challenge, with a counter above
-- zero, passes while the challenge has not run out. The HMAC is of sixteen bytes at least.
pub consume_join_challenge-create_challenge :
    (p : Platform) (a : ControlAuthState) (pkt : ParsedPacket) (addr : UdpAddr)
    (meta : ControlAuthMeta) (packet : List ℕ) (counter t1 t2 u1 u2 u3 : ℕ)
    → HasLongMac p
    → (create_challenge p a pkt (some addr) meta t1 t2).1 ≡ challenge packet
    → 0 < counter
    → unix_seconds_u32 u1 ≤ unix_seconds_u32 (t1 + control_auth_cookie_ttl)
    → u2 < unix_seconds_u32 (t1 + control_auth_cookie_ttl) * second
    → u3 < unix_seconds_u32 (t1 + control_auth_cookie_ttl) * second
    → is_some
        (consume_join_challenge p
          (create_challenge p a pkt (some addr) meta t1 t2).0
          (record pkt { payload = packet })
          (some addr)
          (record meta { counter = counter })
          u1
          u2
          u3).1
      ≡ true
consume_join_challenge-create_challenge p a pkt addr meta packet counter t1 t2 u1 u2 u3 long given
      new current early later =
    let expires_at = unix_seconds_u32 (t1 + control_auth_cookie_ttl) in
    let ck = key_at p a pkt addr meta t1 in
    let rk : ProvisionalReplayKey = replay_key_of pkt (some addr) meta in
    let (opened, same) = created p a pkt addr meta packet t1 t2 given in
    let b = (register_challenge a ck rk t2).0 in
    let (payload, challenged, pending, secret) =
      register-open a ck rk t2 packet (ap (λ r. r.1) (sym same) ∙ given) in
    let value = ck.cookie in
    let size =
      length-cookie p a pkt.header.channel_id pkt.header.sender_id meta expires_at addr long in
    let whole : packet ≡ put32 expires_at ++ value =
      payload ∙ ap (λ v. put32 expires_at ++ v) (take_all 16 value (omega (arith, size))) in
    let right =
      cookie-secret p a b pkt.header.channel_id pkt.header.sender_id meta counter expires_at addr
        secret in
    let answer : ParsedPacket = record pkt { payload = packet } in
    let meta' : ControlAuthMeta = record meta { counter = counter } in
    ap
      (λ (r : ControlAuthState × ChallengeResult).
        is_some (consume_join_challenge p r.0 answer (some addr) meta' u1 u2 u3).1)
      same
    ∙ (ap (λ (r : ControlAuthState × Option ProvisionalReplayState). is_some r.1)
          (consume-known p b answer addr meta' expires_at u1 u2 u3 value right whole size opened
            (omega arith) current)
        ∙ take-open b ck rk counter u2 u3 (expires_at * second) challenged pending early later new)
