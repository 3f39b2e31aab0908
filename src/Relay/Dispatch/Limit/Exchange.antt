-- ===== src/Relay/Dispatch/Limit/Exchange.antt =====
-- The number of active talkers, across AUTH_HELLO, PING and the exchanges.
use incom_udon_server.Base.{
  ℕ, ◌≡◌, refl, arith, List, [], ◌∷◌, Bool, true, false, Option, none, some, nat_eq, Option-cases,
  ◌⊎◌, inl, inr,
}
use incom_udon_server.Platform.{Platform, UdpAddr}
use incom_udon_server.Wire.Types.{
  ParsedPacket, pkt_auth_challenge, pkt_identity_challenge, pkt_identity_deny,
  pkt_service_challenge, pkt_service_deny,
}
use incom_udon_server.Auth.State.{ControlAuthState, ControlAuthMeta}
use incom_udon_server.Auth.Challenge.{create_challenge, accept_pre_join_control, ChallengeResult}
use incom_udon_server.Auth.State.{AuthError}
use incom_udon_server.Auth.Challenge as Challenge
use incom_udon_server.Admission.Types.{IdentityAdmission, ServiceAdmission}
use incom_udon_server.Admission.Ticket.{TicketCodec, identity_deny_invalid_proof}
use incom_udon_server.Admission.Grant.{
  GrantCodec, service_deny_invalid_proof, service_deny_scope_mismatch,
}
use incom_udon_server.Admission.Identity.{Answer, challenge, denied}
use incom_udon_server.Admission.Identity as Identity
use incom_udon_server.Admission.Service.Exchange as Service
use incom_udon_server.Relay.{Server}
use incom_udon_server.Relay.Peers.{
  touch_known_peer, accept_authenticated_peer_control, is_authenticated_peer,
}
use incom_udon_server.Relay.Join.{set_peer_identity_admission, set_peer_service_admission}
use incom_udon_server.Relay.Output.{Output}
use incom_udon_server.Relay.Output.Sends.{send_pong-Sent}
use incom_udon_server.Relay.Limit.{IsWithinLimit}
use incom_udon_server.Relay.Limit.Members.{set_peer_identity_admission-IsWithinLimit}
use incom_udon_server.Relay.Limit.Sessions.{
  touch_known_peer-IsWithinLimit, accept_authenticated_peer_control-IsWithinLimit,
  set_peer_service_admission-IsWithinLimit,
}
use incom_udon_server.Relay.Dispatch.Exchange.{
  verified, challenge_hello, handle_hello, answer_ping, handle_ping, accept_exchange, with_exchange,
  attach_identity, identity_exchange, attach_service_proof, service_exchange,
}
use incom_udon_server.Relay.Dispatch.Limit.Serve.{Within, Sent-IsWithinLimit, reply-Within}

ChallengeResult-cases :
    (r : ChallengeResult)
    → ((value : List ℕ) × (r ≡ Challenge.challenge value))
      ⊎ ((e : AuthError) × (r ≡ Challenge.refused e))
ChallengeResult-cases (Challenge.challenge value) = inl (value, refl)
ChallengeResult-cases (Challenge.refused e) = inr (e, refl)

Answer-cases :
    (a : Answer) → ((value : List ℕ) × (a ≡ challenge value)) ⊎ ((code : ℕ) × (a ≡ denied code))
Answer-cases (challenge value) = inl (value, refl)
Answer-cases (denied code) = inr (code, refl)

module _ (p : Platform) (clock : ℕ → ℕ) (pkt : ParsedPacket) (addr : Option UdpAddr) (s : Server)
    (h : IsWithinLimit s) where
  challenge_hello-Within :
      (a : ControlAuthState) (meta : ControlAuthMeta)
      → Within (challenge_hello p clock pkt addr s a meta)
  unfolding challenge_hello
  challenge_hello-Within a meta other found e =
      let made = create_challenge p a pkt addr meta (clock 1) (clock 2) in
      let s' : Server = record s { control_auth = some made.0 } in
      elim (ChallengeResult-cases made.1) [
        | inl (value, given) ↦ ground (
          arith,
          given,
          reply-Within p clock pkt addr s' h meta pkt_auth_challenge value other found,
        )
        | inr (error, failed) ↦ ground (arith, failed, h other found)
      ]

  pub handle_hello-Within : Within (handle_hello p clock pkt addr s)
  unfolding handle_hello
  handle_hello-Within other found e = elim (Option-cases (verified p s pkt)) [
    | inl refused ↦ ground (arith, refused, h other found)
    | inr (meta, accepted) ↦ elim (Option-cases s.control_auth) [
      | inl missing ↦ ground (arith, accepted, missing, h other found)
      | inr (a, here) ↦
          ground (arith, accepted, here, h other found, challenge_hello-Within a meta other found)
    ]
  ]

  answer_ping-Within : Within (answer_ping p clock pkt addr s)
  unfolding answer_ping
  answer_ping-Within other found e =
      let touched =
        (touch_known_peer p s pkt.header.channel_id pkt.header.sender_id addr (clock 2)).0 in
      let still =
        touch_known_peer-IsWithinLimit s h pkt.header.channel_id pkt.header.sender_id p addr
          (clock 2) in
      ground (
        arith,
        h other found,
        still other found,
        Sent-IsWithinLimit p touched _
            (send_pong-Sent p touched addr pkt.header.channel_id pkt.header.sender_id pkt.payload)
            still other found,
      )

  accept_exchange-IsWithinLimit :
      (meta : ControlAuthMeta) (existing : Bool)
      → IsWithinLimit (accept_exchange p clock pkt addr s meta existing).0
  unfolding accept_exchange
  accept_exchange-IsWithinLimit meta true other found e =
      accept_authenticated_peer_control-IsWithinLimit s h pkt addr meta (clock 1) other found e
  accept_exchange-IsWithinLimit meta false other found e = elim (Option-cases s.control_auth) [
    | inl missing ↦ ground (arith, missing, h other found)
    | inr (a, here) ↦ ground (arith, here, h other found)
  ]

  attach_identity-Within :
      (meta : ControlAuthMeta) (admission : Option IdentityAdmission)
      → Within (attach_identity p clock pkt addr s meta admission)
  unfolding attach_identity
  attach_identity-Within meta none other found e =
      reply-Within p clock pkt addr s h meta pkt_identity_deny (identity_deny_invalid_proof ∷ [])
        other found e
  attach_identity-Within meta (some admission) other found e =
      let still =
        set_peer_identity_admission-IsWithinLimit s h pkt.header.channel_id pkt.header.sender_id
          addr admission in
      ground (
        arith,
        still other found,
        reply-Within p clock pkt addr
            (set_peer_identity_admission s pkt.header.channel_id pkt.header.sender_id addr
              admission).0
            still meta pkt_identity_deny (identity_deny_invalid_proof ∷ []) other found,
      )

  attach_service_proof-Within :
      (meta : ControlAuthMeta) (admission : Option ServiceAdmission)
      → Within (attach_service_proof p clock pkt addr s meta admission)
  unfolding attach_service_proof
  attach_service_proof-Within meta none other found e =
      reply-Within p clock pkt addr s h meta pkt_service_deny (service_deny_invalid_proof ∷ [])
        other found e
  attach_service_proof-Within meta (some admission) other found e =
      let still =
        set_peer_service_admission-IsWithinLimit s pkt.header.channel_id pkt.header.sender_id addr
          admission (clock 3) h in
      ground (
        arith,
        still other found,
        reply-Within p clock pkt addr
            (set_peer_service_admission s pkt.header.channel_id pkt.header.sender_id addr admission
              (clock 3)).0
            still meta pkt_service_deny (service_deny_invalid_proof ∷ []) other found,
      )

module _ (p : Platform) (clock : ℕ → ℕ) (pkt : ParsedPacket) (addr : Option UdpAddr) (s : Server)
    (h : IsWithinLimit s) where
  pub handle_ping-Within : Within (handle_ping p clock pkt addr s)
  unfolding handle_ping
  handle_ping-Within other found e = elim (Option-cases (verified p s pkt)) [
    | inl refused ↦
        ground (arith, refused, h other found, answer_ping-Within p clock pkt addr s h other found)
    | inr (meta, accepted) ↦
        let still = accept_authenticated_peer_control-IsWithinLimit s h pkt addr meta (clock 1) in
        ground (
          arith,
          accepted,
          still other found,
          answer_ping-Within p clock pkt addr s h other found,
          answer_ping-Within p clock pkt addr
              (accept_authenticated_peer_control s pkt addr meta (clock 1)).0 still other found,
        )
  ]

  pub with_exchange-Within :
      (handler : Server → ControlAuthMeta → Bool → Server × List Output)
      → ((t : Server) (meta : ControlAuthMeta) (existing : Bool)
          → IsWithinLimit t
          → Within (handler t meta existing))
      → Within (with_exchange p clock pkt addr handler s)
  unfolding with_exchange
  with_exchange-Within handler good other found e = elim (Option-cases (verified p s pkt)) [
    | inl refused ↦ ground (arith, refused, h other found)
    | inr (meta, accepted) ↦
        let existing = is_authenticated_peer s pkt.header.channel_id pkt.header.sender_id addr in
        let still = accept_exchange-IsWithinLimit p clock pkt addr s h meta existing in
        ground (
          arith,
          accepted,
          h other found,
          still other found,
          good (accept_exchange p clock pkt addr s meta existing).0 meta existing still other found,
        )
  ]

  pub identity_exchange-Within :
      (tickets : TicketCodec) (meta : ControlAuthMeta) (existing : Bool)
      → Within (identity_exchange p clock pkt addr tickets s meta existing)
  unfolding identity_exchange
  identity_exchange-Within tickets meta existing other found e =
      let begun = Identity.begin p tickets s.identity_admission pkt addr meta (clock 2) in
      let proved = Identity.proof p s.identity_admission pkt addr meta (clock 2) in
      let taken = Identity.take_verified_admission proved.0 pkt addr meta (clock 2) in
      let answered = λ (packet_type : ℕ) (payload : List ℕ).
        reply-Within p clock pkt addr (record s { identity_admission = begun.0 }) h meta packet_type
          payload other found in
      let refused =
        reply-Within p clock pkt addr (record s { identity_admission = proved.0 }) h meta
          pkt_identity_deny (proved.1 ∷ []) other found in
      let attached =
        attach_identity-Within p clock pkt addr (record s { identity_admission = taken.0 }) h meta
          taken.1 other found in
      elim (Answer-cases begun.1) [
        | inl (value, given) ↦
            ground (
              arith,
              given,
              h other found,
              answered pkt_identity_challenge value,
              refused,
              attached,
            )
        | inr (code, failed) ↦ ground (
          arith,
          failed,
          h other found,
          answered pkt_identity_deny (code ∷ []),
          refused,
          attached,
        )
      ]

  pub service_exchange-Within :
      (grants : GrantCodec) (meta : ControlAuthMeta) (existing : Bool)
      → Within (service_exchange p clock pkt addr grants s meta existing)
  unfolding service_exchange
  service_exchange-Within grants meta existing other found e =
      let begun = Service.begin p grants s.service_admission pkt addr meta (clock 2) in
      let proved = Service.proof p s.service_admission pkt addr meta (clock 2) in
      let taken = Service.take_verified_admission proved.0 pkt addr meta (clock 2) in
      let answered = λ (packet_type : ℕ) (payload : List ℕ).
        reply-Within p clock pkt addr (record s { service_admission = begun.0 }) h meta packet_type
          payload other found in
      let refused =
        reply-Within p clock pkt addr (record s { service_admission = proved.0 }) h meta
          pkt_service_deny (proved.1 ∷ []) other found in
      let mismatched =
        reply-Within p clock pkt addr (record s { service_admission = taken.0 }) h meta
          pkt_service_deny (service_deny_scope_mismatch ∷ []) other found in
      let attached =
        attach_service_proof-Within p clock pkt addr (record s { service_admission = taken.0 }) h
          meta taken.1 other found in
      elim (Answer-cases begun.1) [
        | inl (value, given) ↦ ground (
          arith,
          given,
          h other found,
          answered pkt_service_challenge value,
          refused,
          mismatched,
          attached,
        )
        | inr (code, failed) ↦ ground (
          arith,
          failed,
          h other found,
          answered pkt_service_deny (code ∷ []),
          refused,
          mismatched,
          attached,
        )
      ]
