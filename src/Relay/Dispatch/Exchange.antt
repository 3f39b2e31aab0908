-- ===== src/Relay/Dispatch/Exchange.antt =====
-- The packets around a JOIN that `handlePacket` of main.go answers itself: AUTH_HELLO, PING, and the
-- identity and service exchanges. A handler gives the state after it and what it puts out. The clock
-- is a function: its n-th value is the reading at the n-th place of the handler that reads it.
use incom_udon_server.Base.{
  ℕ, List, [], ◌∷◌, Bool, true, false, not, Option, none, some, ◌==◌, if◌then◌else◌, length,
}
use incom_udon_server.Platform.{Platform, UdpAddr}
use incom_udon_server.Wire.Types.{
  ParsedPacket, pkt_auth_challenge, pkt_identity_begin, pkt_identity_challenge, pkt_identity_deny,
  pkt_service_begin, pkt_service_challenge, pkt_service_deny,
}
use incom_udon_server.Auth.State.{ControlAuthState, ControlAuthMeta}
use incom_udon_server.Auth.Packet.{verify_incoming_control}
use incom_udon_server.Auth.Challenge.{create_challenge, accept_pre_join_control}
use incom_udon_server.Auth.Challenge as Challenge
use incom_udon_server.Admission.Types.{IdentityAdmission, ServiceAdmission}
use incom_udon_server.Admission.Ticket.{TicketCodec, identity_deny_invalid_proof}
use incom_udon_server.Admission.Grant.{
  GrantCodec, service_deny_invalid_proof, service_deny_scope_mismatch,
}
use incom_udon_server.Admission.Identity.{Answer, challenge, denied}
use incom_udon_server.Admission.Identity as Identity
use incom_udon_server.Admission.Service.Exchange as Service
use incom_udon_server.Relay.{Server, service_admission_issued, control_auth_required}
use incom_udon_server.Relay.Peers.{
  accept_authenticated_peer_control, is_authenticated_peer, touch_known_peer,
  peer_has_identity_admission,
}
use incom_udon_server.Relay.Join.{set_peer_identity_admission, set_peer_service_admission}
use incom_udon_server.Relay.Output.{Output, note, send_authenticated_control, send_pong}

abbrev pub verified : Platform → Server → ParsedPacket → Option ControlAuthMeta
verified p s pkt = verify_incoming_control p s.control_auth pkt

module _ (p : Platform) (clock : ℕ → ℕ) (pkt : ParsedPacket) (addr : Option UdpAddr) where
  -- A control packet to the endpoint, under the key that it used.
  abbrev pub reply : Server → ControlAuthMeta → ℕ → List ℕ → Server × List Output
  reply s meta packet_type payload =
      send_authenticated_control p s addr pkt.header.channel_id pkt.header.sender_id meta.key_id
        packet_type payload

  unfoldable pub challenge_hello :
      Server → ControlAuthState → ControlAuthMeta → Server × List Output
  challenge_hello s a meta =
      let (a', result) = create_challenge p a pkt addr meta (clock 1) (clock 2) in
      let s' = record s { control_auth = some a' } in
      elim result [
        | Challenge.refused error ↦ (s', [])
        | Challenge.challenge value ↦ reply s' meta pkt_auth_challenge value
      ]

  unfoldable pub handle_hello : Server → Server × List Output
  handle_hello s =
      if not (control_auth_required s pkt.header.channel_id)
      then (s, [])
      else elim (verified p s pkt) [
        | none ↦ (s, [])
        | some meta ↦
            if not (length pkt.payload == 0)
            then (s, [])
            else elim s.control_auth [ none ↦ (s, []) | some a ↦ challenge_hello s a meta ]
      ]

  -- The answer to a PING of a known endpoint.
  unfoldable pub answer_ping : Server → Server × List Output
  answer_ping s =
      let (s', known) =
        touch_known_peer p s pkt.header.channel_id pkt.header.sender_id addr (clock 2) in
      if not (length pkt.payload == 8)
      then (s, [])
      else if not known
      then (s', [])
      else send_pong p s' addr pkt.header.channel_id pkt.header.sender_id pkt.payload

  unfoldable pub handle_ping : Server → Server × List Output
  handle_ping s =
      if not (control_auth_required s pkt.header.channel_id)
      then answer_ping s
      else elim (verified p s pkt) [
        | none ↦ (s, [])
        | some meta ↦
            let (s', accepted) = accept_authenticated_peer_control s pkt addr meta (clock 1) in
            if not accepted then (s', []) else answer_ping s'
      ]

  -- The replay check of an exchange: a peer's own window, or that of the session before its JOIN.
  unfoldable pub accept_exchange : Server → ControlAuthMeta → Bool → Server × Bool
  accept_exchange s meta true = accept_authenticated_peer_control s pkt addr meta (clock 1)
  accept_exchange s meta false = elim s.control_auth [
    | none ↦ (s, false)
    | some a ↦
        let (a', accepted) = accept_pre_join_control a pkt addr meta (clock 1) in
        (record s { control_auth = some a' }, accepted)
  ]

  -- What stands before both exchanges; the handler goes on with the session and whether the endpoint
  -- is a peer already.
  unfoldable pub with_exchange :
      (Server → ControlAuthMeta → Bool → Server × List Output) → Server → Server × List Output
  with_exchange handler s =
      if not (control_auth_required s pkt.header.channel_id)
      then (s, [])
      else elim (verified p s pkt) [
        | none ↦ (s, [])
        | some meta ↦
            let existing =
              is_authenticated_peer s pkt.header.channel_id pkt.header.sender_id addr in
            let (s', accepted) = accept_exchange s meta existing in
            if not accepted then (s', []) else handler s' meta existing
      ]

  unfoldable pub attach_identity :
      Server → ControlAuthMeta → Option IdentityAdmission → Server × List Output
  attach_identity s meta none = reply s meta pkt_identity_deny (identity_deny_invalid_proof ∷ [])
  attach_identity s meta (some admission) =
      let (s', attached) =
        set_peer_identity_admission s pkt.header.channel_id pkt.header.sender_id addr admission in
      if attached
      then (s', [])
      else reply s' meta pkt_identity_deny (identity_deny_invalid_proof ∷ [])

  unfoldable pub identity_exchange :
      TicketCodec → Server → ControlAuthMeta → Bool → Server × List Output
  identity_exchange tickets s meta existing =
      let (begun, answer) = Identity.begin p tickets s.identity_admission pkt addr meta (clock 2) in
      let (proved, reason) = Identity.proof p s.identity_admission pkt addr meta (clock 2) in
      let (taken, admission) = Identity.take_verified_admission proved pkt addr meta (clock 2) in
      if pkt.header.pkt_type == pkt_identity_begin
      then elim answer [
        | denied code ↦
            reply (record s { identity_admission = begun }) meta pkt_identity_deny (code ∷ [])
        | challenge value ↦
            reply (record s { identity_admission = begun }) meta pkt_identity_challenge value
      ]
      else if not (reason == 0)
      then reply (record s { identity_admission = proved }) meta pkt_identity_deny (reason ∷ [])
      else if existing
      then attach_identity (record s { identity_admission = taken }) meta admission
      else (record s { identity_admission = proved }, [])

  unfoldable pub attach_service_proof :
      Server → ControlAuthMeta → Option ServiceAdmission → Server × List Output
  attach_service_proof s meta none = reply s meta pkt_service_deny (service_deny_invalid_proof ∷ [])
  attach_service_proof s meta (some admission) =
      let (s', attached) =
        set_peer_service_admission s pkt.header.channel_id pkt.header.sender_id addr admission
          (clock 3) in
      let issued =
        service_admission_issued pkt.header.channel_id pkt.header.sender_id admission.service_id in
      if attached
      then (s', note issued ∷ [])
      else reply s' meta pkt_service_deny (service_deny_invalid_proof ∷ [])

  -- A proof is used up too where the peer has an identity admission and the proof is refused.
  unfoldable pub service_exchange :
      GrantCodec → Server → ControlAuthMeta → Bool → Server × List Output
  service_exchange grants s meta existing =
      let (begun, answer) = Service.begin p grants s.service_admission pkt addr meta (clock 2) in
      let (proved, reason) = Service.proof p s.service_admission pkt addr meta (clock 2) in
      let (taken, admission) = Service.take_verified_admission proved pkt addr meta (clock 2) in
      if pkt.header.pkt_type == pkt_service_begin
      then elim answer [
        | denied code ↦
            reply (record s { service_admission = begun }) meta pkt_service_deny (code ∷ [])
        | challenge value ↦
            reply (record s { service_admission = begun }) meta pkt_service_challenge value
      ]
      else if not (reason == 0)
      then reply (record s { service_admission = proved }) meta pkt_service_deny (reason ∷ [])
      else if not existing
      then (record s { service_admission = proved }, [])
      else if peer_has_identity_admission s pkt.header.channel_id pkt.header.sender_id addr
      then reply (record s { service_admission = taken }) meta pkt_service_deny
          (service_deny_scope_mismatch ∷ [])
      else attach_service_proof (record s { service_admission = taken }) meta admission
