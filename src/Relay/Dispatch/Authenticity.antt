-- ===== src/Relay/Dispatch/Authenticity.antt =====
-- What an unauthenticated packet can do.
use mathlib.Core.List.{append-nil}
use incom_udon_server.Base.{
  ℕ, nat_eq, ◌∙◌, ◌||◌, ◌≡◌, refl, ap, sym, inl, inr, Option-cases, arith, List, [], Bool, true,
  false, not, Option, none, some, ◌==◌, if◌then◌else◌,
}
use incom_udon_server.Platform.{Platform, UdpAddr}
use incom_udon_server.Wire.Types.{ParsedPacket, protocol_version}
use incom_udon_server.Base.Assoc.{lookup}
use incom_udon_server.Auth.Packet.{verify_incoming_control}
use incom_udon_server.Relay.Membership.{emit_membership_expirations, expire_membership_if_needed}
use incom_udon_server.Relay.Output.{deliver_all}
use incom_udon_server.Relay.Output.Sends.{deliver_all-Sent}
use incom_udon_server.Wire.Parse.{is_media_type}
use incom_udon_server.Auth.State.{ControlAuthState, ControlAuthMeta, requires}
use incom_udon_server.Auth.Challenge.{consume_join_challenge}
use incom_udon_server.Admission.Ticket.{TicketCodec}
use incom_udon_server.Admission.Grant.{GrantCodec}
use incom_udon_server.Relay.{Server, control_auth_required}
use incom_udon_server.Relay.Output.{Output}
use incom_udon_server.Relay.Dispatch.{dispatch, handle_packet, handle_member_packet, sweep_first}
use incom_udon_server.Relay.Dispatch.Exchange.{
  verified, handle_hello, handle_ping, with_exchange, identity_exchange, service_exchange,
}
use incom_udon_server.Relay.Dispatch.Admit.{gate, stop, join_authenticated, no_meta}

-- The zero session never takes a challenge.
consume_join_challenge-no_meta :
    (p : Platform) (a : ControlAuthState) (pkt : ParsedPacket) (addr : Option UdpAddr)
    (t1 t2 t3 : ℕ)
    → consume_join_challenge p a pkt addr no_meta t1 t2 t3 ≡ (a, none)
unfolding consume_join_challenge
consume_join_challenge-no_meta p a pkt none t1 t2 t3 = refl
consume_join_challenge-no_meta p a pkt (some addr) t1 t2 t3 = refl

module _ (p : Platform) (clock : ℕ → ℕ) (pkt : ParsedPacket) (addr : Option UdpAddr) (s : Server)
    (required : control_auth_required s pkt.header.channel_id ≡ true)
    (unverified : verified p s pkt ≡ none) where
  join-unverified :
      (a : ControlAuthState)
      → s.control_auth ≡ some a
      → join_authenticated p clock pkt addr s a ≡ ((s, []), stop)
  unfolding join_authenticated
  join-unverified a here = ground (
    arith,
    unverified,
    consume_join_challenge-no_meta p a pkt addr (clock 0) (clock 1) (clock 2),
    ap (λ (c : Option ControlAuthState). record s { control_auth = c }) (sym here),
  )

  gate-unverified : gate p clock pkt addr s ≡ ((s, []), stop)
  unfolding gate
  gate-unverified = elim (Option-cases s.control_auth) [
    | inl missing ↦ ground (arith, required, unverified, missing)
    | inr (a, here) ↦ ground (arith, required, unverified, here, join-unverified a here)
  ]

  handle_hello-unverified : handle_hello p clock pkt addr s ≡ (s, [])
  unfolding handle_hello
  handle_hello-unverified = ground (arith, required, unverified)

  handle_ping-unverified : handle_ping p clock pkt addr s ≡ (s, [])
  unfolding handle_ping
  handle_ping-unverified = ground (arith, required, unverified)

  with_exchange-unverified :
      (handler : Server → ControlAuthMeta → Bool → Server × List Output)
      → with_exchange p clock pkt addr handler s ≡ (s, [])
  unfolding with_exchange
  with_exchange-unverified handler = ground (arith, required, unverified)

  handle_member_packet-unverified :
      (tickets : TicketCodec) (grants : GrantCodec)
      → handle_member_packet p tickets grants clock pkt addr s ≡ (s, [])
  unfolding handle_member_packet
  handle_member_packet-unverified tickets grants = rw gate-unverified

dispatch-unverified :
    (p : Platform) (tickets : TicketCodec) (grants : GrantCodec) (clock : ℕ → ℕ)
    (pkt : ParsedPacket) (addr : Option UdpAddr) (s : Server)
    → is_media_type pkt.header.pkt_type ≡ false
    → control_auth_required s pkt.header.channel_id ≡ true
    → verified p s pkt ≡ none
    → dispatch p tickets grants clock pkt addr s ≡ (s, [])
unfolding dispatch
dispatch-unverified p tickets grants clock pkt addr s control required unverified = ground (
  arith,
  control,
  handle_hello-unverified p clock pkt addr s required unverified,
  handle_ping-unverified p clock pkt addr s required unverified,
  handle_member_packet-unverified p clock pkt addr s required unverified tickets grants,
  with_exchange-unverified p clock pkt addr s required unverified
      (identity_exchange p clock pkt addr tickets),
  with_exchange-unverified p clock pkt addr s required unverified
      (service_exchange p clock pkt addr grants),
)

emit_membership_expirations-control_auth :
    (s : Server) (channel_id now : ℕ)
    → (emit_membership_expirations s channel_id now).0.control_auth ≡ s.control_auth
unfolding emit_membership_expirations expire_membership_if_needed
emit_membership_expirations-control_auth s channel_id now =
    elim (Option-cases (lookup channel_id s.channels)) [
      | inl missing ↦ ground (arith, missing)
      | inr (ch, here) ↦ ground (arith, here)
    ]

-- In a channel where control authentication is required, a packet that is not media and whose
-- authentication fails does nothing: the state and the output are those of the membership sweep that
-- comes before every packet of version 1 with a sender, and nothing at all otherwise. A JOIN is no
-- exception.
pub handle_packet_unverified :
    (p : Platform) (tickets : TicketCodec) (grants : GrantCodec) (clock : ℕ → ℕ)
    (pkt : ParsedPacket) (addr : Option UdpAddr) (s : Server)
    → is_media_type pkt.header.pkt_type ≡ false
    → control_auth_required s pkt.header.channel_id ≡ true
    → verified p s pkt ≡ none
    → handle_packet p tickets grants clock pkt addr s ≡ (
        if not (pkt.header.version == protocol_version) || (pkt.header.sender_id == 0)
        then (s, [])
        else sweep_first p tickets grants clock pkt addr s)
unfolding handle_packet sweep_first
handle_packet_unverified p tickets grants clock pkt addr s control required unverified =
    let now = clock 20 in
    let swept = (emit_membership_expirations s pkt.header.channel_id now).0 in
    let effects = (emit_membership_expirations s pkt.header.channel_id now).1 in
    let kept = emit_membership_expirations-control_auth s pkt.header.channel_id now in
    let sent = deliver_all-Sent p effects swept in
    let s1 = (deliver_all p effects swept).0 in
    let nothing : dispatch p tickets grants clock pkt addr s1 ≡ (s1, []) =
      dispatch-unverified p tickets grants clock pkt addr s1 control
        (sent.required pkt.header.channel_id
          ∙ (ap (λ (o : Option ControlAuthState). requires o pkt.header.channel_id) kept
              ∙ required))
        (sent.verifies pkt
          ∙ (ap (λ (o : Option ControlAuthState). verify_incoming_control p o pkt) kept
              ∙ unverified)) in
    ground (arith, nothing, append-nil (deliver_all p effects swept).1)
