-- ===== src/Relay/Dispatch.antt =====
-- `handlePacket` of main.go, from the parsed datagram to the state and the datagrams after it.
use incom_udon_server.Base.{
  ℕ, ◌+◌, List, [], ◌∷◌, ◌++◌, Bool, true, false, not, ◌&&◌, ◌||◌, Option, none, some, ◌==◌,
  if◌then◌else◌, is_some, length,
}
use incom_udon_server.Platform.{Platform, UdpAddr}
use incom_udon_server.Wire.Types.{
  ParsedPacket, protocol_version, pkt_auth_hello, pkt_ping, pkt_identity_begin, pkt_identity_proof,
  pkt_service_begin, pkt_service_proof,
}
use incom_udon_server.Wire.Parse.{is_media_type}
use incom_udon_server.Admission.Ticket.{TicketCodec}
use incom_udon_server.Admission.Grant.{GrantCodec}
use incom_udon_server.Relay.{Server, Effect}
use incom_udon_server.Relay.Membership.{emit_membership_expirations}
use incom_udon_server.Relay.Output.{Output, deliver_all}
use incom_udon_server.Relay.Dispatch.Exchange.{
  handle_hello, handle_ping, with_exchange, identity_exchange, service_exchange,
}
use incom_udon_server.Relay.Dispatch.Admit.{Gate, stop, go_on, gate}
use incom_udon_server.Relay.Dispatch.Serve.{
  put_out, expire_talkers_first, serve, handle_media_packet,
}
pub mod Exchange
pub mod Admit
pub mod Serve
pub mod Authenticity
pub mod Forwarding
pub mod Limit

module _ (p : Platform) (tickets : TicketCodec) (grants : GrantCodec) (clock : ℕ → ℕ)
    (pkt : ParsedPacket) (addr : Option UdpAddr) where
  abbrev pub is_identity_packet : Server → Bool
  is_identity_packet s =
      ((pkt.header.pkt_type == pkt_identity_begin) || (pkt.header.pkt_type == pkt_identity_proof))
      && is_some s.identity_admission

  abbrev pub is_service_packet : Server → Bool
  is_service_packet s =
      ((pkt.header.pkt_type == pkt_service_begin) || (pkt.header.pkt_type == pkt_service_proof))
      && is_some s.service_admission

  abbrev pub after_gate : Gate → Server × List Output → Server × List Output
  after_gate stop result = result
  after_gate (go_on service) (s, out) =
      let (s1, timeouts) = expire_talkers_first p clock pkt addr s in
      let (s2, rest) = serve p clock pkt addr service s1 in (s2, out ++ (timeouts ++ rest))

  unfoldable pub handle_member_packet : Server → Server × List Output
  handle_member_packet s =
      let (result, verdict) = gate p clock pkt addr s in after_gate verdict result

  -- Everything after the membership sweep.
  unfoldable pub dispatch : Server → Server × List Output
  dispatch s =
      if is_media_type pkt.header.pkt_type
      then handle_media_packet p clock pkt addr s
      else if pkt.header.pkt_type == pkt_auth_hello
      then handle_hello p clock pkt addr s
      else if pkt.header.pkt_type == pkt_ping
      then handle_ping p clock pkt addr s
      else if is_identity_packet s
      then with_exchange p clock pkt addr (identity_exchange p clock pkt addr tickets) s
      else if is_service_packet s
      then with_exchange p clock pkt addr (service_exchange p clock pkt addr grants) s
      else handle_member_packet s

  -- The sweep of the channel that comes before every packet.
  unfoldable pub sweep_first : Server → Server × List Output
  sweep_first s =
      let (s', effects) = emit_membership_expirations s pkt.header.channel_id (clock 20) in
      deliver_all p effects s'

  unfoldable pub handle_packet : Server → Server × List Output
  handle_packet s =
      let (s1, swept) = sweep_first s in
      let (s2, out) = dispatch s1 in
      if not (pkt.header.version == protocol_version) || (pkt.header.sender_id == 0)
      then (s, [])
      else (s2, swept ++ out)
