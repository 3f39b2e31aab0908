-- ===== src/Relay/Dispatch/Limit.antt =====
-- The number of active talkers, across a whole packet.
use Prim.Native.Nat.{◌≤◌}
use incom_udon_server.Base.{
  ℕ, ◌≡◌, refl, arith, List, [], ◌∷◌, Bool, Option, none, some, length, ◌==◌, nat_eq, ◌⊎◌, inl, inr,
}
use incom_udon_server.Base.Assoc.{lookup}
use incom_udon_server.Platform.{Platform, UdpAddr}
use incom_udon_server.Wire.Types.{ParsedPacket}
use incom_udon_server.Admission.Ticket.{TicketCodec}
use incom_udon_server.Admission.Grant.{GrantCodec}
use incom_udon_server.Relay.{Channel, Server}
use incom_udon_server.Relay.Floor.{talker_limit}
use incom_udon_server.Relay.Membership.{emit_membership_expirations}
use incom_udon_server.Relay.Limit.{IsWithinLimit, expire_membership_if_needed-IsWithinLimit}
use incom_udon_server.Relay.Dispatch.{
  dispatch, handle_packet, handle_member_packet, sweep_first, after_gate,
}
use incom_udon_server.Relay.Dispatch.Admit.{Gate, stop, go_on, gate}
use incom_udon_server.Relay.Dispatch.Exchange.{identity_exchange, service_exchange}
use incom_udon_server.Relay.Dispatch.Serve.{expire_talkers_first}
use incom_udon_server.Relay.Output.{Output}
use incom_udon_server.Relay.Dispatch.Limit.Serve.{
  Within, put_out-Within, expire_talkers_first-Within, serve-Within, handle_media_packet-Within,
}
use incom_udon_server.Relay.Dispatch.Limit.Exchange.{
  handle_hello-Within, handle_ping-Within, with_exchange-Within, identity_exchange-Within,
  service_exchange-Within,
}
use incom_udon_server.Relay.Dispatch.Limit.Admit.{gate-Within}
mod Serve
mod Exchange
mod Admit

module _ (p : Platform) (tickets : TicketCodec) (grants : GrantCodec) (clock : ℕ → ℕ)
    (pkt : ParsedPacket) (addr : Option UdpAddr) where
  after_gate-Within :
      (verdict : Gate) (result : Server × List Output)
      → Within result
      → Within (after_gate p tickets grants clock pkt addr verdict result)
  after_gate-Within stop result h = h
  after_gate-Within (go_on service) (s, out) h =
      serve-Within p clock pkt addr _ (expire_talkers_first-Within p clock pkt addr s h) service

  module _ (s : Server) (h : IsWithinLimit s) where
    dispatch-Within : Within (dispatch p tickets grants clock pkt addr s)
    unfolding dispatch handle_member_packet
    dispatch-Within other found e =
        let entered = gate p clock pkt addr s in
        ground (
          arith,
          handle_media_packet-Within p clock pkt addr s h other found,
          handle_hello-Within p clock pkt addr s h other found,
          handle_ping-Within p clock pkt addr s h other found,
          with_exchange-Within p clock pkt addr s h (identity_exchange p clock pkt addr tickets)
              (λ t meta existing good.
                identity_exchange-Within p clock pkt addr t good tickets meta existing)
              other found,
          with_exchange-Within p clock pkt addr s h (service_exchange p clock pkt addr grants)
              (λ t meta existing good.
                service_exchange-Within p clock pkt addr t good grants meta existing)
              other found,
          after_gate-Within entered.1 entered.0 (gate-Within p clock pkt addr s h) other found,
        )

    sweep_first-Within : Within (sweep_first p tickets grants clock pkt addr s)
    unfolding sweep_first emit_membership_expirations
    sweep_first-Within =
        put_out-Within p clock pkt addr
          (emit_membership_expirations s pkt.header.channel_id (clock 20))
          (expire_membership_if_needed-IsWithinLimit s h pkt.header.channel_id (clock 20))

-- A whole packet of any kind and content, from any endpoint and at any times, leaves a state in which
-- no channel has more talkers than the limit, where it met such a state.
pub handle_packet-IsWithinLimit :
    (p : Platform) (tickets : TicketCodec) (grants : GrantCodec) (clock : ℕ → ℕ)
    (pkt : ParsedPacket) (addr : Option UdpAddr) (s : Server)
    → IsWithinLimit s
    → IsWithinLimit (handle_packet p tickets grants clock pkt addr s).0
unfolding handle_packet
handle_packet-IsWithinLimit p tickets grants clock pkt addr s h other found e =
    let swept = sweep_first p tickets grants clock pkt addr s in
    ground (
      arith,
      h other found,
      dispatch-Within p tickets grants clock pkt addr swept.0
          (sweep_first-Within p tickets grants clock pkt addr s h) other found,
    )
