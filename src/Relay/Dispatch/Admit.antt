-- ===== src/Relay/Dispatch/Admit.antt =====
-- The gate of `handlePacket` in main.go: a JOIN makes a member, and every other packet must come from
-- one. The gate stops the packet, or lets it go on with the service that a JOIN admitted.
use incom_udon_server.Base.{
  ℕ, List, [], ◌∷◌, Bool, true, not, Option, none, some, ◌==◌, if◌then◌else◌, length,
}
use incom_udon_server.Platform.{Platform, UdpAddr}
use incom_udon_server.Wire.Types.{ParsedPacket, pkt_join}
use incom_udon_server.Auth.State.{ControlAuthState, ControlAuthMeta, ProvisionalReplayState}
use incom_udon_server.Auth.Challenge.{consume_join_challenge}
use incom_udon_server.Admission.Types.{IdentityAdmission, ServiceAdmission}
use incom_udon_server.Relay.{Server, service_admission_issued, control_auth_required}
use incom_udon_server.Relay.Peers.{
  upsert_peer, upsert_authenticated_peer_with_replay, accept_authenticated_peer_control,
  accept_unauthenticated_peer_control,
}
use incom_udon_server.Relay.Membership.{start_membership}
use incom_udon_server.Relay.Join.{
  resolve_join_admission, admitted, refused, set_peer_identity_admission,
  set_peer_service_admission,
}
use incom_udon_server.Relay.Output.{Output, note, send_authenticated_control}
use incom_udon_server.Relay.Dispatch.Exchange.{verified}

pub data Gate : Type 0 where
  stop : Gate
  go_on : Option (List ℕ) → Gate

-- The zero value that comes with a failed verification.
abbrev pub no_meta : ControlAuthMeta
no_meta = record { key_id = 0; session_id = 0; counter = 0 }

abbrev pub meta_or_zero : Option ControlAuthMeta → ControlAuthMeta
meta_or_zero none = no_meta
meta_or_zero (some meta) = meta

abbrev pub service_of : Option ServiceAdmission → Option (List ℕ)
service_of none = none
service_of (some admission) = some admission.service_id

module _ (p : Platform) (clock : ℕ → ℕ) (pkt : ParsedPacket) (addr : Option UdpAddr) where
  abbrev pub attach_join_identity : Server → Option IdentityAdmission → Server × Bool
  attach_join_identity s none = (s, true)
  attach_join_identity s (some admission) =
      set_peer_identity_admission s pkt.header.channel_id pkt.header.sender_id addr admission

  abbrev pub attach_join_service : Server → Option ServiceAdmission → Server × Bool
  attach_join_service s none = (s, true)
  attach_join_service s (some admission) =
      set_peer_service_admission s pkt.header.channel_id pkt.header.sender_id addr admission
        (clock 5)

  abbrev issued_notes : Option ServiceAdmission → List Output
  issued_notes none = []
  issued_notes (some admission) =
      note
        (service_admission_issued pkt.header.channel_id pkt.header.sender_id admission.service_id)
      ∷ []

  -- The part of an authenticated JOIN after its admission is resolved; what was written stays written
  -- where a later step fails.
  unfoldable pub admit_peer :
      Server
      → ControlAuthMeta
      → ProvisionalReplayState
      → Option IdentityAdmission
      → Option ServiceAdmission
      → (Server × List Output) × Gate
  admit_peer s meta replay identity service =
      let s1 =
        upsert_authenticated_peer_with_replay s pkt.header.channel_id pkt.header.sender_id addr meta
          replay (clock 4) in
      let (s2, with_identity) = attach_join_identity s1 identity in
      let (s3, with_service) = attach_join_service s2 service in
      let (s4, started) =
        start_membership s3 pkt.header.channel_id pkt.header.sender_id addr (clock 6) in
      if not with_identity
      then ((s2, []), stop)
      else if not with_service
      then ((s3, []), stop)
      else if not started
      then ((s4, []), stop)
      else ((s4, issued_notes service), go_on (service_of service))

  unfoldable pub resolve_join :
      Server → ControlAuthMeta → ProvisionalReplayState → (Server × List Output) × Gate
  resolve_join s meta replay =
      let (s', resolution) = resolve_join_admission s pkt addr meta (clock 3) in
      elim resolution [
        | refused packet_type reason ↦ (
          send_authenticated_control p s' addr pkt.header.channel_id pkt.header.sender_id
              meta.key_id packet_type (reason ∷ []),
          stop,
        )
        | admitted identity service ↦ admit_peer s' meta replay identity service
      ]

  -- The code takes the challenge with whatever session the verification gave, the zero one after a
  -- failure.
  unfoldable pub join_authenticated : Server → ControlAuthState → (Server × List Output) × Gate
  join_authenticated s a =
      let meta = meta_or_zero (verified p s pkt) in
      let (a', consumed) = consume_join_challenge p a pkt addr meta (clock 0) (clock 1) (clock 2) in
      let s' = record s { control_auth = some a' } in
      elim consumed [ none ↦ ((s', []), stop) | some replay ↦ resolve_join s' meta replay ]

  unfoldable pub join_open : Server → (Server × List Output) × Gate
  join_open s =
      let s1 = upsert_peer s pkt.header.channel_id pkt.header.sender_id addr (clock 0) in
      let (s2, started) =
        start_membership s1 pkt.header.channel_id pkt.header.sender_id addr (clock 1) in
      if not (length pkt.payload == 0)
      then ((s, []), stop)
      else if not started
      then ((s2, []), stop)
      else ((s2, []), go_on none)

  abbrev go_if : Server × Bool → (Server × List Output) × Gate
  go_if result = ((result.0, []), (if result.1 then go_on none else stop))

  unfoldable pub gate : Server → (Server × List Output) × Gate
  gate s =
      if not (control_auth_required s pkt.header.channel_id)
      then (if pkt.header.pkt_type == pkt_join
          then join_open s
          else go_if (
              accept_unauthenticated_peer_control s pkt.header.channel_id pkt.header.sender_id addr
                (clock 0)))
      else if pkt.header.pkt_type == pkt_join
      then elim s.control_auth [ none ↦ ((s, []), stop) | some a ↦ join_authenticated s a ]
      else elim (verified p s pkt) [
        | none ↦ ((s, []), stop)
        | some meta ↦ go_if (accept_authenticated_peer_control s pkt addr meta (clock 0))
      ]
