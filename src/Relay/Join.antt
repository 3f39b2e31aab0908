-- ===== src/Relay/Join.antt =====
-- What a JOIN decides: `resolveJoinAdmission` of main.go, `setPeerIdentityAdmission` and
-- `setPeerServiceAdmission` of control_auth.go.
use incom_udon_server.Base.{
  ℕ, Bool, true, false, not, ◌&&◌, Option, none, some, ◌==◌, if◌then◌else◌, is_some, nat_eq,
}
use incom_udon_server.Base.Assoc.{lookup}
use incom_udon_server.Platform.{UdpAddr}
use incom_udon_server.Wire.Types.{ParsedPacket, pkt_identity_deny, pkt_service_deny}
use incom_udon_server.Auth.State.{ControlAuthMeta}
use incom_udon_server.Admission.Types.{IdentityAdmission, ServiceAdmission}
use incom_udon_server.Admission.Ticket.{
  identity_deny_admission_required, identity_deny_scope_mismatch,
}
use incom_udon_server.Admission.Identity.{JoinVerdict, allowed, rejected, is_required}
use incom_udon_server.Admission.Identity as Identity
use incom_udon_server.Admission.Service.{admission_allowed_for_membership}
use incom_udon_server.Admission.Service.Exchange as Service
use incom_udon_server.Relay.{Server, peer_at, set_peer}

-- The admissions that the JOIN used up, or the type and the reason of the denial.
pub data Resolution : Type 0 where
  admitted : Option IdentityAdmission → Option ServiceAdmission → Resolution
  refused : ℕ → ℕ → Resolution

-- A granted admission never has the zero time, so an admission is current when there is one.
unfoldable pub resolve :
    Bool → JoinVerdict IdentityAdmission → JoinVerdict ServiceAdmission → Resolution
resolve required identity (rejected reason) = refused pkt_service_deny reason
resolve required (rejected reason) (allowed service) =
    if not ((reason == identity_deny_admission_required) && is_some service)
    then refused pkt_identity_deny reason
    else if required && not (is_some service)
    then refused pkt_identity_deny identity_deny_admission_required
    else admitted none service
resolve required (allowed identity) (allowed service) =
    if is_some identity && is_some service
    then refused pkt_identity_deny identity_deny_scope_mismatch
    else if required && not (is_some identity) && not (is_some service)
    then refused pkt_identity_deny identity_deny_admission_required
    else admitted identity service

unfoldable pub resolve_join_admission :
    Server → ParsedPacket → Option UdpAddr → ControlAuthMeta → ℕ → Server × Resolution
unfolding resolve
resolve_join_admission s pkt addr meta now =
    let (identities, identity) =
      Identity.admission_for_join s.identity_admission pkt addr meta now in
    let (services, service) = Service.admission_for_join s.service_admission pkt addr meta now in
    (
      record s { identity_admission = identities; service_admission = services },
      resolve (is_required s.identity_admission) identity service,
    )

unfoldable pub set_peer_identity_admission :
    Server → ℕ → ℕ → Option UdpAddr → IdentityAdmission → Server × Bool
set_peer_identity_admission s channel_id sender_id none admission = (s, false)
set_peer_identity_admission s channel_id sender_id (some addr) admission =
    elim (lookup channel_id s.channels) [
      | none ↦ (s, false)
      | some ch ↦ elim (peer_at ch sender_id addr) [
        | none ↦ (s, false)
        | some peer ↦ if is_some peer.service_admission then (s, false) else (
          set_peer s channel_id ch addr (record peer { identity_admission = some admission }),
          true,
        )
      ]
    ]

-- The part after the deny rules are asked.
unfoldable pub attach_service : Server → ℕ → ℕ → UdpAddr → ServiceAdmission → Server × Bool
attach_service s channel_id sender_id addr admission = elim (lookup channel_id s.channels) [
  | none ↦ (s, false)
  | some ch ↦ elim (peer_at ch sender_id addr) [
    | none ↦ (s, false)
    | some peer ↦ if is_some peer.identity_admission then (s, false) else (
      set_peer s channel_id ch addr (record peer { service_admission = some admission }),
      true,
    )
  ]
]

unfoldable pub set_peer_service_admission :
    Server → ℕ → ℕ → Option UdpAddr → ServiceAdmission → ℕ → Server × Bool
set_peer_service_admission s channel_id sender_id none admission now = (s, false)
set_peer_service_admission s channel_id sender_id (some addr) admission now =
    let (services, is_allowed) =
      admission_allowed_for_membership s.service_admission channel_id admission now in
    let asked = record s { service_admission = services } in
    if not is_allowed
    then (asked, false)
    else attach_service asked channel_id sender_id addr admission
