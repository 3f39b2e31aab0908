-- ===== src/Relay/Dispatch/Limit/Admit.antt =====
-- The number of active talkers, across the gate.
use incom_udon_server.Base.{
  ℕ, ◌≡◌, refl, arith, [], ◌∷◌, Option, none, some, nat_eq, Option-cases, ◌⊎◌, inl, inr,
}
use incom_udon_server.Platform.{Platform, UdpAddr}
use incom_udon_server.Wire.Types.{ParsedPacket}
use incom_udon_server.Auth.State.{ControlAuthState, ControlAuthMeta, ProvisionalReplayState}
use incom_udon_server.Auth.Challenge.{consume_join_challenge}
use incom_udon_server.Admission.Types.{IdentityAdmission, ServiceAdmission}
use incom_udon_server.Relay.{Server}
use incom_udon_server.Relay.Peers.{upsert_peer, upsert_authenticated_peer_with_replay}
use incom_udon_server.Relay.Join.{Resolution, admitted, refused, resolve_join_admission}
use incom_udon_server.Relay.Output.Sends.{send_authenticated_control-Sent}
use incom_udon_server.Relay.Limit.{IsWithinLimit}
use incom_udon_server.Relay.Limit.Members.{
  start_membership-IsWithinLimit, upsert_peer-IsWithinLimit,
  set_peer_identity_admission-IsWithinLimit,
}
use incom_udon_server.Relay.Limit.Sessions.{
  upsert_authenticated_peer_with_replay-IsWithinLimit,
  accept_authenticated_peer_control-IsWithinLimit,
  accept_unauthenticated_peer_control-IsWithinLimit, set_peer_service_admission-IsWithinLimit,
}
use incom_udon_server.Relay.Dispatch.Exchange.{verified}
use incom_udon_server.Relay.Dispatch.Admit.{
  attach_join_identity, attach_join_service, admit_peer, resolve_join, join_authenticated,
  join_open, gate, meta_or_zero,
}
use incom_udon_server.Relay.Dispatch.Limit.Serve.{Within, Sent-IsWithinLimit}

resolve_join_admission-IsWithinLimit :
    (pkt : ParsedPacket) (addr : Option UdpAddr) (s : Server)
    → IsWithinLimit s
    → (meta : ControlAuthMeta) (now : ℕ)
    → IsWithinLimit (resolve_join_admission s pkt addr meta now).0
unfolding resolve_join_admission
resolve_join_admission-IsWithinLimit pkt addr s h meta now = h

Resolution-cases :
    (r : Resolution)
    → ((identity : Option IdentityAdmission) × ((service : Option ServiceAdmission) × (r
            ≡ admitted identity service)))
      ⊎ ((packet_type : ℕ) × ((reason : ℕ) × (r ≡ refused packet_type reason)))
Resolution-cases (admitted identity service) = inl (identity, (service, refl))
Resolution-cases (refused packet_type reason) = inr (packet_type, (reason, refl))

module _ (p : Platform) (clock : ℕ → ℕ) (pkt : ParsedPacket) (addr : Option UdpAddr) (s : Server)
    (h : IsWithinLimit s) where
  attach_join_identity-IsWithinLimit :
      (identity : Option IdentityAdmission)
      → IsWithinLimit (attach_join_identity p clock pkt addr s identity).0
  attach_join_identity-IsWithinLimit none other found e = h other found e
  attach_join_identity-IsWithinLimit (some admission) other found e =
      set_peer_identity_admission-IsWithinLimit s h pkt.header.channel_id pkt.header.sender_id addr
        admission other found e

  attach_join_service-IsWithinLimit :
      (service : Option ServiceAdmission)
      → IsWithinLimit (attach_join_service p clock pkt addr s service).0
  attach_join_service-IsWithinLimit none other found e = h other found e
  attach_join_service-IsWithinLimit (some admission) other found e =
      set_peer_service_admission-IsWithinLimit s pkt.header.channel_id pkt.header.sender_id addr
        admission (clock 5) h other found e

module _ (p : Platform) (clock : ℕ → ℕ) (pkt : ParsedPacket) (addr : Option UdpAddr) (s : Server)
    (h : IsWithinLimit s) where
  admit_peer-Within :
      (meta : ControlAuthMeta) (replay : ProvisionalReplayState)
      (identity : Option IdentityAdmission) (service : Option ServiceAdmission)
      → Within (admit_peer p clock pkt addr s meta replay identity service).0
  unfolding admit_peer
  admit_peer-Within meta replay identity service other found e =
      let s1 =
        upsert_authenticated_peer_with_replay s pkt.header.channel_id pkt.header.sender_id addr meta
          replay (clock 4) in
      let h1 =
        upsert_authenticated_peer_with_replay-IsWithinLimit s pkt.header.channel_id
          pkt.header.sender_id addr meta replay (clock 4) h in
      let s2 = (attach_join_identity p clock pkt addr s1 identity).0 in
      let h2 = attach_join_identity-IsWithinLimit p clock pkt addr s1 h1 identity in
      let s3 = (attach_join_service p clock pkt addr s2 service).0 in
      let h3 = attach_join_service-IsWithinLimit p clock pkt addr s2 h2 service in
      ground (
        arith,
        h2 other found,
        h3 other found,
        start_membership-IsWithinLimit s3 h3 pkt.header.channel_id pkt.header.sender_id addr
            (clock 6) other found,
      )

module _ (p : Platform) (clock : ℕ → ℕ) (pkt : ParsedPacket) (addr : Option UdpAddr) (s : Server)
    (h : IsWithinLimit s) where
  resolve_join-Within :
      (meta : ControlAuthMeta) (replay : ProvisionalReplayState)
      → Within (resolve_join p clock pkt addr s meta replay).0
  unfolding resolve_join
  resolve_join-Within meta replay other found e =
      let resolved = resolve_join_admission s pkt addr meta (clock 3) in
      let h' = resolve_join_admission-IsWithinLimit pkt addr s h meta (clock 3) in
      elim (Resolution-cases resolved.1) [
        | inl (identity, (service, good)) ↦ ground (
          arith,
          good,
          admit_peer-Within p clock pkt addr resolved.0 h' meta replay identity service other found,
        )
        | inr (packet_type, (reason, bad)) ↦ ground (
          arith,
          bad,
          Sent-IsWithinLimit p resolved.0 _
              (send_authenticated_control-Sent p resolved.0 addr pkt.header.channel_id
                pkt.header.sender_id meta.key_id packet_type (reason ∷ []))
              h' other found,
        )
      ]

module _ (p : Platform) (clock : ℕ → ℕ) (pkt : ParsedPacket) (addr : Option UdpAddr) (s : Server)
    (h : IsWithinLimit s) where
  join_authenticated-Within :
      (a : ControlAuthState) → Within (join_authenticated p clock pkt addr s a).0
  unfolding join_authenticated
  join_authenticated-Within a other found e =
      let meta = meta_or_zero (verified p s pkt) in
      let taken = consume_join_challenge p a pkt addr meta (clock 0) (clock 1) (clock 2) in
      let s' : Server = record s { control_auth = some taken.0 } in
      elim (Option-cases taken.1) [
        | inl kept ↦ ground (arith, kept, h other found)
        | inr (replay, consumed) ↦
            ground
              (arith, consumed, resolve_join-Within p clock pkt addr s' h meta replay other found)
      ]

  join_open-Within : Within (join_open p clock pkt addr s).0
  unfolding join_open
  join_open-Within other found e =
      let s1 = upsert_peer s pkt.header.channel_id pkt.header.sender_id addr (clock 0) in
      let h1 =
        upsert_peer-IsWithinLimit s pkt.header.channel_id pkt.header.sender_id addr (clock 0) h in
      ground (
        arith,
        h other found,
        start_membership-IsWithinLimit s1 h1 pkt.header.channel_id pkt.header.sender_id addr
            (clock 1) other found,
      )

  pub gate-Within : Within (gate p clock pkt addr s).0
  unfolding gate
  gate-Within other found e =
      let open_join = join_open-Within other found in
      let known =
        accept_unauthenticated_peer_control-IsWithinLimit s h pkt.header.channel_id
          pkt.header.sender_id addr (clock 0) other found in
      elim (Option-cases s.control_auth) [
        | inl missing ↦ elim (Option-cases (verified p s pkt)) [
          | inl unverified ↦ ground (arith, missing, unverified, open_join, known, h other found)
          | inr (meta, accepted) ↦ ground (
            arith,
            missing,
            accepted,
            open_join,
            known,
            h other found,
            accept_authenticated_peer_control-IsWithinLimit s h pkt addr meta (clock 0) other found,
          )
        ]
        | inr (a, here) ↦ elim (Option-cases (verified p s pkt)) [
          | inl unverified ↦ ground (
            arith,
            here,
            unverified,
            open_join,
            known,
            h other found,
            join_authenticated-Within a other found,
          )
          | inr (meta, accepted) ↦ ground (
            arith,
            here,
            accepted,
            open_join,
            known,
            join_authenticated-Within a other found,
            accept_authenticated_peer_control-IsWithinLimit s h pkt addr meta (clock 0) other found,
          )
        ]
      ]
