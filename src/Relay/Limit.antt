-- ===== src/Relay/Limit.antt =====
-- The number of active talkers.
use Prim.Native.Nat.{◌≤◌}
use Prim.Native.String.{String}
use incom_udon_server.Base.{
  ℕ, ◌<◌, ◌≡◌, arith, [], ◌∷◌, Option, none, some, length, nat_eq, string_eq, Option-cases, inl,
  inr,
}
use incom_udon_server.Base.Assoc.{
  Map, lookup, insert, delete, length-insert, length-delete-le, length-delete-lt, lookup-insert,
  lookup-delete,
}
use incom_udon_server.Platform.{UdpAddr}
use incom_udon_server.Relay.{Peer, Channel, Server, set_channel, peer_at}
use incom_udon_server.Relay.Floor.{
  talker_limit, active_talker_priority, handle_ptt_on, release_talk_if_needed,
}
use incom_udon_server.Relay.Request.{
  grant_request, handle_ptt_request, may_request, expire_talkers, expire_talk_if_needed, victim_of,
  no_victim,
}
use incom_udon_server.Relay.Membership.{
  expire_peers, expire_membership_if_needed, put_or_delete, membership_expired, drop_peer,
}
use incom_udon_server.Relay.Victim.{pick_victim-cases}
pub mod Members
pub mod Sessions

-- No channel has more talkers than the limit.
abbrev pub IsWithinLimit : Server → Type 0
IsWithinLimit s =
    (channel_id : ℕ) (ch : Channel)
    → lookup channel_id s.channels ≡ some ch
    → length ch.active_talkers ≤ talker_limit s

length-expire_talkers :
    (talk_max now : ℕ) (talkers : Map ℕ ℕ)
    → length (expire_talkers talk_max now talkers).0 ≤ length talkers
unfolding expire_talkers
length-expire_talkers talk_max now [] = omega arith
length-expire_talkers talk_max now ((sender_id, started_at) ∷ talkers) =
    ground (arith, length-expire_talkers talk_max now talkers)

length-expire_peers :
    (now : ℕ) (peers : Map String Peer) (ch : Channel)
    → length (expire_peers now peers ch).0.active_talkers ≤ length ch.active_talkers
unfolding expire_peers
length-expire_peers now [] ch = omega arith
length-expire_peers now ((key, peer) ∷ peers) ch =
    elim (Option-cases (membership_expired peer now)) [
      | inl stays ↦ ground (arith, stays, length-expire_peers now peers ch)
      | inr (reason, expired) ↦ ground (
        arith,
        expired,
        length-expire_peers now peers (drop_peer ch key peer),
        length-delete-le peer.sender_id ch.active_talkers,
      )
    ]

victim_leaves :
    (ch : Channel) (now : ℕ)
    → 0 < (victim_of ch now).sender_id
    → length (delete (victim_of ch now).sender_id ch.active_talkers) < length ch.active_talkers
victim_leaves ch now positive =
    let victim = victim_of ch now in
    elim (Option-cases (lookup victim.sender_id ch.active_talkers)) [
      | inl missing ↦ ground (
        arith,
        missing,
        pick_victim-cases (λ talker. active_talker_priority ch.peers talker now) ch.active_talkers
            no_victim,
      )
      | inr (started_at, active) ↦
          length-delete-lt victim.sender_id started_at ch.active_talkers active
    ]

module _ (s : Server) (h : IsWithinLimit s) (channel_id : ℕ) where
  pub set_channel-IsWithinLimit :
      (ch : Channel)
      → length ch.active_talkers ≤ talker_limit s
      → IsWithinLimit (set_channel s channel_id ch)
  set_channel-IsWithinLimit ch le other found e =
      ground (arith, e, h other found, lookup-insert channel_id other ch s.channels)

  pub handle_ptt_on-IsWithinLimit :
      (sender_id now : ℕ) → IsWithinLimit (handle_ptt_on s channel_id sender_id now).0
  unfolding handle_ptt_on
  handle_ptt_on-IsWithinLimit sender_id now other found e =
      elim (Option-cases (lookup channel_id s.channels)) [
        | inl missing ↦ ground (arith, missing, h other found)
        | inr (ch, here) ↦ ground (
          arith,
          here,
          h other found,
          h channel_id ch here,
          lookup-insert channel_id other
              (record ch { active_talkers = insert sender_id now ch.active_talkers }) s.channels,
          length-insert sender_id now ch.active_talkers,
        )
      ]

  pub release_talk_if_needed-IsWithinLimit :
      (sender_id reason : ℕ)
      → IsWithinLimit (release_talk_if_needed s channel_id sender_id reason).0
  unfolding release_talk_if_needed
  release_talk_if_needed-IsWithinLimit sender_id reason other found e =
      elim (Option-cases (lookup channel_id s.channels)) [
        | inl missing ↦ ground (arith, missing, h other found)
        | inr (ch, here) ↦ ground (
          arith,
          here,
          h other found,
          h channel_id ch here,
          lookup-insert channel_id other
              (record ch { active_talkers = delete sender_id ch.active_talkers }) s.channels,
          length-delete-le sender_id ch.active_talkers,
        )
      ]

  -- The victim leaves before the requester comes in.
  grant_request-IsWithinLimit :
      (sender_id : ℕ) (ch : Channel) (requester : Peer) (now : ℕ)
      → lookup channel_id s.channels ≡ some ch
      → IsWithinLimit (grant_request s channel_id sender_id ch requester now).0.0
  unfolding grant_request
  grant_request-IsWithinLimit sender_id ch requester now here other found e =
      let victim = victim_of ch now in
      let rest = delete victim.sender_id ch.active_talkers in
      ground (
        arith,
        h other found,
        h channel_id ch here,
        lookup-insert channel_id other
            (record ch { active_talkers = insert sender_id now ch.active_talkers }) s.channels,
        lookup-insert channel_id other (record ch { active_talkers = insert sender_id now rest })
            s.channels,
        length-insert sender_id now ch.active_talkers,
        length-insert sender_id now rest,
        victim_leaves ch now,
      )

  pub handle_ptt_request-IsWithinLimit :
      (sender_id : ℕ) (addr : Option UdpAddr) (now : ℕ)
      → IsWithinLimit (handle_ptt_request s channel_id sender_id addr now).0.0
  unfolding handle_ptt_request
  handle_ptt_request-IsWithinLimit sender_id none now other found e = ground (arith, h other found)
  handle_ptt_request-IsWithinLimit sender_id (some addr) now other found e =
      elim (Option-cases (lookup channel_id s.channels)) [
        | inl missing ↦ ground (arith, missing, h other found)
        | inr (ch, here) ↦ elim (Option-cases (may_request (peer_at ch sender_id addr) now)) [
          | inl refused ↦ ground (arith, here, refused, h other found)
          | inr (requester, may) ↦ ground (
            arith,
            here,
            may,
            h other found,
            grant_request-IsWithinLimit sender_id ch requester now here other found,
          )
        ]
      ]

  pub expire_talk_if_needed-IsWithinLimit :
      (now : ℕ) → IsWithinLimit (expire_talk_if_needed s channel_id now).0
  unfolding expire_talk_if_needed
  expire_talk_if_needed-IsWithinLimit now other found e =
      elim (Option-cases (lookup channel_id s.channels)) [
        | inl missing ↦ ground (arith, missing, h other found)
        | inr (ch, here) ↦ ground (
          arith,
          here,
          h other found,
          h channel_id ch here,
          lookup-insert channel_id other
              (record ch { active_talkers = (expire_talkers s.talk_max now ch.active_talkers).0 })
              s.channels,
          length-expire_talkers s.talk_max now ch.active_talkers,
        )
      ]

  pub put_or_delete-IsWithinLimit :
      (ch : Channel)
      → length ch.active_talkers ≤ talker_limit s
      → IsWithinLimit (put_or_delete s channel_id ch)
  put_or_delete-IsWithinLimit ch le other found e = ground (
    arith,
    h other found,
    set_channel-IsWithinLimit ch le other found,
    lookup-delete channel_id other s.channels,
  )

  pub expire_membership_if_needed-IsWithinLimit :
      (now : ℕ) → IsWithinLimit (expire_membership_if_needed s channel_id now).0
  unfolding expire_membership_if_needed
  expire_membership_if_needed-IsWithinLimit now other found e =
      elim (Option-cases (lookup channel_id s.channels)) [
        | inl missing ↦ ground (arith, missing, h other found)
        | inr (ch, here) ↦ ground (
          arith,
          here,
          put_or_delete-IsWithinLimit (expire_peers now ch.peers ch).0
              (omega (arith, length-expire_peers now ch.peers ch, h channel_id ch here)) other
              found,
        )
      ]
