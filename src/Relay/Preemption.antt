-- ===== src/Relay/Preemption.antt =====
-- Who loses the floor to a floor interrupt, and to whom.
use Prim.Native.Nat.{◌≤◌}
use incom_udon_server.Base.{
  ℕ, ◌<◌, ◌≡◌, arith, Bool, true, false, Option, none, some, nat_eq, string_eq, inl, inr,
  Option-cases,
}
use incom_udon_server.Base.Assoc.{lookup, insert, delete, lookup-insert, lookup-delete}
use incom_udon_server.Platform.{UdpAddr}
use incom_udon_server.Relay.{Peer, Channel, Server, peer_at}
use incom_udon_server.Relay.Floor.{is_active, active_talker_priority, peer_interrupt_priority}
use incom_udon_server.Relay.Request.{
  grant_request, handle_ptt_request, may_request, victim_of, no_victim,
}
use incom_udon_server.Relay.Victim.{pick_victim-cases, pick_victim-lowest}

-- The talkers of a channel in a state.
abbrev pub talks : Server → ℕ → ℕ → Bool
talks s channel_id talker = elim (lookup channel_id s.channels) [
  | none ↦ false
  | some ch ↦ is_active ch talker
]

-- A granted request takes the floor from no one but the talker of the lowest priority, lower than the
-- requester's, with the lowest sender ID among those.
grant_request-loses :
    (s : Server) (channel_id sender_id : ℕ) (ch : Channel) (requester : Peer) (now talker : ℕ)
    → lookup channel_id s.channels ≡ some ch
    → lookup 0 ch.active_talkers ≡ none
    → is_active ch talker ≡ true
    → talks (grant_request s channel_id sender_id ch requester now).0.0 channel_id talker ≡ false
    → (active_talker_priority ch.peers talker now < peer_interrupt_priority requester now)
      × ((other : ℕ)
          → is_active ch other ≡ true
          → active_talker_priority ch.peers talker now ≤ active_talker_priority ch.peers other now)
unfolding grant_request
grant_request-loses s channel_id sender_id ch requester now talker here no_zero active gone =
    let victim = victim_of ch now in
    let rest = delete victim.sender_id ch.active_talkers in
    let facts : (talker ≡ victim.sender_id)
        × (victim.priority < peer_interrupt_priority requester now) =
      ground (
        arith,
        here,
        active,
        gone,
        lookup-insert channel_id channel_id
            (record ch { active_talkers = insert sender_id now ch.active_talkers }) s.channels,
        lookup-insert channel_id channel_id
            (record ch { active_talkers = insert sender_id now rest }) s.channels,
        lookup-insert sender_id talker now ch.active_talkers,
        lookup-insert sender_id talker now rest,
        lookup-delete victim.sender_id talker ch.active_talkers,
      ) in
    let own : active_talker_priority ch.peers talker now ≡ victim.priority = ground (
      arith,
      facts,
      pick_victim-cases (λ t. active_talker_priority ch.peers t now) ch.active_talkers no_victim,
      pick_victim-lowest (λ t. active_talker_priority ch.peers t now) ch.active_talkers no_victim
          talker no_zero active,
    ) in
    (
      ground (arith, facts, own),
      λ other other_active. ground (
        arith,
        own,
        pick_victim-lowest (λ t. active_talker_priority ch.peers t now) ch.active_talkers no_victim
            other no_zero other_active,
      ),
    )

-- A requester that may request is registered and a member.
may_request-member :
    (peer : Option Peer) (requester : Peer) (now : ℕ)
    → may_request peer now ≡ some requester
    → (peer ≡ some requester) × (now < requester.membership_deadline)
may_request-member none requester now h = cc
may_request-member (some peer) requester now h = ground arith

-- Who loses the floor by a request loses it to a member of the channel whose membership has not run
-- out and whose interrupt priority is strictly higher, and no other talker has a lower priority than
-- the one who loses it. Sender ID 0 never talks.
pub handle_ptt_request_preempts :
    (s : Server) (channel_id sender_id : ℕ) (addr : UdpAddr) (now : ℕ) (ch : Channel) (talker : ℕ)
    → lookup channel_id s.channels ≡ some ch
    → lookup 0 ch.active_talkers ≡ none
    → is_active ch talker ≡ true
    → talks (handle_ptt_request s channel_id sender_id (some addr) now).0.0 channel_id talker
      ≡ false
    → (requester : Peer) × ((peer_at ch sender_id addr ≡ some requester)
        × ((now < requester.membership_deadline)
            × ((active_talker_priority ch.peers talker now < peer_interrupt_priority requester now)
                × ((other : ℕ)
                    → is_active ch other ≡ true
                    → active_talker_priority ch.peers talker now
                      ≤ active_talker_priority ch.peers other now))))
unfolding handle_ptt_request
handle_ptt_request_preempts s channel_id sender_id addr now ch talker here no_zero active gone =
    elim (Option-cases (may_request (peer_at ch sender_id addr) now)) [
      | inl refused ↦
          let kept : talks s channel_id talker ≡ true = ground (arith, here, active) in
          let impossible : true ≡ false = ground (arith, here, refused, kept, gone) in cc
      | inr (requester, may) ↦
          let (registered, member) =
            may_request-member (peer_at ch sender_id addr) requester now may in
          let (higher, lowest) =
            grant_request-loses s channel_id sender_id ch requester now talker here no_zero active
              (ground (arith, here, may, gone, active)) in
          (requester, (registered, (member, (higher, lowest))))
    ]
