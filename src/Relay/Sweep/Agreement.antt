-- ===== src/Relay/Sweep/Agreement.antt =====
-- The timer and the packets agree on what expires.
use Prim.Native.String.{String}
use incom_udon_server.Base.{
  ℕ, ◌≡◌, refl, arith, [], ◌∷◌, ◌++◌, Option, none, some, ◌==◌, if◌then◌else◌, length, nat_eq,
  string_eq, Option-cases, inl, inr,
}
use incom_udon_server.Base.Assoc.{Map, lookup, lookup-insert, lookup-delete, Distinct}
use incom_udon_server.Platform.{Platform}
use incom_udon_server.Relay.{Peer, Channel, Server}
use incom_udon_server.Relay.Membership.{
  membership_expired, expire_peers, expire_membership_if_needed,
}
use incom_udon_server.Relay.Request.{expire_talkers, expire_talk_if_needed}
use incom_udon_server.Relay.Output.Sends.{deliver_all-Sent}
use incom_udon_server.Relay.Sweep.{
  Swept, depart, sweep_peers, timed_out, sweep_talkers, sweep_channel, sweep_channels, sweep,
  release_effects, departure_effects, sort_events,
}

sweep_peers-channel :
    (now : ℕ) (peers : Map String Peer) (w : Swept)
    → (sweep_peers now peers w).channel ≡ (expire_peers now peers w.channel).0
unfolding sweep_peers expire_peers
sweep_peers-channel now [] w = refl
sweep_peers-channel now ((key, p) ∷ peers) w = elim (Option-cases (membership_expired p now)) [
  | inl stays ↦ ground (arith, stays, sweep_peers-channel now peers w)
  | inr (reason, expired) ↦
      ground (arith, expired, sweep_peers-channel now peers (depart w key p reason))
]

sweep_talkers-stay :
    (talk_max now : ℕ) (talkers reasons : Map ℕ ℕ)
    → (sweep_talkers talk_max now talkers reasons).0 ≡ (expire_talkers talk_max now talkers).0
unfolding sweep_talkers expire_talkers
sweep_talkers-stay talk_max now [] reasons = refl
sweep_talkers-stay talk_max now ((sender_id, started_at) ∷ talkers) reasons = ground (
  arith,
  sweep_talkers-stay talk_max now talkers reasons,
  sweep_talkers-stay talk_max now talkers (timed_out sender_id reasons),
)

-- A channel after its members and then its talkers were checked; none without members.
abbrev expired_channel : ℕ → ℕ → Option Channel → Option Channel
expired_channel talk_max now none = none
expired_channel talk_max now (some ch) =
    let rest = (expire_peers now ch.peers ch).0 in
    if length rest.peers == 0
    then none
    else if talk_max == 0
    then some rest
    else some (record rest { active_talkers = (expire_talkers talk_max now rest.active_talkers).0 })

sweep_channel-channel :
    (talk_max now : ℕ) (ch : Channel)
    → expired_channel talk_max now (some ch) ≡ (
        if length (sweep_channel talk_max now ch).channel.peers == 0
        then none
        else some (sweep_channel talk_max now ch).channel)
unfolding sweep_channel
sweep_channel-channel talk_max now ch =
    let start : Swept = record { channel = ch; release_reasons = []; departures = [] } in
    let w = sweep_peers now ch.peers start in
    ground (
      arith,
      sweep_peers-channel now ch.peers start,
      sweep_talkers-stay talk_max now w.channel.active_talkers w.release_reasons,
    )

sweep_channels-lookup :
    (talk_max now : ℕ) (channel_id : ℕ) (channels : Map ℕ Channel)
    → Distinct channels
    → lookup channel_id (sweep_channels talk_max now channels).0
      ≡ expired_channel talk_max now (lookup channel_id channels)
unfolding sweep_channels lookup
sweep_channels-lookup talk_max now channel_id [] distinct = refl
sweep_channels-lookup talk_max now channel_id ((id, ch) ∷ channels) distinct = ground (
  arith,
  distinct,
  nat_eq.beq_iff id channel_id,
  sweep_channel-channel talk_max now ch,
  sweep_channels-lookup talk_max now channel_id channels distinct.1,
)

-- The talkers of a channel that stays.
abbrev timed_channel : ℕ → ℕ → Option Channel → Option Channel
timed_channel talk_max now none = none
timed_channel talk_max now (some ch) =
    if talk_max == 0
    then some ch
    else some (record ch { active_talkers = (expire_talkers talk_max now ch.active_talkers).0 })

expire_talk_if_needed-lookup :
    (s : Server) (channel_id now : ℕ)
    → lookup channel_id (expire_talk_if_needed s channel_id now).0.channels
      ≡ timed_channel s.talk_max now (lookup channel_id s.channels)
unfolding expire_talk_if_needed
expire_talk_if_needed-lookup s channel_id now = elim (Option-cases (lookup channel_id s.channels)) [
  | inl missing ↦ ground (arith, missing)
  | inr (ch, here) ↦ ground (
    arith,
    here,
    lookup-insert channel_id channel_id
        (record ch { active_talkers = (expire_talkers s.talk_max now ch.active_talkers).0 })
        s.channels,
  )
]

-- The channel after its members were checked.
abbrev without_expired : ℕ → Option Channel → Option Channel
without_expired now none = none
without_expired now (some ch) =
    let rest = (expire_peers now ch.peers ch).0 in
    if length rest.peers == 0 then none else some rest

expire_membership_if_needed-lookup :
    (s : Server) (channel_id now : ℕ)
    → (lookup channel_id (expire_membership_if_needed s channel_id now).0.channels
        ≡ without_expired now (lookup channel_id s.channels))
      × ((expire_membership_if_needed s channel_id now).0.talk_max ≡ s.talk_max)
unfolding expire_membership_if_needed
expire_membership_if_needed-lookup s channel_id now =
    elim (Option-cases (lookup channel_id s.channels)) [
      | inl missing ↦ (ground (arith, missing), ground (arith, missing))
      | inr (ch, here) ↦
          let rest = (expire_peers now ch.peers ch).0 in
          (
            ground (
              arith,
              here,
              lookup-insert channel_id channel_id rest s.channels,
              lookup-delete channel_id channel_id s.channels,
            ),
            ground (arith, here),
          )
    ]

expired_channel-timed :
    (talk_max now : ℕ) (ch : Option Channel)
    → timed_channel talk_max now (without_expired now ch) ≡ expired_channel talk_max now ch
expired_channel-timed talk_max now none = refl
expired_channel-timed talk_max now (some ch) = ground arith

-- A tick of the timer does to every channel what the checks before a packet do: where no channel
-- stands twice, under every ID it leaves the channel that the sweep of the members and then the check
-- of the talk times would leave there at the same time, or none where they would leave none.
pub sweep-agrees :
    (p : Platform) (s : Server) (now channel_id : ℕ)
    → Distinct s.channels
    → lookup channel_id (sweep p s now).0.channels
      ≡ lookup channel_id
          (expire_talk_if_needed
            (expire_membership_if_needed s channel_id now).0
            channel_id
            now).0.channels
unfolding sweep
sweep-agrees p s now channel_id distinct =
    let swept = sweep_channels s.talk_max now s.channels in
    let s' : Server = record s { channels = swept.0 } in
    let effects =
      release_effects (sort_events swept.1.0) ++ departure_effects (sort_events swept.1.1) in
    let sent = deliver_all-Sent p effects s' in
    let (members, talk_max) = expire_membership_if_needed-lookup s channel_id now in
    let checked = (expire_membership_if_needed s channel_id now).0 in
    ground (
      arith,
      sent.channels,
      sweep_channels-lookup s.talk_max now channel_id s.channels distinct,
      expire_talk_if_needed-lookup checked channel_id now,
      members,
      talk_max,
      expired_channel-timed s.talk_max now (lookup channel_id s.channels),
    )
