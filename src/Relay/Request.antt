-- ===== src/Relay/Request.antt =====
-- The floor interrupt and the talk timeout of main.go: `denyPttRequest`, `handlePttRequest` and
-- `expireTalkIfNeeded`.
use incom_udon_server.Base.{
  ℕ, ◌-◌, List, [], ◌∷◌, Bool, true, false, not, ◌&&◌, ◌||◌, Option, none, some, ltb, leb, ◌==◌,
  if◌then◌else◌, length, nat_eq, string_eq,
}
use incom_udon_server.Base.Assoc.{Map, lookup, insert, delete}
use incom_udon_server.Platform.{UdpAddr, peer_map_key}
use incom_udon_server.Wire.Types.{
  pkt_talk_grant, pkt_talk_release, pkt_talk_deny, talk_release_preempted,
}
use incom_udon_server.Wire.Build.{talk_payload, talk_release_payload}
use incom_udon_server.Admission.Identity.{is_required}
use incom_udon_server.Relay.{
  Peer, Channel, Server, Effect, send_to, broadcast, talk_started, talk_ended, observe, audit,
  set_channel, control_auth_required, peer_at,
}
use incom_udon_server.Relay.Floor.{
  first_active_talker, is_active, active_talker_priority, peer_admission_priority,
  peer_allows_interrupt, peer_interrupt_priority, talker_limit, insert_sorted,
}

abbrev talkers_of : Option Channel → Map ℕ ℕ
talkers_of none = []
talkers_of (some ch) = ch.active_talkers

unfoldable pub deny_ptt_request : Server → ℕ → ℕ → Effect
deny_ptt_request s channel_id sender_id =
    let current = first_active_talker (talkers_of (lookup channel_id s.channels)) in
    send_to channel_id sender_id pkt_talk_deny current (talk_payload current)

abbrev counted : ℕ → ℕ → ℕ → ℕ → Effect
counted grants denials preemptions rejections = observe (record {
  ptt_requests = 1;
  grants = grants;
  denials = denials;
  preemptions = preemptions;
  unauthorized_rejections = rejections;
})

pub record Victim : Type 0 where
  pub sender_id : ℕ
  pub priority : ℕ

-- One step of the loop over the active talkers; `sender_id` 0 stands for no victim yet.
unfoldable pub lower_of : (ℕ → ℕ) → ℕ → Victim → Victim
lower_of priority_of sender_id victim =
    let priority = priority_of sender_id in
    if (victim.sender_id == 0)
      || ltb priority victim.priority
      || ((priority == victim.priority) && ltb sender_id victim.sender_id)
    then record { sender_id = sender_id; priority = priority }
    else victim

unfoldable pub pick_victim : (ℕ → ℕ) → Map ℕ ℕ → Victim → Victim
pick_victim priority_of [] victim = victim
pick_victim priority_of ((sender_id, started_at) ∷ talkers) victim =
    pick_victim priority_of talkers (lower_of priority_of sender_id victim)

abbrev pub no_victim : Victim
no_victim = record { sender_id = 0; priority = 0xff }

abbrev pub victim_of : Channel → ℕ → Victim
victim_of ch now =
    pick_victim (λ sender_id. active_talker_priority ch.peers sender_id now) ch.active_talkers
      no_victim

-- The part for a requester that may interrupt.
unfoldable pub grant_request : Server → ℕ → ℕ → Channel → Peer → ℕ → (Server × List Effect) × Bool
grant_request s channel_id sender_id ch requester now =
    let priority = peer_interrupt_priority requester now in
    let victim = victim_of ch now in
    let current = first_active_talker ch.active_talkers in
    let granted = broadcast channel_id pkt_talk_grant sender_id (talk_payload sender_id) in
    let success = audit (some requester) channel_id priority true none in
    if is_active ch sender_id
    then (
      (
        s,
        counted 1 0 0 0
            ∷ (send_to channel_id sender_id pkt_talk_grant sender_id (talk_payload sender_id)
                ∷ (success ∷ [])),
      ),
      true,
    )
    else if ltb (length ch.active_talkers) (talker_limit s)
    then (
      (
        set_channel s channel_id
            (record ch { active_talkers = insert sender_id now ch.active_talkers }),
        counted 1 0 0 0 ∷ (granted ∷ (talk_started channel_id sender_id ∷ (success ∷ []))),
      ),
      true,
    )
    else if (victim.sender_id == 0) || leb priority victim.priority
    then (
      (
        s,
        counted 0 1 0 0
            ∷ (send_to channel_id sender_id pkt_talk_deny current (talk_payload current)
                ∷ (audit (some requester) channel_id priority false none ∷ [])),
      ),
      true,
    )
    else (
      (
        set_channel s channel_id (record ch {
          active_talkers = insert sender_id now (delete victim.sender_id ch.active_talkers);
        }),
        counted 1 0 1 0
            ∷ (broadcast channel_id pkt_talk_release victim.sender_id
                  (talk_release_payload victim.sender_id talk_release_preempted)
                ∷ (granted
                    ∷ (talk_ended channel_id victim.sender_id talk_release_preempted
                        ∷ (talk_started channel_id sender_id
                            ∷ (audit (some requester) channel_id priority true
                                  (some (victim.sender_id, victim.priority))
                                ∷ []))))),
      ),
      true,
    )

-- A requester that is a member now and may interrupt.
abbrev pub may_request : Option Peer → ℕ → Option Peer
may_request none now = none
may_request (some peer) now =
    if (peer.membership_deadline == 0)
      || not (ltb now peer.membership_deadline)
      || not (peer_allows_interrupt peer now)
    then none
    else some peer

abbrev is_managed : Server → ℕ → Bool
is_managed s channel_id =
    s.floor_interrupt && is_required s.identity_admission && control_auth_required s channel_id

abbrev rejected : Server → ℕ → ℕ → (Server × List Effect) × Bool
rejected s channel_id sender_id =
    ((s, counted 0 0 0 1 ∷ (deny_ptt_request s channel_id sender_id ∷ [])), false)

-- `deny_ptt_request` reads the state that the code has just unlocked.
unfoldable pub handle_ptt_request :
    Server → ℕ → ℕ → Option UdpAddr → ℕ → (Server × List Effect) × Bool
handle_ptt_request s channel_id sender_id none now =
    if not (is_managed s channel_id)
    then ((s, deny_ptt_request s channel_id sender_id ∷ []), false)
    else rejected s channel_id sender_id
handle_ptt_request s channel_id sender_id (some addr) now =
    if not (is_managed s channel_id)
    then ((s, deny_ptt_request s channel_id sender_id ∷ []), false)
    else elim (lookup channel_id s.channels) [
      | none ↦ rejected s channel_id sender_id
      | some ch ↦
          let registered = lookup (peer_map_key (some addr)) ch.peers in
          elim (may_request (peer_at ch sender_id addr) now) [
            | some requester ↦ grant_request s channel_id sender_id ch requester now
            | none ↦ (
              (
                s,
                counted 0 0 0 1
                    ∷ (deny_ptt_request s channel_id sender_id
                        ∷ (audit registered channel_id (peer_admission_priority registered now)
                              false none
                            ∷ [])),
              ),
              false,
            )
          ]
    ]

-- The loop of `expireTalkIfNeeded`: what stays, and who is released, in order.
unfoldable pub expire_talkers : ℕ → ℕ → Map ℕ ℕ → Map ℕ ℕ × List ℕ
expire_talkers talk_max now [] = ([], [])
expire_talkers talk_max now ((sender_id, started_at) ∷ talkers) =
    let (stay, released) = expire_talkers talk_max now talkers in
    if started_at == 0
    then ((sender_id, now) ∷ stay, released)
    else if ltb (now - started_at) talk_max
    then ((sender_id, started_at) ∷ stay, released)
    else (stay, insert_sorted sender_id released)

unfoldable pub expire_talk_if_needed : Server → ℕ → ℕ → Server × List ℕ
expire_talk_if_needed s channel_id now =
    if s.talk_max == 0 then (s, []) else elim (lookup channel_id s.channels) [
      | none ↦ (s, [])
      | some ch ↦
          let (stay, released) = expire_talkers s.talk_max now ch.active_talkers in
          (set_channel s channel_id (record ch { active_talkers = stay }), released)
    ]
