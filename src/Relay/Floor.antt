-- ===== src/Relay/Floor.antt =====
-- The talk floor of main.go: priorities, `handlePttOn`, `handlePttOff`, `handlePttRequest`,
-- `releaseTalkIfNeeded` and `expireTalkIfNeeded`.
use Prim.Native.String.{String}
use incom_udon_server.Base.{
  ℕ, List, [], ◌∷◌, Bool, false, not, ◌&&◌, Option, none, some, ltb, leb, ◌==◌, if◌then◌else◌,
  length, is_some, nat_eq, string_eq,
}
use incom_udon_server.Base.Assoc.{Map, lookup, insert, delete}
use incom_udon_server.Platform.{UdpAddr}
use incom_udon_server.Wire.Types.{
  pkt_talk_grant, pkt_talk_release, pkt_talk_deny, talk_release_client_ptt_off,
}
use incom_udon_server.Wire.Build.{talk_payload, talk_release_payload}
use incom_udon_server.Admission.Types.{
  IdentityAdmission, ServiceAdmission, has_permission, identity_permission_talk,
  identity_permission_interrupt, membership_current, admission_allows_talk,
  admission_allows_interrupt,
}
use incom_udon_server.Admission.Identity.{is_required}
use incom_udon_server.Relay.{
  Peer, Channel, Server, Effect, send_to, broadcast, talk_started, talk_ended, set_channel, peer_at,
}

unfoldable pub insert_sorted : ℕ → List ℕ → List ℕ
insert_sorted x [] = x ∷ []
insert_sorted x (y ∷ ys) = if leb x y then x ∷ (y ∷ ys) else y ∷ insert_sorted x ys

unfoldable pub sorted_active_talkers : Map ℕ ℕ → List ℕ
sorted_active_talkers [] = []
sorted_active_talkers ((sender_id, started_at) ∷ talkers) =
    insert_sorted sender_id (sorted_active_talkers talkers)

abbrev first_or_zero : List ℕ → ℕ
first_or_zero [] = 0
first_or_zero (x ∷ xs) = x

unfoldable pub first_active_talker : Map ℕ ℕ → ℕ
unfolding sorted_active_talkers
first_active_talker talkers = first_or_zero (sorted_active_talkers talkers)

-- `isTalker` and the tests of `activeTalkers`.
abbrev pub is_active : Channel → ℕ → Bool
is_active ch sender_id = is_some (lookup sender_id ch.active_talkers)

abbrev channel_is_talker : ℕ → Option Channel → Bool
channel_is_talker sender_id none = false
channel_is_talker sender_id (some ch) = is_active ch sender_id

unfoldable pub is_talker : Server → ℕ → ℕ → Bool
is_talker s channel_id sender_id = channel_is_talker sender_id (lookup channel_id s.channels)

abbrev identity_priority : Option IdentityAdmission → ℕ → Option ℕ
identity_priority none now = none
identity_priority (some a) now = if ltb now a.expires_at then some a.priority else none

abbrev service_priority : Option ServiceAdmission → ℕ → Option ℕ
service_priority none now = none
service_priority (some a) now = if membership_current a now then some a.priority else none

abbrev first_of : Option ℕ → Option ℕ → Option ℕ
first_of none p = p
first_of (some x) p = some x

abbrev or_zero : Option ℕ → ℕ
or_zero none = 0
or_zero (some x) = x

-- The priority of a peer's current admission, the identity's first.
abbrev pub current_priority : Peer → ℕ → Option ℕ
current_priority peer now =
    first_of (identity_priority peer.identity_admission now)
      (service_priority peer.service_admission now)

-- The first peer of the talker that has a current admission.
unfoldable pub active_talker_priority : Map String Peer → ℕ → ℕ → ℕ
active_talker_priority [] sender_id now = 0
active_talker_priority ((key, peer) ∷ peers) sender_id now =
    let rest = active_talker_priority peers sender_id now in
    if peer.sender_id == sender_id
    then elim (current_priority peer now) [ none ↦ rest | some priority ↦ priority ]
    else rest

unfoldable pub peer_admission_priority : Option Peer → ℕ → ℕ
peer_admission_priority none now = 0
peer_admission_priority (some peer) now = or_zero (current_priority peer now)

abbrev service_allows_talk : ServiceAdmission → ℕ → Bool
service_allows_talk a now =
    membership_current a now && has_permission a.permissions identity_permission_talk

abbrev service_allows_interrupt : Option ServiceAdmission → ℕ → Bool
service_allows_interrupt none now = false
service_allows_interrupt (some a) now =
    service_allows_talk a now
    && has_permission a.permissions identity_permission_interrupt
    && not (a.priority == 0)

unfoldable pub peer_allows_interrupt : Peer → ℕ → Bool
peer_allows_interrupt peer now = elim peer.identity_admission [
  | some a ↦ admission_allows_interrupt (some a) now
  | none ↦ service_allows_interrupt peer.service_admission now
]

abbrev service_priority_of : Option ServiceAdmission → ℕ
service_priority_of none = 0
service_priority_of (some a) = a.priority

unfoldable pub peer_interrupt_priority : Peer → ℕ → ℕ
peer_interrupt_priority peer now =
    if not (peer_allows_interrupt peer now) then 0 else elim peer.identity_admission [
      | some a ↦ a.priority
      | none ↦ service_priority_of peer.service_admission
    ]

abbrev service_admits_talk : Option ServiceAdmission → ℕ → Bool → Bool
service_admits_talk none now required = not required
service_admits_talk (some a) now required = service_allows_talk a now

abbrev peer_admits_talk : Option Peer → ℕ → Bool → Bool
peer_admits_talk none now required = false
peer_admits_talk (some peer) now required = elim peer.identity_admission [
  | some a ↦ admission_allows_talk (some a) now required
  | none ↦ service_admits_talk peer.service_admission now required
]

unfoldable pub peer_allows_talk : Server → ℕ → ℕ → Option UdpAddr → ℕ → Bool
peer_allows_talk s channel_id sender_id none now = false
peer_allows_talk s channel_id sender_id (some addr) now = elim (lookup channel_id s.channels) [
  | none ↦ false
  | some ch ↦ peer_admits_talk (peer_at ch sender_id addr) now (is_required s.identity_admission)
]

-- How many may talk at once: one without multi-talk, and one at least.
abbrev pub talker_limit : Server → ℕ
talker_limit s =
    if s.multi_talk then (if ltb s.max_active_talkers 1 then 1 else s.max_active_talkers) else 1

unfoldable pub handle_ptt_on : Server → ℕ → ℕ → ℕ → Server × List Effect
handle_ptt_on s channel_id sender_id now = elim (lookup channel_id s.channels) [
  | none ↦ (s, [])
  | some ch ↦
      let current = first_active_talker ch.active_talkers in
      if is_active ch sender_id
      then (s, send_to channel_id sender_id pkt_talk_grant sender_id (talk_payload sender_id) ∷ [])
      else if ltb (length ch.active_talkers) (talker_limit s)
      then (
        set_channel s channel_id
            (record ch { active_talkers = insert sender_id now ch.active_talkers }),
        broadcast channel_id pkt_talk_grant sender_id (talk_payload sender_id)
            ∷ (talk_started channel_id sender_id ∷ []),
      )
      else (s, send_to channel_id sender_id pkt_talk_deny current (talk_payload current) ∷ [])
]

-- `releaseTalkIfNeeded`; `handlePttOff` is the same with the reason of a client's PTT_OFF.
unfoldable pub release_talk_if_needed : Server → ℕ → ℕ → ℕ → Server × List Effect
release_talk_if_needed s channel_id sender_id reason = elim (lookup channel_id s.channels) [
  | none ↦ (s, [])
  | some ch ↦ if not (is_active ch sender_id) then (s, []) else (
    set_channel s channel_id (record ch { active_talkers = delete sender_id ch.active_talkers }),
    broadcast channel_id pkt_talk_release sender_id (talk_release_payload sender_id reason)
        ∷ (talk_ended channel_id sender_id reason ∷ []),
  )
]

unfoldable pub handle_ptt_off : Server → ℕ → ℕ → Server × List Effect
handle_ptt_off s channel_id sender_id =
    release_talk_if_needed s channel_id sender_id talk_release_client_ptt_off
