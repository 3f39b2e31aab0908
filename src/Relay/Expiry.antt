-- ===== src/Relay/Expiry.antt =====
-- What the membership sweep leaves.
use Prim.Native.String.{String}
use mathlib.Core.Path.{transport}
use incom_udon_server.Base.{
  ℕ, ◌+◌, ◌<◌, ◌≤◌, ◌≡◌, ◌≢◌, ◌⊎◌, refl, arith, [], ◌∷◌, true, false, leb, Option, none, some,
  length, nat_eq, string_eq, inl, inr, Option-cases, Bool-cases, ap, sym,
}
use incom_udon_server.Admission.Types.{IdentityAdmission, ServiceAdmission, expiry_deadline}
use incom_udon_server.Base.Assoc.{Map, lookup, lookup-insert, lookup-delete, Distinct}
use incom_udon_server.Relay.{Peer, Channel, Server}
use incom_udon_server.Relay.Membership.{
  expire_peers, expire_membership_if_needed, put_or_delete, membership_expired, drop_peer,
  normal_expired, is_over, identity_end, service_end,
}

-- The peer that is registered under an address in a channel.
abbrev pub member_at : Server → ℕ → String → Option Peer
member_at s channel_id key = elim (lookup channel_id s.channels) [
  | none ↦ none
  | some ch ↦ lookup key ch.peers
]

-- What stays of an entry, given the peer that the sweep meets under its key.
abbrev survivor : ℕ → Option Peer → Option Peer → Option Peer
survivor now none entry = entry
survivor now (some peer) entry = elim (membership_expired peer now) [
  | none ↦ entry
  | some reason ↦ none
]

expire_peers-lookup :
    (now : ℕ) (key : String) (peers : Map String Peer) (ch : Channel)
    → Distinct peers
    → lookup key (expire_peers now peers ch).0.peers
      ≡ survivor now (lookup key peers) (lookup key ch.peers)
unfolding expire_peers lookup
expire_peers-lookup now key [] ch distinct = refl
expire_peers-lookup now key ((k, peer) ∷ peers) ch distinct =
    elim (Option-cases (membership_expired peer now)) [
      | inl stays ↦ ground (
        arith,
        stays,
        distinct,
        string_eq.beq_iff k key,
        expire_peers-lookup now key peers ch distinct.1,
      )
      | inr (reason, expired) ↦ ground (
        arith,
        expired,
        distinct,
        string_eq.beq_iff k key,
        lookup-delete k key ch.peers,
        expire_peers-lookup now key peers (drop_peer ch k peer) distinct.1,
      )
    ]

lookup-empty : (key : String) (peers : Map String Peer) → length peers ≡ 0 → lookup key peers ≡ none
unfolding lookup
lookup-empty key [] h = refl
lookup-empty key ((k, peer) ∷ peers) h = ground arith

pub put_or_delete-member_at :
    (s : Server) (channel_id : ℕ) (ch : Channel) (key : String)
    → member_at (put_or_delete s channel_id ch) channel_id key ≡ lookup key ch.peers
put_or_delete-member_at s channel_id ch key = ground (
  arith,
  lookup-empty key ch.peers,
  lookup-delete channel_id channel_id s.channels,
  lookup-insert channel_id channel_id ch s.channels,
)

-- A membership is over by its deadline, where it has one; by the end of the identity admission; or by
-- the end of the service admission's grant, to which a listener adds the grace.
abbrev DeadlineEnded : ℕ → ℕ → Type 0
DeadlineEnded now deadline = (0 < deadline) × (deadline ≤ now)

abbrev IdentityEnded : ℕ → Option IdentityAdmission → Type 0
IdentityEnded now none = ⊥
IdentityEnded now (some a) = a.expires_at ≤ now

abbrev ServiceEnded : ℕ → Option ServiceAdmission → Type 0
ServiceEnded now none = ⊥
ServiceEnded now (some a) =
    ((a.permissions ≡ 1) × (a.grant_expires + a.grace ≤ now))
    ⊎ ((a.permissions ≢ 1) × (a.grant_expires ≤ now))

abbrev pub HasEnded : ℕ → Peer → Type 0
HasEnded now peer =
    DeadlineEnded now peer.membership_deadline
    ⊎ (IdentityEnded now peer.identity_admission ⊎ ServiceEnded now peer.service_admission)

-- A membership goes on where none of the three ends has come.
abbrev DeadlineAhead : ℕ → ℕ → Type 0
DeadlineAhead now deadline = (deadline ≡ 0) ⊎ (now < deadline)

abbrev IdentityAhead : ℕ → Option IdentityAdmission → Type 0
IdentityAhead now none = Unit {0}
IdentityAhead now (some a) = now < a.expires_at

abbrev ServiceAhead : ℕ → Option ServiceAdmission → Type 0
ServiceAhead now none = Unit {0}
ServiceAhead now (some a) =
    (now < a.grant_expires) ⊎ ((a.permissions ≡ 1) × (now < a.grant_expires + a.grace))

abbrev pub GoesOn : ℕ → Peer → Type 0
GoesOn now peer =
    DeadlineAhead now peer.membership_deadline
    × (IdentityAhead now peer.identity_admission × ServiceAhead now peer.service_admission)

-- What the sweep makes of an entry.
abbrev pub Swept : ℕ → Option Peer → Option Peer → Type 0
Swept now none after = after ≡ none
Swept now (some peer) after =
    (HasEnded now peer × (after ≡ none)) ⊎ (GoesOn now peer × (after ≡ some peer))

deadline-cases :
    (now : ℕ) (peer : Peer)
    → ((normal_expired peer now ≡ true) × DeadlineEnded now peer.membership_deadline)
      ⊎ ((normal_expired peer now ≡ false) × DeadlineAhead now peer.membership_deadline)
deadline-cases now peer = elim (Bool-cases (normal_expired peer now)) [
  | inl over ↦ inl (over, ground (arith, over))
  | inr ahead ↦ inr (ahead, ground (arith, ahead))
]

identity-cases :
    (now : ℕ) (x : Option IdentityAdmission)
    → ((is_over (identity_end x) now ≡ true) × IdentityEnded now x)
      ⊎ ((is_over (identity_end x) now ≡ false) × IdentityAhead now x)
identity-cases now none = inr (refl, tt)
identity-cases now (some a) = elim (Bool-cases (leb a.expires_at now)) [
  | inl over ↦ inl (over, ground (arith, over))
  | inr ahead ↦ inr (ahead, ground (arith, ahead))
]

service-cases :
    (now : ℕ) (x : Option ServiceAdmission)
    → ((is_over (service_end x) now ≡ true) × ServiceEnded now x)
      ⊎ ((is_over (service_end x) now ≡ false) × ServiceAhead now x)
unfolding expiry_deadline
service-cases now none = inr (refl, tt)
service-cases now (some a) = elim (Bool-cases (is_over (service_end (some a)) now)) [
  | inl over ↦ inl (over, ground (arith, over))
  | inr ahead ↦ inr (ahead, ground (arith, ahead))
]

-- The reasons that the code finds agree with the three ends.
survivor-Swept : (now : ℕ) (entry : Option Peer) → Swept now entry (survivor now entry entry)
unfolding membership_expired
survivor-Swept now none = refl
survivor-Swept now (some peer) = elim (deadline-cases now peer) [
  | inl (over, ended) ↦ inl (inl ended, ground (arith, over))
  | inr (normal, deadline) ↦ elim (identity-cases now peer.identity_admission) [
    | inl (over, ended) ↦ inl (inr (inl ended), ground (arith, over))
    | inr (identity, admitted) ↦ elim (service-cases now peer.service_admission) [
      | inl (over, ended) ↦ inl (inr (inr ended), ground (arith, over))
      | inr (service, served) ↦
          inr ((deadline, (admitted, served)), ground (arith, normal, identity, service))
    ]
  ]
]

-- In a channel where no address stands twice, the sweep removes exactly the members whose membership is
-- over. Under every address the member is gone if its deadline, its identity admission's end, its
-- service grant's end or, for a service that may only listen, the end of the grace after the grant has
-- come; otherwise it stays as it was. An address without a member gets none. All of this holds whether
-- or not the channel itself is deleted.
pub expire_membership_if_needed_exact :
    (s : Server) (channel_id now : ℕ) (ch : Channel) (key : String)
    → lookup channel_id s.channels ≡ some ch
    → Distinct ch.peers
    → Swept now
        (lookup key ch.peers)
        (member_at (expire_membership_if_needed s channel_id now).0 channel_id key)
unfolding expire_membership_if_needed
expire_membership_if_needed_exact s channel_id now ch key here distinct =
    let rest = (expire_peers now ch.peers ch).0 in
    let after : member_at (expire_membership_if_needed s channel_id now).0 channel_id key
        ≡ survivor now (lookup key ch.peers) (lookup key ch.peers) =
      ground (
        arith,
        here,
        put_or_delete-member_at s channel_id rest key,
        expire_peers-lookup now key ch.peers ch distinct,
      ) in
    transport (ap (Swept now (lookup key ch.peers)) (sym after))
      (survivor-Swept now (lookup key ch.peers))
