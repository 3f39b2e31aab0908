-- ===== src/Admission/Sound.antt =====
-- What a granted ticket or service grant guarantees: `validateTicket` and `validateGrant`.
use Prim.Native.Nat.{◌≤◌}
use mathlib.Core.Path.{transport}
use incom_udon_server.Base.{ap, ℕ, ◌+◌, ◌*◌, ◌<◌, ◌≡◌, refl, arith, List, true, Option, none, some}
use incom_udon_server.Base.Assoc.{Map}
use incom_udon_server.Platform.{Platform, second}
use incom_udon_server.Admission.Types.{
  ℤ, pos, negsuc, Verdict, grant, deny, ◌>>=◌, has_permission, IdentityAdmission, ServiceAdmission,
  identity_permission_listen, identity_permission_talk, identity_permission_interrupt,
}
use incom_udon_server.Admission.Ticket.{
  TicketCodec, TicketClaims, Validity, decode_ticket, check_ticket_times, check_ticket_permissions,
  validate_ticket, check_ticket_claims, or_zero,
}
use incom_udon_server.Admission.Grant.{
  GrantCodec, GrantClaims, decode_grant, check_grant_times, check_grant_permissions, validate_grant,
  check_grant_claims,
}

-- What is granted, if anything is, satisfies P.
abbrev Grants {ℓ κ} : {A : Type ℓ} → (A → Type κ) → Verdict A → Type κ
Grants P (grant a) = P a
Grants P (deny r) = Unit

bind-Grants {ℓ κ μ} :
    {A : Type ℓ} {B : Type κ} (P : B → Type μ) (m : Verdict A) (f : A → Verdict B)
    → ((a : A) → m ≡ grant a → Grants P (f a))
    → Grants P (m >>= f)
bind-Grants P (grant a) f h = h a refl
bind-Grants P (deny r) f h = tt

map-Grants {ℓ κ μ} :
    {A : Type ℓ} (P : A → Type κ) (Q : A → Type μ) (m : Verdict A)
    → ((a : A) → P a → Q a)
    → Grants P m
    → Grants Q m
map-Grants P Q (grant a) f h = f a h
map-Grants P Q (deny r) f h = tt

of_grant {ℓ κ} :
    {A : Type ℓ} (P : A → Type κ) (m : Verdict A) (a : A) → Grants P m → m ≡ grant a → P a
of_grant P m a h e = transport (ap (Grants P) e) h

check_ticket_times-grant :
    (issued expires : ℤ) (now : ℕ) (v : Validity)
    → check_ticket_times issued expires now ≡ grant v
    → (now < v.expires * second) × (v.expires * second ≤ now + 330 * second)
unfolding check_ticket_times
check_ticket_times-grant (negsuc n) expires now v h = cc
check_ticket_times-grant (pos issued) (negsuc n) now v h = cc
check_ticket_times-grant (pos issued) (pos expires) now v h = ground arith

check_ticket_permissions-grant :
    (permissions : ℕ) (priority : Option ℕ)
    → check_ticket_permissions permissions priority ≡ grant tt
    → (has_permission permissions identity_permission_listen ≡ true)
      × (has_permission permissions identity_permission_interrupt ≡ true
          → (has_permission permissions identity_permission_talk ≡ true) × (0 < or_zero priority))
unfolding check_ticket_permissions
check_ticket_permissions-grant permissions none h = ground arith
check_ticket_permissions-grant permissions (some v) h = ground arith

-- A grant that ends at `end` was issued in seconds `issued` and ends in seconds `expires`, between a
-- minute and an hour later; it is current, and was issued at most 30 seconds after now.
abbrev IsLasting : ℕ → ℤ → ℤ → ℕ → Type 0
IsLasting now (negsuc n) expires end = ⊥
IsLasting now (pos issued) (negsuc n) end = ⊥
IsLasting now (pos issued) (pos expires) end =
    (end ≡ expires * second)
    × ((now < end)
        × ((issued * second ≤ now + 30 * second)
            × ((issued + 60 ≤ expires) × (expires ≤ issued + 3600))))

check_grant_times-grant :
    (issued expires : ℤ) (now : ℕ) (v : Validity)
    → check_grant_times issued expires now ≡ grant v
    → IsLasting now issued expires (v.expires * second)
unfolding check_grant_times
check_grant_times-grant (negsuc n) expires now v h = cc
check_grant_times-grant (pos issued) (negsuc n) now v h = cc
check_grant_times-grant (pos issued) (pos expires) now v h = ground arith

check_grant_permissions-grant :
    (permissions : ℕ) (priority : Option ℕ) (role : List ℕ) (grace : Option ℕ)
    → check_grant_permissions permissions priority role grace ≡ grant tt
    → (has_permission permissions identity_permission_listen ≡ true)
      × ((permissions ≡ 7 → 0 < or_zero priority)
          × ((or_zero grace ≤ 1800) × (0 < or_zero grace → permissions ≡ 1)))
unfolding check_grant_permissions
check_grant_permissions-grant permissions none role none h = ground arith
check_grant_permissions-grant permissions none role (some g) h = ground arith
check_grant_permissions-grant permissions (some v) role none h = ground arith
check_grant_permissions-grant permissions (some v) role (some g) h = ground arith

-- An admission that a checked ticket may give.
abbrev pub IsTicketed : Platform → List ℕ → ℕ → IdentityAdmission → Type 0
IsTicketed p ticket now a =
    (now < a.expires_at)
    × ((a.expires_at ≤ now + 330 * second)
        × ((has_permission a.permissions identity_permission_listen ≡ true)
            × ((has_permission a.permissions identity_permission_interrupt ≡ true
                  → (has_permission a.permissions identity_permission_talk ≡ true)
                    × (0 < a.priority))
                × (a.ticket_hash ≡ p.sha256 ticket))))

-- An admission that a checked service grant may give.
abbrev pub IsServed : Platform → List ℕ → ℕ → GrantClaims → ServiceAdmission → Type 0
IsServed p token now claims a =
    IsLasting now claims.issued_at claims.expires_at a.grant_expires
    × ((has_permission a.permissions identity_permission_listen ≡ true)
        × ((a.permissions ≡ 7 → 0 < a.priority)
            × ((a.grace ≤ 1800 * second)
                × ((0 < a.grace → a.permissions ≡ 1) × (a.grant_hash ≡ p.sha256 token)))))

module _ (p : Platform) (issuer audience token public_key : List ℕ)
    (channel_id sender_id now : ℕ) where
  check_ticket_claims-IsTicketed :
      (codec : TicketCodec) (claims : TicketClaims)
      → Grants (IsTicketed p token now) (
          check_ticket_claims p codec issuer audience token public_key channel_id sender_id now
            claims)
  unfolding check_ticket_claims
  check_ticket_claims-IsTicketed codec claims =
      let P = IsTicketed p token now in
      bind-Grants P (check_ticket_times claims.issued_at claims.expires_at now) _ (λ times t.
        let (current, near) =
          check_ticket_times-grant claims.issued_at claims.expires_at now times t in
        ground
          (arith, current, near, check_ticket_permissions-grant claims.permissions claims.priority))

  check_grant_claims-IsServed :
      (codec : GrantCodec) (claims : GrantClaims)
      → Grants (IsServed p token now claims) (
          check_grant_claims p codec issuer audience token public_key channel_id sender_id now
            claims)
  unfolding check_grant_claims
  check_grant_claims-IsServed codec claims =
      let P = IsServed p token now claims in
      bind-Grants P (check_grant_times claims.issued_at claims.expires_at now) _ (λ times t.
        ground (
          arith,
          check_grant_times-grant claims.issued_at claims.expires_at now times t,
          check_grant_permissions-grant claims.permissions claims.priority claims.role
              claims.grace_seconds,
        ))

-- A validated ticket gives an admission that is current and ends within 330 seconds, that may listen,
-- and that may interrupt only if it may talk and has a priority above zero; it is bound to the
-- ticket's hash.
pub validate_ticket_sound :
    (p : Platform) (codec : TicketCodec) (issuer audience : List ℕ) (keys : Map (List ℕ) (List ℕ))
    (ticket public_key : List ℕ) (channel_id sender_id now : ℕ) (a : IdentityAdmission)
    → validate_ticket p codec issuer audience keys ticket public_key channel_id sender_id now
      ≡ grant a
    → IsTicketed p ticket now a
unfolding validate_ticket
validate_ticket_sound p codec issuer audience keys ticket public_key channel_id sender_id now a =
    of_grant (IsTicketed p ticket now) _ a (
      bind-Grants (IsTicketed p ticket now) (decode_ticket p codec keys ticket public_key) _
        (λ claims e.
          check_ticket_claims-IsTicketed p issuer audience ticket public_key channel_id sender_id
            now codec claims))

-- A validated service grant gives an admission after claims that the grant decodes to. It ends when the
-- claims say, between a minute and an hour after the time at which they say that it was issued, is
-- current, and was issued at most 30 seconds after now. It may listen, has a priority above zero if it
-- may interrupt, outlives its grant only to listen and by 1800 seconds at most, and is bound to the
-- grant's hash.
pub validate_grant_sound :
    (p : Platform) (codec : GrantCodec) (issuer audience : List ℕ) (keys : Map (List ℕ) (List ℕ))
    (token public_key : List ℕ) (channel_id sender_id now : ℕ) (a : ServiceAdmission)
    → validate_grant p codec issuer audience keys token public_key channel_id sender_id now
      ≡ grant a
    → (claims : GrantClaims) × (decode_grant p codec keys token public_key ≡ grant claims)
      × IsServed p token now claims a
unfolding validate_grant
validate_grant_sound p codec issuer audience keys token public_key channel_id sender_id now a =
    let decoded = decode_grant p codec keys token public_key in
    let P = λ (a : ServiceAdmission).
      (claims : GrantClaims) × (decoded ≡ grant claims) × IsServed p token now claims a in
    of_grant P _ a (
      bind-Grants P decoded _ (λ claims e.
        map-Grants (IsServed p token now claims) P
          (check_grant_claims p codec issuer audience token public_key channel_id sender_id now
            claims)
          (λ a h. (claims, e, h))
          (check_grant_claims-IsServed p issuer audience token public_key channel_id sender_id now
            codec claims)))
