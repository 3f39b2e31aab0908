-- ===== src/Relay/Admitted.antt =====
-- What a resolved JOIN guarantees.
use incom_udon_server.Base.{ℕ, ◌<◌, ◌≡◌, arith, Bool, true, Option, none, some, is_some, ◌⊎◌}
use incom_udon_server.Platform.{UdpAddr}
use incom_udon_server.Wire.Types.{ParsedPacket}
use incom_udon_server.Auth.State.{ControlAuthMeta}
use incom_udon_server.Admission.Types.{IdentityAdmission, ServiceAdmission, grant_current}
use incom_udon_server.Admission.Identity.{
  JoinVerdict, allowed, rejected, is_required, IdentityAdmissionState,
}
use incom_udon_server.Admission.Identity as Identity
use incom_udon_server.Admission.Service.{ServiceAdmissionState}
use incom_udon_server.Admission.Service.Exchange as Service
use incom_udon_server.Relay.{Server}
use incom_udon_server.Relay.Join.{admitted, resolve, resolve_join_admission}

-- An identity that has not expired, and a service grant that has not.
abbrev pub IsCurrentIdentity : ℕ → Option IdentityAdmission → Type 0
IsCurrentIdentity now none = Unit
IsCurrentIdentity now (some a) = now < a.expires_at

abbrev pub IsCurrentService : ℕ → Option ServiceAdmission → Type 0
IsCurrentService now none = Unit
IsCurrentService now (some a) = now < a.grant_expires

-- What a JOIN lets through of one path.
abbrev FromIdentity : ℕ → JoinVerdict IdentityAdmission → Type 0
FromIdentity now (rejected reason) = Unit
FromIdentity now (allowed a) = IsCurrentIdentity now a

abbrev FromService : ℕ → JoinVerdict ServiceAdmission → Type 0
FromService now (rejected reason) = Unit
FromService now (allowed a) = IsCurrentService now a

identity-current :
    (a : Option IdentityAdmissionState) (pkt : ParsedPacket) (addr : Option UdpAddr)
    (meta : ControlAuthMeta) (now : ℕ)
    → FromIdentity now (Identity.admission_for_join a pkt addr meta now).1
unfolding Identity.admission_for_join Identity.join_without_admission Identity.current_verified
identity-current none pkt addr meta now = tt
identity-current (some a) pkt addr meta now = ground arith

service-current :
    (a : Option ServiceAdmissionState) (pkt : ParsedPacket) (addr : Option UdpAddr)
    (meta : ControlAuthMeta) (now : ℕ)
    → FromService now (Service.admission_for_join a pkt addr meta now).1
unfolding Service.admission_for_join Service.join_without_admission Service.current_verified
    grant_current
service-current none pkt addr meta now = tt
service-current (some a) pkt addr meta now = ground arith

resolve-single :
    (required : Bool) (now : ℕ) (identity : JoinVerdict IdentityAdmission)
    (service : JoinVerdict ServiceAdmission) (i : Option IdentityAdmission)
    (v : Option ServiceAdmission)
    → FromIdentity now identity
    → FromService now service
    → resolve required identity service ≡ admitted i v
    → ((i ≡ none) ⊎ (v ≡ none))
      × ((required ≡ true → (is_some i ≡ true) ⊎ (is_some v ≡ true))
          × (IsCurrentIdentity now i × IsCurrentService now v))
unfolding resolve
resolve-single required now identity (rejected reason) i v hi hs h = cc
resolve-single required now (rejected reason) (allowed service) i v hi hs h = ground arith
resolve-single required now (allowed identity) (allowed service) i v hi hs h = ground arith

-- A JOIN that is let through uses one admission path at most, exactly one where the server requires
-- an admission, and the admission that it uses has not expired.
pub resolve_join_admission_single :
    (s : Server) (pkt : ParsedPacket) (addr : Option UdpAddr) (meta : ControlAuthMeta) (now : ℕ)
    (identity : Option IdentityAdmission) (service : Option ServiceAdmission)
    → (resolve_join_admission s pkt addr meta now).1 ≡ admitted identity service
    → ((identity ≡ none) ⊎ (service ≡ none))
      × ((is_required s.identity_admission ≡ true
            → (is_some identity ≡ true) ⊎ (is_some service ≡ true))
          × (IsCurrentIdentity now identity × IsCurrentService now service))
unfolding resolve_join_admission
resolve_join_admission_single s pkt addr meta now identity service =
    resolve-single (is_required s.identity_admission) now
      (Identity.admission_for_join s.identity_admission pkt addr meta now).1
      (Service.admission_for_join s.service_admission pkt addr meta now).1 identity service
      (identity-current s.identity_admission pkt addr meta now)
      (service-current s.service_admission pkt addr meta now)
