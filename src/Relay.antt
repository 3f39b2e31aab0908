-- ===== src/Relay.antt =====
-- The Relay's state: `peer`, `codecConfigState`, `channel` and `server` of main.go, with the lookups
-- that every handler begins with. A time is a count of nanoseconds, 0 the zero time; each reading of
-- the clock is an argument. A nil map, pointer or state is `none` or empty.
use Prim.Native.String.{String}
use incom_udon_server.Base.{
  ℕ, ◌+◌, ◌*◌, ◌/◌, ◌%◌, ◌^◌, List, [], ◌∷◌, Bool, true, false, not, ◌&&◌, ◌||◌, Option, none, some,
  ltb, leb, ◌==◌, if◌then◌else◌, nat_eq, string_eq,
}
use incom_udon_server.Base.Assoc.{Map, lookup, insert}
use incom_udon_server.Platform.{UdpAddr, peer_map_key, second}
use incom_udon_server.Replay.{Window}
use incom_udon_server.Auth.State.{ControlAuthState, requires, is_required}
use incom_udon_server.Admission.Types.{IdentityAdmission, ServiceAdmission}
use incom_udon_server.Admission.Identity.{IdentityAdmissionState}
use incom_udon_server.Admission.Service.{ServiceAdmissionState}
use incom_udon_server.Diagnostics.{RelayFloorInterruptCounterDelta}
pub mod Peers
pub mod Membership
pub mod Floor
pub mod Request
pub mod Join
pub mod Media
pub mod Output
pub mod Dispatch
pub mod Revocation
pub mod Sweep
mod Victim
pub mod History
pub mod Limit
pub mod Preemption
pub mod Expiry
pub mod Admitted
pub mod Sealed

pub record Peer : Type 0 where
  pub sender_id : ℕ
  pub addr : Option UdpAddr
  pub last_seen : ℕ
  pub authenticated : Bool
  pub control_session_id : ℕ
  pub control_key_id : ℕ
  pub control_window : Window
  pub identity_admission : Option IdentityAdmission
  pub service_admission : Option ServiceAdmission
  pub membership_lease : ℕ
  pub keepalive_interval : ℕ
  pub membership_deadline : ℕ

pub record CodecConfigState : Type 0 where
  pub payload : List ℕ
  pub media_nonce_base : List ℕ
  pub media_key_id : ℕ
  pub control_key_id : ℕ

-- `active_talkers` has the time of each grant.
pub record Channel : Type 0 where
  pub peers : Map String Peer
  pub active_talkers : Map ℕ ℕ
  pub codec_configs : Map ℕ (List ℕ)
  pub media_codec_configs : Map ℕ CodecConfigState

-- The fields that the packet handlers read or write. A negative `max_active_talkers` or `talk_max`
-- acts as 0 does.
pub record Server : Type 0 where
  pub channels : Map ℕ Channel
  pub no_crypto : Bool
  pub talk_max : ℕ
  pub multi_talk : Bool
  pub max_active_talkers : ℕ
  pub control_auth : Option ControlAuthState
  pub identity_admission : Option IdentityAdmissionState
  pub service_admission : Option ServiceAdmissionState
  pub floor_interrupt : Bool
  pub membership_lease : ℕ
  pub keepalive_interval : ℕ
  pub outbound_seq : ℕ

-- What a handler does besides changing the state, in order: a control packet to one sender or to the
-- channel, an event for the management plane, an observation for the diagnostics, an audit record.
pub data Effect : Type 0 where
  send_to : ℕ → ℕ → ℕ → ℕ → List ℕ → Effect
  broadcast : ℕ → ℕ → ℕ → List ℕ → Effect
  talk_started : ℕ → ℕ → Effect
  talk_ended : ℕ → ℕ → ℕ → Effect
  participant_left : ℕ → ℕ → ℕ → Effect
  participant_joined : ℕ → ℕ → Option (List ℕ) → Effect
  service_admission_issued : ℕ → ℕ → List ℕ → Effect
  -- A revocation: its audit record, and the events of a talk that it ends, of a member that it
  -- removes and of the admission, with the service.
  revocation_audit : ℕ → Effect
  revoked_talk_ended revoked_left service_admission_revoked : ℕ → ℕ → List ℕ → Effect
  observe : RelayFloorInterruptCounterDelta → Effect
  audit : Option Peer → ℕ → ℕ → Bool → Option (ℕ × ℕ) → Effect

abbrev pub empty_channel : Channel
empty_channel = record {
  peers = [];
  active_talkers = [];
  codec_configs = [];
  media_codec_configs = [];
}

-- `getOrCreateChannel`: the channel, and the state that has it.
unfoldable pub get_or_create_channel : Server → ℕ → Server × Channel
get_or_create_channel s channel_id = elim (lookup channel_id s.channels) [
  | some ch ↦ (s, ch)
  | none ↦ (record s { channels = insert channel_id empty_channel s.channels }, empty_channel)
]

-- What a change through the channel's pointer leaves.
abbrev pub set_channel : Server → ℕ → Channel → Server
set_channel s channel_id ch = record s { channels = insert channel_id ch s.channels }

abbrev pub control_auth_required : Server → ℕ → Bool
control_auth_required s channel_id = requires s.control_auth channel_id

-- `validMembershipTiming` and `configureMembershipTiming`, which leaves the state on an error.
unfoldable pub valid_membership_timing : ℕ → ℕ → Bool
valid_membership_timing lease keepalive =
    if ltb lease (15 * second)
      || ltb (300 * second) lease
      || not (lease % second == 0)
      || ltb keepalive second
      || not (keepalive % second == 0)
    then false
    else leb keepalive (lease / 3)

unfoldable pub configure_membership_timing : Server → ℕ → ℕ → Option Server
configure_membership_timing s lease keepalive =
    if not (valid_membership_timing lease keepalive)
    then none
    else some (record s { membership_lease = lease; keepalive_interval = keepalive })

unfoldable pub next_relay_sequence : Server → Server × ℕ
next_relay_sequence s = (record s { outbound_seq = (s.outbound_seq + 1) % 2 ^ 16 }, s.outbound_seq)

-- The peer that is registered under the address in the channel, with this sender ID.
abbrev pub of_sender : ℕ → Option Peer → Option Peer
of_sender sender_id none = none
of_sender sender_id (some peer) = if peer.sender_id == sender_id then some peer else none

abbrev pub peer_at : Channel → ℕ → UdpAddr → Option Peer
peer_at ch sender_id addr = of_sender sender_id (lookup (peer_map_key (some addr)) ch.peers)

-- What a change through the pointer of the peer under the address leaves.
abbrev pub set_peer : Server → ℕ → Channel → UdpAddr → Peer → Server
set_peer s channel_id ch addr peer =
    set_channel s channel_id (record ch { peers = insert (peer_map_key (some addr)) peer ch.peers })
