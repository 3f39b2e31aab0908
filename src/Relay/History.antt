-- ===== src/Relay/History.antt =====
-- The operations on the channels as data, and the state after a list of them. Each runs under the
-- server's lock, so every interleaving of packets and sweeps is such a list.
use incom_udon_server.Base.{ℕ, List, [], ◌∷◌, Option, nat_eq, string_eq}
use incom_udon_server.Platform.{UdpAddr}
use incom_udon_server.Wire.Types.{talk_release_client_ptt_off}
use incom_udon_server.Admission.Types.{IdentityAdmission}
use incom_udon_server.Relay.{Server}
use incom_udon_server.Relay.Floor.{handle_ptt_on, handle_ptt_off, release_talk_if_needed}
use incom_udon_server.Relay.Request.{handle_ptt_request, expire_talk_if_needed}
use incom_udon_server.Relay.Membership.{
  start_membership, refresh_membership, expire_membership_if_needed,
}
use incom_udon_server.Relay.Peers.{upsert_peer, remove_peer}
use incom_udon_server.Relay.Join.{set_peer_identity_admission}
use incom_udon_server.Relay.Limit.{
  IsWithinLimit, handle_ptt_on-IsWithinLimit, release_talk_if_needed-IsWithinLimit,
  handle_ptt_request-IsWithinLimit, expire_talk_if_needed-IsWithinLimit,
  expire_membership_if_needed-IsWithinLimit,
}
use incom_udon_server.Relay.Limit.Members.{
  start_membership-IsWithinLimit, refresh_membership-IsWithinLimit,
  set_peer_identity_admission-IsWithinLimit, remove_peer-IsWithinLimit, upsert_peer-IsWithinLimit,
}

-- Each with its channel; a sender, an endpoint and a reading of the clock where the code has them.
pub data Operation : Type 0 where
  talk_on : ℕ → ℕ → Operation
  talk_off : ℕ → Operation
  released : ℕ → ℕ → Operation
  requested joined leased refreshed : ℕ → Option UdpAddr → ℕ → Operation
  left : ℕ → Option UdpAddr → Operation
  identified : ℕ → Option UdpAddr → IdentityAdmission → Operation
  talk_timeout membership_timeout : ℕ → Operation

unfoldable pub apply : ℕ → Operation → Server → Server
apply channel_id (talk_on sender_id now) s = (handle_ptt_on s channel_id sender_id now).0
apply channel_id (talk_off sender_id) s = (handle_ptt_off s channel_id sender_id).0
apply channel_id (released sender_id reason) s =
    (release_talk_if_needed s channel_id sender_id reason).0
apply channel_id (requested sender_id addr now) s =
    (handle_ptt_request s channel_id sender_id addr now).0.0
apply channel_id (joined sender_id addr now) s = upsert_peer s channel_id sender_id addr now
apply channel_id (leased sender_id addr now) s =
    (start_membership s channel_id sender_id addr now).0
apply channel_id (refreshed sender_id addr now) s =
    (refresh_membership s channel_id sender_id addr now).0
apply channel_id (left sender_id addr) s = remove_peer s channel_id sender_id addr
apply channel_id (identified sender_id addr admission) s =
    (set_peer_identity_admission s channel_id sender_id addr admission).0
apply channel_id (talk_timeout now) s = (expire_talk_if_needed s channel_id now).0
apply channel_id (membership_timeout now) s = (expire_membership_if_needed s channel_id now).0

-- Each operation with its channel, the oldest first.
unfoldable pub run : List (ℕ × Operation) → Server → Server
run [] s = s
run ((channel_id, op) ∷ ops) s = run ops (apply channel_id op s)

apply-IsWithinLimit :
    (channel_id : ℕ) (op : Operation) (s : Server)
    → IsWithinLimit s
    → IsWithinLimit (apply channel_id op s)
unfolding apply handle_ptt_off
apply-IsWithinLimit channel_id (talk_on sender_id now) s h =
    handle_ptt_on-IsWithinLimit s h channel_id sender_id now
apply-IsWithinLimit channel_id (talk_off sender_id) s h =
    release_talk_if_needed-IsWithinLimit s h channel_id sender_id talk_release_client_ptt_off
apply-IsWithinLimit channel_id (released sender_id reason) s h =
    release_talk_if_needed-IsWithinLimit s h channel_id sender_id reason
apply-IsWithinLimit channel_id (requested sender_id addr now) s h =
    handle_ptt_request-IsWithinLimit s h channel_id sender_id addr now
apply-IsWithinLimit channel_id (joined sender_id addr now) s h =
    upsert_peer-IsWithinLimit s channel_id sender_id addr now h
apply-IsWithinLimit channel_id (leased sender_id addr now) s h =
    start_membership-IsWithinLimit s h channel_id sender_id addr now
apply-IsWithinLimit channel_id (refreshed sender_id addr now) s h =
    refresh_membership-IsWithinLimit s h channel_id sender_id addr now
apply-IsWithinLimit channel_id (left sender_id addr) s h =
    remove_peer-IsWithinLimit s h channel_id sender_id addr
apply-IsWithinLimit channel_id (identified sender_id addr admission) s h =
    set_peer_identity_admission-IsWithinLimit s h channel_id sender_id addr admission
apply-IsWithinLimit channel_id (talk_timeout now) s h =
    expire_talk_if_needed-IsWithinLimit s h channel_id now
apply-IsWithinLimit channel_id (membership_timeout now) s h =
    expire_membership_if_needed-IsWithinLimit s h channel_id now

-- From a state in which no channel has more talkers than the limit, no sequence of these operations,
-- on any channels and at any times, leads to one in which a channel has.
pub run-IsWithinLimit :
    (ops : List (ℕ × Operation)) (s : Server) → IsWithinLimit s → IsWithinLimit (run ops s)
unfolding run
run-IsWithinLimit [] s h = h
run-IsWithinLimit ((channel_id, op) ∷ ops) s h =
    run-IsWithinLimit ops (apply channel_id op s) (apply-IsWithinLimit channel_id op s h)
