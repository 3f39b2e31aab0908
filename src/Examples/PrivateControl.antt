-- ===== src/Examples/PrivateControl.antt =====
-- Runs of the private control link.
use incom_udon_server.Admission.Grant.{is_managed_service_id}
use incom_udon_server.PrivateControl.State.{
  Base64, RevokeServiceAdmission, valid_private_control_id, decode_grant_id_hash, valid_revocation,
  persistent_rule_target, persistent_rule_from_entry, restore_rules, restore_each,
}
use incom_udon_server.PrivateControl.State.RoundTrip.{valid_revocation_persists}
use incom_udon_server.PrivateControl.State.Restart.{restore_rules_binding}
use incom_udon_server.Base.{
  ◌++◌, false, take, replicate, ℕ, ◌+◌, ◌*◌, ◌≡◌, ◌≤◌, refl, arith, List, [], ◌∷◌, Bool, true, none,
  some, leb, length, All, nat_eq, string_eq,
}
use incom_udon_server.Base.Assoc.{lookup, insert, keep, delete}
use incom_udon_server.Platform.{second, codes}
use incom_udon_server.Directory.Packing.{concat}
use incom_udon_server.Admission.Service.{
  admission_allowed_for_membership, install_revocation, cleanup, deny_rule, target_matches, evict,
}
use incom_udon_server.Admission.Types.{grant_current}
use incom_udon_server.Relay.{Peer, Channel, Server}
use incom_udon_server.Relay.Expiry.{member_at}
use incom_udon_server.Relay.Revocation.{
  revoke_managed_service_admission, revoked_admission, end_memberships, revoke_peers,
}
use incom_udon_server.Relay.Revocation.Exact.{Revoked, revoke_managed_service_admission_exact}
use incom_udon_server.PrivateControl.Idempotency.{
  PrivateControlAck, IdempotencyKey, Entries, conflict, begin_revocation, begun, swept, run,
  complete_revocation, record_ack, release_ack, idempotency_expiry, cleanup_idempotency,
}
use incom_udon_server.PrivateControl.Idempotency.Retention.{completed_once}
use incom_udon_server.PrivateControl.Idempotency.Bounds.{IsBoundedEntries, run-IsBoundedEntries}
use incom_udon_server.PrivateControl.Snapshot.{
  SnapshotChannel, SnapshotParticipant, chunk_snapshot_entries, append_entries, append_batches,
  append_chunk, snapshot_max_chunks,
}
use incom_udon_server.PrivateControl.Snapshot.Chunks.{rows, IsChunk}
use incom_udon_server.PrivateControl.Snapshot.Whole.{chunk_snapshot_entries_whole}
use incom_udon_server.Examples.World.{small_world, phone}
use incom_udon_server.Examples.Admission.{served, services, revoked}
use incom_udon_server.Examples.Relay.{relay, channel_10, member, radio}

abbrev command : IdempotencyKey
command = record { service_id = 1 ∷ []; message_id = 2 ∷ [] }

abbrev applied : PrivateControlAck
applied = record {
  message_id = 3 ∷ [];
  in_reply_to = 2 ∷ [];
  outcome = "applied";
  deny_until = 4000;
  affected_membership_count = 1;
  talk_release_count = 0;
}

-- The command has begun at 1000 seconds.
abbrev in_work : Entries
in_work = (begin_revocation [] command (7 ∷ []) (1000 * second)).0

completed_once_example :
    (begin_revocation
      (run
        (swept (1900 * second) ∷ [])
        (complete_revocation in_work command (7 ∷ []) applied (1001 * second) true).0)
      command
      (8 ∷ [])
      (3999 * second)).1
    ≡ conflict
unfolding complete_revocation record_ack release_ack cleanup_idempotency begin_revocation lookup
    insert keep idempotency_expiry
completed_once_example =
    completed_once in_work command (7 ∷ []) applied (1001 * second) (swept (1900 * second) ∷ [])
      (8 ∷ []) (3999 * second) refl (omega arith, tt) (omega arith)

run-IsBoundedEntries_example : IsBoundedEntries (run (begun command (7 ∷ []) 5 ∷ (swept 6 ∷ [])) [])
run-IsBoundedEntries_example =
    run-IsBoundedEntries (begun command (7 ∷ []) 5 ∷ (swept 6 ∷ [])) [] (omega arith)

-- A frame has room for two channels, and for three participants of one.
abbrev participant : ℕ → SnapshotParticipant
participant sender_id = record { sender_id = sender_id; state = "idle" }

abbrev channel_of : ℕ → List SnapshotParticipant → SnapshotChannel
channel_of channel_id participants = record { channel_id = channel_id; participants = participants }

abbrev size : List SnapshotChannel → ℕ
size [] = 0
size (entry ∷ entries) = 1 + length entry.participants + size entries

abbrev fits_frame : List SnapshotChannel → Bool
fits_frame channels = leb (size channels) 4

abbrev entries : List SnapshotChannel
entries =
    channel_of 10 (participant 1 ∷ (participant 2 ∷ (participant 3 ∷ (participant 4 ∷ []))))
    ∷ (channel_of 11 [] ∷ [])

abbrev sent : List (List SnapshotChannel)
sent =
    (channel_of 10 (participant 1 ∷ (participant 2 ∷ (participant 3 ∷ []))) ∷ [])
    ∷ ((channel_of 10 (participant 4 ∷ []) ∷ (channel_of 11 [] ∷ [])) ∷ [])

chunk_snapshot_entries_whole_example :
    (rows (concat sent) ≡ rows entries)
    × (All (IsChunk fits_frame) sent × (length sent ≤ snapshot_max_chunks))
unfolding chunk_snapshot_entries append_entries append_batches append_chunk
chunk_snapshot_entries_whole_example = chunk_snapshot_entries_whole fits_frame entries sent refl

-- Sender 7 is a member by its service, and sender 8 by its identity.
abbrev recorder : Peer
recorder = record (member 7 phone 5) { identity_admission = none; service_admission = some served }

abbrev recorded_channel : Channel
recorded_channel = record channel_10 {
  peers = ("192.0.2.7:50000", recorder) ∷ (("192.0.2.8:50000", member 8 radio 2) ∷ []);
}

abbrev serving : Server
serving = record relay { channels = (10, recorded_channel) ∷ []; service_admission = some services }

revoke_managed_service_admission_exact_example :
    Revoked revoked (lookup "192.0.2.7:50000" recorded_channel.peers) (
      member_at
        (revoke_managed_service_admission small_world serving revoked
          (1190 * second)
          (1100 * second)).0.0
        10
        "192.0.2.7:50000")
unfolding revoke_managed_service_admission install_revocation cleanup keep lookup deny_rule
    grant_current revoked_admission target_matches end_memberships revoke_peers delete insert evict
revoke_managed_service_admission_exact_example =
    revoke_managed_service_admission_exact small_world serving revoked (1190 * second)
      (1100 * second) recorded_channel "192.0.2.7:50000"
      (record { affected_memberships = 1; talk_releases = 0 }) refl refl (refl, (refl, tt))

-- An ID of 16 bytes, encoded in 22.
abbrev padded_text : Base64
padded_text = record {
  decode = λ text. some (take 16 text);
  encode = λ bytes. bytes ++ replicate 6 0;
}

abbrev revoke_recorder : RevokeServiceAdmission
revoke_recorder = record {
  schema_version = "private-control-link-v1";
  kind = "revoke_service_admission";
  message_id = replicate 16 1 ++ replicate 6 0;
  channel_id = 10;
  service_id = codes "recorder-1";
  grant_id_hash = [];
  reason = "acl_removed";
  deny_until = 1190;
}

valid_revocation_persists_example :
    (persistent_rule_target padded_text
        (persistent_rule_from_entry padded_text (deny_rule revoked, 1190 * second))
      ≡ some revoked)
    × ((persistent_rule_from_entry padded_text (deny_rule revoked, 1190 * second)).deny_until
        ≡ 1190)
unfolding valid_revocation valid_private_control_id decode_grant_id_hash is_managed_service_id
valid_revocation_persists_example =
    valid_revocation_persists padded_text revoke_recorder revoked refl

restore_rules_binding_example :
    (admission_allowed_for_membership
      (restore_rules padded_text
        (some services)
        (persistent_rule_from_entry padded_text (deny_rule revoked, 1190 * second) ∷ [])
        (1150 * second)).0
      10
      served
      (1160 * second)).1
    ≡ false
unfolding valid_revocation valid_private_control_id decode_grant_id_hash is_managed_service_id
    restore_rules restore_each persistent_rule_target persistent_rule_from_entry install_revocation
    evict deny_rule target_matches cleanup keep insert lookup grant_current
restore_rules_binding_example =
    restore_rules_binding padded_text revoke_recorder revoked [] [] (some services) (1150 * second)
      10 served (1160 * second) refl refl (omega arith) (omega arith) refl
