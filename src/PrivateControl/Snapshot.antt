-- ===== src/PrivateControl/Snapshot.antt =====
-- private_control_snapshot.go: the state of the relay for the private control link,
-- `privateControlSnapshotChunks` and `privateControlChunkSnapshotEntries`. Whether channels fit a
-- frame is the length of their JSON, an argument.
use Prim.Native.String.{String}
use incom_udon_server.Base.{
  ℕ, List, [], ◌∷◌, ◌++◌, Bool, true, false, not, Option, none, some, ltb, leb, ◌==◌, if◌then◌else◌,
  length, map, nat_eq,
}
use incom_udon_server.Base.Assoc.{Map, lookup}
use incom_udon_server.Directory.Packing.{concat}
use incom_udon_server.Relay.{Peer, Channel, Server}
use incom_udon_server.Relay.Floor.{is_active, insert_sorted}
pub mod Chunks
pub mod Whole

pub record SnapshotParticipant : Type 0 where
  pub sender_id : ℕ
  pub state : String

pub record SnapshotChannel : Type 0 where
  pub channel_id : ℕ
  pub participants : List SnapshotParticipant

abbrev pub snapshot_max_chunks : ℕ
snapshot_max_chunks = 64

-- `sort.Slice` on numbers.
unfoldable pub sort_ids : List ℕ → List ℕ
sort_ids [] = []
sort_ids (x ∷ xs) = insert_sorted x (sort_ids xs)

abbrev participant_of : Channel → ℕ → SnapshotParticipant
participant_of ch sender_id = record {
  sender_id = sender_id;
  state = (if is_active ch sender_id then "talking" else "idle");
}

unfoldable pub snapshot_channel : ℕ → Channel → SnapshotChannel
snapshot_channel channel_id ch = record {
  channel_id = channel_id;
  participants =
      map (participant_of ch)
        (sort_ids (map (λ (entry : String × Peer). entry.1.sender_id) ch.peers));
}

unfoldable pub snapshot_channels : Map ℕ Channel → List ℕ → List SnapshotChannel
snapshot_channels channels [] = []
snapshot_channels channels (channel_id ∷ ids) = elim (lookup channel_id channels) [
  | none ↦ snapshot_channels channels ids
  | some ch ↦ snapshot_channel channel_id ch ∷ snapshot_channels channels ids
]

-- The entries of every channel, in the order of their IDs.
unfoldable pub snapshot_entries : Server → List SnapshotChannel
snapshot_entries s =
    snapshot_channels s.channels (sort_ids (map (λ (entry : ℕ × Channel). entry.0) s.channels))

-- The chunks so far, and the one that is filled.
pub record ChunkState : Type 0 where
  pub chunks : List (List SnapshotChannel)
  pub current : List SnapshotChannel

module _ (fits : List SnapshotChannel → Bool) where
  unfoldable pub append_chunk : ChunkState → SnapshotChannel → Option ChunkState
  append_chunk st entry =
      let candidate = st.current ++ (entry ∷ []) in
      if fits candidate
      then some (record st { current = candidate })
      else if length st.current == 0
      then none
      else if not (fits (entry ∷ []))
      then none
      else some (record { chunks = st.chunks ++ (st.current ∷ []); current = entry ∷ [] })

  -- A channel's participants in batches, each as large as fits a frame alone.
  unfoldable pub append_batches :
      SnapshotChannel → List SnapshotParticipant → ChunkState → Option ChunkState
  append_batches batch [] st = append_chunk st batch
  append_batches batch (participant ∷ rest) st =
      let candidate = record batch { participants = batch.participants ++ (participant ∷ []) } in
      let alone = record batch { participants = participant ∷ [] } in
      elim (fits (candidate ∷ [])) [
        | true ↦ append_batches candidate rest st
        | false ↦ if length batch.participants == 0 then none else elim (append_chunk st batch) [
          | none ↦ none
          | some st' ↦ append_batches alone rest st'
        ]
      ]

  abbrev pub append_entry :
      SnapshotChannel → List SnapshotParticipant → ChunkState → Option ChunkState
  append_entry entry [] st = append_chunk st entry
  append_entry entry (participant ∷ rest) st =
      append_batches (record { channel_id = entry.channel_id; participants = [] })
        (participant ∷ rest) st

  unfoldable pub append_entries : List SnapshotChannel → ChunkState → Option ChunkState
  append_entries [] st = some st
  append_entries (entry ∷ entries) st = elim (append_entry entry entry.participants st) [
    | none ↦ none
    | some st' ↦ append_entries entries st'
  ]

  abbrev pub all_chunks : ChunkState → List (List SnapshotChannel)
  all_chunks st = if length st.current == 0 then st.chunks else st.chunks ++ (st.current ∷ [])

  -- One chunk at least, and 64 at most.
  abbrev pub finish : List (List SnapshotChannel) → Option (List (List SnapshotChannel))
  finish chunks =
      let sent = if length chunks == 0 then [] ∷ [] else chunks in
      if ltb snapshot_max_chunks (length sent) then none else some sent

  unfoldable pub chunk_snapshot_entries :
      List SnapshotChannel → Option (List (List SnapshotChannel))
  chunk_snapshot_entries entries =
      elim (append_entries entries (record { chunks = []; current = [] })) [
        | none ↦ none
        | some st ↦ finish (all_chunks st)
      ]

  unfoldable pub snapshot_chunks : Server → Option (List (List SnapshotChannel))
  snapshot_chunks s = chunk_snapshot_entries (snapshot_entries s)
