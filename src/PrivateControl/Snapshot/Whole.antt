-- ===== src/PrivateControl/Snapshot/Whole.antt =====
-- What a whole snapshot holds.
use mathlib.Core.List.{append_assoc, append-nil}
use mathlib.Core.Path.{transport}
use incom_udon_server.Base.{
  ◌<◌, ◌≤◌, ◌≡◌, refl, ap, sym, ◌∙◌, inl, inr, arith, Bool, false, ltb, ◌==◌, Option, none, some,
  List, [], ◌∷◌, ◌++◌, length, length-append, Option-cases, Bool-cases, All,
}
use incom_udon_server.Directory.Packing.{concat}
use incom_udon_server.PrivateControl.Snapshot.{
  SnapshotParticipant, SnapshotChannel, ChunkState, append_chunk, append_batches, append_entry,
  append_entries, all_chunks, finish, chunk_snapshot_entries, snapshot_max_chunks,
}
use incom_udon_server.PrivateControl.Snapshot.Chunks.{
  Row, person_rows, rows_with, rows, rows_with-append, concat-append, IsChunk, All-append, content,
  Sound, Good, along-Good, append_chunk-Good,
}

module _ (fits : List SnapshotChannel → Bool) where
  append_batches-Good :
      (batch : SnapshotChannel) (xs : List SnapshotParticipant) (st : ChunkState)
      → 0 < length batch.participants
      → Sound fits st
      → Good fits
          (content fits st
            ++ (rows_with batch.channel_id batch.participants ++ person_rows batch.channel_id xs))
          (append_batches fits batch xs st)
  unfolding append_batches
  append_batches-Good batch [] st begun sound =
      transport
        (ap (λ own. Good fits (content fits st ++ own) (append_batches fits batch [] st))
          (sym (append-nil (rows_with batch.channel_id batch.participants))))
        (append_chunk-Good fits st batch sound)
  append_batches-Good batch (x ∷ xs) st begun sound =
      let id = batch.channel_id in
      let result = append_batches fits batch (x ∷ xs) st in
      let candidate : SnapshotChannel = record batch {
        participants = batch.participants ++ (x ∷ []);
      } in
      let alone : SnapshotChannel = record batch { participants = x ∷ [] } in
      let own = rows_with id batch.participants in
      let rest = person_rows id xs in
      let whole = content fits st ++ (own ++ ((id, some x) ∷ rest)) in
      let nonempty : (length batch.participants == 0) ≡ false = ground (arith, begun) in
      elim (Bool-cases (fits (candidate ∷ []))) [
        | inl fitting ↦
            along-Good fits whole (append_batches fits candidate xs st) result
              (ground (arith, fitting))
              (transport
                (ap (λ r. Good fits (content fits st ++ r) (append_batches fits candidate xs st))
                  (ap (λ r. r ++ rest) (rows_with-append id batch.participants (x ∷ []) begun)
                    ∙ append_assoc own ((id, some x) ∷ []) rest))
                (append_batches-Good candidate xs st
                  (omega (arith, length-append batch.participants (x ∷ []))) sound))
        | inr over ↦ elim (Option-cases (append_chunk fits st batch)) [
          | inl refused ↦
              along-Good fits whole none result (ground (arith, over, nonempty, refused)) tt
          | inr (st', chunked) ↦
              let after =
                transport (ap (Good fits (content fits st ++ own)) chunked)
                  (append_chunk-Good fits st batch sound) in
              along-Good fits whole (append_batches fits alone xs st') result
                (ground (arith, over, nonempty, chunked))
                (transport
                  (ap (λ w. Good fits w (append_batches fits alone xs st'))
                    (ap (λ r. r ++ ((id, some x) ∷ rest)) after.1
                      ∙ append_assoc (content fits st) own ((id, some x) ∷ rest)))
                  (append_batches-Good alone xs st' (omega arith) after.0))
        ]
      ]

  append_entry-Good :
      (entry : SnapshotChannel) (participants : List SnapshotParticipant) (st : ChunkState)
      → entry.participants ≡ participants
      → Sound fits st
      → Good fits
          (content fits st ++ rows_with entry.channel_id participants)
          (append_entry fits entry participants st)
  unfolding append_batches
  append_entry-Good entry [] st is sound =
      transport
        (ap
          (λ ps.
            Good fits (content fits st ++ rows_with entry.channel_id ps)
              (append_chunk fits st entry))
          is)
        (append_chunk-Good fits st entry sound)
  append_entry-Good entry (x ∷ xs) st is sound =
      let first : SnapshotChannel = record {
        channel_id = entry.channel_id;
        participants = x ∷ [];
      } in
      let result = append_entry fits entry (x ∷ xs) st in
      let whole = content fits st ++ rows_with entry.channel_id (x ∷ xs) in
      elim (Bool-cases (fits (first ∷ []))) [
        | inl fitting ↦
            along-Good fits whole (append_batches fits first xs st) result (ground (arith, fitting))
              (append_batches-Good first xs st (omega arith) sound)
        | inr over ↦ along-Good fits whole none result (ground (arith, over)) tt
      ]

  append_entries-Good :
      (entries : List SnapshotChannel) (st : ChunkState)
      → Sound fits st
      → Good fits (content fits st ++ rows entries) (append_entries fits entries st)
  unfolding append_entries
  append_entries-Good [] st sound = (sound, sym (append-nil (content fits st)))
  append_entries-Good (entry ∷ entries) st sound =
      let own = rows_with entry.channel_id entry.participants in
      let result = append_entries fits (entry ∷ entries) st in
      let whole = content fits st ++ (own ++ rows entries) in
      let step = append_entry-Good entry entry.participants st refl sound in
      elim (Option-cases (append_entry fits entry entry.participants st)) [
        | inl refused ↦ along-Good fits whole none result (ground (arith, refused)) tt
        | inr (st', appended) ↦
            let after = transport (ap (Good fits (content fits st ++ own)) appended) step in
            along-Good fits whole (append_entries fits entries st') result
              (ground (arith, appended))
              (transport
                (ap (λ w. Good fits w (append_entries fits entries st'))
                  (ap (λ r. r ++ rows entries) after.1
                    ∙ append_assoc (content fits st) own (rows entries)))
                (append_entries-Good entries st' after.0))
      ]

  concat-last :
      (chunks : List (List SnapshotChannel)) (current : List SnapshotChannel)
      → rows (concat (all_chunks fits (record { chunks = chunks; current = current })))
        ≡ rows (concat chunks ++ current)
  concat-last chunks [] = ap rows (sym (append-nil (concat chunks)))
  concat-last chunks (x ∷ current) = ground (arith, concat-append chunks (x ∷ current))

  all_chunks-All : (st : ChunkState) → Sound fits st → All (IsChunk fits) (all_chunks fits st)
  all_chunks-All st sound = elim (Bool-cases (length st.current == 0)) [
    | inl empty ↦ transport (ap (All (IsChunk fits)) (sym (ground (arith, empty)))) sound.0
    | inr filled ↦
        transport (ap (All (IsChunk fits)) (sym (ground (arith, filled))))
          (All-append fits st.chunks st.current sound.0 sound.1)
  ]

  abbrev Snapshot : List Row → Option (List (List SnapshotChannel)) → Type 0
  Snapshot whole none = Unit {0}
  Snapshot whole (some chunks) =
      (rows (concat chunks) ≡ whole)
      × (All (IsChunk fits) chunks × (length chunks ≤ snapshot_max_chunks))

  along-Snapshot :
      (whole : List Row) (r r' : Option (List (List SnapshotChannel)))
      → r' ≡ r
      → Snapshot whole r
      → Snapshot whole r'
  along-Snapshot whole r r' same = transport (ap (Snapshot whole) (sym same))

  finish-Snapshot :
      (chunks : List (List SnapshotChannel))
      → All (IsChunk fits) chunks
      → Snapshot (rows (concat chunks)) (finish fits chunks)
  finish-Snapshot [] all = (refl, ((inl refl, tt), omega arith))
  finish-Snapshot (chunk ∷ chunks) all =
      let sent = chunk ∷ chunks in
      let whole = rows (concat sent) in
      elim (Bool-cases (ltb snapshot_max_chunks (length sent))) [
        | inl over ↦ along-Snapshot whole none (finish fits sent) (ground (arith, over)) tt
        | inr within ↦
            along-Snapshot whole (some sent) (finish fits sent) (ground (arith, within))
              (refl, (all, ground (arith, within)))
      ]

  chunk_snapshot_entries-Snapshot :
      (entries : List SnapshotChannel)
      → Snapshot (rows entries) (chunk_snapshot_entries fits entries)
  unfolding chunk_snapshot_entries
  chunk_snapshot_entries-Snapshot entries =
      let start : ChunkState = record { chunks = []; current = [] } in
      let good = append_entries-Good entries start (tt, inl refl) in
      elim (Option-cases (append_entries fits entries start)) [
        | inl refused ↦
            along-Snapshot (rows entries) none (chunk_snapshot_entries fits entries)
              (ground (arith, refused)) tt
        | inr (st, done) ↦
            let after = transport (ap (Good fits (rows entries)) done) good in
            let sent = all_chunks fits st in
            along-Snapshot (rows entries) (finish fits sent) (chunk_snapshot_entries fits entries)
              (ground (arith, done))
              (transport
                (ap (λ w. Snapshot w (finish fits sent))
                  (concat-last st.chunks st.current ∙ after.1))
                (finish-Snapshot sent (all_chunks-All st after.0)))
      ]

-- The chunks that are sent hold the state and nothing else: put together they have every participant
-- of every channel, once and in order, and every channel without participants; each chunk fits a
-- frame or is empty, and there are 64 at most.
pub chunk_snapshot_entries_whole :
    (fits : List SnapshotChannel → Bool) (entries : List SnapshotChannel)
    (chunks : List (List SnapshotChannel))
    → chunk_snapshot_entries fits entries ≡ some chunks
    → (rows (concat chunks) ≡ rows entries)
      × (All (IsChunk fits) chunks × (length chunks ≤ snapshot_max_chunks))
chunk_snapshot_entries_whole fits entries chunks h =
    transport (ap (Snapshot fits (rows entries)) h) (chunk_snapshot_entries-Snapshot fits entries)
