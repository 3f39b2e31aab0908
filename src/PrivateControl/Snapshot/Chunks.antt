-- ===== src/PrivateControl/Snapshot/Chunks.antt =====
-- What the chunks of a snapshot hold.
use mathlib.Core.List.{append_assoc, append-nil}
use mathlib.Core.Path.{transport}
use incom_udon_server.Base.{
  ℕ, ◌<◌, ◌≡◌, ◌⊎◌, refl, ap, sym, ◌∙◌, inl, inr, arith, Bool, true, ◌==◌, Option, none, some, List,
  [], ◌∷◌, ◌++◌, map, length, Bool-cases, All,
}
use incom_udon_server.Directory.Packing.{concat}
use incom_udon_server.PrivateControl.Snapshot.{
  SnapshotParticipant, SnapshotChannel, ChunkState, append_chunk,
}

-- The content of entries: each participant with its channel, and an empty channel by itself.
abbrev pub Row : Type 0
Row = ℕ × Option SnapshotParticipant

abbrev pub person_rows : ℕ → List SnapshotParticipant → List Row
person_rows channel_id participants = map (λ x. (channel_id, some x)) participants

abbrev pub rows_with : ℕ → List SnapshotParticipant → List Row
rows_with channel_id [] = (channel_id, none) ∷ []
rows_with channel_id (x ∷ xs) = person_rows channel_id (x ∷ xs)

abbrev pub rows : List SnapshotChannel → List Row
rows [] = []
rows (entry ∷ entries) = rows_with entry.channel_id entry.participants ++ rows entries

rows-append : (xs ys : List SnapshotChannel) → rows (xs ++ ys) ≡ rows xs ++ rows ys
rows-append [] ys = refl
rows-append (x ∷ xs) ys =
    ap (◌++◌ (rows_with x.channel_id x.participants)) (rows-append xs ys)
    ∙ sym (append_assoc (rows_with x.channel_id x.participants) (rows xs) (rows ys))

person_rows-append :
    (channel_id : ℕ) (xs ys : List SnapshotParticipant)
    → person_rows channel_id (xs ++ ys) ≡ person_rows channel_id xs ++ person_rows channel_id ys
person_rows-append channel_id [] ys = refl
person_rows-append channel_id (x ∷ xs) ys =
    ap (◌∷◌ (channel_id, some x)) (person_rows-append channel_id xs ys)

-- With a participant the rows are those of the participants.
pub rows_with-append :
    (channel_id : ℕ) (xs ys : List SnapshotParticipant)
    → 0 < length xs
    → rows_with channel_id (xs ++ ys) ≡ rows_with channel_id xs ++ person_rows channel_id ys
rows_with-append channel_id [] ys h = absurd (omega (arith, h))
rows_with-append channel_id (x ∷ xs) ys h = person_rows-append channel_id (x ∷ xs) ys

pub concat-append :
    (chunks : List (List SnapshotChannel)) (chunk : List SnapshotChannel)
    → concat (chunks ++ (chunk ∷ [])) ≡ concat chunks ++ chunk
concat-append [] chunk = append-nil chunk
concat-append (c ∷ chunks) chunk =
    ap (◌++◌ c) (concat-append chunks chunk) ∙ sym (append_assoc c (concat chunks) chunk)

module _ (fits : List SnapshotChannel → Bool) where
  -- A chunk that fits a frame, or has nothing.
  abbrev pub IsChunk : List SnapshotChannel → Type 0
  IsChunk chunk = (length chunk ≡ 0) ⊎ (fits chunk ≡ true)

  pub All-append :
      (chunks : List (List SnapshotChannel)) (chunk : List SnapshotChannel)
      → All IsChunk chunks
      → IsChunk chunk
      → All IsChunk (chunks ++ (chunk ∷ []))
  All-append [] chunk all one = (one, tt)
  All-append (c ∷ chunks) chunk all one = (all.0, All-append chunks chunk all.1 one)

  abbrev pub content : ChunkState → List Row
  content st = rows (concat st.chunks ++ st.current)

  abbrev pub Sound : ChunkState → Type 0
  Sound st = All IsChunk st.chunks × IsChunk st.current

  abbrev pub Good : List Row → Option ChunkState → Type 0
  Good whole none = Unit {0}
  Good whole (some st) = Sound st × (content st ≡ whole)

  pub along-Good :
      (whole : List Row) (r r' : Option ChunkState) → r' ≡ r → Good whole r → Good whole r'
  along-Good whole r r' same = transport (ap (Good whole) (sym same))

  pub append_chunk-Good :
      (st : ChunkState) (entry : SnapshotChannel)
      → Sound st
      → Good
          (content st ++ rows_with entry.channel_id entry.participants)
          (append_chunk fits st entry)
  unfolding append_chunk
  append_chunk-Good st entry sound =
      let result = append_chunk fits st entry in
      let candidate = st.current ++ (entry ∷ []) in
      let before = concat st.chunks ++ st.current in
      let own = rows_with entry.channel_id entry.participants in
      let whole = rows before ++ own in
      let added : rows (before ++ (entry ∷ [])) ≡ whole =
        rows-append before (entry ∷ []) ∙ ap (◌++◌ (rows before)) (append-nil own) in
      elim (Bool-cases (fits candidate)) [
        | inl fitting ↦
            along-Good whole (some (record st { current = candidate })) result
              (ground (arith, fitting))
              (
                (sound.0, inr fitting),
                ap rows (sym (append_assoc (concat st.chunks) st.current (entry ∷ []))) ∙ added,
              )
        | inr over ↦ elim (Bool-cases (length st.current == 0)) [
          | inl empty ↦ along-Good whole none result (ground (arith, over, empty)) tt
          | inr filled ↦ elim (Bool-cases (fits (entry ∷ []))) [
            | inl alone ↦
                along-Good whole
                  (some (record { chunks = st.chunks ++ (st.current ∷ []); current = entry ∷ [] }))
                  result (ground (arith, over, filled, alone))
                  (
                    (All-append st.chunks st.current sound.0 sound.1, inr alone),
                    ap (λ xs. rows (xs ++ (entry ∷ []))) (concat-append st.chunks st.current)
                        ∙ added,
                  )
            | inr never ↦ along-Good whole none result (ground (arith, over, filled, never)) tt
          ]
        ]
      ]
