-- ===== src/PrivateControl/Idempotency/Retention.antt =====
-- What a duplicate of a completed revocation gets.
use incom_udon_server.Base.{
  ℕ, ◌+◌, ◌<◌, ◌≡◌, refl, arith, List, [], ◌∷◌, true, false, not, none, some, if◌then◌else◌,
  bytes_eq, bytes_eq_iff, Option-cases, Bool-cases, inl, inr,
}
use incom_udon_server.Base.Assoc.{lookup, lookup-insert, lookup-delete, keep-some}
use incom_udon_server.PrivateControl.Idempotency.{
  PrivateControlAck, IdempotencyKey, idempotency_key_Eq, IdempotencyEntry, Entries, cached,
  conflict, idempotency_ttl, idempotency_expiry, cleanup_idempotency, is_stale, begin_revocation,
  record_ack, release_ack, abandon_revocation, complete_revocation, Operation, begun, abandoned,
  released, recorded, swept, apply, run,
}

abbrev pub time_of : Operation → ℕ
time_of (begun key body_hash now) = now
time_of (abandoned key body_hash now) = now
time_of (released key body_hash now) = now
time_of (recorded key body_hash ack now) = now
time_of (swept now) = now

-- Every operation comes before a time.
abbrev pub AllBefore : ℕ → List Operation → Type 0
AllBefore end [] = Unit {0}
AllBefore end (op ∷ ops) = (time_of op < end) × AllBefore end ops

module _ (key : IdempotencyKey) (e : IdempotencyEntry) (completed : e.completed ≡ true) where
  cleanup_idempotency-kept :
      (l : Entries) (now : ℕ)
      → now < e.expires_at
      → lookup key l ≡ some e
      → lookup key (cleanup_idempotency l now) ≡ some e
  unfolding cleanup_idempotency
  cleanup_idempotency-kept l now early here =
      keep-some (λ k entry. not (is_stale now entry)) key e l here (ground (arith, early))

  apply-kept :
      (op : Operation) (l : Entries)
      → time_of op < e.expires_at
      → lookup key l ≡ some e
      → lookup key (apply op l) ≡ some e
  unfolding apply begin_revocation record_ack release_ack abandon_revocation
  apply-kept (begun other body_hash now) l early here =
      let still = cleanup_idempotency-kept l now early here in
      let clean = cleanup_idempotency l now in
      elim (Option-cases (lookup other clean)) [
        | inl missing ↦ ground (
          arith,
          missing,
          still,
          idempotency_key_Eq.beq_iff other key,
          lookup-insert other key
              (record {
                body_hash = body_hash;
                ack = none;
                expires_at = now + idempotency_ttl;
                completed = false;
              })
              clean,
        )
        | inr (entry, found) ↦ ground (arith, found, still)
      ]
  apply-kept (abandoned other body_hash now) l early here = elim (Option-cases (lookup other l)) [
    | inl missing ↦ ground (arith, missing, here)
    | inr (entry, found) ↦ ground (
      arith,
      found,
      here,
      completed,
      idempotency_key_Eq.beq_iff other key,
      lookup-delete other key l,
    )
  ]
  apply-kept (released other body_hash now) l early here = elim (Option-cases (lookup other l)) [
    | inl missing ↦ ground (arith, missing, here)
    | inr (entry, found) ↦ ground (
      arith,
      found,
      here,
      completed,
      idempotency_key_Eq.beq_iff other key,
      lookup-insert other key (record entry { completed = true }) l,
    )
  ]
  apply-kept (recorded other body_hash ack now) l early here =
      elim (Option-cases (lookup other l)) [
        | inl missing ↦ ground (arith, missing, here)
        | inr (entry, found) ↦ ground (
          arith,
          found,
          here,
          completed,
          idempotency_key_Eq.beq_iff other key,
          lookup-insert other key
              (record entry {
                ack = some ack;
                expires_at = idempotency_expiry ack (now + idempotency_ttl);
              })
              l,
        )
      ]
  apply-kept (swept now) l early here = cleanup_idempotency-kept l now early here

  run-kept :
      (ops : List Operation) (l : Entries)
      → AllBefore e.expires_at ops
      → lookup key l ≡ some e
      → lookup key (run ops l) ≡ some e
  unfolding run
  run-kept [] l early here = here
  run-kept (op ∷ ops) l early here =
      run-kept ops (apply op l) early.1 (apply-kept op l early.0 here)

-- The entry that a completion leaves.
abbrev completed_entry : List ℕ → PrivateControlAck → ℕ → IdempotencyEntry
completed_entry body_hash ack now = record {
  body_hash = body_hash;
  ack = some ack;
  expires_at = idempotency_expiry ack (now + idempotency_ttl);
  completed = true;
}

-- The entry between the halves.
abbrev noted_entry : List ℕ → PrivateControlAck → ℕ → IdempotencyEntry
noted_entry body_hash ack now = record (completed_entry body_hash ack now) { completed = false }

record_ack-entry :
    (l : Entries) (key : IdempotencyKey) (body_hash : List ℕ) (ack : PrivateControlAck) (now : ℕ)
    → (record_ack l key body_hash ack now).1 ≡ true
    → lookup key (record_ack l key body_hash ack now).0 ≡ some (noted_entry body_hash ack now)
unfolding record_ack
record_ack-entry l key body_hash ack now good = elim (Option-cases (lookup key l)) [
  | inl missing ↦ ground (arith, missing, good)
  | inr (entry, found) ↦ ground (
    arith,
    found,
    good,
    bytes_eq_iff entry.body_hash body_hash,
    idempotency_key_Eq.beq_iff key key,
    lookup-insert key key
        (record entry {
          ack = some ack;
          expires_at = idempotency_expiry ack (now + idempotency_ttl);
        })
        l,
  )
]

release_ack-entry :
    (l : Entries) (key : IdempotencyKey) (body_hash : List ℕ) (e : IdempotencyEntry)
    → lookup key l ≡ some e
    → (release_ack l key body_hash).1 ≡ true
    → lookup key (release_ack l key body_hash).0 ≡ some (record e { completed = true })
unfolding release_ack
release_ack-entry l key body_hash e here good = ground (
  arith,
  here,
  good,
  idempotency_key_Eq.beq_iff key key,
  lookup-insert key key (record e { completed = true }) l,
)

complete_revocation-entry :
    (l : Entries) (key : IdempotencyKey) (body_hash : List ℕ) (ack : PrivateControlAck) (now : ℕ)
    → (complete_revocation l key body_hash ack now true).1 ≡ true
    → lookup key (complete_revocation l key body_hash ack now true).0
      ≡ some (completed_entry body_hash ack now)
unfolding complete_revocation cleanup_idempotency
complete_revocation-entry l key body_hash ack now good =
    let l1 = (record_ack l key body_hash ack now).0 in
    let noted = noted_entry body_hash ack now in
    elim (Bool-cases (record_ack l key body_hash ack now).1) [
      | inl noted_ack ↦
          let here : lookup key (cleanup_idempotency l1 now) ≡ some noted =
            keep-some (λ k entry. not (is_stale now entry)) key noted l1
              (record_ack-entry l key body_hash ack now noted_ack) refl in
          ground (
            arith,
            noted_ack,
            good,
            release_ack-entry (cleanup_idempotency l1 now) key body_hash noted here,
          )
      | inr refused ↦ ground (arith, refused, good)
    ]

-- A revocation that is completed is not carried out again: until its acknowledgement expires, as
-- `idempotency_expiry` counts from ten minutes after the completion, whatever other revocations begin,
-- are completed or are abandoned meanwhile, a command with the same ID and body gets the same
-- acknowledgement, and one with the same ID and another body is a conflict.
pub completed_once :
    (l : Entries) (key : IdempotencyKey) (body_hash : List ℕ) (ack : PrivateControlAck) (done : ℕ)
    (ops : List Operation) (other_hash : List ℕ) (now : ℕ)
    → (complete_revocation l key body_hash ack done true).1 ≡ true
    → AllBefore (idempotency_expiry ack (done + idempotency_ttl)) ops
    → now < idempotency_expiry ack (done + idempotency_ttl)
    → (begin_revocation
        (run ops (complete_revocation l key body_hash ack done true).0)
        key
        other_hash
        now).1
      ≡ (if bytes_eq body_hash other_hash then cached ack else conflict)
unfolding begin_revocation
completed_once l key body_hash ack done ops other_hash now good early soon =
    let e = completed_entry body_hash ack done in
    let after = (complete_revocation l key body_hash ack done true).0 in
    ground (
      arith,
      cleanup_idempotency-kept key e refl (run ops after) now soon (
          run-kept key e refl ops after early
            (complete_revocation-entry l key body_hash ack done good)),
    )
