-- ===== src/PrivateControl/Idempotency/Bounds.antt =====
-- The number of idempotency entries.
use incom_udon_server.Base.{
  ℕ, ◌+◌, ◌≤◌, false, true, arith, List, [], ◌∷◌, not, none, some, length, Option-cases, inl, inr,
}
use incom_udon_server.Base.Assoc.{lookup, length-keep-le, length-insert, length-delete-le}
use incom_udon_server.PrivateControl.Idempotency.{
  idempotency_key_Eq, Entries, max_idempotency, idempotency_ttl, idempotency_expiry, is_stale,
  cleanup_idempotency, begin_revocation, record_ack, release_ack, abandon_revocation, Operation,
  begun, abandoned, released, recorded, swept, apply, run,
}

abbrev pub IsBoundedEntries : Entries → Type 0
IsBoundedEntries l = length l ≤ max_idempotency

cleanup_idempotency-IsBoundedEntries :
    (l : Entries) (now : ℕ) → length (cleanup_idempotency l now) ≤ length l
unfolding cleanup_idempotency
cleanup_idempotency-IsBoundedEntries l now = length-keep-le (λ k entry. not (is_stale now entry)) l

apply-IsBoundedEntries :
    (op : Operation) (l : Entries) → IsBoundedEntries l → IsBoundedEntries (apply op l)
unfolding apply begin_revocation record_ack release_ack abandon_revocation
apply-IsBoundedEntries (begun key body_hash now) l h =
    let clean = cleanup_idempotency l now in
    elim (Option-cases (lookup key clean)) [
      | inl missing ↦ ground (
        arith,
        missing,
        h,
        cleanup_idempotency-IsBoundedEntries l now,
        length-insert key
            (record {
              body_hash = body_hash;
              ack = none;
              expires_at = now + idempotency_ttl;
              completed = false;
            })
            clean,
      )
      | inr (entry, found) ↦ ground (arith, found, h, cleanup_idempotency-IsBoundedEntries l now)
    ]
apply-IsBoundedEntries (abandoned key body_hash now) l h = elim (Option-cases (lookup key l)) [
  | inl missing ↦ ground (arith, missing, h)
  | inr (entry, found) ↦ ground (arith, found, h, length-delete-le key l)
]
apply-IsBoundedEntries (released key body_hash now) l h = elim (Option-cases (lookup key l)) [
  | inl missing ↦ ground (arith, missing, h)
  | inr (entry, found) ↦
      ground (arith, found, h, length-insert key (record entry { completed = true }) l)
]
apply-IsBoundedEntries (recorded key body_hash ack now) l h = elim (Option-cases (lookup key l)) [
  | inl missing ↦ ground (arith, missing, h)
  | inr (entry, found) ↦ ground (
    arith,
    found,
    h,
    length-insert key
        (record entry {
          ack = some ack;
          expires_at = idempotency_expiry ack (now + idempotency_ttl);
        })
        l,
  )
]
apply-IsBoundedEntries (swept now) l h =
    ground (arith, h, cleanup_idempotency-IsBoundedEntries l now)

-- Whatever commands come, the entries stay within 1024.
pub run-IsBoundedEntries :
    (ops : List Operation) (l : Entries) → IsBoundedEntries l → IsBoundedEntries (run ops l)
unfolding run
run-IsBoundedEntries [] l h = h
run-IsBoundedEntries (op ∷ ops) l h =
    run-IsBoundedEntries ops (apply op l) (apply-IsBoundedEntries op l h)
