-- ===== src/PrivateControl/Idempotency.antt =====
-- The idempotency of revocations: `beginRevocation`, `completeRevocation`, `abandonRevocation`,
-- `cachedCompletedRevocation` and the entries of `cleanupIdempotencyLocked` of private_control.go,
-- and `privateControlIdempotencyExpiry` of private_control_state.go. The channel that wakes a waiting
-- duplicate is left out. A time is a count of nanoseconds.
use Prim.Native.String.{String}
use incom_udon_server.Base.{
  ℕ, ◌+◌, ◌*◌, ◌≡◌, ◌↔◌, refl, arith, List, [], ◌∷◌, Bool, true, false, not, ◌&&◌, ◌||◌, Option,
  none, some, ltb, leb, if◌then◌else◌, is_some, length, bytes_eq, bytes_eq_iff, string_eq, Eq,
}
use incom_udon_server.Base.Assoc.{Map, lookup, insert, delete, keep}
use incom_udon_server.Platform.{second}
pub mod Retention
pub mod Bounds

pub record PrivateControlAck : Type 0 where
  pub message_id : List ℕ
  pub in_reply_to : List ℕ
  pub outcome : String
  pub deny_until : ℕ
  pub affected_membership_count : ℕ
  pub talk_release_count : ℕ

pub record IdempotencyKey : Type 0 where
  pub service_id : List ℕ
  pub message_id : List ℕ

abbrev pub idempotency_key_eq : IdempotencyKey → IdempotencyKey → Bool
idempotency_key_eq a b = bytes_eq a.service_id b.service_id && bytes_eq a.message_id b.message_id

pub idempotency_key_eq_iff : (a b : IdempotencyKey) → (idempotency_key_eq a b ≡ true) ↔ (a ≡ b)
idempotency_key_eq_iff a b =
    ground (arith, bytes_eq_iff a.service_id b.service_id, bytes_eq_iff a.message_id b.message_id)

instance abbrev pub idempotency_key_Eq : Eq IdempotencyKey
idempotency_key_Eq = record { beq = idempotency_key_eq; beq_iff = idempotency_key_eq_iff }

pub record IdempotencyEntry : Type 0 where
  pub body_hash : List ℕ
  pub ack : Option PrivateControlAck
  pub expires_at : ℕ
  pub completed : Bool

abbrev pub Entries : Type 0
Entries = Map IdempotencyKey IdempotencyEntry

pub data Begun : Type 0 where
  cached : PrivateControlAck → Begun
  pending execute conflict overloaded : Begun

abbrev pub idempotency_ttl : ℕ
idempotency_ttl = 600 * second

abbrev pub max_idempotency : ℕ
max_idempotency = 1024

-- An acknowledgement is kept for ten minutes, and one of an applied revocation as long as its deny
-- rule.
unfoldable pub idempotency_expiry : PrivateControlAck → ℕ → ℕ
idempotency_expiry ack now =
    let expires_at = now + idempotency_ttl in
    let deny_until = ack.deny_until * second in
    if string_eq.beq ack.outcome "applied" && ltb expires_at deny_until
    then deny_until
    else expires_at

abbrev pub is_stale : ℕ → IdempotencyEntry → Bool
is_stale now entry = entry.completed && is_some entry.ack && not (ltb now entry.expires_at)

unfoldable pub cleanup_idempotency : Entries → ℕ → Entries
cleanup_idempotency l now = keep (λ k entry. not (is_stale now entry)) l

abbrev ack_or_pending : Option PrivateControlAck → Begun
ack_or_pending none = pending
ack_or_pending (some ack) = cached ack

abbrev answer : IdempotencyEntry → List ℕ → Begun
answer entry body_hash =
    if not (bytes_eq entry.body_hash body_hash)
    then conflict
    else if entry.completed
    then ack_or_pending entry.ack
    else pending

unfoldable pub begin_revocation : Entries → IdempotencyKey → List ℕ → ℕ → Entries × Begun
begin_revocation l key body_hash now =
    let clean = cleanup_idempotency l now in
    elim (lookup key clean) [
      | some entry ↦ (clean, answer entry body_hash)
      | none ↦ if leb max_idempotency (length clean) then (clean, overloaded) else (
        insert key
            (record {
              body_hash = body_hash;
              ack = none;
              expires_at = now + idempotency_ttl;
              completed = false;
            })
            clean,
        execute,
      )
    ]

-- An entry that is still open, of the same command.
abbrev is_open : IdempotencyEntry → List ℕ → Bool
is_open entry body_hash = bytes_eq entry.body_hash body_hash && not entry.completed

-- The first half of `completeRevocation`: the acknowledgement is set down before the state is written
-- to the disk.
unfoldable pub record_ack :
    Entries → IdempotencyKey → List ℕ → PrivateControlAck → ℕ → Entries × Bool
record_ack l key body_hash ack now = elim (lookup key l) [
  | none ↦ (l, false)
  | some entry ↦ if not (is_open entry body_hash) then (l, false) else (
    insert key
        (record entry {
          ack = some ack;
          expires_at = idempotency_expiry ack (now + idempotency_ttl);
        })
        l,
    true,
  )
]

-- The second half, after the state is on the disk.
unfoldable pub release_ack : Entries → IdempotencyKey → List ℕ → Entries × Bool
release_ack l key body_hash = elim (lookup key l) [
  | none ↦ (l, false)
  | some entry ↦
      if not (is_open entry body_hash) || not (is_some entry.ack)
      then (l, false)
      else (insert key (record entry { completed = true }) l, true)
]

unfoldable pub abandon_revocation : Entries → IdempotencyKey → List ℕ → Entries
abandon_revocation l key body_hash = elim (lookup key l) [
  | none ↦ l
  | some entry ↦ if not (is_open entry body_hash) then l else delete key l
]

unfoldable pub cached_completed_revocation :
    Entries → IdempotencyKey → List ℕ → Option PrivateControlAck
cached_completed_revocation l key body_hash = elim (lookup key l) [
  | none ↦ none
  | some entry ↦
      if not (bytes_eq entry.body_hash body_hash) || not entry.completed then none else entry.ack
]

-- `completeRevocation` where nothing comes between its halves; whether the write of the state
-- succeeds is an argument. The write starts with a cleanup.
unfoldable pub complete_revocation :
    Entries → IdempotencyKey → List ℕ → PrivateControlAck → ℕ → Bool → Entries × Bool
complete_revocation l key body_hash ack now persisted =
    let (l1, recorded) = record_ack l key body_hash ack now in
    let l2 = cleanup_idempotency l1 now in
    if not recorded
    then (l1, false)
    else if not persisted
    then (abandon_revocation l2 key body_hash, false)
    else release_ack l2 key body_hash

-- What other sessions do meanwhile; the halves of a completion are steps of their own.
pub data Operation : Type 0 where
  begun abandoned released : IdempotencyKey → List ℕ → ℕ → Operation
  recorded : IdempotencyKey → List ℕ → PrivateControlAck → ℕ → Operation
  swept : ℕ → Operation

unfoldable pub apply : Operation → Entries → Entries
apply (begun key body_hash now) l = (begin_revocation l key body_hash now).0
apply (abandoned key body_hash now) l = abandon_revocation l key body_hash
apply (released key body_hash now) l = (release_ack l key body_hash).0
apply (recorded key body_hash ack now) l = (record_ack l key body_hash ack now).0
apply (swept now) l = cleanup_idempotency l now

unfoldable pub run : List Operation → Entries → Entries
run [] l = l
run (op ∷ ops) l = run ops (apply op l)
