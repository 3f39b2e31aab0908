-- ===== src/Auth/Counters/Tracks.antt =====
-- A pending session in the table, followed by the counters that its window stands for.
use mathlib.Core.Path.{transport}
use incom_udon_server.Base.{
  ℕ, ◌≡◌, ◌∙◌, arith, List, ◌∷◌, Bool, true, false, Option, none, some, Option-cases, Bool-cases,
  inl, inr, ap, sym, contains,
}
use incom_udon_server.Base.Assoc.{
  Map, lookup, lookup-insert, lookup-delete, Distinct, keep-Distinct, insert-Distinct,
  delete-Distinct, lookup-keep, keep, kept, insert, delete,
}
use incom_udon_server.Replay.{Window, accept_replay_counter}
use incom_udon_server.Replay.Accepted.{Represents, acceptable, accept_replay_counter-Represents}
use incom_udon_server.Auth.State.{
  ProvisionalReplayKey, ProvisionalReplayState, replay_key_eq, replay_key_eq_iff, replay_key_Eq,
  challenge_key_Eq,
}
use incom_udon_server.Auth.Challenge.{accept_provisional}

-- The session, if it is pending, has a window that stands for the counters `s`.
abbrev Entry : List ℕ → Option ProvisionalReplayState → Type 0
Entry s none = Unit {0}
Entry s (some state) = Represents state.window s

abbrev pub Tracks :
    ProvisionalReplayKey → List ℕ → Map ProvisionalReplayKey ProvisionalReplayState → Type 0
Tracks rk s m = Distinct m × Entry s (lookup rk m)

-- An accepted counter is new, and the window stands for it from then on.
accepted-new :
    (w : Window) (s : List ℕ) (c : ℕ)
    → Represents w s
    → (accept_replay_counter w c).1 ≡ true
    → (contains s c ≡ false) × Represents (accept_replay_counter w c).0 (c ∷ s)
accepted-new w s c r e =
    let (verdict, after, same) = accept_replay_counter-Represents w s c r in
    let good : acceptable s w.highest c ≡ true = sym verdict ∙ e in
    (ground (arith, good), rw good at after)

module _ (rk : ProvisionalReplayKey) (s : List ℕ) where
  pub provisional-new :
      (m : Map ProvisionalReplayKey ProvisionalReplayState) (k : ProvisionalReplayKey) (c : ℕ)
      (state : ProvisionalReplayState)
      → replay_key_eq k rk ≡ true
      → Entry s (lookup rk m)
      → accept_provisional m k c ≡ some state
      → (contains s c ≡ false) × Represents state.window (c ∷ s)
  unfolding accept_provisional
  provisional-new m k c state own h e =
      let is : rk ≡ k = sym ((replay_key_eq_iff k rk).0 own) in
      elim (Option-cases (lookup k m)) [
        | inl missing ↦ absurd (ground (arith, missing, e))
        | inr (old, here) ↦
            let r : Represents old.window s =
              transport (ap (Entry s) (ap (λ j. lookup j m) is ∙ here)) h in
            let good : (accept_replay_counter old.window c).1 ≡ true = ground (arith, here, e) in
            let window : state.window ≡ (accept_replay_counter old.window c).0 =
              ground (arith, here, e, good) in
            let (new, after) = accepted-new old.window s c r good in
            (new, transport (ap (λ w. Represents w (c ∷ s)) (sym window)) after)
      ]

  kept-Entry :
      (q : ProvisionalReplayKey → ProvisionalReplayState → Bool) (x : Option ProvisionalReplayState)
      → Entry s x
      → Entry s (kept q rk x)
  kept-Entry q none h = tt
  kept-Entry q (some state) h = elim (Bool-cases (q rk state)) [
    | inl stays ↦ rw stays h
    | inr goes ↦ rw goes tt
  ]

  pub keep-Tracks :
      (q : ProvisionalReplayKey → ProvisionalReplayState → Bool)
      (m : Map ProvisionalReplayKey ProvisionalReplayState)
      → Tracks rk s m
      → Tracks rk s (keep q m)
  keep-Tracks q m h = (
    keep-Distinct q m h.0,
    transport (ap (Entry s) (sym (lookup-keep q rk m h.0))) (kept-Entry q (lookup rk m) h.1),
  )

  along :
      (x : Option ProvisionalReplayState) {y : Option ProvisionalReplayState}
      → y ≡ x
      → Entry s x
      → Entry s y
  along x e h = transport (ap (Entry s) (sym e)) h

  pub delete-Tracks :
      (k : ProvisionalReplayKey) (m : Map ProvisionalReplayKey ProvisionalReplayState)
      → Tracks rk s m
      → Tracks rk s (delete k m)
  delete-Tracks k m h = (
    delete-Distinct k m h.0,
    elim (Bool-cases (replay_key_eq k rk)) [
      | inl own ↦ along none (ground (arith, own, lookup-delete k rk m)) tt
      | inr other ↦ along (lookup rk m) (ground (arith, other, lookup-delete k rk m)) h.1
    ],
  )

  pub insert-Tracks :
      (k : ProvisionalReplayKey) (v : ProvisionalReplayState)
      (m : Map ProvisionalReplayKey ProvisionalReplayState)
      → replay_key_eq k rk ≡ false
      → Tracks rk s m
      → Tracks rk s (insert k v m)
  insert-Tracks k v m other h = (
    insert-Distinct k v m h.0,
    along (lookup rk m) (ground (arith, other, lookup-insert k rk v m)) h.1,
  )

  pub insert_own-Tracks :
      (k : ProvisionalReplayKey) (v : ProvisionalReplayState)
      (m : Map ProvisionalReplayKey ProvisionalReplayState)
      → replay_key_eq k rk ≡ true
      → Distinct m
      → Represents v.window s
      → Tracks rk s (insert k v m)
  insert_own-Tracks k v m own d r =
      (insert-Distinct k v m d, along (some v) (ground (arith, own, lookup-insert k rk v m)) r)

  pub delete_own-Tracks :
      (k : ProvisionalReplayKey) (m : Map ProvisionalReplayKey ProvisionalReplayState)
      → replay_key_eq k rk ≡ true
      → Distinct m
      → Tracks rk s (delete k m)
  delete_own-Tracks k m own d =
      (delete-Distinct k m d, along none (ground (arith, own, lookup-delete k rk m)) tt)
