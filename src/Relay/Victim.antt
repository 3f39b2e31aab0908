-- ===== src/Relay/Victim.antt =====
-- The victim that the floor interrupt picks: an active talker of the lowest priority, and of the
-- lowest sender ID among those.
use Prim.Native.Nat.{◌≤◌}
use incom_udon_server.Base.{
  ℕ, ◌<◌, ◌≡◌, refl, arith, [], ◌∷◌, true, none, is_some, nat_eq, ◌⊎◌, inl,
}
use incom_udon_server.Base.Assoc.{Map, lookup}
use incom_udon_server.Relay.Request.{lower_of, pick_victim, Victim}

-- The victim is no worse a choice than a talker with this priority and sender ID.
abbrev pub IsBelow : Victim → ℕ → ℕ → Type 0
IsBelow victim priority sender_id =
    (0 < victim.sender_id)
    × ((victim.priority ≤ priority) × (victim.priority ≡ priority → victim.sender_id ≤ sender_id))

module _ (priority_of : ℕ → ℕ) where
  lower_of-IsBelow :
      (sender_id : ℕ) (victim : Victim)
      → (0 < sender_id
          → IsBelow (lower_of priority_of sender_id victim) (priority_of sender_id) sender_id)
        × (0 < victim.sender_id
            → 0 < sender_id
            → IsBelow (lower_of priority_of sender_id victim) victim.priority victim.sender_id)
  unfolding lower_of
  lower_of-IsBelow sender_id victim = ground arith

  lower_of-cases :
      (sender_id : ℕ) (victim : Victim)
      → (lower_of priority_of sender_id victim ≡ victim)
        ⊎ (lower_of priority_of sender_id victim
            ≡ record { sender_id = sender_id; priority = priority_of sender_id })
  unfolding lower_of
  lower_of-cases sender_id victim = ground arith

  -- A talker of the list, or the victim that the loop began with.
  pub pick_victim-cases :
      (talkers : Map ℕ ℕ) (victim : Victim)
      → (pick_victim priority_of talkers victim ≡ victim)
        ⊎ ((is_some (lookup (pick_victim priority_of talkers victim).sender_id talkers) ≡ true)
            × ((pick_victim priority_of talkers victim).priority
                ≡ priority_of (pick_victim priority_of talkers victim).sender_id))
  unfolding pick_victim lookup
  pick_victim-cases [] victim = inl refl
  pick_victim-cases ((sender_id, started_at) ∷ talkers) victim = ground (
    arith,
    lower_of-cases sender_id victim,
    pick_victim-cases talkers (lower_of priority_of sender_id victim),
  )

  pub pick_victim-IsBelow :
      (talkers : Map ℕ ℕ) (victim : Victim)
      → lookup 0 talkers ≡ none
      → 0 < victim.sender_id
      → IsBelow (pick_victim priority_of talkers victim) victim.priority victim.sender_id
  unfolding pick_victim lookup
  pick_victim-IsBelow [] victim no_zero h = ground arith
  pick_victim-IsBelow ((sender_id, started_at) ∷ talkers) victim no_zero h = ground (
    arith,
    lower_of-IsBelow sender_id victim,
    pick_victim-IsBelow talkers (lower_of priority_of sender_id victim),
  )

  pub pick_victim-lowest :
      (talkers : Map ℕ ℕ) (victim : Victim) (talker : ℕ)
      → lookup 0 talkers ≡ none
      → is_some (lookup talker talkers) ≡ true
      → IsBelow (pick_victim priority_of talkers victim) (priority_of talker) talker
  unfolding pick_victim lookup
  pick_victim-lowest [] victim talker no_zero h = cc
  pick_victim-lowest ((sender_id, started_at) ∷ talkers) victim talker no_zero h = ground (
    arith,
    lower_of-IsBelow sender_id victim,
    pick_victim-IsBelow talkers (lower_of priority_of sender_id victim),
    pick_victim-lowest talkers (lower_of priority_of sender_id victim) talker,
  )
