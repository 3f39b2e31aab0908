-- ===== src/Nonce.antt =====
-- The nonces of the relay's own control packets: `newRelayInstanceIDLocked` and `nextRelayNonce` of
-- control_auth.go, over the fields of `controlAuthState` that they use.
pub mod Account
pub mod Unique
use incom_udon_server.Base.{
  ℕ, zero, suc, ◌+◌, ◌*◌, ◌%◌, ◌^◌, List, [], ◌∷◌, Bool, true, false, ◌||◌, Option, none, some,
  bit_or, ◌==◌, if◌then◌else◌, contains,
}
use incom_udon_server.Platform.{Platform}
use incom_udon_server.Replay.{shift_left_u64}

-- `draws` counts the readings of the random source.
pub record RelayNonces : Type 0 where
  pub instance_id : ℕ
  pub counter : ℕ
  pub counter_exhausted : Bool
  pub used_instance_ids : List ℕ
  pub draws : ℕ

-- The nonce under the current instance, and the step of the counter.
unfoldable pub issue_nonce : RelayNonces → RelayNonces × Option ℕ
issue_nonce a =
    let nonce = bit_or (shift_left_u64 a.instance_id 32) a.counter in
    if a.counter == 0xffff_ffff
    then (record a { counter_exhausted = true }, some nonce)
    else (record a { counter = a.counter + 1 }, some nonce)

unfoldable pub roll_over : RelayNonces × Option ℕ → RelayNonces × Option ℕ
unfolding issue_nonce
roll_over (a, none) = (a, none)
roll_over (a, some id) =
    issue_nonce (record a { instance_id = id; counter = 0; counter_exhausted = false })

module _ (p : Platform) where
  -- The loop, by the attempts left.
  unfoldable pub draw_instance_id : ℕ → RelayNonces → RelayNonces × Option ℕ
  draw_instance_id zero a = (a, none)
  draw_instance_id (suc attempts) a =
      let drawn = record a { draws = a.draws + 1 } in
      let again = draw_instance_id attempts drawn in
      elim (p.random_u32 a.draws) [
        | none ↦ (drawn, none)
        | some id ↦
            if (id == 0) || contains a.used_instance_ids id
            then again
            else (record drawn { used_instance_ids = id ∷ a.used_instance_ids }, some id)
      ]

  unfoldable pub new_relay_instance_id : RelayNonces → RelayNonces × Option ℕ
  unfolding draw_instance_id
  new_relay_instance_id a = draw_instance_id 32 a

  unfoldable pub next_relay_nonce : RelayNonces → RelayNonces × Option ℕ
  unfolding new_relay_instance_id issue_nonce roll_over
  next_relay_nonce a =
      if a.counter_exhausted then roll_over (new_relay_instance_id a) else issue_nonce a
