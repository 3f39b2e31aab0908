-- ===== src/Nonce/Unique.antt =====
-- No nonce is issued twice.
use incom_udon_server.Base.{
  ℕ, zero, suc, ◌^◌, ◌<◌, ◌≡◌, arith, List, [], ◌∷◌, false, none, some, AllNew,
}
use incom_udon_server.Platform.{Platform}
use incom_udon_server.Nonce.{RelayNonces, next_relay_nonce}
use incom_udon_server.Nonce.Account.{Issued, refused, granted, IsU32Source, next-Outcome}

-- The nonces of `n` calls, in their order; a refused call adds none.
unfoldable pub issued : Platform → ℕ → RelayNonces → List ℕ
issued p zero a = []
issued p (suc n) a =
    let rest = issued p n (next_relay_nonce p a).0 in
    elim (next_relay_nonce p a).1 [ none ↦ rest | some nonce ↦ nonce ∷ rest ]

issued_refused :
    (p : Platform) (n : ℕ) (a : RelayNonces)
    → (next_relay_nonce p a).1 ≡ none
    → issued p (suc n) a ≡ issued p n (next_relay_nonce p a).0
unfolding issued
issued_refused p n a e = ground (arith, e)

issued_granted :
    (p : Platform) (n : ℕ) (a : RelayNonces) (m : ℕ)
    → (next_relay_nonce p a).1 ≡ some m
    → issued p (suc n) a ≡ m ∷ issued p n (next_relay_nonce p a).0
unfolding issued
issued_granted p n a m e = ground (arith, e)

issued_after :
    (p : Platform) (n : ℕ) (a : RelayNonces) (s : List ℕ)
    → IsU32Source p
    → Issued a s
    → AllNew s (issued p n a)
issued_after p zero a s u v = unfold issued in tt
issued_after p (suc n) a s u v = elim (next-Outcome p a s u v) [
  | refused e w ↦ rw (issued_refused p n a e) (issued_after p n (next_relay_nonce p a).0 s u w)
  | granted m e new w ↦
      rw (issued_granted p n a m e) (new, issued_after p n (next_relay_nonce p a).0 (m ∷ s) u w)
]

-- The state that `newControlAuthState` leaves for a first instance `id`.
abbrev pub first_instance : ℕ → ℕ → RelayNonces
first_instance id n = record {
  instance_id = id;
  counter = 0;
  counter_exhausted = false;
  used_instance_ids = id ∷ [];
  draws = n;
}

-- However many control packets the relay sends, over any number of roll-overs of the counter, and
-- whatever uint32 values the random source yields, no two of them carry the same nonce.
pub issued_distinct :
    (p : Platform) (n id draws : ℕ)
    → IsU32Source p
    → id < 2 ^ 32
    → AllNew [] (issued p n (first_instance id draws))
issued_distinct p n id draws u h = issued_after p n (first_instance id draws) [] u (record {
  current = ground arith;
  fits = h;
  counter_fits = omega arith;
  known = λ m k. cc;
  past = λ m k e r. cc;
})
