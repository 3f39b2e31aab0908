-- ===== src/Nonce/Account.antt =====
-- The account of the nonces that went out, and what a call does to it.
use incom_udon_server.Base.{
  ℕ, zero, suc, ◌+◌, ◌*◌, ◌/◌, ◌%◌, ◌^◌, ◌<◌, ◌≡◌, refl, ap, inl, inr, arith, List, ◌∷◌, Bool, true,
  false, ◌||◌, Option, none, some, bit_or, ◌==◌, if◌then◌else◌, contains, Bool-cases, Option-cases,
}
use incom_udon_server.Base.Bits.{bit_or-packed}
use incom_udon_server.Platform.{Platform}
use incom_udon_server.Nonce.{
  RelayNonces, draw_instance_id, new_relay_instance_id, issue_nonce, roll_over, next_relay_nonce,
}
use native.Mathlib.Decide.{ℕ_discrete}

-- The state after the nonces `s` went out.
pub record Issued (a : RelayNonces) (s : List ℕ) : Type 0 where
  pub current : contains a.used_instance_ids a.instance_id ≡ true
  pub fits : a.instance_id < 2 ^ 32
  pub counter_fits : a.counter < 2 ^ 32
  pub known : (n : ℕ) → contains s n ≡ true → contains a.used_instance_ids (n / 2 ^ 32) ≡ true
  pub past :
      (n : ℕ)
      → contains s n ≡ true
      → n / 2 ^ 32 ≡ a.instance_id
      → a.counter_exhausted ≡ false
      → n % 2 ^ 32 < a.counter

nonce_value :
    (id c : ℕ) → id < 2 ^ 32 → c < 2 ^ 32 → bit_or (id * 2 ^ 32 % 2 ^ 64) c ≡ id * 2 ^ 32 + c
nonce_value id c h k =
    let e : id * 2 ^ 32 % 2 ^ 64 ≡ id * 2 ^ 32 = omega arith in rw e (bit_or-packed 32 id c k)

-- The nonce that `issue_nonce` hands out.
abbrev nonce_of : RelayNonces → ℕ
nonce_of a = a.instance_id * 2 ^ 32 + a.counter

issue_value : (a : RelayNonces) (s : List ℕ) → Issued a s → (issue_nonce a).1 ≡ some (nonce_of a)
unfolding issue_nonce
issue_value a s v = ground (arith, nonce_value a.instance_id a.counter v.fits v.counter_fits)

issue_new :
    (a : RelayNonces) (s : List ℕ)
    → Issued a s
    → a.counter_exhausted ≡ false
    → contains s (nonce_of a) ≡ false
issue_new a s v ready = elim (Bool-cases (contains s (nonce_of a))) [
  | inr new ↦ new
  | inl old ↦
      absurd (
        omega
          (arith, v.past (nonce_of a) old (omega (arith, v.counter_fits)) ready, v.counter_fits))
]

issue-Issued :
    (a : RelayNonces) (s : List ℕ)
    → Issued a s
    → a.counter_exhausted ≡ false
    → Issued (issue_nonce a).0 (nonce_of a ∷ s)
unfolding issue_nonce
issue-Issued a s v ready = elim (Bool-cases (a.counter == 0xffff_ffff)) [
  | inl last ↦ rw last (record {
    current = v.current;
    fits = v.fits;
    counter_fits = v.counter_fits;
    known = λ n m. issue_known n m;
    past = λ n m e r. cc;
  })
  | inr more ↦ rw more (record {
    current = v.current;
    fits = v.fits;
    counter_fits = ground (arith, v.counter_fits);
    known = λ n m. issue_known n m;
    past = λ n m e r. ground (arith, v.past n, v.counter_fits);
  })
]
  where
    issue_known :
        (n : ℕ)
        → contains (nonce_of a ∷ s) n ≡ true
        → contains a.used_instance_ids (n / 2 ^ 32) ≡ true
    issue_known n m = elim (ℕ_discrete (nonce_of a) n) [
      | yes e ↦ let i : n / 2 ^ 32 ≡ a.instance_id = omega (arith, v.counter_fits) in rw i v.current
      | no e ↦ v.known n (ground arith)
    ]

-- What a search for a fresh instance may return: nothing, or a new identifier, recorded.
data Drawn (a : RelayNonces) (r : RelayNonces × Option ℕ) : Type 0 where
  failed : (n : ℕ) → r ≡ (record a { draws = n }, none) → Drawn a r
  fresh :
      (n id : ℕ)
      → contains a.used_instance_ids id ≡ false
      → id < 2 ^ 32
      → r ≡ (record a { used_instance_ids = id ∷ a.used_instance_ids; draws = n }, some id)
      → Drawn a r

-- The random source yields uint32 values.
abbrev pub IsU32Source : Platform → Type 0
IsU32Source p = (n id : ℕ) → p.random_u32 n ≡ some id → id < 2 ^ 32

draw-Drawn :
    (p : Platform) (attempts : ℕ) (a : RelayNonces)
    → IsU32Source p
    → Drawn a (draw_instance_id p attempts a)
unfolding draw_instance_id
draw-Drawn p zero a u = failed a.draws refl
draw-Drawn p (suc n) a u = elim (Option-cases (p.random_u32 a.draws)) [
  | inl stuck ↦ failed (a.draws + 1) (ground (arith, stuck))
  | inr (id, e) ↦ elim (Bool-cases ((id == 0) || contains a.used_instance_ids id)) [
    | inr good ↦ fresh (a.draws + 1) id (ground arith) (u a.draws id e) (ground (arith, e, good))
    | inl bad ↦ elim (draw-Drawn p n (record a { draws = a.draws + 1 }) u) [
      | failed m q ↦ failed m (ground (arith, e, bad, q))
      | fresh m i c l q ↦ fresh m i c l (ground (arith, e, bad, q))
    ]
  ]
]

-- A fresh instance takes over with its counter at 0.
fresh-Issued :
    (a : RelayNonces) (s : List ℕ) (n id : ℕ)
    → Issued a s
    → contains a.used_instance_ids id ≡ false
    → id < 2 ^ 32
    → Issued
        (record {
          instance_id = id;
          counter = 0;
          counter_exhausted = false;
          used_instance_ids = id ∷ a.used_instance_ids;
          draws = n;
        })
        s
fresh-Issued a s n id v new small = record {
  current = ground arith;
  fits = small;
  counter_fits = omega arith;
  known = λ m k. ground (arith, v.known m k);
  past = λ m k e r. absurd (unused m k e);
}
  where
    unused : (m : ℕ) → contains s m ≡ true → m / 2 ^ 32 ≡ id → ⊥
    unused m k e = cc (v.known m k, ap (contains a.used_instance_ids) e)

-- The outcome of a call: a new nonce, or none and the same account.
pub data Outcome (s : List ℕ) (r : RelayNonces × Option ℕ) : Type 0 where
  refused : r.1 ≡ none → Issued r.0 s → Outcome s r
  granted : (n : ℕ) → r.1 ≡ some n → contains s n ≡ false → Issued r.0 (n ∷ s) → Outcome s r

issue-Outcome :
    (a : RelayNonces) (s : List ℕ)
    → Issued a s
    → a.counter_exhausted ≡ false
    → Outcome s (issue_nonce a)
issue-Outcome a s v ready =
    granted (nonce_of a) (issue_value a s v) (issue_new a s v ready) (issue-Issued a s v ready)

roll-Outcome :
    (a : RelayNonces) (s : List ℕ) (r : RelayNonces × Option ℕ)
    → Issued a s
    → Drawn a r
    → Outcome s (roll_over r)
roll-Outcome a s r v (failed n q) = rw q (
    unfold roll_over in
    refused refl (record {
      current = v.current;
      fits = v.fits;
      counter_fits = v.counter_fits;
      known = v.known;
      past = v.past;
    }))
roll-Outcome a s r v (fresh n id new small q) =
    rw q (unfold roll_over in issue-Outcome _ s (fresh-Issued a s n id v new small) refl)

next_ready :
    (p : Platform) (a : RelayNonces)
    → a.counter_exhausted ≡ false
    → next_relay_nonce p a ≡ issue_nonce a
unfolding next_relay_nonce
next_ready p a h =
    ap (λ (b : Bool). if b then roll_over (new_relay_instance_id p a) else issue_nonce a) h

next_over :
    (p : Platform) (a : RelayNonces)
    → a.counter_exhausted ≡ true
    → next_relay_nonce p a ≡ roll_over (draw_instance_id p 32 a)
unfolding next_relay_nonce
next_over p a h =
    ap (λ (b : Bool). if b then roll_over (new_relay_instance_id p a) else issue_nonce a) h

pub next-Outcome :
    (p : Platform) (a : RelayNonces) (s : List ℕ)
    → IsU32Source p
    → Issued a s
    → Outcome s (next_relay_nonce p a)
next-Outcome p a s u v = elim (Bool-cases a.counter_exhausted) [
  | inr ready ↦ rw (next_ready p a ready) (issue-Outcome a s v ready)
  | inl over ↦ rw (next_over p a over) (roll-Outcome a s _ v (draw-Drawn p 32 a u))
]
