-- ===== src/Replay/Accepted.antt =====
-- What the window promises: it is the set of the counters accepted so far, cut off 64 below the
-- highest.
use incom_udon_server.Base.{
  ℕ, zero, suc, ◌+◌, ◌-◌, ◌*◌, ◌%◌, ◌^◌, bit_or, bit_and, ◌≤◌, ◌<◌, ◌≡◌, refl, ap, ◌∙◌, inl, inr,
  arith, Bool, true, false, not, ◌&&◌, ltb, leb, ◌==◌, if◌then◌else◌, contains, List, [], ◌∷◌,
  Bool-cases, lt→ltb,
}
use native.Mathlib.Decide.{dec_lt, dec_le, ℕ_discrete}
use mathlib.Core.Path.{subst}
use incom_udon_server.Base.Bits.{bit}
use incom_udon_server.Replay.Bitmap.{
  bit-moved_lowest, bit-moved_gap, bit-moved_old, test_mask, bit-marked_self, bit-marked_ne,
  bit-one,
}
use incom_udon_server.Replay.{Window, advance, mark, accept_replay_counter, initial_window}

abbrev pub flag : Bool → ℕ
flag true = 1
flag false = 0

-- The window `w` stands for the list `s` of accepted counters.
pub record Represents (w : Window) (s : List ℕ) : Type 0 where
  pub top : contains s w.highest ≡ true
  pub bounded : (c : ℕ) → contains s c ≡ true → c ≤ w.highest
  pub bits : (i : ℕ) → i < 64 → i ≤ w.highest → bit i w.seen ≡ flag (contains s (w.highest - i))

-- The rule that the window implements: new, and less than 64 below the highest.
abbrev pub acceptable : List ℕ → ℕ → ℕ → Bool
acceptable s highest c = not (contains s c) && ltb highest (c + 64)

initial_bits : (i : ℕ) → i ≤ 0 → bit i 1 ≡ flag (contains (0 ∷ []) (0 - i))
unfolding bit
initial_bits zero k = refl
initial_bits (suc i) k = absurd (omega arith)

pub initial-Represents : Represents initial_window (0 ∷ [])
initial-Represents = record {
  top = refl;
  bounded = λ c h. ground arith;
  bits = λ i h k. initial_bits i k;
}

absent_above :
    (w : Window) (s : List ℕ) (c : ℕ) → Represents w s → w.highest < c → contains s c ≡ false
absent_above w s c r h = ground (arith, r.bounded c)

-- A position that the old window does not reach is empty after the move.
advance-clear :
    (w : Window) (c i : ℕ) → suc i < c - w.highest → suc i < 64 → bit (suc i) (advance w c).seen ≡ 0
unfolding advance
advance-clear w c i h k = ground (arith, bit-one i, bit-moved_gap i (c - w.highest) w.seen h k)

advance-old :
    (w : Window) (c i : ℕ)
    → w.highest < c
    → c - w.highest ≤ i
    → i < 64
    → bit i (advance w c).seen ≡ bit (i - (c - w.highest)) w.seen
unfolding advance
advance-old w c i h l k =
    let d : ℕ = c - w.highest in
    let e : i - d + d ≡ i = omega arith in
    ground (
      arith,
      ap (λ (t : ℕ). bit t (bit_or (w.seen * 2 ^ d % 2 ^ 64) 1)) e,
      bit-moved_old (i - d) d w.seen (omega arith) (omega arith),
    )

advance-bits :
    (w : Window) (s : List ℕ) (c : ℕ)
    → Represents w s
    → w.highest < c
    → (i : ℕ) → i < 64
    → i ≤ c
    → bit i (advance w c).seen ≡ flag (contains (c ∷ s) (c - i))
advance-bits w s c r h zero k l =
    let one : bit 0 1 ≡ 1 = unfold bit in refl in
    unfold advance in ground (arith, one, bit-moved_lowest w.seen (c - w.highest))
advance-bits w s c r h (suc i) k l = elim (dec_lt (suc i) (c - w.highest)) [
  | yes p ↦ ground (arith, advance-clear w c i p k, absent_above w s (c - suc i) r (omega arith))
  | no p ↦
      let e : w.highest - (suc i - (c - w.highest)) ≡ c - suc i = omega arith in
      ground (
        arith,
        advance-old w c (suc i) h (omega arith) k,
        r.bits (suc i - (c - w.highest)) (omega arith) (omega arith),
        ap (contains s) e,
      )
]

advance-Represents :
    (w : Window) (s : List ℕ) (c : ℕ)
    → Represents w s
    → w.highest < c
    → Represents (advance w c) (c ∷ s)
unfolding advance
advance-Represents w s c r h = record {
  top = ground arith;
  bounded = λ d m. ground (arith, r.bounded d);
  bits = λ i k l. advance-bits w s c r h i k l;
}

-- A counter at distance `d` below the highest.
mark-bits :
    (w : Window) (s : List ℕ) (d : ℕ)
    → Represents w s
    → d ≤ w.highest
    → d < 64
    → (i : ℕ) → i < 64
    → i ≤ w.highest
    → bit i (bit_or w.seen (1 * 2 ^ d % 2 ^ 64))
      ≡ flag (contains ((w.highest - d) ∷ s) (w.highest - i))
mark-bits w s d r h k i l m = elim (ℕ_discrete i d) [
  | yes e ↦ rw e (ground (arith, bit-marked_self d w.seen k))
  | no e ↦ ground (arith, bit-marked_ne i d w.seen k e, r.bits i l m)
]

marked-Represents :
    (w : Window) (s : List ℕ) (d : ℕ)
    → Represents w s
    → d ≤ w.highest
    → d < 64
    → Represents (record w { seen = bit_or w.seen (1 * 2 ^ d % 2 ^ 64) }) ((w.highest - d) ∷ s)
marked-Represents w s d r h k = record {
  top = ground (arith, r.top);
  bounded = λ c m. ground (arith, r.bounded c);
  bits = mark-bits w s d r h k;
}

-- Whether a distance is unmarked, in the words of the accepted counters.
unmarked :
    (w : Window) (s : List ℕ) (d : ℕ)
    → Represents w s
    → d ≤ w.highest
    → d < 64
    → (bit_and w.seen (1 * 2 ^ d % 2 ^ 64) == 0) ≡ not (contains s (w.highest - d))
unmarked w s d r h k = test_mask d w.seen k ∙ ground (arith, r.bits d k h)

-- What a window holds after a counter was offered.
abbrev pub accepted_after : List ℕ → ℕ → ℕ → List ℕ
accepted_after s highest c = if acceptable s highest c then c ∷ s else s

-- The contract of one call, on its result.
abbrev pub Refines : Window → List ℕ → ℕ → Window × Bool → Type 0
Refines w s c result =
    (result.1 ≡ acceptable s w.highest c)
    × Represents result.0 (accepted_after s w.highest c)
    × (result.1 ≡ false → result.0 ≡ w)

ahead-Refines :
    (w : Window) (s : List ℕ) (c : ℕ)
    → Represents w s
    → w.highest < c
    → Refines w s c (advance w c, true)
ahead-Refines w s c r h =
    let good : acceptable s w.highest c ≡ true = ground (arith, absent_above w s c r h) in
    rw good (refl, advance-Represents w s c r h, λ e. cc)

behind-Refines :
    (w : Window) (s : List ℕ) (c : ℕ)
    → Represents w s
    → c + 64 ≤ w.highest
    → Refines w s c (w, false)
behind-Refines w s c r h =
    let bad : acceptable s w.highest c ≡ false = ground arith in rw bad (refl, r, λ e. refl)

inside-Refines :
    (w : Window) (s : List ℕ) (d : ℕ)
    → Represents w s
    → d ≤ w.highest
    → d < 64
    → Refines w s (w.highest - d) (mark w d)
inside-Refines w s d r h k = elim (Bool-cases (contains s (w.highest - d))) [
  | inl old ↦
      let bad : acceptable s w.highest (w.highest - d) ≡ false = rw old in
      let found : (bit_and w.seen (1 * 2 ^ d % 2 ^ 64) == 0) ≡ false =
        ground (arith, unmarked w s d r h k) in
      let same : mark w d ≡ (w, false) = unfold mark in rw found in
      rw (bad, same) (refl, r, λ e. refl)
  | inr new ↦
      let good : acceptable s w.highest (w.highest - d) ≡ true = ground arith in
      let found : (bit_and w.seen (1 * 2 ^ d % 2 ^ 64) == 0) ≡ true =
        ground (arith, unmarked w s d r h k) in
      let moved : mark w d ≡ (record w { seen = bit_or w.seen (1 * 2 ^ d % 2 ^ 64) }, true) =
        unfold mark in rw found in
      rw (good, moved) (refl, marked-Represents w s d r h k, λ e. cc)
]

-- On a window that stands for the accepted counters `s`, the code accepts exactly the counters that
-- are not in `s` and lie less than 64 below the highest; the new window stands for `s` with the
-- accepted counter added, and a refusal leaves the window as it was.
pub accept_replay_counter-Represents :
    (w : Window) (s : List ℕ) (c : ℕ) → Represents w s → Refines w s c (accept_replay_counter w c)
unfolding accept_replay_counter
accept_replay_counter-Represents w s c r = elim (dec_lt w.highest c) [
  | yes h ↦ rw (lt→ltb _ _ h) (ahead-Refines w s c r h)
  | no h ↦ elim (dec_le (c + 64) w.highest) [
    | yes k ↦
        let low : ltb w.highest c ≡ false = ground arith in
        let far : leb 64 (w.highest - c) ≡ true = ground arith in
        rw (low, far) (behind-Refines w s c r k)
    | no k ↦
        let low : ltb w.highest c ≡ false = ground arith in
        let near : leb 64 (w.highest - c) ≡ false = ground arith in
        let e : w.highest - (w.highest - c) ≡ c = omega arith in
        rw (low, near)
          (subst (λ (t : ℕ). Refines w s t (mark w (w.highest - c))) e
            (inside-Refines w s (w.highest - c) r (omega arith) (omega arith)))
  ]
]
