-- ===== src/Replay/Bitmap.antt =====
-- The bits of the window after each kind of counter, in terms of the bits before.
use incom_udon_server.Base.{
  ℕ, suc, ◌+◌, ◌-◌, ◌*◌, ◌%◌, ◌^◌, ◌<◌, ◌≡◌, refl, ap, ◌∙◌, ◌≢◌, arith, bit_and, bit_or, ◌==◌,
  if◌then◌else◌,
}
use incom_udon_server.Base.Bits.{
  bit, bit-le-one, bit-zero, bit-bit_or, bit-two-pow_self, bit-two-pow_ne, bit-shift_low,
  bit-shift_high, bit-truncate, bit_and-two-pow,
}
use native.Mathlib.Nat.{one-le-pow, mod-eq_of_lt, pow-le-pow_right}

-- The word `1` marks position 0 alone.
pub bit-one : (i : ℕ) → bit (suc i) 1 ≡ 0
unfolding bit
bit-one i = bit-zero i

-- `seen << delta | 1` at its lowest bit.
pub bit-moved_lowest : (x d : ℕ) → bit 0 (bit_or (x * 2 ^ d % 2 ^ 64) 1) ≡ 1
bit-moved_lowest x d =
    let lowest : bit 0 1 ≡ 1 = unfold bit in refl in
    omega (arith, bit-bit_or 0 (x * 2 ^ d % 2 ^ 64) 1, lowest, bit-le-one 0 (x * 2 ^ d % 2 ^ 64))

-- Between the marked bit and the old window there are zeros.
pub bit-moved_gap :
    (i d x : ℕ) → suc i < d → suc i < 64 → bit (suc i) (bit_or (x * 2 ^ d % 2 ^ 64) 1) ≡ 0
bit-moved_gap i d x h k = omega (
  arith,
  bit-bit_or (suc i) (x * 2 ^ d % 2 ^ 64) 1,
  bit-one i,
  bit-truncate (suc i) 64 (x * 2 ^ d) k,
  bit-shift_low (suc i) d x h,
)

-- The old bits stand `d` places higher.
pub bit-moved_old :
    (i d x : ℕ) → 0 < d → i + d < 64 → bit (i + d) (bit_or (x * 2 ^ d % 2 ^ 64) 1) ≡ bit i x
bit-moved_old i d x h k =
    let e : i + d ≡ suc (i + d - 1) = omega arith in
    let one_clear : bit (i + d) 1 ≡ 0 = ap (λ (t : ℕ). bit t 1) e ∙ bit-one (i + d - 1) in
    omega (
      arith,
      bit-bit_or (i + d) (x * 2 ^ d % 2 ^ 64) 1,
      one_clear,
      bit-truncate (i + d) 64 (x * 2 ^ d) k,
      bit-shift_high i d x,
    )

-- The mask of a position within the window is that power of two.
pub mask_two-pow : (d : ℕ) → d < 64 → 1 * 2 ^ d % 2 ^ 64 ≡ 2 ^ d
mask_two-pow d h =
    let e : 1 * 2 ^ d ≡ 2 ^ d = omega arith in
    rw e (
      mod-eq_of_lt
        (omega (arith, pow-le-pow_right {n = 2} (omega arith) {i = d} {j = 63} (omega arith))))

-- `seen & mask` is zero exactly when the position is unmarked.
pub test_mask : (d x : ℕ) → d < 64 → (bit_and x (1 * 2 ^ d % 2 ^ 64) == 0) ≡ (bit d x == 0)
test_mask d x h =
    rw (mask_two-pow d h)
      (ground (arith, bit_and-two-pow d x, bit-le-one d x, one-le-pow d 2 (omega arith), product))
  where
    product : bit d x * 2 ^ d ≡ (if bit d x == 0 then 0 else 2 ^ d)
    product = grind (arith, bit-le-one d x)

-- Marking a position sets it and leaves the others.
pub bit-marked_self : (d x : ℕ) → d < 64 → bit d (bit_or x (1 * 2 ^ d % 2 ^ 64)) ≡ 1
bit-marked_self d x h =
    rw (mask_two-pow d h)
      (omega (arith, bit-bit_or d x (2 ^ d), bit-two-pow_self d, bit-le-one d x))

pub bit-marked_ne : (i d x : ℕ) → d < 64 → i ≢ d → bit i (bit_or x (1 * 2 ^ d % 2 ^ 64)) ≡ bit i x
bit-marked_ne i d x h ne =
    rw (mask_two-pow d h) (omega (arith, bit-bit_or i x (2 ^ d), bit-two-pow_ne i d ne))
