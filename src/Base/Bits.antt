-- ===== src/Base/Bits.antt =====
-- Single bits of a word: tests, `|`, shifts to the left and truncation, at every width.
mod Step
use Step.{bit_or_lowest, bit_and_lowest}
use Prim.Native.Nat.{
  ℕ, zero, suc, ◌+◌, ◌-◌, ◌*◌, ◌/◌, ◌%◌, ◌^◌, ◌≤◌, ◌<◌, min, max, bit_and, bit_or,
}
use mathlib.Core.Path.{◌≡◌, refl, ap, sym, ◌∙◌}
use mathlib.Core.Logic.{◌≢◌}
use native.Mathlib.Nat.{
  pow-suc, one-le-pow, div-add-mod, mod-lt, mul-add-mod_self_left, mod-eq_of_lt,
}
use native.Mathlib.Omega.{arith}

-- Bit `i` of `x`, as 0 or 1.
unfoldable pub bit : ℕ → ℕ → ℕ
bit zero x = x % 2
bit (suc i) x = bit i (x / 2)

pub bit-le-one : (i x : ℕ) → bit i x ≤ 1
unfolding bit
bit-le-one zero x = omega arith
bit-le-one (suc i) x = bit-le-one i (x / 2)

pub bit-zero : (i : ℕ) → bit i 0 ≡ 0
unfolding bit
bit-zero zero = refl
bit-zero (suc i) = bit-zero i

half-bit_or : (x y : ℕ) → bit_or x y / 2 ≡ bit_or (x / 2) (y / 2)
half-bit_or x y = omega (arith, bit_or_lowest x y)

-- `|` joins bit by bit.
pub bit-bit_or : (i x y : ℕ) → bit i (bit_or x y) ≡ max (bit i x) (bit i y)
unfolding bit
bit-bit_or zero x y = omega (arith, bit_or_lowest x y)
bit-bit_or (suc i) x y = rw (half-bit_or x y) (bit-bit_or i (x / 2) (y / 2))

two-pow-suc : (k : ℕ) → 2 ^ suc k ≡ 2 * 2 ^ k
two-pow-suc k = omega (arith, pow-suc 2 k)

-- A power of two has its one bit.
pub bit-two-pow_self : (d : ℕ) → bit d (2 ^ d) ≡ 1
unfolding bit
bit-two-pow_self zero = refl
bit-two-pow_self (suc d) =
    let e : 2 ^ suc d / 2 ≡ 2 ^ d = omega (arith, two-pow-suc d) in rw e (bit-two-pow_self d)

pub bit-two-pow_ne : (i d : ℕ) → i ≢ d → bit i (2 ^ d) ≡ 0
unfolding bit
bit-two-pow_ne zero zero h = absurd (h refl)
bit-two-pow_ne (suc i) zero h = bit-zero i
bit-two-pow_ne zero (suc d) h = omega (arith, two-pow-suc d)
bit-two-pow_ne (suc i) (suc d) h =
    let e : 2 ^ suc d / 2 ≡ 2 ^ d = omega (arith, two-pow-suc d) in
    rw e (bit-two-pow_ne i d (λ q. h (ap suc q)))

-- A shift to the left moves the bits up, and brings in zeros.
shift_suc : (x d : ℕ) → x * 2 ^ suc d ≡ 2 * (x * 2 ^ d)
shift_suc x d = omega (arith, ap (λ (t : ℕ). x * t) (two-pow-suc d))

half_shift_suc : (x d : ℕ) → (x * 2 ^ suc d) / 2 ≡ x * 2 ^ d
half_shift_suc x d = omega (arith, shift_suc x d)

pub bit-shift_low : (i d x : ℕ) → i < d → bit i (x * 2 ^ d) ≡ 0
unfolding bit
bit-shift_low i zero x h = absurd (omega arith)
bit-shift_low zero (suc d) x h = omega (arith, shift_suc x d)
bit-shift_low (suc i) (suc d) x h = rw (half_shift_suc x d) (bit-shift_low i d x (omega arith))

pub bit-shift_high : (i d x : ℕ) → bit (i + d) (x * 2 ^ d) ≡ bit i x
unfolding bit
bit-shift_high i zero x =
    let e : i + 0 ≡ i = omega arith in let f : x * 2 ^ 0 ≡ x = omega arith in rw (e, f)
bit-shift_high i (suc d) x =
    let e : i + suc d ≡ suc (i + d) = omega arith in
    ap (λ (t : ℕ). bit t (x * 2 ^ suc d)) e
    ∙ ap (bit (i + d)) (half_shift_suc x d)
    ∙ bit-shift_high i d x

-- Truncation to `k` bits keeps the bits below `k`.
-- `m` is the power of two; the two lowest digits of `x` are split off by hand.
truncate_split : (m x : ℕ) → 0 < m → x % (2 * m) ≡ 2 * ((x / 2) % m) + x % 2
truncate_split m x h =
    let c : ℕ = 2 * ((x / 2) % m) + x % 2 in
    let whole : 2 * m * (x / 2 / m) + c ≡ x =
      omega (arith, ap (λ (t : ℕ). 2 * t) (div-add-mod (x / 2) m)) in
    let small : c < 2 * m = omega (arith, mod-lt (x / 2) h) in
    ap (λ (t : ℕ). t % (2 * m)) (sym whole)
    ∙ mul-add-mod_self_left (2 * m) (x / 2 / m) c
    ∙ mod-eq_of_lt small

truncate-suc : (k x : ℕ) → x % 2 ^ suc k ≡ 2 * ((x / 2) % 2 ^ k) + x % 2
truncate-suc k x = rw (two-pow-suc k) (truncate_split (2 ^ k) x (one-le-pow k 2 (omega arith)))

pub bit-truncate : (i k x : ℕ) → i < k → bit i (x % 2 ^ k) ≡ bit i x
unfolding bit
bit-truncate i zero x h = absurd (omega arith)
bit-truncate zero (suc k) x h = omega (arith, truncate-suc k x)
bit-truncate (suc i) (suc k) x h =
    let e : (x % 2 ^ suc k) / 2 ≡ (x / 2) % 2 ^ k = omega (arith, truncate-suc k x) in
    rw e (bit-truncate i k (x / 2) (omega arith))

half-bit_and : (x y : ℕ) → bit_and x y / 2 ≡ bit_and (x / 2) (y / 2)
half-bit_and x y = omega (arith, bit_and_lowest x y)

zero_mask : (x n : ℕ) → x ≤ n → bit_and x 0 ≡ 0
zero_mask zero n h = omega (arith, bit_and_lowest 0 0)
zero_mask (suc x) zero h = absurd (omega arith)
zero_mask (suc x) (suc n) h =
    omega (arith, bit_and_lowest (suc x) 0, zero_mask (suc x / 2) n (omega arith))

-- `x & (1 << d)` is not zero exactly when bit `d` is set.
pub bit_and-two-pow : (d x : ℕ) → bit_and x (2 ^ d) ≡ bit d x * 2 ^ d
unfolding bit
bit_and-two-pow zero x = omega (arith, bit_and_lowest x 1, zero_mask (x / 2) (x / 2))
bit_and-two-pow (suc d) x = omega (
  arith,
  bit_and_lowest x (2 ^ suc d),
  two-pow-suc d,
  ap (λ (t : ℕ). bit_and (x / 2) t)
      (let e : 2 ^ suc d / 2 ≡ 2 ^ d = omega (arith, two-pow-suc d) in e),
  bit_and-two-pow d (x / 2),
  shift_suc (bit d (x / 2)) d,
)

or_nothing : (x n : ℕ) → x ≤ n → bit_or x 0 ≡ x
or_nothing zero n h = omega (arith, bit_or_lowest 0 0)
or_nothing (suc x) zero h = absurd (omega arith)
or_nothing (suc x) (suc n) h =
    omega (arith, bit_or_lowest (suc x) 0, or_nothing (suc x / 2) n (omega arith))

-- `(q << k) | r` packs the two numbers side by side.
pub bit_or-packed : (k q r : ℕ) → r < 2 ^ k → bit_or (q * 2 ^ k) r ≡ q * 2 ^ k + r
bit_or-packed zero q r h =
    let e : r ≡ 0 = omega arith in rw e (omega (arith, or_nothing (q * 1) (q * 1)))
bit_or-packed (suc k) q r h = omega (
  arith,
  bit_or_lowest (q * 2 ^ suc k) r,
  shift_suc q k,
  ap (λ (t : ℕ). bit_or t (r / 2)) (half_shift_suc q k),
  bit_or-packed k q (r / 2) (omega (arith, two-pow-suc k)),
)
