-- ===== src/Wire/Bytes.antt =====
-- encoding/binary's big-endian readers and writers.
use incom_udon_server.Base.{
  ℕ, ◌+◌, ◌*◌, ◌/◌, ◌%◌, ◌^◌, ◌<◌, ◌≡◌, arith, List, [], ◌∷◌, ◌++◌, get_or, drop,
}

-- `xs[i]`, for an index within the slice.
abbrev pub byte : List ℕ → ℕ → ℕ
byte xs i = get_or xs i 0

abbrev pub be16 : List ℕ → ℕ
be16 xs = byte xs 0 * 256 + byte xs 1

abbrev pub be32 : List ℕ → ℕ
be32 xs = byte xs 0 * 2 ^ 24 + byte xs 1 * 2 ^ 16 + byte xs 2 * 256 + byte xs 3

abbrev pub be64 : List ℕ → ℕ
be64 xs = be32 xs * 2 ^ 32 + be32 (drop 4 xs)

abbrev pub put16 : ℕ → List ℕ
put16 v = (v / 256 % 256) ∷ (v % 256) ∷ []

abbrev pub put32 : ℕ → List ℕ
put32 v = (v / 2 ^ 24 % 256) ∷ (v / 2 ^ 16 % 256) ∷ (v / 256 % 256) ∷ (v % 256) ∷ []

abbrev pub put64 : ℕ → List ℕ
put64 v = put32 (v / 2 ^ 32) ++ put32 (v % 2 ^ 32)

pub be16-put16 : (v : ℕ) (rest : List ℕ) → v < 2 ^ 16 → be16 (put16 v ++ rest) ≡ v
be16-put16 v rest h = omega arith

pub be32-put32 : (v : ℕ) (rest : List ℕ) → v < 2 ^ 32 → be32 (put32 v ++ rest) ≡ v
be32-put32 v rest h = omega arith

pub be64-put64 : (v : ℕ) (rest : List ℕ) → v < 2 ^ 64 → be64 (put64 v ++ rest) ≡ v
be64-put64 v rest h =
    omega
      (arith, be32-put32 (v / 2 ^ 32) (put32 (v % 2 ^ 32) ++ rest), be32-put32 (v % 2 ^ 32) rest)
