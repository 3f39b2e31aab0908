-- ===== src/Platform.antt =====
-- What the server takes from Go's standard library: addresses (net), random numbers, hashes and
-- signatures (crypto). The development assumes nothing of these but what a theorem names.
use Prim.Native.Char.{code}
use Prim.Native.String.{String}
use incom_udon_server.Base.{ℕ, List, [], ◌∷◌, Bool, Option, none, some}

-- A `net.UDPAddr`; `text` is what its `String()` returns.
pub record UdpAddr : Type 0 where
  pub ip : List ℕ
  pub port : ℕ
  pub zone : String
  pub text : String

pub record Platform : Type 0 where
  -- The n-th reading of four random bytes, as a big-endian number; `none` where the source fails.
  pub random_u32 : ℕ → Option ℕ
  -- The n-th reading of 32 random bytes.
  pub random_challenge : ℕ → Option (List ℕ)
  pub hmac_sha256 : List ℕ → List ℕ → List ℕ
  pub sha256 : List ℕ → List ℕ
  pub ed25519_verify : List ℕ → List ℕ → List ℕ → Bool
  -- `net.IP.Equal`, `To4`, `To16`, and `net.IPv4(...).To16()` of the four bytes.
  pub ip_equal : List ℕ → List ℕ → Bool
  pub ip_to4 : List ℕ → Option (List ℕ)
  pub ip_to16 : List ℕ → Option (List ℕ)
  pub ipv4_to16 : List ℕ → Option (List ℕ)

-- The bytes of an ASCII text.
abbrev pub codes : String → List ℕ
codes String.[] = []
codes (String.◌∷◌ c s) = code c ∷ codes s

-- `peerMapKey`; a nil pointer has the empty key.
unfoldable pub peer_map_key : Option UdpAddr → String
peer_map_key none = ""
peer_map_key (some addr) = addr.text

-- Times are nanoseconds since 1970; 0 is the zero time, for which `IsZero` holds.
abbrev pub second : ℕ
second = 1_000_000_000
