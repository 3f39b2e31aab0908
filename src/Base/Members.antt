-- ===== src/Base/Members.antt =====
-- Membership in a list of numbers, and lists without repetition.
use Prim.Native.Nat.{ℕ}
use mathlib.Core.Path.{◌≡◌}
use mathlib.Core.Bool.{Bool, false}
use mathlib.Core.List.{List, [], ◌∷◌}
use incom_udon_server.Base.Tests.{◌==◌}
use incom_udon_server.Base.Lists.{any}

abbrev pub contains : List ℕ → ℕ → Bool
contains s c = any (λ x. x == c) s

-- No number of the second list stands in the first, or twice in the second.
abbrev pub AllNew : List ℕ → List ℕ → Type 0
AllNew s [] = Unit {0}
AllNew s (c ∷ cs) = (contains s c ≡ false) × AllNew (c ∷ s) cs
