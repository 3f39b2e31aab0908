-- ===== src/Directory/Budget.antt =====
-- The budgets of directory_v3.go: `allowPreauthentication`, by source, and `consumeResponseBudget`,
-- for all responses. A window of one second begins with the first call after the last one ended.
use Prim.Native.String.{String}
use incom_udon_server.Base.{
  ℕ, ◌+◌, ◌-◌, ◌≤◌, ◌<◌, arith, List, [], ◌∷◌, Bool, true, false, not, ◌&&◌, ◌||◌, Option, none,
  some, ltb, leb, ◌==◌, if◌then◌else◌, is_some, length, string_eq,
}
use incom_udon_server.Base.Assoc.{Map, lookup, insert}
use incom_udon_server.Platform.{second}

pub record DirectoryRateState : Type 0 where
  pub window : ℕ
  pub count : ℕ

abbrev pub response_limit : ℕ
response_limit = 64

-- The state of the window that a call falls into.
abbrev pub current : DirectoryRateState → ℕ → DirectoryRateState
current s now =
    if (s.window == 0) || leb second (now - s.window) then record { window = now; count = 0 } else s

unfoldable pub consume_response_budget : DirectoryRateState → ℕ → ℕ → DirectoryRateState × Bool
consume_response_budget s packet_count now =
    let s' = current s now in
    if packet_count == 0
    then (s, false)
    else if ltb response_limit (s'.count + packet_count)
    then (s', false)
    else (record s' { count = s'.count + packet_count }, true)

abbrev or_zero : Option DirectoryRateState → DirectoryRateState
or_zero none = record { window = 0; count = 0 }
or_zero (some s) = s

-- The source is the text of its IP address.
unfoldable pub allow_preauthentication :
    Map String DirectoryRateState → String → ℕ → Map String DirectoryRateState × Bool
allow_preauthentication preauth source now =
    let found = lookup source preauth in
    let s = current (or_zero found) now in
    if not (is_some found) && leb 1024 (length preauth)
    then (preauth, false)
    else if leb 16 s.count
    then (insert source s preauth, false)
    else (insert source (record s { count = s.count + 1 }) preauth, true)

-- The packets that a list of calls gets, each a number of packets and a time.
unfoldable pub granted : DirectoryRateState → List (ℕ × ℕ) → ℕ
granted s [] = 0
granted s ((packet_count, now) ∷ calls) =
    let (s', ok) = consume_response_budget s packet_count now in
    let rest = granted s' calls in if ok then packet_count + rest else rest

-- Every call comes within a second from a time.
abbrev pub AllWithin : ℕ → List (ℕ × ℕ) → Type 0
AllWithin start [] = Unit {0}
AllWithin start ((packet_count, now) ∷ calls) =
    ((start ≤ now) × (now < start + second)) × AllWithin start calls

-- In a window that began within the second, the rest of its budget is all there is.
granted_begun :
    (s : DirectoryRateState) (start : ℕ) (calls : List (ℕ × ℕ))
    → 0 < start
    → start ≤ s.window
    → s.count ≤ response_limit
    → AllWithin start calls
    → granted s calls + s.count ≤ response_limit
unfolding granted consume_response_budget
granted_begun s start [] positive began within all = omega (arith, within)
granted_begun s start ((packet_count, now) ∷ calls) positive began within all =
    let more : DirectoryRateState = record s { count = s.count + packet_count } in
    ground (
      arith,
      positive,
      began,
      within,
      all,
      granted_begun s start calls positive began within all.1,
      λ (le : more.count ≤ response_limit). granted_begun more start calls positive began le all.1,
    )

-- No second sees more than two windows: from a state within its limit, and a time that is not the zero
-- time, calls within one second are granted 128 packets at most, with those counted already.
pub granted_bounded :
    (s : DirectoryRateState) (start : ℕ) (calls : List (ℕ × ℕ))
    → 0 < start
    → s.count ≤ response_limit
    → AllWithin start calls
    → granted s calls + s.count ≤ response_limit + response_limit
unfolding granted consume_response_budget
granted_bounded s start [] positive within all = omega (arith, within)
granted_bounded s start ((packet_count, now) ∷ calls) positive within all =
    let more : DirectoryRateState = record s { count = s.count + packet_count } in
    let fresh : DirectoryRateState = record { window = now; count = 0 } in
    let first : DirectoryRateState = record { window = now; count = packet_count } in
    ground (
      arith,
      positive,
      within,
      all,
      granted_bounded s start calls positive within all.1,
      λ (le : more.count ≤ response_limit). granted_bounded more start calls positive le all.1,
      granted_begun fresh start calls positive all.0.0 (omega arith) all.1,
      λ (le : packet_count ≤ response_limit).
          granted_begun first start calls positive all.0.0 le all.1,
    )
