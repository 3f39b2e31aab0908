-- ===== src/Diagnostics.antt =====
-- The floor-interrupt counters of relay_diagnostics.go. A new counter epoch is an argument: the code
-- draws it at random when it needs one. The counters are uint64.
use Prim.Native.Nat.{◌≤◌}
use incom_udon_server.Base.{
  ℕ, ◌+◌, ◌-◌, ◌%◌, ◌^◌, ◌<◌, ◌≡◌, ◌⊎◌, inl, inr, Bool-cases, arith, List, Bool, true, false, ◌&&◌,
  ltb, leb, if◌then◌else◌,
}

abbrev pub relay_diagnostics_counter_maximum : ℕ
relay_diagnostics_counter_maximum = 9007199254740991

pub record RelayFloorInterruptCounters : Type 0 where
  pub ptt_requests_total : ℕ
  pub grants_total : ℕ
  pub denials_total : ℕ
  pub preemptions_total : ℕ
  pub unauthorized_rejections_total : ℕ

pub record RelayFloorInterruptCounterDelta : Type 0 where
  pub ptt_requests : ℕ
  pub grants : ℕ
  pub denials : ℕ
  pub preemptions : ℕ
  pub unauthorized_rejections : ℕ

pub record RelayDiagnosticsState : Type 0 where
  pub counter_epoch : List ℕ
  pub floor_interrupt : RelayFloorInterruptCounters

abbrev pub zero_counters : RelayFloorInterruptCounters
zero_counters = record {
  ptt_requests_total = 0;
  grants_total = 0;
  denials_total = 0;
  preemptions_total = 0;
  unauthorized_rejections_total = 0;
}

-- `maximum - total` on uint64 wraps around.
abbrev room : ℕ → ℕ
room total = (relay_diagnostics_counter_maximum + 2 ^ 64 - total) % 2 ^ 64

unfoldable pub can_add : RelayFloorInterruptCounters → RelayFloorInterruptCounterDelta → Bool
can_add c delta =
    leb delta.ptt_requests (room c.ptt_requests_total)
    && leb delta.grants (room c.grants_total)
    && leb delta.denials (room c.denials_total)
    && leb delta.preemptions (room c.preemptions_total)
    && leb delta.unauthorized_rejections (room c.unauthorized_rejections_total)

abbrev add_u64 : ℕ → ℕ → ℕ
add_u64 a b = (a + b) % 2 ^ 64

abbrev add_delta :
    RelayFloorInterruptCounters → RelayFloorInterruptCounterDelta → RelayFloorInterruptCounters
add_delta c delta = record {
  ptt_requests_total = add_u64 c.ptt_requests_total delta.ptt_requests;
  grants_total = add_u64 c.grants_total delta.grants;
  denials_total = add_u64 c.denials_total delta.denials;
  preemptions_total = add_u64 c.preemptions_total delta.preemptions;
  unauthorized_rejections_total =
      add_u64 c.unauthorized_rejections_total delta.unauthorized_rejections;
}

unfoldable pub observe_floor_interrupt :
    RelayDiagnosticsState → RelayFloorInterruptCounterDelta → List ℕ → RelayDiagnosticsState
unfolding can_add
observe_floor_interrupt d delta epoch =
    if can_add d.floor_interrupt delta
    then record d { floor_interrupt = add_delta d.floor_interrupt delta }
    else record { counter_epoch = epoch; floor_interrupt = add_delta zero_counters delta }

-- `relayDiagnosticsSnapshot`: without the floor interrupt, the epoch alone.
unfoldable pub snapshot : Bool → RelayDiagnosticsState → List ℕ × RelayFloorInterruptCounters
snapshot true d = (d.counter_epoch, d.floor_interrupt)
snapshot false d = (d.counter_epoch, zero_counters)

-- Every counter is within the maximum, which a JSON number holds exactly.
abbrev pub IsExact : RelayFloorInterruptCounters → Type 0
IsExact c =
    (c.ptt_requests_total ≤ relay_diagnostics_counter_maximum)
    × ((c.grants_total ≤ relay_diagnostics_counter_maximum)
        × ((c.denials_total ≤ relay_diagnostics_counter_maximum)
            × ((c.preemptions_total ≤ relay_diagnostics_counter_maximum)
                × (c.unauthorized_rejections_total ≤ relay_diagnostics_counter_maximum))))

abbrev pub IsSmall : RelayFloorInterruptCounterDelta → Type 0
IsSmall delta =
    (delta.ptt_requests ≤ 1)
    × ((delta.grants ≤ 1)
        × ((delta.denials ≤ 1) × ((delta.preemptions ≤ 1) × (delta.unauthorized_rejections ≤ 1))))

-- Each counter of `after` is the counter of `before` with its event added.
abbrev pub GrewBy :
    RelayFloorInterruptCounterDelta
    → RelayFloorInterruptCounters
    → RelayFloorInterruptCounters
    → Type 0
GrewBy delta before after =
    (after.ptt_requests_total ≡ before.ptt_requests_total + delta.ptt_requests)
    × ((after.grants_total ≡ before.grants_total + delta.grants)
        × ((after.denials_total ≡ before.denials_total + delta.denials)
            × ((after.preemptions_total ≡ before.preemptions_total + delta.preemptions)
                × (after.unauthorized_rejections_total
                    ≡ before.unauthorized_rejections_total + delta.unauthorized_rejections))))

-- Some counter would pass the maximum.
abbrev pub WouldPass : RelayFloorInterruptCounterDelta → RelayFloorInterruptCounters → Type 0
WouldPass delta c =
    (relay_diagnostics_counter_maximum < c.ptt_requests_total + delta.ptt_requests)
    ⊎ ((relay_diagnostics_counter_maximum < c.grants_total + delta.grants)
        ⊎ ((relay_diagnostics_counter_maximum < c.denials_total + delta.denials)
            ⊎ ((relay_diagnostics_counter_maximum < c.preemptions_total + delta.preemptions)
                ⊎ (relay_diagnostics_counter_maximum
                    < c.unauthorized_rejections_total + delta.unauthorized_rejections))))

-- An event has room next to an exact counter, unless the sum passes the maximum.
room-cases :
    (total event : ℕ)
    → total ≤ relay_diagnostics_counter_maximum
    → event ≤ 1
    → (leb event (room total) ≡ true) ⊎ (relay_diagnostics_counter_maximum < total + event)
room-cases total event exact small =
    elim (Bool-cases (ltb relay_diagnostics_counter_maximum (total + event))) [
      | inl over ↦ inr (ground (arith, over))
      | inr within ↦ inl (ground (arith, within))
    ]

full-WouldPass :
    (c : RelayFloorInterruptCounters) (delta : RelayFloorInterruptCounterDelta)
    → IsExact c
    → IsSmall delta
    → can_add c delta ≡ false
    → WouldPass delta c
unfolding can_add
full-WouldPass c delta exact small full =
    elim (room-cases c.ptt_requests_total delta.ptt_requests exact.0 small.0) [
      | inr over ↦ inl over
      | inl requests ↦ elim (room-cases c.grants_total delta.grants exact.1.0 small.1.0) [
        | inr over ↦ inr (inl over)
        | inl grants ↦ elim (room-cases c.denials_total delta.denials exact.1.1.0 small.1.1.0) [
          | inr over ↦ inr (inr (inl over))
          | inl denials ↦
              elim (room-cases c.preemptions_total delta.preemptions exact.1.1.1.0 small.1.1.1.0) [
                | inr over ↦ inr (inr (inr (inl over)))
                | inl preemptions ↦
                    elim (room-cases c.unauthorized_rejections_total delta.unauthorized_rejections
                      exact.1.1.1.1 small.1.1.1.1) [
                        | inr over ↦ inr (inr (inr (inr over)))
                        | inl rejections ↦ cc
                      ]
              ]
        ]
      ]
    ]

-- With counters that are exact, an observation of events that each count at most once keeps them
-- exact and never wraps. Either the epoch stays and each of the five counters grows by its event, or
-- one of them would pass the maximum, and then all five begin again from zero plus the events, in the
-- new epoch.
pub observe_floor_interrupt-IsExact :
    (d : RelayDiagnosticsState) (delta : RelayFloorInterruptCounterDelta) (epoch : List ℕ)
    → IsExact d.floor_interrupt
    → IsSmall delta
    → IsExact (observe_floor_interrupt d delta epoch).floor_interrupt
      × ((((observe_floor_interrupt d delta epoch).counter_epoch ≡ d.counter_epoch)
            × GrewBy delta d.floor_interrupt
                (observe_floor_interrupt d delta epoch).floor_interrupt)
          ⊎ (WouldPass delta d.floor_interrupt
              × (((observe_floor_interrupt d delta epoch).counter_epoch ≡ epoch)
                  × GrewBy delta zero_counters
                      (observe_floor_interrupt d delta epoch).floor_interrupt)))
unfolding observe_floor_interrupt can_add
observe_floor_interrupt-IsExact d delta epoch exact small = (
  ground arith,
  elim (Bool-cases (can_add d.floor_interrupt delta)) [
    | inl fits ↦ inl (ground arith)
    | inr full ↦ inr (full-WouldPass d.floor_interrupt delta exact small full, ground arith)
  ],
)
