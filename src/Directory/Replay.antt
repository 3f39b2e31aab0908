-- ===== src/Directory/Replay.antt =====
-- `directoryReplayState` of directory_v3.go: the window of 64 sequence numbers of a client's epoch.
-- It starts with the first number that arrives.
use incom_udon_server.Base.{
  ℕ, ◌-◌, ◌≡◌, refl, ap, arith, Bool, true, false, ltb, leb, ◌==◌, if◌then◌else◌, bit_and, bit_or,
  List, [], ◌∷◌,
}
use incom_udon_server.Replay.{Window, shift_left_u64, accept_replay_counter, advance, mark}
use incom_udon_server.Replay.Runs.{admitted}

pub record DirectoryReplayState : Type 0 where
  pub initialized : Bool
  pub highest : ℕ
  pub seen : ℕ

abbrev pub directory_replay_window_size : ℕ
directory_replay_window_size = 64

unfoldable pub accept : DirectoryReplayState → ℕ → DirectoryReplayState × Bool
accept s sequence =
    let ahead = sequence - s.highest in
    let behind = s.highest - sequence in
    let mask = shift_left_u64 1 behind in
    if s.initialized
    then (if ltb s.highest sequence
        then (
          record s {
            highest = sequence;
            seen =
                if leb directory_replay_window_size ahead
                then 1
                else bit_or (shift_left_u64 s.seen ahead) 1;
          },
          true,
        )
        else if leb directory_replay_window_size behind
        then (s, false)
        else if bit_and s.seen mask == 0
        then (record s { seen = bit_or s.seen mask }, true)
        else (s, false))
    else (record { initialized = true; highest = sequence; seen = 1 }, true)

abbrev pub fresh : DirectoryReplayState
fresh = record { initialized = false; highest = 0; seen = 0 }

-- The sequence numbers that get through, offered one after the other.
unfoldable pub accepted : DirectoryReplayState → List ℕ → List ℕ
accepted s [] = []
accepted s (sequence ∷ sequences) =
    let (s', good) = accept s sequence in
    let rest = accepted s' sequences in if good then sequence ∷ rest else rest

-- A state that has begun, as a window of the control session.
abbrev begun : Window → DirectoryReplayState
begun w = record { initialized = true; highest = w.highest; seen = w.seen }

accept-begun :
    (w : Window) (sequence : ℕ)
    → accept (begun w) sequence
      ≡ (begun (accept_replay_counter w sequence).0, (accept_replay_counter w sequence).1)
unfolding accept accept_replay_counter advance mark
accept-begun w sequence = ground arith

accepted-begun :
    (w : Window) (sequences : List ℕ) → accepted (begun w) sequences ≡ admitted w sequences
unfolding accepted admitted
accepted-begun w [] = refl
accepted-begun w (sequence ∷ sequences) =
    rw (accept-begun w sequence, accepted-begun (accept_replay_counter w sequence).0 sequences)

-- The directory's window lets through what the control session's window does that starts at the first
-- number: this one, and then the same of the others, in every order of arrival.
pub accepted-admitted :
    (sequence : ℕ) (sequences : List ℕ)
    → accepted fresh (sequence ∷ sequences)
      ≡ sequence ∷ admitted (record { highest = sequence; seen = 1 }) sequences
unfolding accepted accept
accepted-admitted sequence sequences =
    ap (◌∷◌ sequence) (accepted-begun (record { highest = sequence; seen = 1 }) sequences)
