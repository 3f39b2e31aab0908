-- ===== src/Replay.antt =====
-- The replay window of authenticated control packets: `acceptReplayCounter` of control_auth.go.
-- The two variables that it is given by reference are the fields of `Window`.
pub mod Bitmap
pub mod Accepted
pub mod Runs
use incom_udon_server.Base.{
  ℕ, ◌+◌, ◌-◌, ◌*◌, ◌%◌, ◌^◌, Bool, true, false, ltb, leb, ◌==◌, if◌then◌else◌, bit_and, bit_or,
}

-- `highest` is a uint32, and `seen` a uint64 whose bit d stands for the counter `highest - d`.
pub record Window : Type 0 where
  pub highest : ℕ
  pub seen : ℕ

abbrev pub control_replay_window : ℕ
control_replay_window = 64

-- `*seen << delta`, as a uint64.
abbrev pub shift_left_u64 : ℕ → ℕ → ℕ
shift_left_u64 x delta = x * 2 ^ delta % 2 ^ 64

-- A counter ahead of the window moves it.
unfoldable pub advance : Window → ℕ → Window
advance w counter =
    let delta = counter - w.highest in
    record {
      highest = counter;
      seen = if leb control_replay_window delta then 1 else bit_or (shift_left_u64 w.seen delta) 1;
    }

-- A counter inside the window is good once.
unfoldable pub mark : Window → ℕ → Window × Bool
mark w delta =
    let mask = shift_left_u64 1 delta in
    if bit_and w.seen mask == 0 then (record w { seen = bit_or w.seen mask }, true) else (w, false)

unfoldable pub accept_replay_counter : Window → ℕ → Window × Bool
unfolding advance mark
accept_replay_counter w counter =
    if ltb w.highest counter
    then (advance w counter, true)
    else if leb control_replay_window (w.highest - counter)
    then (w, false)
    else mark w (w.highest - counter)

-- The window that `createChallenge` opens for a new session: counter 0 is the AUTH_HELLO itself.
abbrev pub initial_window : Window
initial_window = record { highest = 0; seen = 1 }
