-- ===== src/Replay/Runs.antt =====
-- The counters that one window lets through, in the order of their arrival.
use incom_udon_server.Base.{ℕ, inl, inr, arith, if◌then◌else◌, List, [], ◌∷◌, AllNew, Bool-cases}
use incom_udon_server.Replay.{Window, accept_replay_counter}
use incom_udon_server.Replay.Accepted.{Represents, acceptable, accept_replay_counter-Represents}

-- The counters of `cs` that get through, offered one after the other.
unfoldable pub admitted : Window → List ℕ → List ℕ
admitted w [] = []
admitted w (c ∷ cs) =
    let rest = admitted (accept_replay_counter w c).0 cs in
    if (accept_replay_counter w c).1 then c ∷ rest else rest

pub admitted-AllNew : (w : Window) (s cs : List ℕ) → Represents w s → AllNew s (admitted w cs)
unfolding admitted
admitted-AllNew w s [] r = tt
admitted-AllNew w s (c ∷ cs) r =
    let (verdict, after, same) = accept_replay_counter-Represents w s c r in
    elim (Bool-cases (acceptable s w.highest c)) [
      | inl good ↦
          rw (verdict, good)
            (
              ground arith,
              admitted-AllNew (accept_replay_counter w c).0 (c ∷ s) cs (rw good at after),
            )
      | inr bad ↦
          rw (verdict, bad) (admitted-AllNew (accept_replay_counter w c).0 s cs (rw bad at after))
    ]
