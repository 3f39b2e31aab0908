-- ===== src/Examples/Wire.antt =====
-- Runs of the replay window, the packets and the relay nonces.
use incom_udon_server.Base.{ℕ, ◌≡◌, arith, List, [], ◌∷◌, false, some, AllNew}
use incom_udon_server.Replay.{initial_window, accept_replay_counter}
use incom_udon_server.Replay.Accepted.{
  Refines, initial-Represents, accept_replay_counter-Represents,
}
use incom_udon_server.Wire.Types.{pkt_pong}
use incom_udon_server.Wire.Build.{build_relay_control_packet}
use incom_udon_server.Wire.Parse.{parse_packet}
use incom_udon_server.Wire.RoundTrip.{relay_packet_of, parse_packet-build}
use incom_udon_server.Wire.Shape.{HasShape, parse_packet-HasShape}
use incom_udon_server.Nonce.Unique.{issued, first_instance, issued_distinct}
use incom_udon_server.Examples.World.{small_world}

accept_replay_counter-Represents_example :
    Refines initial_window (0 ∷ []) 5 (accept_replay_counter initial_window 5)
accept_replay_counter-Represents_example =
    accept_replay_counter-Represents initial_window (0 ∷ []) 5 initial-Represents

-- A counter twice, and one that comes late.
parse_packet-build_example :
    parse_packet (build_relay_control_packet pkt_pong 10 7 (1 ∷ (2 ∷ [])) false 65535) false
    ≡ some (relay_packet_of pkt_pong 10 7 (1 ∷ (2 ∷ [])) false 65535)
parse_packet-build_example =
    parse_packet-build pkt_pong 10 7 (1 ∷ (2 ∷ [])) false 65535 (omega arith) (omega arith)
      (omega arith)

abbrev pong : List ℕ
pong = build_relay_control_packet pkt_pong 10 7 (1 ∷ (2 ∷ [])) false 65535

parse_packet-HasShape_example :
    HasShape pong false (relay_packet_of pkt_pong 10 7 (1 ∷ (2 ∷ [])) false 65535)
parse_packet-HasShape_example =
    parse_packet-HasShape pong false (relay_packet_of pkt_pong 10 7 (1 ∷ (2 ∷ [])) false 65535) (
      parse_packet-build pkt_pong 10 7 (1 ∷ (2 ∷ [])) false 65535 (omega arith) (omega arith)
        (omega arith))

issued_distinct_example : AllNew [] (issued small_world 3 (first_instance 9 0))
issued_distinct_example = issued_distinct small_world 3 9 0 (λ n id e. ground arith) (omega arith)
