-- ===== src/Relay/Sweep.antt =====
-- One tick of `cleanupLoop` of main.go: every channel loses its expired members and the talkers whose
-- time is up, and what happened is announced in the order of the channels. The timer that ticks is not
-- modelled.
use Prim.Native.String.{String}
use incom_udon_server.Base.{
  ℕ, ◌-◌, List, [], ◌∷◌, ◌++◌, Bool, true, false, not, ◌&&◌, ◌||◌, Option, none, some, ltb, leb,
  ◌==◌, if◌then◌else◌, is_some, length, nat_eq, string_eq,
}
use incom_udon_server.Base.Assoc.{Map, lookup, insert, delete}
use incom_udon_server.Platform.{Platform}
use incom_udon_server.Wire.Types.{pkt_talk_release, talk_release_server_timeout}
use incom_udon_server.Wire.Build.{talk_release_payload}
use incom_udon_server.Relay.{Peer, Channel, Server, Effect, broadcast, talk_ended, participant_left}
use incom_udon_server.Relay.Floor.{is_active}
use incom_udon_server.Relay.Membership.{membership_expired}
use incom_udon_server.Relay.Output.{Output, deliver_all}
pub mod Agreement

-- The channel as the loop changes it, the reasons of the releases and the departures.
pub record Swept : Type 0 where
  pub channel : Channel
  pub release_reasons : Map ℕ ℕ
  pub departures : List (ℕ × ℕ)

abbrev pub depart : Swept → String → Peer → ℕ → Swept
depart w key p reason = record {
  channel = record {
    peers = delete key w.channel.peers;
    active_talkers = delete p.sender_id w.channel.active_talkers;
    codec_configs = delete p.sender_id w.channel.codec_configs;
    media_codec_configs = delete p.sender_id w.channel.media_codec_configs;
  };
  release_reasons =
      if is_active w.channel p.sender_id
      then insert p.sender_id reason w.release_reasons
      else w.release_reasons;
  departures = w.departures ++ ((p.sender_id, reason) ∷ []);
}

unfoldable pub sweep_peers : ℕ → Map String Peer → Swept → Swept
sweep_peers now [] w = w
sweep_peers now ((key, p) ∷ peers) w = elim (membership_expired p now) [
  | none ↦ sweep_peers now peers w
  | some reason ↦ sweep_peers now peers (depart w key p reason)
]

abbrev timed_out : ℕ → Map ℕ ℕ → Map ℕ ℕ
timed_out sender_id reasons =
    if is_some (lookup sender_id reasons)
    then reasons
    else insert sender_id talk_release_server_timeout reasons

-- The talkers that stay, and the reasons with the timeouts. A grant without a time counts from now.
unfoldable pub sweep_talkers : ℕ → ℕ → Map ℕ ℕ → Map ℕ ℕ → Map ℕ ℕ × Map ℕ ℕ
sweep_talkers talk_max now [] reasons = ([], reasons)
sweep_talkers talk_max now ((sender_id, started_at) ∷ talkers) reasons =
    let (rest, kept_reasons) = sweep_talkers talk_max now talkers reasons in
    let (left, timeout_reasons) =
      sweep_talkers talk_max now talkers (timed_out sender_id reasons) in
    if started_at == 0
    then ((sender_id, now) ∷ rest, kept_reasons)
    else if ltb (now - started_at) talk_max
    then ((sender_id, started_at) ∷ rest, kept_reasons)
    else (left, timeout_reasons)

unfoldable pub sweep_channel : ℕ → ℕ → Channel → Swept
sweep_channel talk_max now ch =
    let w =
      sweep_peers now ch.peers (record { channel = ch; release_reasons = []; departures = [] }) in
    let (stay, reasons) = sweep_talkers talk_max now w.channel.active_talkers w.release_reasons in
    if talk_max == 0 then w else record w {
      channel = record w.channel { active_talkers = stay };
      release_reasons = reasons;
    }

-- A release or a departure: the channel, the sender and the reason.
pub record SweepEvent : Type 0 where
  pub channel_id : ℕ
  pub sender_id : ℕ
  pub reason : ℕ

abbrev events_of : ℕ → List (ℕ × ℕ) → List SweepEvent
events_of channel_id [] = []
events_of channel_id ((sender_id, reason) ∷ pairs) =
    record { channel_id = channel_id; sender_id = sender_id; reason = reason }
    ∷ events_of channel_id pairs

-- The channels that stay, the releases and the departures.
unfoldable pub sweep_channels :
    ℕ → ℕ → Map ℕ Channel → Map ℕ Channel × (List SweepEvent × List SweepEvent)
sweep_channels talk_max now [] = ([], ([], []))
sweep_channels talk_max now ((channel_id, ch) ∷ channels) =
    let w = sweep_channel talk_max now ch in
    let (rest, (releases, departures)) = sweep_channels talk_max now channels in
    (
      (if length w.channel.peers == 0 then rest else (channel_id, w.channel) ∷ rest),
      (
        events_of channel_id w.release_reasons ++ releases,
        events_of channel_id w.departures ++ departures,
      ),
    )

-- By channel, then by sender.
abbrev comes_before : SweepEvent → SweepEvent → Bool
comes_before a b =
    if a.channel_id == b.channel_id
    then leb a.sender_id b.sender_id
    else ltb a.channel_id b.channel_id

abbrev insert_event : SweepEvent → List SweepEvent → List SweepEvent
insert_event x [] = x ∷ []
insert_event x (y ∷ ys) =
    let rest = insert_event x ys in if comes_before x y then x ∷ (y ∷ ys) else y ∷ rest

unfoldable pub sort_events : List SweepEvent → List SweepEvent
sort_events [] = []
sort_events (x ∷ xs) = insert_event x (sort_events xs)

unfoldable pub release_effects : List SweepEvent → List Effect
release_effects [] = []
release_effects (e ∷ events) =
    broadcast e.channel_id pkt_talk_release e.sender_id (talk_release_payload e.sender_id e.reason)
    ∷ (talk_ended e.channel_id e.sender_id e.reason ∷ release_effects events)

unfoldable pub departure_effects : List SweepEvent → List Effect
departure_effects [] = []
departure_effects (e ∷ events) =
    participant_left e.channel_id e.sender_id e.reason ∷ departure_effects events

unfoldable pub sweep : Platform → Server → ℕ → Server × List Output
sweep p s now =
    let (channels, (releases, departures)) = sweep_channels s.talk_max now s.channels in
    deliver_all p
      (release_effects (sort_events releases) ++ departure_effects (sort_events departures))
      (record s { channels = channels })
