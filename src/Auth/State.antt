-- ===== src/Auth/State.antt =====
-- `controlAuthState`, its keys, and its construction.
use Prim.Native.String.{String}
use mathlib.Core.Bool.{◌&&◌}
use text.Mathlib.Text.{◌==◌ as str_eq}
use text.Mathlib.TextEquality.{eq_iff}
use incom_udon_server.Base.{
  ℕ, ◌≡◌, ◌↔◌, arith, List, [], Bool, true, false, not, Option, none, some, ltb, ◌==◌,
  if◌then◌else◌, length, Eq, bytes_eq, bytes_eq_iff, nat_eq,
}
use incom_udon_server.Base.Assoc.{Map, lookup}
use incom_udon_server.Platform.{Platform}
use incom_udon_server.Replay.{Window}
use incom_udon_server.Nonce.{RelayNonces, new_relay_instance_id}

pub data ControlAuthPolicy : Type 0 where
  off optional required : ControlAuthPolicy

pub data AuthError : Type 0 where
  no_control_keys short_cookie_secret no_instance_id : AuthError
  invalid_hello unknown_key too_many_pending already_pending : AuthError

pub record AuthChallengeKey : Type 0 where
  pub channel_id : ℕ
  pub sender_id : ℕ
  pub key_id : ℕ
  pub session_id : ℕ
  pub address : String
  pub expires_at : ℕ
  pub cookie : List ℕ

abbrev pub challenge_key_eq : AuthChallengeKey → AuthChallengeKey → Bool
challenge_key_eq a b =
    (a.channel_id == b.channel_id)
    && (a.sender_id == b.sender_id)
    && (a.key_id == b.key_id)
    && (a.session_id == b.session_id)
    && str_eq a.address b.address
    && (a.expires_at == b.expires_at)
    && bytes_eq a.cookie b.cookie

pub challenge_key_eq_iff : (a b : AuthChallengeKey) → (challenge_key_eq a b ≡ true) ↔ (a ≡ b)
challenge_key_eq_iff a b =
    ground (arith, eq_iff a.address b.address, bytes_eq_iff a.cookie b.cookie)

instance abbrev pub challenge_key_Eq : Eq AuthChallengeKey
challenge_key_Eq = record { beq = challenge_key_eq; beq_iff = challenge_key_eq_iff }

pub record ProvisionalReplayKey : Type 0 where
  pub channel_id : ℕ
  pub sender_id : ℕ
  pub key_id : ℕ
  pub session_id : ℕ
  pub address : String

abbrev pub replay_key_eq : ProvisionalReplayKey → ProvisionalReplayKey → Bool
replay_key_eq a b =
    (a.channel_id == b.channel_id)
    && (a.sender_id == b.sender_id)
    && (a.key_id == b.key_id)
    && (a.session_id == b.session_id)
    && str_eq a.address b.address

pub replay_key_eq_iff : (a b : ProvisionalReplayKey) → (replay_key_eq a b ≡ true) ↔ (a ≡ b)
replay_key_eq_iff a b = ground (arith, eq_iff a.address b.address)

instance abbrev pub replay_key_Eq : Eq ProvisionalReplayKey
replay_key_Eq = record { beq = replay_key_eq; beq_iff = replay_key_eq_iff }

-- `highest` and `seen` are the window.
pub record ProvisionalReplayState : Type 0 where
  pub window : Window
  pub expires_at : ℕ

pub record ControlAuthMeta : Type 0 where
  pub key_id : ℕ
  pub session_id : ℕ
  pub counter : ℕ

-- `relay` holds the fields relayInstanceID, relayCounter, relayCounterExhausted and
-- usedRelayInstanceIDs.
pub record ControlAuthState : Type 0 where
  pub policy : ControlAuthPolicy
  pub keys : Map ℕ (Map ℕ (List ℕ))
  pub cookie_secret : List ℕ
  pub relay : RelayNonces
  pub challenges : Map AuthChallengeKey ℕ
  pub provisional : Map ProvisionalReplayKey ProvisionalReplayState

pub data Created : Type 0 where
  created : ControlAuthState → Created
  failed : AuthError → Created

abbrev pub is_off : ControlAuthPolicy → Bool
is_off ControlAuthPolicy.off = true
is_off _ = false

abbrev pub is_required : ControlAuthPolicy → Bool
is_required ControlAuthPolicy.required = true
is_required _ = false

abbrev no_relay : ℕ → RelayNonces
no_relay draws = record {
  instance_id = 0;
  counter = 0;
  counter_exhausted = false;
  used_instance_ids = [];
  draws = draws;
}

-- The last step of the construction: policy off draws no instance.
abbrev with_instance : ControlAuthPolicy → ControlAuthState → RelayNonces × Option ℕ → Created
with_instance ControlAuthPolicy.off state (r, id) = created state
with_instance _ state (r, none) = failed no_instance_id
with_instance _ state (r, some id) =
    created (record state { relay = record r { instance_id = id } })

unfoldable pub new_control_auth_state :
    Platform → ℕ → ControlAuthPolicy → Map ℕ (Map ℕ (List ℕ)) → List ℕ → Created
unfolding new_relay_instance_id
new_control_auth_state p draws policy keys cookie_secret =
    let state : ControlAuthState = record {
      policy = policy;
      keys = keys;
      cookie_secret = cookie_secret;
      relay = no_relay draws;
      challenges = [];
      provisional = [];
    } in
    if is_required policy && (length keys == 0)
    then failed no_control_keys
    else if not (length keys == 0) && ltb (length cookie_secret) 32
    then failed short_cookie_secret
    else with_instance policy state (new_relay_instance_id p (no_relay draws))

abbrev pub keys_of : ControlAuthState → ℕ → Map ℕ (List ℕ)
keys_of a channel_id = elim (lookup channel_id a.keys) [ none ↦ [] | some m ↦ m ]

-- A nil state requires nothing.
unfoldable pub requires : Option ControlAuthState → ℕ → Bool
requires none channel_id = false
requires (some a) channel_id = elim a.policy [
  | off ↦ false
  | optional ↦ not (length (keys_of a channel_id) == 0)
  | required ↦ true
]

-- A missing key is the empty slice.
unfoldable pub key : ControlAuthState → ℕ → ℕ → List ℕ
key a channel_id key_id =
    if key_id == 0
    then []
    else elim (lookup key_id (keys_of a channel_id)) [ none ↦ [] | some k ↦ k ]
