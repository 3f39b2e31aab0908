-- ===== src/Auth.antt =====
-- Control authentication: the state and the operations of control_auth.go that need no peer.
pub mod State
pub mod Packet
pub mod Challenge
pub mod Verify
pub mod Sound
pub mod Pending
pub mod Sessions
pub mod Once
pub mod Handshake
pub mod Counters
pub use State.{
  ControlAuthPolicy, ControlAuthState, ControlAuthMeta, AuthChallengeKey, ProvisionalReplayKey,
  ProvisionalReplayState, AuthError,
}
