-- ===== src/PrivateControl.antt =====
-- The private control link of private_control.go, private_control_state.go and
-- private_control_snapshot.go: the revocations that are carried out once, and the snapshot of the
-- relay's state in chunks.
pub mod Idempotency
pub mod Snapshot
pub mod State
