-- ===== src/Examples.antt =====
-- Concrete runs: each theorem with hypotheses is applied once to data for which they hold.
pub mod World
pub mod Wire
pub mod Auth
pub mod Admission
pub mod Relay
pub mod Dispatch
pub mod Directory
pub mod PrivateControl
