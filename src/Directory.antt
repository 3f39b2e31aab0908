-- ===== src/Directory.antt =====
-- The directory of directory_v3.go: the replay state of a client's epoch, the packing of rows into
-- datagrams and pages, and the budgets of requests and responses.
pub mod Replay
pub mod Packing
pub mod Pages
pub mod Budget
