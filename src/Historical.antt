-- ===== src/Historical.antt =====
-- historical/: the replay of a sourced event on the graph snapshot known at a time.
pub mod Records
pub mod Replay
pub mod View
pub mod Selected
pub mod Receipts
mod Tests
