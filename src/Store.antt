-- ===== src/Store.antt =====
-- src/alpha_workbench/persistence: the in-memory repository of versioned records.
pub mod Versioned
pub mod Immutability
pub mod Pairs
pub mod Listing
pub mod Latest
mod Tests
