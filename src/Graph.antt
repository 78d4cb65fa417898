-- ===== src/Graph.antt =====
-- src/alpha_workbench/temporal_graph: snapshots of the graph and their repository.
pub mod Contracts
pub mod Validation
pub mod Apart
pub mod Repository
pub mod Publication
pub mod Selection
pub mod Visibility
pub mod Replay
mod Tests
