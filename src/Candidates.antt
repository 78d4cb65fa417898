-- ===== src/Candidates.antt =====
-- candidate_graph.py: the graph of discovered entities around the registry's anchors.
pub mod Contracts
pub mod Builder
pub mod Counting
pub mod Bounded
pub mod Capped
mod Tests
