-- ===== src/Scenario.antt =====
-- graph.py: deterministic propagation of a supply-chain shock, and graph_registry.py on it.
pub mod Contracts
pub mod Propagation
pub mod Adjacency
pub mod Fuel
pub mod Walks
pub mod Invariant
pub mod Search
pub mod Closing
pub mod Impacts
pub mod Strongest
pub mod Tests
pub mod Registry
pub mod Publishing
pub mod Scoring
pub mod RegistryTests
