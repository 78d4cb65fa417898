-- ===== src/Agents.antt =====
-- src/alpha_workbench/agents: the orchestrator's contracts, policy, routing and workflow.
pub mod Contracts
pub mod Policy
pub mod Orchestrator
pub mod Recorded
pub mod Histories
pub mod Guarantees
pub mod Choice
pub mod Workflow
pub mod Supersteps
mod Tests
