-- ===== src/Jobs.antt =====
-- src/alpha_workbench/jobs: receipts, the queue, the dispatcher and the worker.
pub mod Contracts
pub mod Repository
pub mod Transitions
pub mod Outcomes
pub mod Invariant
pub mod History
pub mod Creation
pub mod Guarantees
pub mod Queue
pub mod Dispatch
pub mod Worker
pub mod Conclude
pub mod Service
pub mod Submission
pub mod Cancelling
pub mod Reports
pub mod Acknowledge
mod Tests
