-- ===== src/Alpha.antt =====
-- src/alpha_workbench/alpha/dsl.py: the expression language of factors.
pub mod Expression
pub mod Parser
pub mod Tokens
pub mod Sound
pub mod Complete
pub mod Parsing
pub mod Rendering
pub mod Canonical
pub mod Typed
pub mod Lookbacks
mod Tests
