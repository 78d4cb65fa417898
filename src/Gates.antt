-- ===== src/Gates.antt =====
-- agents/gatekeeper.py and agents/portfolio.py: the gate of backtest reports and the paper targets.
pub mod Gatekeeper
pub mod Portfolio
pub mod Decisions
pub mod Evidence
pub mod Sides
mod Tests
