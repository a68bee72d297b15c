-- ===== src/Strategy.antt =====
-- src/pretrend/pipeline/strategy_engine: how much to hold.
pub mod Allocation
pub mod Gates
pub mod Range
pub mod Position
pub mod HardGate
