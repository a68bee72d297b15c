-- ===== src/Paper.antt =====
-- src/pretrend/pipeline/paper: the rebalancing of the paper account.
pub mod Rebalance
pub mod Trades
pub mod Priced
pub mod Locks
pub mod Gates
pub mod Simulation
pub mod RiskOff
