-- ===== src/Backtest.antt =====
-- src/pretrend/pipeline/backtest: the simulated portfolio.
pub mod Portfolio
pub mod Rebalance
pub mod Solvency
pub mod TradeOrder
pub mod DecimalSigns
pub mod Rebalancer
pub mod Bias
pub mod Tranche
pub mod TrancheSales
pub mod TrancheSolvency
