-- ===== src/Broker.antt =====
-- src/pretrend/pipeline/broker: the broker's adapter and the check of unfilled orders.
pub mod Adapter
pub mod Unfilled
pub mod CancelSafety
pub mod Coverage
pub mod Trader
pub mod Execute
pub mod Orders
pub mod OrderSafety
pub mod LedgerOrders
pub mod OrderCount
pub mod Kis
pub mod Planner
pub mod TradingDay
pub mod WeekdaySales
pub mod Capital
pub mod Targets
