-- ===== src/Scenarios.antt =====
-- The theorems at concrete inputs, over decimal arithmetic, and tests of the definitions.
mod Transition
mod Horizon
mod Episodes
mod Gold
mod Similarity
mod Strategy
mod Backtest
mod Broker
mod Rotation
mod Paper
mod Simulation
mod Orders
mod Overlays
mod Tranches
