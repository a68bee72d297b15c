-- ===== src/Regime.antt =====
-- The observation engines under src/pretrend/observability/regime.
pub mod Labels
pub mod Horizon
pub mod Transition
pub mod Episodes
pub mod Rotation
