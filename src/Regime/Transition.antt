-- ===== src/Regime/Transition.antt =====
-- src/pretrend/observability/regime/transition/engine.py: the next-step signal.
pub mod Score
pub mod Hysteresis
pub mod Signal
pub mod Switching
pub mod Runs
