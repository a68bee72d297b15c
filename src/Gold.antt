-- ===== src/Gold.antt =====
-- src/pretrend/pipeline/features/gold_macro_features.py: the point-in-time macro features.
pub mod Select
pub mod PointInTime
pub mod Latest
pub mod Calendar
pub mod Cascade
