-- ===== src/Regime/Horizon.antt =====
-- src/pretrend/observability/regime/horizon: the long, mid and short engines.
pub mod Short
pub mod Long
pub mod ShortAgreement
pub mod Mid
pub mod MidVotes
