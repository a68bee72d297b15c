-- ===== src/Similarity.antt =====
-- src/pretrend/observability/similarity: the nearest historical dates of a market state.
pub mod TopN
pub mod Ranking
pub mod Order
pub mod Replace
