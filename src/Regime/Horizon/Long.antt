-- ===== src/Regime/Horizon/Long.antt =====
-- src/pretrend/observability/regime/horizon/long_engine.py: the long phase of a day from the regime text
-- and the six-month delta.
use pretrend_ai.Base.{Bool, Option, none, some, if◌then◌else◌}
use pretrend_ai.Base.Float.{FloatOps, fneg}
use pretrend_ai.Regime.Labels.{LongPhase}

-- The values of the regime after `lower()`; `other` is any other text.
pub data LongRegime : Type 0 where
  tightening easing neutral other : LongRegime

abbrev pub without_delta : LongRegime → LongPhase
without_delta LongRegime.tightening = LongPhase.late_cycle
without_delta LongRegime.easing = LongPhase.recovery
without_delta LongRegime.neutral = LongPhase.expansion
without_delta LongRegime.other = LongPhase.unknown

-- with a delta: the first flag says that it lies below the negated threshold
abbrev pub with_delta : LongRegime → Bool → LongPhase
with_delta LongRegime.tightening below = if below then LongPhase.slowdown else LongPhase.late_cycle
with_delta LongRegime.easing below = if below then LongPhase.recession else LongPhase.recovery
with_delta LongRegime.neutral below = LongPhase.expansion
with_delta LongRegime.other below = LongPhase.unknown

module _ (fl : FloatOps) where
  open fl use {F, lt}

  -- `_classify_long_phase`
  unfoldable pub classify_long_phase : Option LongRegime → Option F → F → LongPhase
  classify_long_phase none delta threshold = LongPhase.unknown
  classify_long_phase (some r) none threshold = without_delta r
  classify_long_phase (some r) (some d) threshold = with_delta r (lt d (fneg fl threshold))
