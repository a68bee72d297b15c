-- ===== src/Regime/Labels.antt =====
-- The label sets of src/pretrend/observability/regime/horizon/schema.py and transition/schema.py.
-- The engines assert that the labels they write are members of these sets.

pub data LongPhase : Type 0 where
  expansion late_cycle slowdown recession recovery unknown : LongPhase

pub data MidRegime : Type 0 where
  risk_on neutral risk_off unknown : MidRegime

pub data ShortSignal : Type 0 where
  panic stable relief unknown : ShortSignal

pub data Bias : Type 0 where
  risk_on_bias neutral_bias risk_off_bias unknown : Bias

pub LongPhase-discrete : Discrete LongPhase
LongPhase-discrete = hlevel

pub MidRegime-discrete : Discrete MidRegime
MidRegime-discrete = hlevel

pub ShortSignal-discrete : Discrete ShortSignal
ShortSignal-discrete = hlevel

pub Bias-discrete : Discrete Bias
Bias-discrete = hlevel
