-- ===== src/Backtest/Bias.antt =====
-- The bias overlays of src/pretrend/pipeline/backtest/runner.py: the monthly lock, the shock override
-- and the hazard gate, with the part of the daily loop that applies them. `month` gives a day's year
-- and month as one number and `newer` compares run ids: both are the library's. A text that is not one
-- of the labels is `unknown`. The days are those that have prices.
pub mod Day
pub mod Lock
pub mod Override
pub mod LookAhead
use pretrend_ai.Base.{
  ℕ, suc, ◌-◌, Bool, true, false, ltb, leb, Option, none, some, List, [], ◌∷◌, if◌then◌else◌,
}
use pretrend_ai.Base.Sort.{sort}
use pretrend_ai.Base.AsOf.{max_date, window, on_date}
use pretrend_ai.Regime.Labels.{ShortSignal, MidRegime, Bias}

-- the preset names, in lower case
pub data Version : Type 0 where
  v3_1 v3_2 v3_3 v3_4 v3_4_1 v3_4_2_phase v3_4_2a other : Version

pub record Modes : Type 0 where
  pub use_monthly_bias_lock : Bool
  pub use_shock_override_v32 : Bool
  pub use_hazard_gate_v33 : Bool
  pub use_group_transition_v34 : Bool
  pub use_group_transition_v341 : Bool

abbrev modes : Bool → Bool → Bool → Bool → Bool → Modes
modes lock shock hazard group group1 = record {
  use_monthly_bias_lock = lock;
  use_shock_override_v32 = shock;
  use_hazard_gate_v33 = hazard;
  use_group_transition_v34 = group;
  use_group_transition_v341 = group1;
}

abbrev pub resolve_v3_mode_flags : Version → Modes
resolve_v3_mode_flags Version.v3_4_2_phase = modes false false false true false
resolve_v3_mode_flags Version.v3_4_2a = modes false false false true false
resolve_v3_mode_flags Version.v3_1 = modes true false false false false
resolve_v3_mode_flags Version.v3_2 = modes true true false false false
resolve_v3_mode_flags Version.v3_3 = modes true true true false false
resolve_v3_mode_flags Version.v3_4 = modes true true true true false
resolve_v3_mode_flags Version.v3_4_1 = modes true true true true true
resolve_v3_mode_flags Version.other = modes false false false false false

pub data Source : Type 0 where
  locked override : Source

pub data Reason : Type 0 where
  no_reason panic risk_off hazard_low : Reason

pub data HazardSource : Type 0 where
  missing snapshot : HazardSource

pub record Effective : Type 0 where
  pub bias : Bias
  pub source : Source
  pub reason : Reason

pub record Shock : Type 0 where
  pub panic_streak : ℕ
  pub risk_off_streak : ℕ
  pub override_days_left : ℕ
  pub override_bias : Bias
  pub override_reason : Reason

abbrev pub normalize_v32_bias : Bias → Bias
normalize_v32_bias Bias.unknown = Bias.neutral_bias
normalize_v32_bias b = b

abbrev pub panic_count : ShortSignal → ℕ → ℕ
panic_count ShortSignal.panic n = suc n
panic_count s n = 0

abbrev pub risk_off_count : MidRegime → ℕ → ℕ
risk_off_count MidRegime.risk_off n = suc n
risk_off_count m n = 0

abbrev pub triggered : Bias → Reason → ℕ → ℕ → Effective × Shock
triggered bias reason panics risk_offs = (
  record { bias = bias; source = Source.override; reason = reason },
  record {
    panic_streak = panics;
    risk_off_streak = risk_offs;
    override_days_left = 5;
    override_bias = bias;
    override_reason = reason;
  },
)

-- with the two streaks counted on
abbrev pub resolve_counted : Bias → ℕ → ℕ → Shock → Effective × Shock
resolve_counted locked_bias panics risk_offs s =
    if ltb 0 s.override_days_left
    then (
      record { bias = s.override_bias; source = Source.override; reason = s.override_reason },
      record {
        panic_streak = panics;
        risk_off_streak = risk_offs;
        override_days_left = s.override_days_left - 1;
        override_bias = s.override_bias;
        override_reason = s.override_reason;
      },
    )
    else if leb 2 panics
    then triggered Bias.risk_off_bias Reason.panic panics risk_offs
    else if leb 3 risk_offs
    then triggered Bias.neutral_bias Reason.risk_off panics risk_offs
    else (
      record {
        bias = normalize_v32_bias locked_bias;
        source = Source.locked;
        reason = Reason.no_reason;
      },
      record {
        panic_streak = panics;
        risk_off_streak = risk_offs;
        override_days_left = 0;
        override_bias = s.override_bias;
        override_reason = s.override_reason;
      },
    )

unfoldable pub resolve_effective_bias_v32 :
    Bias → ShortSignal → MidRegime → Shock → Effective × Shock
resolve_effective_bias_v32 locked_bias short_signal mid_regime s =
    resolve_counted locked_bias (panic_count short_signal s.panic_streak)
      (risk_off_count mid_regime s.risk_off_streak) s

-- a policy row, with the columns that choose it and those that the overlays read
pub record SignalRow (R : Type 0) : Type 0 where
  pub trade_date : ℕ
  pub decision_date : ℕ
  pub source_run_id : R
  pub short_signal : ShortSignal
  pub mid_regime : MidRegime

module _ {R : Type 0} (newer : R → R → Bool) where
  abbrev pub first_row : List (SignalRow R) → Option (SignalRow R)
  first_row [] = none
  first_row (r ∷ rs) = some r

  unfoldable pub get_signal_row : List (SignalRow R) → ℕ → Option (SignalRow R)
  unfolding window max_date sort
  get_signal_row df td =
      let rows = window (λ r. r.trade_date) td df in
      let decided = on_date (λ r. r.decision_date) (max_date (λ r. r.decision_date) rows) rows in
      first_row (sort (λ a b. newer a.source_run_id b.source_run_id) decided)

abbrev pub short_of : {R : Type 0} → Option (SignalRow R) → ShortSignal
short_of none = ShortSignal.unknown
short_of (some r) = r.short_signal

abbrev pub mid_of : {R : Type 0} → Option (SignalRow R) → MidRegime
mid_of none = MidRegime.unknown
mid_of (some r) = r.mid_regime
