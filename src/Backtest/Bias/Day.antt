-- ===== src/Backtest/Bias/Day.antt =====
-- The bias part of the daily loop of src/pretrend/pipeline/backtest/runner.py: the lookups in the
-- next-step frame, and one day of the overlays.
use pretrend_ai.Base.{
  ℕ, Bool, true, false, ◌&&◌, ◌==◌, Option, none, some, List, [], ◌∷◌, if◌then◌else◌,
}
use pretrend_ai.Base.Float.{FloatOps}
use pretrend_ai.Base.AsOf.{latest_row}
use pretrend_ai.Regime.Labels.{Bias}
use pretrend_ai.Backtest.Bias.{
  Modes, Source, Reason, HazardSource, Effective, Shock, SignalRow, normalize_v32_bias,
  resolve_effective_bias_v32, get_signal_row, short_of, mid_of,
}

abbrev pub same_month : ℕ → Option ℕ → Bool
same_month m none = false
same_month m (some n) = n == m

-- `"NEUTRAL_BIAS" if locked_bias == "UNKNOWN"`, where the shock override is used
abbrev pub known_lock : Bool → Bias → Bias
known_lock true b = normalize_v32_bias b
known_lock false b = b

abbrev pub is_override : Source → Bool
is_override Source.override = true
is_override Source.locked = false

abbrev pub locked_effective : Bias → Reason → Effective
locked_effective b reason = record {
  bias = normalize_v32_bias b;
  source = Source.locked;
  reason = reason;
}

abbrev pub no_shock : Bias → Shock
no_shock b = record {
  panic_streak = 0;
  risk_off_streak = 0;
  override_days_left = 0;
  override_bias = b;
  override_reason = Reason.no_reason;
}

module _ (fl : FloatOps) where
  open fl use {F, lt}

  pub record NextStepRow : Type 0 where
    pub trade_date : ℕ
    pub bias_20d : Bias
    pub transition_hazard_10d : Option F

  abbrev bias_cell : Option NextStepRow → Bias
  bias_cell none = Bias.unknown
  bias_cell (some r) = r.bias_20d

  abbrev hazard_cell : Option NextStepRow → Option F
  hazard_cell none = none
  hazard_cell (some r) = r.transition_hazard_10d

  unfoldable pub lookup_next_step_bias : List NextStepRow → ℕ → Bias
  unfolding latest_row
  lookup_next_step_bias df td = bias_cell (latest_row (λ r. r.trade_date) td df)

  unfoldable pub lookup_next_step_hazard10 : List NextStepRow → ℕ → Option F
  unfolding latest_row
  lookup_next_step_hazard10 df td = hazard_cell (latest_row (λ r. r.trade_date) td df)

  pub record BiasState : Type 0 where
    pub locked_month : Option ℕ
    pub locked_bias : Bias
    pub effective : Effective
    pub shock : Shock
    pub override_applied : Bool
    pub hazard_source : HazardSource
    pub hazard_value_10d : Option F

  abbrev pub initial_bias : BiasState
  initial_bias = record {
    locked_month = none;
    locked_bias = Bias.unknown;
    effective = record { bias = Bias.unknown; source = Source.locked; reason = Reason.no_reason };
    shock = no_shock Bias.unknown;
    override_applied = false;
    hazard_source = HazardSource.missing;
    hazard_value_10d = none;
  }

  abbrev pub with_lock : Bool → ℕ → Bias → BiasState → BiasState
  with_lock true m b s = record {
    locked_month = some m;
    locked_bias = known_lock true b;
    effective = locked_effective (known_lock true b) Reason.no_reason;
    shock = no_shock (normalize_v32_bias (known_lock true b));
    override_applied = s.override_applied;
    hazard_source = s.hazard_source;
    hazard_value_10d = s.hazard_value_10d;
  }
  with_lock false m b s = record {
    locked_month = some m;
    locked_bias = b;
    effective = s.effective;
    shock = s.shock;
    override_applied = s.override_applied;
    hazard_source = s.hazard_source;
    hazard_value_10d = s.hazard_value_10d;
  }

  abbrev pub with_shock : BiasState → Effective × Shock → BiasState
  with_shock s r = record {
    locked_month = s.locked_month;
    locked_bias = s.locked_bias;
    effective = r.0;
    shock = r.1;
    override_applied = is_override r.0.source;
    hazard_source = HazardSource.missing;
    hazard_value_10d = none;
  }

  -- the hazard read for an override that applies
  abbrev pub with_hazard : F → Option F → BiasState → BiasState
  with_hazard threshold none s = s
  with_hazard threshold (some v) s = record {
    locked_month = s.locked_month;
    locked_bias = s.locked_bias;
    effective =
        if lt v threshold then locked_effective s.locked_bias Reason.hazard_low else s.effective;
    shock = s.shock;
    override_applied = if lt v threshold then false else s.override_applied;
    hazard_source = HazardSource.snapshot;
    hazard_value_10d = some v;
  }

  pub record Frames (R : Type 0) : Type 0 where
    pub month : ℕ → ℕ
    pub newer : R → R → Bool
    pub modes : Modes
    pub hazard_threshold_10d : F
    pub next_step_df : List NextStepRow
    pub policy_df : List (SignalRow R)

  module _ {R : Type 0} (f : Frames R) where
    unfoldable pub lock_day : ℕ → BiasState → BiasState
    unfolding lookup_next_step_bias
    lock_day td s =
        if same_month (f.month td) s.locked_month
        then s
        else with_lock f.modes.use_shock_override_v32 (f.month td)
            (lookup_next_step_bias f.next_step_df td) s

    unfoldable pub shock_day : ℕ → BiasState → BiasState
    unfolding lookup_next_step_hazard10 get_signal_row resolve_effective_bias_v32
    shock_day td s =
        let today = get_signal_row f.newer f.policy_df td in
        let t =
          with_shock s
            (resolve_effective_bias_v32 s.locked_bias (short_of today) (mid_of today) s.shock) in
        if f.modes.use_hazard_gate_v33 && t.override_applied
        then with_hazard f.hazard_threshold_10d (lookup_next_step_hazard10 f.next_step_df td) t
        else t

    abbrev pub lock_turn : ℕ → BiasState → BiasState
    lock_turn td s = if f.modes.use_monthly_bias_lock then lock_day td s else s

    abbrev pub shock_turn : ℕ → BiasState → BiasState
    shock_turn td s = if f.modes.use_shock_override_v32 then shock_day td s else s

    unfoldable pub bias_day : ℕ → BiasState → BiasState
    unfolding lock_day shock_day
    bias_day td s = shock_turn td (lock_turn td s)

    unfoldable pub bias_run : List ℕ → BiasState → BiasState
    unfolding bias_day
    bias_run [] s = s
    bias_run (td ∷ tds) s = bias_run tds (bias_day td s)
