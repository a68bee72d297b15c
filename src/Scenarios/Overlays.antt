-- ===== src/Scenarios/Overlays.antt =====
-- The bias overlays on concrete days of one month: a PANIC on the days 61 and 62, and the days after it.
use pretrend_ai.Base.{ℕ, ◌/◌, ◌≡◌, refl, true, false, ltb, none, some, [], ◌∷◌, arith}
use pretrend_ai.Base.Float.{decimal}
use pretrend_ai.Regime.Labels.{Bias, ShortSignal, MidRegime}
use pretrend_ai.Backtest.Bias.{
  short_of, Version, Reason, SignalRow, resolve_v3_mode_flags, get_signal_row,
}
use pretrend_ai.Backtest.Bias.Day.{
  NextStepRow, Frames, BiasState, initial_bias, bias_day, bias_run, known_lock,
  lookup_next_step_bias,
}
use pretrend_ai.Backtest.Bias.Lock.{locked_for_month}
use pretrend_ai.Backtest.Bias.Override.{Ruled, panic_shock, panic_rules_five_days}
use pretrend_ai.Backtest.Bias.LookAhead.{extended, bias_run_no_look_ahead}

abbrev policy : ℕ → ShortSignal → SignalRow ℕ
policy d short = record {
  trade_date = d;
  decision_date = d;
  source_run_id = 1;
  short_signal = short;
  mid_regime = MidRegime.risk_off;
}

abbrev next_step : ℕ → Bias → NextStepRow decimal
next_step d b = record {
  trade_date = d;
  bias_20d = b;
  transition_hazard_10d = some (decimal.lit 40 2);
}

abbrev frames : Frames decimal ℕ
frames = record {
  month = λ d. d / 30;
  newer = λ a b. ltb b a;
  modes = resolve_v3_mode_flags Version.v3_3;
  hazard_threshold_10d = decimal.lit 95 2;
  next_step_df = next_step 59 Bias.risk_on_bias ∷ [];
  policy_df =
      policy 61 ShortSignal.panic ∷ policy 62 ShortSignal.panic ∷ policy 63 ShortSignal.relief ∷ [];
}

-- After the first PANIC.
abbrev shaken : BiasState decimal
shaken = record {
  locked_month = some 2;
  locked_bias = Bias.risk_on_bias;
  effective = (initial_bias decimal).effective;
  shock = record {
    panic_streak = 1;
    risk_off_streak = 1;
    override_days_left = 0;
    override_bias = Bias.risk_on_bias;
    override_reason = Reason.no_reason;
  };
  override_applied = false;
  hazard_source = (initial_bias decimal).hazard_source;
  hazard_value_10d = none;
}

locked_for_month_example :
    (bias_run decimal frames (60 ∷ 61 ∷ 62 ∷ []) (initial_bias decimal)).locked_bias
    ≡ known_lock true (lookup_next_step_bias decimal (next_step 59 Bias.risk_on_bias ∷ []) 60)
locked_for_month_example =
    locked_for_month decimal frames 60 (61 ∷ 62 ∷ []) (initial_bias decimal) refl refl
      (refl, (refl, tt))

read_panic : short_of (get_signal_row frames.newer frames.policy_df 61) ≡ ShortSignal.panic
unfolding get_signal_row
read_panic = refl

panic_rules_five_days_example :
    Ruled decimal frames panic_shock
      (bias_day decimal frames 64 (bias_run decimal frames (61 ∷ 62 ∷ 63 ∷ []) shaken))
panic_rules_five_days_example =
    panic_rules_five_days decimal frames 2 61 (62 ∷ 63 ∷ []) 64 shaken refl refl refl
      (refl, (refl, tt)) refl refl (omega arith) read_panic (omega arith)

bias_run_no_look_ahead_example :
    bias_run decimal
      (extended decimal frames (next_step 70 Bias.risk_off_bias ∷ []) [])
      (61 ∷ 62 ∷ [])
      shaken
    ≡ bias_run decimal frames (61 ∷ 62 ∷ []) shaken
bias_run_no_look_ahead_example =
    bias_run_no_look_ahead decimal frames (next_step 70 Bias.risk_off_bias ∷ []) [] (61 ∷ 62 ∷ [])
      shaken (((refl, tt), tt), (((refl, tt), tt), tt))
