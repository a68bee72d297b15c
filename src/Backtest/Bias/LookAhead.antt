-- ===== src/Backtest/Bias/LookAhead.antt =====
-- The bias overlays of src/pretrend/pipeline/backtest/runner.py see no row of a later day.
use pretrend_ai.Base.{ℕ, ◌≡◌, refl, ap, ◌∙◌, false, leb, List, [], ◌∷◌, ◌++◌, All}
use pretrend_ai.Base.Float.{FloatOps}
use pretrend_ai.Base.AsOf.{window-append, latest_row-append}
use pretrend_ai.Backtest.Bias.{SignalRow, get_signal_row}
use pretrend_ai.Backtest.Bias.Day.{
  NextStepRow, BiasState, Frames, lookup_next_step_bias, lookup_next_step_hazard10, lock_day,
  shock_day, bias_day, bias_run,
}

module _ (fl : FloatOps) {R : Type 0} (f : Frames fl R) (steps : List (NextStepRow fl))
    (policies : List (SignalRow R)) where
  -- The frames with more rows.
  abbrev pub extended : Frames fl R
  extended = record {
    month = f.month;
    newer = f.newer;
    modes = f.modes;
    hazard_threshold_10d = f.hazard_threshold_10d;
    next_step_df = f.next_step_df ++ steps;
    policy_df = f.policy_df ++ policies;
  }

  -- The added rows are all after the day.
  abbrev pub AreLater : ℕ → Type 0
  AreLater td =
      All (λ (r : NextStepRow fl). leb r.trade_date td ≡ false) steps
      × All (λ (r : SignalRow R). leb r.trade_date td ≡ false) policies

  policy_same :
      (td : ℕ)
      → AreLater td
      → get_signal_row f.newer (f.policy_df ++ policies) td ≡ get_signal_row f.newer f.policy_df td
  unfolding get_signal_row
  policy_same td h =
      rw (window-append (λ (r : SignalRow R). r.trade_date) td f.policy_df policies h.1) refl

  bias_same :
      (td : ℕ)
      → AreLater td
      → lookup_next_step_bias fl (f.next_step_df ++ steps) td
        ≡ lookup_next_step_bias fl f.next_step_df td
  unfolding lookup_next_step_bias
  bias_same td h =
      rw (latest_row-append (λ (r : NextStepRow fl). r.trade_date) td f.next_step_df steps h.0) refl

  hazard_same :
      (td : ℕ)
      → AreLater td
      → lookup_next_step_hazard10 fl (f.next_step_df ++ steps) td
        ≡ lookup_next_step_hazard10 fl f.next_step_df td
  unfolding lookup_next_step_hazard10
  hazard_same td h =
      rw (latest_row-append (λ (r : NextStepRow fl). r.trade_date) td f.next_step_df steps h.0) refl

  bias_day_same :
      (td : ℕ) (s : BiasState fl) → AreLater td → bias_day fl extended td s ≡ bias_day fl f td s
  unfolding bias_day lock_day shock_day
  bias_day_same td s h = rw (bias_same td h, policy_same td h, hazard_same td h) refl

  -- The rows of the next-step and policy frames that are after each day of a run change nothing in the
  -- run: neither the lock, nor the overrides, nor the effective bias.
  pub bias_run_no_look_ahead :
      (tds : List ℕ) (s : BiasState fl)
      → All AreLater tds
      → bias_run fl extended tds s ≡ bias_run fl f tds s
  unfolding bias_run
  bias_run_no_look_ahead [] s h = refl
  bias_run_no_look_ahead (td ∷ tds) s h =
      ap (bias_run fl extended tds) (bias_day_same td s h.0)
      ∙ bias_run_no_look_ahead tds (bias_day fl f td s) h.1
