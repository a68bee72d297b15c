-- ===== src/Scenarios/Horizon.antt =====
-- The horizon deciders on concrete cells.
use pretrend_ai.Base.{◌≡◌, true, none, some}
use pretrend_ai.Base.Float.{decimal, fneg}
use pretrend_ai.Regime.Horizon.Short.{Inputs, classify_short_signal, evaluate_short_signal}
use pretrend_ai.Regime.Horizon.ShortAgreement.{evaluate-classify}
use pretrend_ai.Regime.Horizon.Mid.{Cell, classify_mid_regime, compute_mid_decision}
use pretrend_ai.Regime.Horizon.MidVotes.{compute_mid_decision-classify}

-- a fall of 0.7 % at a volatility of 16 %, confirmed by the volume, the VIX and the skew
abbrev fall : decimal.F
fall = fneg decimal (decimal.lit 7 3)

abbrev shaken : decimal.F
shaken = decimal.lit 16 2

abbrev cells : Inputs decimal
cells = record {
  spy_ret_1d = some fall;
  spy_vol_20d = some shaken;
  volume_zscore = some (decimal.lit 25 1);
  spy_intraday_range = none;
  tlt_ret_1d = none;
  iau_ret_1d = none;
  iwm_spy_vol_spread = none;
  vix_close = some (decimal.lit 40 0);
  skew_extreme = true;
}

evaluate-classify_example :
    (evaluate_short_signal decimal cells).0 ≡ classify_short_signal decimal cells
evaluate-classify_example = evaluate-classify decimal cells

compute_mid_decision-classify_example :
    (compute_mid_decision decimal
      (some fall)
      (some shaken)
      Cell.null
      (Cell.value (decimal.lit 7 3))).selected_signal
    ≡ classify_mid_regime decimal (some fall) (some shaken) Cell.null (Cell.value (decimal.lit 7 3))
compute_mid_decision-classify_example =
    compute_mid_decision-classify decimal (some fall) (some shaken) Cell.null
      (Cell.value (decimal.lit 7 3))
