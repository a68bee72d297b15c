-- ===== src/Regime/Transition/Switching.antt =====
-- When the 20-day bias of `apply_hysteresis` may change, and what holds it.
use pretrend_ai.Base.{
  ℕ, ◌-◌, ◌≡◌, ◌≢◌, ◌⊎◌, Bool, true, false, not, ◌&&◌, Option, ltb, if◌then◌else◌, arith,
}
use pretrend_ai.Base.Int.{ℤ, pos, negsuc, ◌≤ℤ◌}
use pretrend_ai.Base.Float.{FloatOps}
use pretrend_ai.Regime.Labels.{MidRegime, ShortSignal, Bias}
use pretrend_ai.Regime.Transition.Hysteresis.{Decision, same_bias, cooldown_days, apply_hysteresis}

module _ (fl : FloatOps) (prev base : Bias) (score : ℤ) (left : ℕ) (is_monday : Bool)
    (mid : MidRegime) (short : ShortSignal) (hazard : Option fl.F) (run_universe : Bool) where
  abbrev out : Decision
  out = apply_hysteresis fl prev base score left is_monday mid short hazard run_universe

  -- On every branch the switch flag says exactly whether a known bias gave way to another one.
  switched_exact :
      out.switched ≡ (not (same_bias prev Bias.unknown) && not (same_bias out.bias prev))
  unfolding apply_hysteresis
  switched_exact = ground arith

  -- A known bias changes only through the hard gate, or on a Monday with no cooldown left.
  pub switch_needs_monday_or_gate :
      prev ≢ Bias.unknown
      → out.bias ≢ prev
      → (run_universe ≡ false) ⊎ ((is_monday ≡ true) × (left ≡ 0))
  unfolding apply_hysteresis
  switch_needs_monday_or_gate p q = ground arith

  -- The cooldown after a row: the hard gate leaves it alone, a running cooldown falls by one on
  -- every day of the week, and a switch by the weekly decision sets it to 5.
  cooldown_after : out.cooldown_left ≡ (
      if not run_universe
      then left
      else if ltb 0 left
      then left - 1
      else if out.switched
      then cooldown_days
      else left)
  unfolding apply_hysteresis
  cooldown_after = ground arith

  -- While the gate is open, a RISK_ON bias stays on every day whose overlay score is positive.
  hysteresis_holds_on :
      run_universe ≡ true → prev ≡ Bias.risk_on_bias → pos 1 ≤ℤ score → out.bias ≡ Bias.risk_on_bias
  unfolding apply_hysteresis
  hysteresis_holds_on h p q = ground arith

  -- A RISK_OFF bias stays on every day whose overlay score is negative, the gate open or shut.
  hysteresis_holds_off :
      prev ≡ Bias.risk_off_bias → score ≤ℤ negsuc 0 → out.bias ≡ Bias.risk_off_bias
  unfolding apply_hysteresis
  hysteresis_holds_off p q = ground arith
