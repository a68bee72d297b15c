-- ===== src/Scenarios/Strategy.antt =====
-- The allocation on concrete days.
use pretrend_ai.Base.{◌≡◌, refl, Bool, true, false, ◌&&◌, none, some, List, [], ◌∷◌, All, length}
use pretrend_ai.Base.Float.{decimal}
use pretrend_ai.Base.Int.{◌+ℤ◌, ◌-ℤ◌}
use pretrend_ai.Regime.Labels.{LongPhase, MidRegime, ShortSignal}
use pretrend_ai.Strategy.Allocation.{
  Mode, PolicyRow, Result, increase, quantize, compute_allocation, build_allocation,
}
use pretrend_ai.Strategy.Range.{InUnit, decimal-RatioLaws, build_allocation_range}
use pretrend_ai.Strategy.Position.{AxisRow, Policy, allocate_days}
use pretrend_ai.Strategy.HardGate.{is_increase, blocked_day, zip, no_increase_on_blocked_days}

abbrev invested : decimal.F
invested = decimal.lit 30 2

abbrev row : Bool → Bool → PolicyRow decimal
row gate universe = record {
  trade_date = 8;
  long_phase = LongPhase.expansion;
  mid_regime = MidRegime.risk_on;
  risk_gate = gate;
  run_universe = universe;
  lower = decimal.lit 40 2;
  upper = decimal.lit 80 2;
  adjustment_limit = decimal.lit 10 2;
  step_size = decimal.lit 5 2;
}

-- an open day raises the ratio
open_day : (compute_allocation decimal invested (row true true)).action ≡ increase
unfolding compute_allocation quantize ◌+ℤ◌ ◌-ℤ◌
open_day = refl

build_allocation_range_example :
    All
      (λ (r : Result decimal). InUnit decimal r.next_invested_ratio)
      (build_allocation decimal Mode.v0 invested (row true true ∷ row false true ∷ []))
unfolding ◌+ℤ◌ ◌-ℤ◌
build_allocation_range_example =
    build_allocation_range decimal decimal-RatioLaws invested (row true true ∷ row false true ∷ [])
      (refl, refl)

abbrev policy : Policy decimal
policy = record {
  lower = decimal.lit 40 2;
  upper = decimal.lit 80 2;
  adjustment_limit = decimal.lit 10 2;
  step_size = decimal.lit 5 2;
}

abbrev axis : ShortSignal → AxisRow
axis short = record {
  trade_date = 8;
  long_phase = some LongPhase.expansion;
  mid_regime = none;
  short_signal = some short;
}

abbrev days : List AxisRow
days = axis ShortSignal.stable ∷ axis ShortSignal.panic ∷ []

no_increase_on_blocked_days_example :
    (length (allocate_days decimal policy Mode.v0 invested days) ≡ length days)
    × All
        (λ (z : AxisRow × Result decimal). (is_increase z.1.action && blocked_day z.0) ≡ false)
        (zip days (allocate_days decimal policy Mode.v0 invested days))
no_increase_on_blocked_days_example = no_increase_on_blocked_days decimal policy invested days
