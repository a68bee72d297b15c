-- ===== src/Strategy/Position.antt =====
-- src/pretrend/observability/regime/position/engine.py: the hard gates of a day, and
-- src/pretrend/pipeline/strategy_engine/policy_selector/engine.py, which joins the policy to each day.
-- A label that is missing or no member of its set is `none`. The overlay of text columns is left out.
use pretrend_ai.Base.{
  ℕ, Bool, true, false, ◌&&◌, not, Option, none, some, List, [], ◌∷◌, ◌++◌, map, if◌then◌else◌,
}
use pretrend_ai.Base.Float.{FloatOps}
use pretrend_ai.Regime.Labels.{LongPhase, MidRegime, ShortSignal}
use pretrend_ai.Strategy.Allocation.{Mode, PolicyRow, Result, build_allocation}

-- `_judge_run_universe`
unfoldable pub judge_run_universe : LongPhase → MidRegime → Bool
judge_run_universe LongPhase.recession MidRegime.risk_off = false
judge_run_universe LongPhase.slowdown MidRegime.risk_off = false
judge_run_universe _ _ = true

-- `_judge_risk_gate`
unfoldable pub judge_risk_gate : ShortSignal → Bool
judge_risk_gate ShortSignal.panic = false
judge_risk_gate ShortSignal.stable = true
judge_risk_gate ShortSignal.relief = true
judge_risk_gate ShortSignal.unknown = true

pub data PositionNote : Type 0 where
  universe_blocked : LongPhase → MidRegime → PositionNote
  gate_blocked : ShortSignal → PositionNote
  all_clear : PositionNote

-- `_build_notes`
unfoldable pub build_notes : LongPhase → MidRegime → ShortSignal → Bool → Bool → List PositionNote
build_notes lp mr ss run_universe risk_gate =
    (if not run_universe then universe_blocked lp mr ∷ [] else [])
    ++ ((if not risk_gate then gate_blocked ss ∷ [] else [])
        ++ (if run_universe && risk_gate then all_clear ∷ [] else []))

pub record AxisRow : Type 0 where
  pub trade_date : ℕ
  pub long_phase : Option LongPhase
  pub mid_regime : Option MidRegime
  pub short_signal : Option ShortSignal

pub record Position : Type 0 where
  pub trade_date : ℕ
  pub long_phase : LongPhase
  pub mid_regime : MidRegime
  pub short_signal : ShortSignal
  pub run_universe : Bool
  pub risk_gate : Bool
  pub notes : List PositionNote

abbrev pub known {ℓ} : {L : Type ℓ} → L → Option L → L
known unknown none = unknown
known unknown (some l) = l

-- one row of `build_market_position`
unfoldable pub market_position : AxisRow → Position
unfolding judge_run_universe judge_risk_gate build_notes
market_position row =
    let lp = known LongPhase.unknown row.long_phase in
    let mr = known MidRegime.unknown row.mid_regime in
    let ss = known ShortSignal.unknown row.short_signal in
    record {
      trade_date = row.trade_date;
      long_phase = lp;
      mid_regime = mr;
      short_signal = ss;
      run_universe = judge_run_universe lp mr;
      risk_gate = judge_risk_gate ss;
      notes = build_notes lp mr ss (judge_run_universe lp mr) (judge_risk_gate ss);
    }

abbrev pub build_market_position : List AxisRow → List Position
build_market_position rows = map (λ row. market_position row) rows

module _ (fl : FloatOps) where
  open fl use {F}

  -- The numbers of a policy profile that the allocation reads.
  pub record Policy : Type 0 where
    pub lower : F
    pub upper : F
    pub adjustment_limit : F
    pub step_size : F

  -- one row of `build_policy_selection`
  unfoldable pub select_policy : Policy → Position → PolicyRow fl
  select_policy policy p = record {
    trade_date = p.trade_date;
    long_phase = p.long_phase;
    mid_regime = p.mid_regime;
    risk_gate = p.risk_gate;
    run_universe = p.run_universe;
    lower = policy.lower;
    upper = policy.upper;
    adjustment_limit = policy.adjustment_limit;
    step_size = policy.step_size;
  }

  -- the three stages one after the other, as the strategy job runs them
  unfoldable pub allocate_days : Policy → Mode → F → List AxisRow → List (Result fl)
  unfolding select_policy market_position build_allocation
  allocate_days policy mode current rows =
      build_allocation fl mode current
        (map (λ p. select_policy policy p) (build_market_position rows))
