-- ===== src/Strategy/Allocation.antt =====
-- src/pretrend/pipeline/strategy_engine/allocation/engine.py: the next invested ratio, in the three
-- modes of the engine. The text prefix of a note is left out.
use pretrend_ai.Base.{ℕ, Bool, true, false, ◌&&◌, not, List, [], ◌∷◌, if◌then◌else◌}
use pretrend_ai.Base.Float.{FloatOps, fmin, fmax, fneg, fabs}
use pretrend_ai.Regime.Labels.{LongPhase, MidRegime}

pub data Action : Type 0 where
  hold increase decrease : Action

pub data Mode : Type 0 where
  v0 v1 v2 unknown_mode : Mode

module _ (fl : FloatOps) where
  open fl use {F, lit, of_int, add, sub, mul, div, lt, le, round, floor}

  pub data Note : Type 0 where
    in_target_range blocked_by_risk_gate blocked_by_run_universe : Note
    target_lower target_upper at_target target : F → Note

  pub record Result : Type 0 where
    pub action : Action
    pub next_invested_ratio : F
    pub delta_ratio : F
    pub blocked : Bool
    pub notes : List Note

  -- A row of `policy_selection`, its defaults filled in.
  pub record PolicyRow : Type 0 where
    pub trade_date : ℕ
    pub long_phase : LongPhase
    pub mid_regime : MidRegime
    pub risk_gate : Bool
    pub run_universe : Bool
    pub lower : F
    pub upper : F
    pub adjustment_limit : F
    pub step_size : F

  -- `_quantize` at its default policy, ROUND_DOWN
  unfoldable pub quantize : F → F → F
  quantize value step =
      if le step (lit 0 1)
      then value
      else mul (of_int (floor (add (div value step) (lit 1 9)))) step

  abbrev pub stay : F → Bool → Note → Result
  stay current by_gate note = record {
    action = hold;
    next_invested_ratio = current;
    delta_ratio = lit 0 1;
    blocked = by_gate;
    notes = note ∷ [];
  }

  abbrev pub moved : Action → F → F → Action
  moved action delta zero = if lt zero delta then action else hold

  unfoldable pub apply_delta : F → F → F → F → Bool → Result
  unfolding quantize
  apply_delta current goal adj_limit step_size run_universe =
      let raw = sub goal current in
      let up = quantize (fmin fl raw adj_limit) step_size in
      let up_ratio = round (fmin fl (add current up) (lit 10 1)) 4 in
      let down = quantize (fmin fl (fabs fl raw) adj_limit) step_size in
      let down_ratio = round (fmax fl (sub current down) (lit 0 1)) 4 in
      if lt (fabs fl raw) step_size
      then stay current false (at_target goal)
      else if lt (lit 0 0) raw
      then if not run_universe then stay current false blocked_by_run_universe else record {
        action = moved increase up (lit 0 0);
        next_invested_ratio = up_ratio;
        delta_ratio = round (sub up_ratio current) 4;
        blocked = false;
        notes = target goal ∷ [];
      }
      else record {
        action = moved decrease down (lit 0 0);
        next_invested_ratio = down_ratio;
        delta_ratio = round (sub down_ratio current) 4;
        blocked = false;
        notes = target goal ∷ [];
      }

  -- `_ALLOCATION_V1_MAP`
  abbrev pub v1_target : LongPhase → F
  v1_target LongPhase.expansion = lit 60 2
  v1_target LongPhase.recovery = lit 60 2
  v1_target LongPhase.late_cycle = lit 60 2
  v1_target LongPhase.slowdown = lit 20 2
  v1_target LongPhase.recession = lit 10 2
  v1_target LongPhase.unknown = lit 40 2

  -- `_ALLOCATION_V2_MAP`, which has an entry for every pair of labels, so that the fallbacks of the
  -- lookup are never taken
  abbrev pub v2_target : LongPhase → MidRegime → F
  v2_target LongPhase.expansion MidRegime.risk_on = lit 80 2
  v2_target LongPhase.expansion MidRegime.neutral = lit 70 2
  v2_target LongPhase.expansion MidRegime.risk_off = lit 55 2
  v2_target LongPhase.expansion MidRegime.unknown = lit 65 2
  v2_target LongPhase.late_cycle MidRegime.risk_on = lit 60 2
  v2_target LongPhase.late_cycle MidRegime.neutral = lit 45 2
  v2_target LongPhase.late_cycle MidRegime.risk_off = lit 30 2
  v2_target LongPhase.late_cycle MidRegime.unknown = lit 45 2
  v2_target LongPhase.slowdown MidRegime.risk_on = lit 35 2
  v2_target LongPhase.slowdown MidRegime.neutral = lit 25 2
  v2_target LongPhase.slowdown MidRegime.risk_off = lit 15 2
  v2_target LongPhase.slowdown MidRegime.unknown = lit 25 2
  v2_target LongPhase.recovery MidRegime.risk_on = lit 70 2
  v2_target LongPhase.recovery MidRegime.neutral = lit 60 2
  v2_target LongPhase.recovery MidRegime.risk_off = lit 45 2
  v2_target LongPhase.recovery MidRegime.unknown = lit 60 2
  v2_target LongPhase.recession MidRegime.risk_on = lit 20 2
  v2_target LongPhase.recession MidRegime.neutral = lit 10 2
  v2_target LongPhase.recession MidRegime.risk_off = lit 5 2
  v2_target LongPhase.recession MidRegime.unknown = lit 10 2
  v2_target LongPhase.unknown MidRegime.risk_on = lit 50 2
  v2_target LongPhase.unknown MidRegime.neutral = lit 40 2
  v2_target LongPhase.unknown MidRegime.risk_off = lit 30 2
  v2_target LongPhase.unknown MidRegime.unknown = lit 40 2

  unfoldable pub compute_allocation_v1 : F → PolicyRow → Result
  unfolding apply_delta
  compute_allocation_v1 current row =
      apply_delta current (v1_target row.long_phase) row.adjustment_limit row.step_size
        row.run_universe

  unfoldable pub compute_allocation_v2 : F → PolicyRow → Result
  unfolding apply_delta
  compute_allocation_v2 current row =
      apply_delta current (v2_target row.long_phase row.mid_regime) row.adjustment_limit
        row.step_size row.run_universe

  -- `if delta <= 0: delta = 0.0`
  abbrev pub at_least_zero : F → F
  at_least_zero delta = if le delta (lit 0 0) then lit 0 1 else delta

  abbrev pub or_hold : Action → F → Action
  or_hold action delta = if le delta (lit 0 0) then hold else action

  -- `_compute_allocation`, the range maintenance of v0
  unfoldable pub compute_allocation : F → PolicyRow → Result
  unfolding quantize
  compute_allocation current row =
      let up = quantize (fmin fl (sub row.lower current) row.adjustment_limit) row.step_size in
      let down = quantize (fmin fl (sub current row.upper) row.adjustment_limit) row.step_size in
      if le row.lower current && le current row.upper
      then stay current false in_target_range
      else if lt current row.lower
      then if not row.risk_gate
        then stay current true blocked_by_risk_gate
        else if not row.run_universe
        then stay current false blocked_by_run_universe
        else record {
          action = or_hold increase up;
          next_invested_ratio = round (fmin fl (add current (at_least_zero up)) (lit 10 1)) 4;
          delta_ratio = round (at_least_zero up) 4;
          blocked = false;
          notes = target_lower row.lower ∷ [];
        }
      else record {
        action = or_hold decrease down;
        next_invested_ratio = round (fmax fl (sub current (at_least_zero down)) (lit 0 1)) 4;
        delta_ratio = round (fneg fl (at_least_zero down)) 4;
        blocked = false;
        notes = target_upper row.upper ∷ [];
      }

  -- one row of `build_allocation`; an unknown mode falls back to v0
  unfoldable pub allocate : Mode → F → PolicyRow → Result
  unfolding compute_allocation compute_allocation_v1 compute_allocation_v2
  allocate v1 current row = compute_allocation_v1 current row
  allocate v2 current row = compute_allocation_v2 current row
  allocate v0 current row = compute_allocation current row
  allocate unknown_mode current row = compute_allocation current row

  unfoldable pub build_allocation : Mode → F → List PolicyRow → List Result
  unfolding allocate
  build_allocation mode current [] = []
  build_allocation mode current (row ∷ rows) =
      let result = allocate mode current row in
      result ∷ build_allocation mode result.next_invested_ratio rows
