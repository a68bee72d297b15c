-- ===== src/Regime/Transition/Hysteresis.antt =====
-- `apply_hysteresis` of src/pretrend/observability/regime/transition/engine.py: the 20-day
-- execution bias under a weekly cadence, with hysteresis and a cooldown.
use pretrend_ai.Base.{ℕ, ◌-◌, Bool, true, false, ◌&&◌, not, Option, ltb, if◌then◌else◌}
use pretrend_ai.Base.Int.{ℤ, pos, negsuc, ltb_ℤ, leb_ℤ}
use pretrend_ai.Base.Float.{FloatOps}
use pretrend_ai.Regime.Labels.{MidRegime, ShortSignal, Bias}
use pretrend_ai.Regime.Transition.Score.{is_hazard_high}

pub data Source : Type 0 where
  hard_gate hold_cooldown baseline overlay : Source

pub data Reason : Type 0 where
  hard_gate cooldown weekday_hold phase_baseline hysteresis_hold_on hysteresis_hold_off : Reason
  mid_risk_on mid_risk_off short_panic short_relief hazard_high overlay : Reason

abbrev pub same_bias : Bias → Bias → Bool
same_bias Bias.risk_on_bias Bias.risk_on_bias = true
same_bias Bias.neutral_bias Bias.neutral_bias = true
same_bias Bias.risk_off_bias Bias.risk_off_bias = true
same_bias Bias.unknown Bias.unknown = true
same_bias _ _ = false

-- the tuple (bias, source, switched, reason, cooldown left)
pub record Decision : Type 0 where
  pub bias : Bias
  pub source : Source
  pub switched : Bool
  pub reason : Reason
  pub cooldown_left : ℕ

abbrev pub cooldown_days : ℕ
cooldown_days = 5

-- `prev_bias if prev_bias != "UNKNOWN" else baseline_bias`
abbrev pub hold_bias : Bias → Bias → Bias
hold_bias prev base = if same_bias prev Bias.unknown then base else prev

module _ (fl : FloatOps) where
  unfoldable pub overlay_reason : MidRegime → ShortSignal → Option fl.F → Reason
  overlay_reason MidRegime.risk_on _ hazard = mid_risk_on
  overlay_reason MidRegime.risk_off _ hazard = mid_risk_off
  overlay_reason _ ShortSignal.panic hazard = short_panic
  overlay_reason _ ShortSignal.relief hazard = short_relief
  overlay_reason _ _ hazard =
      if is_hazard_high fl hazard then Reason.hazard_high else Reason.overlay

  -- the weekly choice before hysteresis: (candidate, source, reason)
  unfoldable pub weekly_candidate :
      Bias → ℤ → MidRegime → ShortSignal → Option fl.F → Bias × Source × Reason
  unfolding overlay_reason
  weekly_candidate base score mid short hazard =
      if leb_ℤ (pos 2) score
      then (Bias.risk_on_bias, Source.overlay, overlay_reason mid short hazard)
      else if leb_ℤ score (negsuc 1)
      then (Bias.risk_off_bias, Source.overlay, overlay_reason mid short hazard)
      else (base, Source.baseline, Reason.phase_baseline)

  -- the hysteresis hold on a candidate
  unfoldable pub with_hysteresis : Bias → ℤ → Bias × Source × Reason → Bias × Source × Reason
  with_hysteresis prev score (candidate, source, reason) =
      if same_bias prev Bias.risk_on_bias
        && ltb_ℤ (pos 0) score
        && not (same_bias candidate Bias.risk_on_bias)
      then (Bias.risk_on_bias, Source.overlay, Reason.hysteresis_hold_on)
      else if same_bias prev Bias.risk_off_bias
          && ltb_ℤ score (pos 0)
          && not (same_bias candidate Bias.risk_off_bias)
      then (Bias.risk_off_bias, Source.overlay, Reason.hysteresis_hold_off)
      else (candidate, source, reason)

  abbrev pub weekly_decision : Bias → ℕ → Bias × Source × Reason → Decision
  weekly_decision prev left (candidate, source, reason) =
      let switched = not (same_bias prev Bias.unknown) && not (same_bias candidate prev) in
      record {
        bias = candidate;
        source = source;
        switched = switched;
        reason = reason;
        cooldown_left = if switched then cooldown_days else left;
      }

  -- `cooldown_left` begins at 0 in `build_next_step_signal` and is only ever reset to 5 or stepped
  -- down by `max(0, cooldown_left - 1)`, which is `-` on ℕ.
  abbrev pub held_by_cooldown : Bias → ℕ → Decision
  held_by_cooldown kept left = record {
    bias = kept;
    source = Source.hold_cooldown;
    switched = false;
    reason = Reason.cooldown;
    cooldown_left = left - 1;
  }

  unfoldable pub apply_hysteresis :
      Bias → Bias → ℤ → ℕ → Bool → MidRegime → ShortSignal → Option fl.F → Bool → Decision
  unfolding weekly_candidate with_hysteresis
  apply_hysteresis prev base score left is_monday mid short hazard run_universe =
      let kept = hold_bias prev base in
      if not run_universe
      then record {
        bias = Bias.risk_off_bias;
        source = Source.hard_gate;
        switched = not (same_bias prev Bias.unknown) && not (same_bias prev Bias.risk_off_bias);
        reason = Reason.hard_gate;
        cooldown_left = left;
      }
      else if not is_monday
      then if ltb 0 left then held_by_cooldown kept left else record {
        bias = kept;
        source = Source.baseline;
        switched = false;
        reason = Reason.weekday_hold;
        cooldown_left = left;
      }
      else if ltb 0 left
      then held_by_cooldown kept left
      else weekly_decision prev left
          (with_hysteresis prev score (weekly_candidate base score mid short hazard))
