-- ===== src/Regime/Transition/Score.antt =====
-- The scores and biases of src/pretrend/observability/regime/transition/engine.py.
use pretrend_ai.Base.{
  ℕ, Bool, true, false, ◌&&◌, ◌||◌, Option, none, some, List, [], ◌∷◌, length, keep, ltb,
  if◌then◌else◌, map,
}
use pretrend_ai.Base.Int.{ℤ, pos, negsuc, ◌+ℤ◌, ◌-ℤ◌, ltb_ℤ}
use pretrend_ai.Base.Float.{FloatOps, fmin, fmax, fneg, fabs}
use pretrend_ai.Regime.Labels.{LongPhase, MidRegime, ShortSignal, Bias}

-- The trading-day horizons 5, 10, 20, 60 and 120, the keys of the tables below.
pub data Horizon : Type 0 where
  h5 h10 h20 h60 h120 : Horizon

-- The order in which `_HORIZON_WEIGHTS.items()` gives them.
abbrev pub horizons : List Horizon
horizons = h5 ∷ h10 ∷ h20 ∷ h60 ∷ h120 ∷ []

unfoldable pub long_to_score : LongPhase → ℤ
long_to_score LongPhase.expansion = pos 1
long_to_score LongPhase.recovery = pos 1
long_to_score LongPhase.late_cycle = pos 1
long_to_score LongPhase.slowdown = negsuc 0
long_to_score LongPhase.recession = negsuc 0
long_to_score LongPhase.unknown = pos 0

unfoldable pub mid_to_score : MidRegime → ℤ
mid_to_score MidRegime.risk_on = pos 1
mid_to_score MidRegime.risk_off = negsuc 0
mid_to_score _ = pos 0

unfoldable pub short_to_score : ShortSignal → ℤ
short_to_score ShortSignal.relief = pos 1
short_to_score ShortSignal.panic = negsuc 0
short_to_score _ = pos 0

-- `_PHASE_BASELINE`, and `resolve_phase_baseline`
unfoldable pub resolve_phase_baseline : LongPhase → Bias
resolve_phase_baseline LongPhase.expansion = Bias.neutral_bias
resolve_phase_baseline LongPhase.late_cycle = Bias.neutral_bias
resolve_phase_baseline LongPhase.recovery = Bias.risk_on_bias
resolve_phase_baseline LongPhase.slowdown = Bias.risk_off_bias
resolve_phase_baseline LongPhase.recession = Bias.risk_off_bias
resolve_phase_baseline LongPhase.unknown = Bias.neutral_bias

-- The sign of a vote, as `target` of `_compute_confidence` holds it.
abbrev same_sign : Bias → ℤ → Bool
same_sign Bias.risk_on_bias v = ltb_ℤ (pos 0) v
same_sign Bias.risk_off_bias v = ltb_ℤ v (pos 0)
same_sign _ v = false

-- `target != 0`
abbrev is_directed : Bias → Bool
is_directed Bias.risk_on_bias = true
is_directed Bias.risk_off_bias = true
is_directed _ = false

abbrev is_nonzero : ℤ → Bool
is_nonzero v = ltb_ℤ (pos 0) v || ltb_ℤ v (pos 0)

abbrev mid_points : MidRegime → ℤ
mid_points MidRegime.risk_on = pos 2
mid_points MidRegime.risk_off = negsuc 1
mid_points _ = pos 0

unfoldable short_points : ShortSignal → ℤ → ℤ
unfolding ◌+ℤ◌ ◌-ℤ◌
short_points ShortSignal.relief score = score +ℤ pos 1
short_points ShortSignal.panic score = score -ℤ pos 2
short_points _ score = score

module _ (fl : FloatOps) where
  open fl use {F, lit, of_int, add, sub, mul, div, lt, le, round}

  abbrev weights : Horizon → F × F × F
  weights h5 = (lit 10 2, lit 30 2, lit 60 2)
  weights h10 = (lit 15 2, lit 45 2, lit 40 2)
  weights h20 = (lit 20 2, lit 60 2, lit 20 2)
  weights h60 = (lit 50 2, lit 40 2, lit 10 2)
  weights h120 = (lit 70 2, lit 25 2, lit 5 2)

  abbrev pub threshold_for_horizon : Horizon → F
  threshold_for_horizon h5 = lit 35 2
  threshold_for_horizon h10 = lit 30 2
  threshold_for_horizon h20 = lit 25 2
  threshold_for_horizon h60 = lit 20 2
  threshold_for_horizon h120 = lit 15 2

  abbrev penalty : Horizon → F
  penalty h5 = lit 10 2
  penalty h10 = lit 10 2
  penalty h20 = lit 8 2
  penalty h60 = lit 5 2
  penalty h120 = lit 5 2

  abbrev pub min_confidence : Horizon → F
  min_confidence h5 = lit 50 2
  min_confidence h10 = lit 50 2
  min_confidence h20 = lit 45 2
  min_confidence h60 = lit 40 2
  min_confidence h120 = lit 40 2

  unfoldable pub score_to_bias : F → F → Bias
  score_to_bias score threshold =
      if le threshold score
      then Bias.risk_on_bias
      else if le score (fneg fl threshold)
      then Bias.risk_off_bias
      else Bias.neutral_bias

  -- `hazard is not None and hazard >= 0.95`; a NaN fails the test as `None` does
  unfoldable pub is_hazard_high : Option F → Bool
  is_hazard_high none = false
  is_hazard_high (some h) = le (lit 95 2) h

  unfoldable pub hazard_penalty : Horizon → Option F → F
  unfolding is_hazard_high
  hazard_penalty h hazard = if is_hazard_high hazard then penalty h else lit 0 1

  -- The share of the votes other than 0 that point the way of the bias.
  agreement : List ℤ → Bias → F
  agreement components bias =
      let non_zero = keep is_nonzero components in
      if is_directed bias && ltb 0 (length non_zero)
      then div (of_int (pos (length (keep (same_sign bias) non_zero))))
          (of_int (pos (length non_zero)))
      else lit 0 1

  unfoldable pub compute_confidence : F → List ℤ → Bias → F → F
  unfolding agreement
  compute_confidence score components bias min_floor =
      let confidence =
        add (add (lit 45 2) (mul (lit 45 2) (agreement components bias)))
          (mul (lit 10 2) (fabs fl score)) in
      round (fmax fl min_floor (fmin fl (lit 95 2) confidence)) 4

  abbrev damped : Horizon → ℤ → ℤ → ℤ → F × F × F
  damped h5 lv mv sv = (mul (of_int lv) (lit 5 1), of_int mv, of_int sv)
  damped h10 lv mv sv = (mul (of_int lv) (lit 5 1), of_int mv, of_int sv)
  damped h20 lv mv sv = (of_int lv, of_int mv, of_int sv)
  damped h60 lv mv sv = (of_int lv, of_int mv, mul (of_int sv) (lit 5 1))
  damped h120 lv mv sv = (of_int lv, of_int mv, mul (of_int sv) (lit 5 1))

  -- The long vote is halved on the short horizons, and the short vote on the long ones, while the
  -- state is younger than three days.
  unfoldable pub age_damping : Horizon → Option ℕ → ℤ → ℤ → ℤ → F × F × F
  age_damping h none lv mv sv = (of_int lv, of_int mv, of_int sv)
  age_damping h (some age) lv mv sv =
      if ltb age 3 then damped h lv mv sv else (of_int lv, of_int mv, of_int sv)

  unfoldable pub horizon_score :
      Horizon → LongPhase → MidRegime → ShortSignal → Option F → Option ℕ → F
  unfolding hazard_penalty age_damping long_to_score mid_to_score short_to_score
  horizon_score h long mid short hazard age =
      let (lw, mw, sw) = weights h in
      let (ld, md, sd) =
        age_damping h age (long_to_score long) (mid_to_score mid) (short_to_score short) in
      sub (add (add (mul lw ld) (mul mw md)) (mul sw sd)) (hazard_penalty h hazard)

  -- `bias_{h}d` and `confidence_{h}d` of `_compute_horizon_biases`
  unfoldable pub horizon_bias :
      Horizon → LongPhase → MidRegime → ShortSignal → Option F → Option ℕ → Bias × F
  unfolding horizon_score score_to_bias compute_confidence long_to_score mid_to_score short_to_score
  horizon_bias h long mid short hazard age =
      let score = horizon_score h long mid short hazard age in
      let bias = score_to_bias score (threshold_for_horizon h) in
      let votes = long_to_score long ∷ mid_to_score mid ∷ short_to_score short ∷ [] in
      (bias, compute_confidence score votes bias (min_confidence h))

  unfoldable pub compute_horizon_biases :
      LongPhase
      → MidRegime
      → ShortSignal
      → (Horizon → Option F)
      → Option ℕ
      → List (Horizon × Bias × F)
  unfolding horizon_bias
  compute_horizon_biases long mid short hazards age =
      map (λ h. let (b, c) = horizon_bias h long mid short (hazards h) age in (h, b, c)) horizons

  -- `compute_overlay_score`, on whole points
  unfoldable pub compute_overlay_score : MidRegime → ShortSignal → Option F → ℤ
  unfolding is_hazard_high short_points ◌-ℤ◌
  compute_overlay_score mid short hazard =
      let score = short_points short (mid_points mid) in
      if is_hazard_high hazard then score -ℤ pos 1 else score
