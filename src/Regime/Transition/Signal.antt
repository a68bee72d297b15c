-- ===== src/Regime/Transition/Signal.antt =====
-- `build_next_step_signal` of src/pretrend/observability/regime/transition/engine.py: the loop over
-- the rows in date order. A date is its proleptic ordinal. The evidence texts of a row come from the
-- report formatter and are left out; they feed nothing else.
use pretrend_ai.Base.{
  ℕ, zero, suc, ◌+◌, ◌%◌, Bool, true, false, not, ◌&&◌, ◌==◌, ltb, leb, Option, none, some, List,
  [], ◌∷◌, map, length, take, keep, any, if◌then◌else◌,
}
use pretrend_ai.Base.Float.{FloatOps, fmin, fmax}
use pretrend_ai.Base.Int.{pos}
use pretrend_ai.Base.Sort.{sort}
use pretrend_ai.Regime.Labels.{
  LongPhase, MidRegime, ShortSignal, Bias, LongPhase-discrete, MidRegime-discrete,
  ShortSignal-discrete,
}
use pretrend_ai.Regime.Episodes.{Stats, state_history, sojourn_prob, transition_hazard}
use pretrend_ai.Regime.Transition.Score.{
  Horizon, h5, h10, h20, h60, h120, horizon_bias, compute_horizon_biases, resolve_phase_baseline,
  compute_overlay_score,
}
use pretrend_ai.Regime.Transition.Hysteresis.{Decision, Source, apply_hysteresis, same_bias}

abbrev pub StateKey : Type 0
StateKey = LongPhase × MidRegime × ShortSignal

pub StateKey-discrete : Discrete StateKey
StateKey-discrete = hlevel (LongPhase-discrete, MidRegime-discrete, ShortSignal-discrete)

-- which of the seven slots that `_compute_diag_coverage` looks for are filled
pub record Slots : Type 0 where
  pub long_macro : Bool
  pub mid_macro : Bool
  pub mid_price : Bool
  pub short_primary : Bool
  pub mid_breadth : Bool
  pub short_secondary : Bool
  pub short_risk_on : Bool

-- a row of `axis_horizon_state`
pub record Observed : Type 0 where
  pub trade_date : ℕ
  pub long_phase : LongPhase
  pub mid_regime : MidRegime
  pub short_signal : ShortSignal
  pub slots : Slots

abbrev pub key_of : Observed → StateKey
key_of r = (r.long_phase, r.mid_regime, r.short_signal)

abbrev point : Bool → ℕ
point true = 1
point false = 0

-- the numerator of `_compute_diag_coverage`, whose denominator is 12
unfoldable pub diag_known : Slots → ℕ
diag_known s =
    point s.long_macro
    + point s.mid_macro
    + point s.mid_price
    + point s.short_primary
    + point s.mid_breadth
    + point s.short_secondary
    + point s.short_risk_on

pub data CompressedReason : Type 0 where
  no_reason mid_risk_on relief_streak : CompressedReason

-- what the loop carries from row to row
pub record Loop : Type 0 where
  pub prev_bias : Bias
  pub cooldown_left : ℕ
  pub prev_run_universe : Bool
  pub relief_streak : ℕ

abbrev pub initial : Loop
initial = record {
  prev_bias = Bias.unknown;
  cooldown_left = 0;
  prev_run_universe = true;
  relief_streak = 0;
}

-- `td.weekday() == 0`: the proleptic ordinal 1 is a Monday
abbrev pub is_monday : ℕ → Bool
is_monday d = d % 7 == 1

abbrev is_relief : ShortSignal → Bool
is_relief ShortSignal.relief = true
is_relief _ = false

abbrev is_risk_on : MidRegime → Bool
is_risk_on MidRegime.risk_on = true
is_risk_on _ = false

abbrev is_held : Source → Bool
is_held Source.hold_cooldown = true
is_held _ = false

-- `cooldown_compressed_flag` with its reason; the flag is set where there is a reason
unfoldable pub compressed : Decision → MidRegime → ℕ → CompressedReason
compressed d mid streak =
    if is_held d.source && ltb 2 d.cooldown_left
    then if is_risk_on mid
      then CompressedReason.mid_risk_on
      else if leb 2 streak
      then CompressedReason.relief_streak
      else CompressedReason.no_reason
    else CompressedReason.no_reason

-- `hard_gate_exit_assist_flag`
unfoldable pub exit_assist : Bool → Bool → ℕ → Bool
exit_assist before now streak = not before && now && leb 2 streak

-- the horizons of the history frame, in days
abbrev pub history_horizons : List ℕ
history_horizons = 5 ∷ 10 ∷ 20 ∷ 60 ∷ 120 ∷ []

abbrev unique : List ℕ → Bool
unique [] = true
unique (d ∷ ds) = not (any (λ e. d == e) ds) && unique ds

-- `mp_map.get(td, {}).get("run_universe", True)`: of two rows of one date the later one counts
unfoldable pub run_universe_at : ℕ → List (ℕ × Bool) → Bool → Bool
run_universe_at td [] found = found
run_universe_at td ((d, b) ∷ rows) found = run_universe_at td rows (if d == td then b else found)

abbrev pub find : {A : Type 0} → ℕ → List (ℕ × A) → Option A
find td [] = none
find td ((d, x) ∷ rows) = if d == td then some x else find td rows

abbrev zip_dates : {A : Type 0} → List Observed → List A → List (ℕ × A)
zip_dates [] ys = []
zip_dates (x ∷ xs) [] = []
zip_dates (x ∷ xs) (y ∷ ys) = (x.trade_date, y) ∷ zip_dates xs ys

abbrev nth : {A : Type 0} → ℕ → List (Option A) → Option A
nth n [] = none
nth zero (x ∷ xs) = x
nth (suc n) (x ∷ xs) = nth n xs

abbrev empty_stats : Option (Stats StateKey) → Option ℕ × List (Option (ℕ × ℕ)) × Option StateKey
empty_stats none = (none, [], none)
empty_stats (some st) = (some st.age_days, st.survivals, st.expected_state)

abbrev slot_of : Horizon → ℕ
slot_of h5 = 0
slot_of h10 = 1
slot_of h20 = 2
slot_of h60 = 3
slot_of h120 = 4

-- `len(set(horizon_biases))`
abbrev distinct : List Bias → ℕ
distinct [] = 0
distinct (b ∷ bs) = let rest = distinct bs in if any (same_bias b) bs then rest else suc rest

module _ (fl : FloatOps) where
  open fl use {F, lit, sub, div, of_int, round}

  pub record SignalRow : Type 0 where
    pub trade_date : ℕ
    pub horizon : List (Horizon × Bias × F)
    pub decision : Decision
    pub candidate_20d : Bias
    pub compressed_reason : CompressedReason
    pub exit_assist_flag : Bool
    pub state_age_days : Option ℕ
    pub sojourn_probs : List (Option F)
    pub hazards : List (Option F)
    pub expected : Option StateKey
    pub known_slots : ℕ
    pub diversity_count : ℕ
    pub conf_spread : F

  abbrev largest : F → List F → F
  largest x [] = x
  largest x (y ∷ ys) = largest (fmax fl x y) ys

  abbrev smallest : F → List F → F
  smallest x [] = x
  smallest x (y ∷ ys) = smallest (fmin fl x y) ys

  -- `max(horizon_confs) - min(horizon_confs)`; the list always has five members
  abbrev spread : List F → F
  spread [] = lit 0 1
  spread (x ∷ xs) = sub (largest x xs) (smallest x xs)

  -- `hist.get("transition_hazard_{h}d")`
  abbrev pub hazard_at : Option (Stats StateKey) → Horizon → Option F
  hazard_at hist h = nth (slot_of h) (map (transition_hazard fl) (empty_stats hist).1)

  -- one pass through the body of the loop
  unfoldable pub signal_step : Loop → Observed → Option (Stats StateKey) → Bool → Loop × SignalRow
  unfolding compute_horizon_biases horizon_bias compute_overlay_score resolve_phase_baseline
      apply_hysteresis compressed exit_assist diag_known sojourn_prob transition_hazard
  signal_step s row hist run_universe =
      let (age, survivals, expected) = empty_stats hist in
      let hazard_list = map (transition_hazard fl) survivals in
      let hazard = hazard_at hist in
      let view =
        compute_horizon_biases fl row.long_phase row.mid_regime row.short_signal hazard age in
      let d =
        apply_hysteresis fl s.prev_bias (resolve_phase_baseline row.long_phase)
          (compute_overlay_score fl row.mid_regime row.short_signal (hazard h10)) s.cooldown_left
          (is_monday row.trade_date) row.mid_regime row.short_signal (hazard h10) run_universe in
      let streak = if is_relief row.short_signal then s.relief_streak + 1 else 0 in
      (
        record {
          prev_bias = d.bias;
          cooldown_left = d.cooldown_left;
          prev_run_universe = run_universe;
          relief_streak = streak;
        },
        record {
          trade_date = row.trade_date;
          horizon = view;
          decision = d;
          candidate_20d =
              (horizon_bias fl h20 row.long_phase row.mid_regime row.short_signal (hazard h20)
                age).0;
          compressed_reason = compressed d row.mid_regime streak;
          exit_assist_flag = exit_assist s.prev_run_universe run_universe streak;
          state_age_days = age;
          sojourn_probs = map (sojourn_prob fl) survivals;
          hazards = hazard_list;
          expected = expected;
          known_slots = diag_known row.slots;
          diversity_count = distinct (map (λ v. v.1) view);
          conf_spread = round (spread (map (λ v. v.2) view)) 4;
        },
      )

  unfoldable pub signal_loop :
      Loop → List Observed → List (ℕ × Stats StateKey) → List (ℕ × Bool) → List SignalRow
  unfolding signal_step run_universe_at
  signal_loop s [] hist mp = []
  signal_loop s (row ∷ rows) hist mp =
      let (s', out) =
        signal_step s row (find row.trade_date hist) (run_universe_at row.trade_date mp true) in
      out ∷ signal_loop s' rows hist mp

  -- `rolling(window=60, min_periods=1).mean()` of the rows with two biases or more; the earlier rows
  -- come newest first
  unfoldable pub diversity_ratios : List ℕ → List ℕ → List F
  diversity_ratios earlier [] = []
  diversity_ratios earlier (c ∷ cs) =
      let window = take 60 (c ∷ earlier) in
      round
        (div (of_int (pos (length (keep (λ n. leb 2 n) window)))) (of_int (pos (length window)))) 4
      ∷ diversity_ratios (c ∷ earlier) cs

  -- `none` is the ValueError of `to_dict(orient="index")` where two rows have one date
  unfoldable pub build_next_step_signal :
      List Observed → List (ℕ × Bool) → Option (List SignalRow × List F)
  unfolding sort state_history signal_loop diversity_ratios
  build_next_step_signal ahs mp =
      let rows = sort (λ a b. ltb a.trade_date b.trade_date) ahs in
      let hist =
        zip_dates rows (state_history StateKey-discrete history_horizons (map key_of rows)) in
      let out = signal_loop initial rows hist (sort (λ a b. ltb a.0 b.0) mp) in
      if unique (map (λ r. r.trade_date) rows)
      then some (out, diversity_ratios [] (map (λ r. r.diversity_count) out))
      else none
